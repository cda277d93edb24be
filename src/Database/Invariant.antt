-- ===== src/Database/Invariant.antt =====
-- What holds of the tables: the revisions stand newest first under numbers that were given out, no
-- foreign key dangles, and no stored topology has a plaintext secret.
pub mod Saves
pub mod Deployments
pub mod Admins
pub mod Reachable
pub mod Accounts
use mathlib.Core.List.{Memᴰ}
use essentials_calls.Base.{
  ℕ, suc, zero, ◌≤◌, ◌<◌, String, ◌≡◌, ◌≢◌, refl, sym, ap, ◌∙◌, subst, Bool, true, false, not, ◌&&◌,
  ◌||◌, Option, none, some, List, [], ◌∷◌, filter, any, find, All, All-intro, All-mem,
  mem_of_mem-filter, nat_eq, Bool-cases, inl, inr, arith, if◌then◌else◌, if_either, if_split,
}
use essentials_calls.Documents.{has_plaintext_sip_secrets}
use essentials_calls.History.{drop}
use essentials_calls.Database.Store.{RevisionRow, TopologyState, DeploymentRow, PbxDatabase}
use essentials_calls.Database.Revisions.{
  is_kept, is_revision, delete_revision, prune_rows, prune_revisions,
}
use essentials_calls.Database.Deployments.{has_revision}

abbrev pub holds_revision : ℕ → List RevisionRow → Bool
holds_revision r rows = any (λ (row : RevisionRow). nat_eq row.revision r) rows

abbrev pub holds_optional : Option ℕ → List RevisionRow → Bool
holds_optional none rows = true
holds_optional (some r) rows = holds_revision r rows

-- The number of a row was given out.
abbrev pub IsNumbered : ℕ → RevisionRow → Type 0
IsNumbered next row = (1 ≤ row.revision) × (row.revision < next)

abbrev pub IsClean : RevisionRow → Type 0
IsClean row = has_plaintext_sip_secrets row.topology ≡ false

-- Each row is older than the one before it.
abbrev pub IsDescending : List RevisionRow → Type 0
IsDescending [] = Unit
IsDescending (row ∷ rows) =
    All (λ (x : RevisionRow). x.revision < row.revision) rows × IsDescending rows

-- What holds of the number that is next, the revisions, the row of the state and the deployments.
pub record AreSound (next : ℕ) (revisions : List RevisionRow) (state : TopologyState)
    (deployments : List DeploymentRow) : Type 0 where
  pub positive : 1 ≤ next
  pub numbered : All (IsNumbered next) revisions
  pub descending : IsDescending revisions
  pub clean : All IsClean revisions
  pub current : holds_revision state.current revisions ≡ true
  pub active : holds_optional state.active revisions ≡ true
  pub last_good : holds_optional state.last_good revisions ≡ true
  pub deployed : All (λ (x : DeploymentRow). holds_revision x.revision revisions ≡ true) deployments

abbrev pub IsSound : PbxDatabase → Type 0
IsSound d = AreSound d.next_revision d.revisions d.state d.deployments

All-filter {ℓ κ} :
    {A : Type ℓ} (P : A → Type κ) (p : A → Bool) (xs : List A) → All P xs → All P (filter p xs)
All-filter P p [] h = tt
All-filter P p (x ∷ xs) h =
    if_either (All P) (p x) (x ∷ filter p xs) (filter p xs) (h.0, All-filter P p xs h.1)
      (All-filter P p xs h.1)

filter-IsDescending :
    (p : RevisionRow → Bool) (rows : List RevisionRow)
    → IsDescending rows
    → IsDescending (filter p rows)
filter-IsDescending p [] h = tt
filter-IsDescending p (row ∷ rows) h =
    if_either IsDescending (p row) (row ∷ filter p rows) (filter p rows)
      (
        All-filter (λ (x : RevisionRow). x.revision < row.revision) p rows h.0,
        filter-IsDescending p rows h.1,
      )
      (filter-IsDescending p rows h.1)

abbrev is_other : ℕ → RevisionRow → Bool
is_other r x = not (nat_eq x.revision r)

-- Another revision stays when one is deleted.
holds-filter :
    (k r : ℕ) (rows : List RevisionRow)
    → nat_eq k r ≡ false
    → holds_revision k rows ≡ true
    → holds_revision k (filter (is_other r) rows) ≡ true
holds-filter k r [] ne h = h
holds-filter k r (x ∷ xs) ne h = ground (arith, holds-filter k r xs ne)

holds_optional-filter :
    (o : Option ℕ) (r : ℕ) (rows : List RevisionRow)
    → is_revision r o ≡ false
    → holds_optional o rows ≡ true
    → holds_optional o (filter (is_other r) rows) ≡ true
holds_optional-filter none r rows ne h = refl
holds_optional-filter (some k) r rows ne h = holds-filter k r rows (ground arith) h

deployments-filter :
    (r : ℕ) (rows : List RevisionRow) (xs : List DeploymentRow)
    → All (λ (x : DeploymentRow). holds_revision x.revision rows ≡ true) xs
    → All
        (λ (x : DeploymentRow). holds_revision x.revision (filter (is_other r) rows) ≡ true)
        (filter (λ (x : DeploymentRow). not (nat_eq x.revision r)) xs)
deployments-filter r rows [] h = tt
deployments-filter r rows (x ∷ xs) h =
    let rest = deployments-filter r rows xs h.1 in
    let others = filter (λ (y : DeploymentRow). not (nat_eq y.revision r)) xs in
    if_split
      (All (λ (y : DeploymentRow). holds_revision y.revision (filter (is_other r) rows) ≡ true))
      (not (nat_eq x.revision r)) (x ∷ others) others
      (λ e. (holds-filter x.revision r rows (ground arith) h.0, rest)) (λ e. rest)

module _ (s : TopologyState) (r : ℕ) (positive : 1 ≤ r) (gone : is_kept s r ≡ false) where
  not_current : nat_eq s.current r ≡ false
  unfolding is_kept
  not_current = ground arith

  not_active : is_revision r s.active ≡ false
  unfolding is_kept
  not_active = ground arith

  not_last_good : is_revision r s.last_good ≡ false
  unfolding is_kept
  not_last_good = ground arith

delete_revision-IsSound :
    (r : ℕ) (d : PbxDatabase)
    → 1 ≤ r
    → is_kept d.state r ≡ false
    → IsSound d
    → IsSound (delete_revision r d)
unfolding delete_revision
delete_revision-IsSound r d positive gone h = record {
  positive = h.positive;
  numbered = All-filter (IsNumbered d.next_revision) (is_other r) d.revisions h.numbered;
  descending = filter-IsDescending (is_other r) d.revisions h.descending;
  clean = All-filter IsClean (is_other r) d.revisions h.clean;
  current =
      holds-filter d.state.current r d.revisions (not_current d.state r positive gone) h.current;
  active =
      holds_optional-filter d.state.active r d.revisions (not_active d.state r positive gone)
        h.active;
  last_good =
      holds_optional-filter d.state.last_good r d.revisions (not_last_good d.state r positive gone)
        h.last_good;
  deployed = deployments-filter r d.revisions d.deployments h.deployed;
}

same_state :
    (s : TopologyState) (r : ℕ) (d : PbxDatabase) → d.state ≡ s → (delete_revision r d).state ≡ s
unfolding delete_revision
same_state s r d e = e

prune_rows-IsSound :
    (s : TopologyState) (rows : List RevisionRow) (d : PbxDatabase)
    → d.state ≡ s
    → All (λ (row : RevisionRow). 1 ≤ row.revision) rows
    → IsSound d
    → IsSound (prune_rows s rows d)
unfolding prune_rows
prune_rows-IsSound s [] d e p h = h
prune_rows-IsSound s (row ∷ rows) d e p h =
    if_split (λ (t : PbxDatabase). IsSound (prune_rows s rows t)) (is_kept s row.revision) d
      (delete_revision row.revision d) (λ kept. prune_rows-IsSound s rows d e p.1 h)
      (λ gone.
        prune_rows-IsSound s rows (delete_revision row.revision d) (same_state s row.revision d e)
          p.1
          (delete_revision-IsSound row.revision d p.0 (ap (λ t. is_kept t row.revision) e ∙ gone)
            h))

All-drop {κ} : {A : Type 0} (P : A → Type κ) (n : ℕ) (xs : List A) → All P xs → All P (drop n xs)
All-drop P zero xs h = h
All-drop P (suc n) [] h = tt
All-drop P (suc n) (x ∷ xs) h = All-drop P n xs h.1

pub All-weaken {ℓ κ μ} :
    {A : Type ℓ} (P : A → Type κ) (Q : A → Type μ) (xs : List A)
    → ((x : A) → P x → Q x)
    → All P xs
    → All Q xs
All-weaken P Q [] f h = tt
All-weaken P Q (x ∷ xs) f h = (f x h.0, All-weaken P Q xs f h.1)

pub prune_revisions-IsSound : (d : PbxDatabase) → IsSound d → IsSound (prune_revisions d)
unfolding prune_revisions
prune_revisions-IsSound d h =
    prune_rows-IsSound d.state (drop d.revision_limit d.revisions) d refl
      (All-drop (λ (row : RevisionRow). 1 ≤ row.revision) d.revision_limit d.revisions
        (All-weaken (IsNumbered d.next_revision) (λ (row : RevisionRow). 1 ≤ row.revision)
          d.revisions (λ row p. p.0) h.numbered))
      h
