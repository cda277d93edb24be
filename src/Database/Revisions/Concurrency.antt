-- ===== src/Database/Revisions/Concurrency.antt =====
-- Two editors and one database: `saveTopology` with a base revision, and `currentTopology`.
use essentials_calls.Base.{
  ℕ, ◌≤◌, ◌<◌, String, ◌≡◌, refl, sym, ap, ◌∙◌, subst, Bool, true, false, ◌||◌, Option, none, some,
  List, All, nat_eq, arith, inl, inr, Bool-cases,
}
use essentials_calls.Generator.Values.{slice}
use essentials_calls.Model.{PbxNode, Topology}
use essentials_calls.Database.Store.{
  Actor, RevisionRow, TopologyState, PbxDatabase, Result, ok, err, ◌>>=◌, revision_conflict, audit,
}
use essentials_calls.Database.Secrets.{Secrets, prepare_secrets}
use essentials_calls.Database.Summary.{topology_summary}
use essentials_calls.Database.Revisions.{
  StoredTopology, stored, topology_at, found_topology, row_at, current_topology, is_kept,
  is_revision, prune_revisions, insert_revision, insert_logged, write_revision, save_topology,
}
use essentials_calls.Database.Revisions.Pruning.{
  prune_revisions_frame, topology_at-prune, kept_current, row_at-insert, row_at-insert_other,
  held_below,
}
use essentials_calls.Database.Invariant.{IsSound, IsNumbered, holds_revision, holds_optional}
use essentials_calls.Database.Invariant.Saves.{saved}

-- What the writes of a save leave in the tables.
pub record IsWritten (t : Topology) (secrets : Secrets) (d w : PbxDatabase) : Type 0 where
  pub state : w.state ≡ record d.state { current = d.next_revision }
  pub sip_secrets : w.sip_secrets ≡ secrets
  pub cipher : w.cipher ≡ d.cipher
  pub users : w.users ≡ d.users
  pub newest : 1 ≤ d.next_revision → topology_at d.next_revision w ≡ ok t
  pub in_use :
      (k : ℕ)
      → 1 ≤ k
      → k < d.next_revision
      → (is_revision k d.state.active || is_revision k d.state.last_good) ≡ true
      → topology_at k w ≡ topology_at k d

kept_in_use :
    (s : TopologyState) (k : ℕ)
    → 1 ≤ k
    → (is_revision k s.active || is_revision k s.last_good) ≡ true
    → is_kept s k ≡ true
unfolding is_kept
kept_in_use s k p h = ground arith

same_rows :
    (k : ℕ) (w b : PbxDatabase) → w.revisions ≡ b.revisions → topology_at k w ≡ topology_at k b
unfolding topology_at
same_rows k w b e = ap (λ (rows : List RevisionRow). found_topology k (row_at k rows)) e

-- A revision in use, in tables whose revisions are those of others.
through :
    (k : ℕ) (w b : PbxDatabase) (r : Result Topology)
    → w.revisions ≡ b.revisions
    → is_kept w.state k ≡ true
    → topology_at k b ≡ r
    → topology_at k (prune_revisions w) ≡ r
through k w b r e kept h = topology_at-prune k w kept ∙ same_rows k w b e ∙ h

optional_below :
    (next k : ℕ) (o : Option ℕ) (rows : List RevisionRow)
    → All (IsNumbered next) rows
    → holds_optional o rows ≡ true
    → is_revision k o ≡ true
    → (1 ≤ k) × (k < next)
optional_below next k none rows n h e = cc e
optional_below next k (some r) rows n h e =
    let same : r ≡ k = ground arith in
    held_below next k rows n (subst (λ i. holds_revision i rows ≡ true) same h)

in_use_below :
    (d : PbxDatabase) (k : ℕ)
    → IsSound d
    → (is_revision k d.state.active || is_revision k d.state.last_good) ≡ true
    → (1 ≤ k) × (k < d.next_revision)
in_use_below d k s used = elim (Bool-cases (is_revision k d.state.active)) [
  | inl e ↦ optional_below d.next_revision k d.state.active d.revisions s.numbered s.active e
  | inr e ↦
      optional_below d.next_revision k d.state.last_good d.revisions s.numbered s.last_good
        (rw e at used)
]

module _ (same : PbxNode → PbxNode → Bool) (random_iv : String → String) (now : String) where
  pub write_revision-IsWritten :
      (expected : ℕ) (actor : Actor) (comment summary source : String) (t : Topology) (s : Secrets)
      (d : PbxDatabase)
      → IsWritten t s d
          (write_revision same random_iv now expected actor comment summary source t s d)
  unfolding write_revision insert_logged audit insert_revision
  write_revision-IsWritten expected actor comment summary source t s d =
      let base : PbxDatabase = record d { sip_secrets = s } in
      let logged = insert_logged same random_iv now expected actor comment summary source t s d in
      let new = insert_revision now actor (slice 500 comment) summary source t base in
      record {
        state = ap (λ (w : PbxDatabase). w.state) (prune_revisions_frame logged);
        sip_secrets = ap (λ (w : PbxDatabase). w.sip_secrets) (prune_revisions_frame logged);
        cipher = ap (λ (w : PbxDatabase). w.cipher) (prune_revisions_frame logged);
        users = ap (λ (w : PbxDatabase). w.users) (prune_revisions_frame logged);
        newest = λ p.
            through d.next_revision logged new (ok t) refl (kept_current new.state p)
              (row_at-insert now actor (slice 500 comment) summary source t base);
        in_use = λ k p q h.
            through k logged new (topology_at k d) refl (kept_in_use new.state k p h) (
              row_at-insert_other k now actor (slice 500 comment) summary source t base
                (ground arith)
              ∙ same_rows k base d refl);
      }

  -- The parts of a save that succeeds.
  pub save_topology-IsWritten :
      (t : Topology) (expected : ℕ) (actor : Actor) (comment source : String) (allow : Bool)
      (d : PbxDatabase) (out : StoredTopology × PbxDatabase)
      → save_topology same random_iv now t expected actor comment source allow d ≡ ok out
      → (p : Topology × Secrets) × (prepare_secrets d.cipher random_iv allow t d.sip_secrets ≡ ok p)
        × (d.state.current ≡ expected)
        × (out.0 ≡ stored p.0 d.next_revision d.state)
        × IsWritten p.0 p.1 d out.1
  save_topology-IsWritten t expected actor comment source allow d out h =
      let (fits, previous, p, _, prepared, e) =
        saved same random_iv now t expected actor comment source allow d out h in
      (
        p,
        prepared,
        ground arith,
        sym (ap (λ (o : StoredTopology × PbxDatabase). o.0) e),
        subst (λ (o : StoredTopology × PbxDatabase). IsWritten p.0 p.1 d o.1) e
            (write_revision-IsWritten expected actor comment
              (topology_summary same (some previous) p.0) source p.0 p.1 d),
      )

  -- A save that succeeds on sound tables is read back as the current topology, under a higher
  -- revision number; the active and the last good revision still hold what they held.
  pub current_topology-save_topology :
      (t : Topology) (expected : ℕ) (actor : Actor) (comment source : String) (allow : Bool)
      (d : PbxDatabase) (out : StoredTopology × PbxDatabase)
      → IsSound d
      → save_topology same random_iv now t expected actor comment source allow d ≡ ok out
      → (current_topology out.1 ≡ ok out.0)
        × (expected < out.0.revision)
        × ((k : ℕ)
            → (is_revision k d.state.active || is_revision k d.state.last_good) ≡ true
            → topology_at k out.1 ≡ topology_at k d)
  unfolding current_topology
  current_topology-save_topology t expected actor comment source allow d out s h =
      let (p, _, at, e, w) =
        save_topology-IsWritten t expected actor comment source allow d out h in
      let (low, high) =
        held_below d.next_revision d.state.current d.revisions s.numbered s.current in
      let read : topology_at out.1.state.current out.1 ≡ ok p.0 =
        subst (λ (x : TopologyState). topology_at x.current out.1 ≡ ok p.0) (sym w.state)
          (w.newest s.positive) in
      (
        ap (λ r. r >>= λ x. ok (stored x out.1.state.current out.1.state)) read
            ∙ ap (λ (x : TopologyState). ok (stored p.0 x.current x)) w.state
            ∙ ap ok (sym e),
        omega (arith, ap (λ (x : StoredTopology). x.revision) e, at, high),
        λ k used. let (k_low, k_high) = in_use_below d k s used in w.in_use k k_low k_high used,
      )

  -- Of two saves that start from the same revision of sound tables, the second one is refused, with
  -- the revision that the first one wrote: no change is lost.
  pub stale_save_refused :
      (t later : Topology) (expected : ℕ) (actor other : Actor)
      (comment source other_comment other_source : String) (allow also : Bool) (d : PbxDatabase)
      (out : StoredTopology × PbxDatabase)
      → IsSound d
      → save_topology same random_iv now t expected actor comment source allow d ≡ ok out
      → save_topology same random_iv now later expected other other_comment other_source also out.1
        ≡ err (revision_conflict expected out.0.revision)
  unfolding save_topology
  stale_save_refused t later expected actor other comment source other_comment other_source allow
        also d out s h =
      let (p, _, at, e, w) =
        save_topology-IsWritten t expected actor comment source allow d out h in
      let (low, high) =
        held_below d.next_revision d.state.current d.revisions s.numbered s.current in
      let now_at : out.1.state.current ≡ d.next_revision =
        ap (λ (x : TopologyState). x.current) w.state in
      let as_told : out.0.revision ≡ d.next_revision = ap (λ (x : StoredTopology). x.revision) e in
      let moved : nat_eq out.1.state.current expected ≡ false = ground arith in
      rw (moved, now_at ∙ sym as_told) refl
