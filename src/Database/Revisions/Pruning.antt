-- ===== src/Database/Revisions/Pruning.antt =====
-- What pruning leaves: the revisions that are in use, and every other table.
use essentials_calls.Base.{
  ℕ, ◌≤◌, ◌<◌, String, ◌≡◌, refl, ap, ◌∙◌, true, false, not, List, [], ◌∷◌, filter, All, nat_eq,
  arith, inl, inr, Bool-cases, if_either, if_split,
}
use essentials_calls.History.{drop}
use essentials_calls.Model.{Topology}
use essentials_calls.Database.Store.{Actor, RevisionRow, TopologyState, PbxDatabase, ok}
use essentials_calls.Database.Revisions.{
  row_at, found_topology, topology_at, is_kept, is_revision, delete_revision, prune_rows,
  prune_revisions, insert_revision,
}
use essentials_calls.Database.Invariant.{IsNumbered, holds_revision}

-- Pruning writes the revisions and the deployments, and nothing else.
pub prune_rows_frame :
    (s : TopologyState) (rows : List RevisionRow) (d : PbxDatabase)
    → prune_rows s rows d ≡ record d {
      revisions = (prune_rows s rows d).revisions;
      deployments = (prune_rows s rows d).deployments;
    }
unfolding prune_rows delete_revision
prune_rows_frame s [] d = refl
prune_rows_frame s (row ∷ rows) d =
    if_either
      (λ (t : PbxDatabase). prune_rows s rows t ≡ record d {
        revisions = (prune_rows s rows t).revisions;
        deployments = (prune_rows s rows t).deployments;
      })
      (is_kept s row.revision) d (delete_revision row.revision d) (prune_rows_frame s rows d)
      (prune_rows_frame s rows (delete_revision row.revision d))

find-other :
    (k r : ℕ) (rows : List RevisionRow)
    → nat_eq k r ≡ false
    → row_at k (filter (λ (x : RevisionRow). not (nat_eq x.revision r)) rows) ≡ row_at k rows
unfolding row_at
find-other k r [] ne = refl
find-other k r (x ∷ xs) ne = ground (arith, find-other k r xs ne)

other_revision :
    (s : TopologyState) (k r : ℕ) → is_kept s k ≡ true → is_kept s r ≡ false → nat_eq k r ≡ false
other_revision s k r kept gone = elim (Bool-cases (nat_eq k r)) [
  | inl e ↦ let same : k ≡ r = ground arith in cc (ap (λ n. is_kept s n) same, kept, gone)
  | inr e ↦ e
]

row_at-prune_rows :
    (s : TopologyState) (k : ℕ) (rows : List RevisionRow) (d : PbxDatabase)
    → is_kept s k ≡ true
    → row_at k (prune_rows s rows d).revisions ≡ row_at k d.revisions
unfolding prune_rows delete_revision
row_at-prune_rows s k [] d kept = refl
row_at-prune_rows s k (row ∷ rows) d kept =
    if_split (λ (t : PbxDatabase). row_at k (prune_rows s rows t).revisions ≡ row_at k d.revisions)
      (is_kept s row.revision) d (delete_revision row.revision d)
      (λ _. row_at-prune_rows s k rows d kept)
      (λ gone.
        row_at-prune_rows s k rows (delete_revision row.revision d) kept
        ∙ find-other k row.revision d.revisions (other_revision s k row.revision kept gone))

-- A revision that is kept stands in the table as before.
pub topology_at-prune :
    (k : ℕ) (d : PbxDatabase)
    → is_kept d.state k ≡ true
    → topology_at k (prune_revisions d) ≡ topology_at k d
unfolding topology_at prune_revisions
topology_at-prune k d kept =
    ap (found_topology k) (row_at-prune_rows d.state k (drop d.revision_limit d.revisions) d kept)

pub prune_revisions_frame :
    (d : PbxDatabase)
    → prune_revisions d ≡ record d {
      revisions = (prune_revisions d).revisions;
      deployments = (prune_revisions d).deployments;
    }
unfolding prune_revisions
prune_revisions_frame d = prune_rows_frame d.state (drop d.revision_limit d.revisions) d

pub kept_current : (s : TopologyState) → 1 ≤ s.current → is_kept s s.current ≡ true
unfolding is_kept
kept_current s h = ground arith

pub kept_active :
    (s : TopologyState) (k : ℕ) → 1 ≤ k → is_revision k s.active ≡ true → is_kept s k ≡ true
unfolding is_kept
kept_active s k p h = ground arith

pub kept_last_good :
    (s : TopologyState) (k : ℕ) → 1 ≤ k → is_revision k s.last_good ≡ true → is_kept s k ≡ true
unfolding is_kept
kept_last_good s k p h = ground arith

pub row_at-insert :
    (now : String) (actor : Actor) (comment summary source : String) (t : Topology)
    (d : PbxDatabase)
    → topology_at d.next_revision (insert_revision now actor comment summary source t d) ≡ ok t
unfolding topology_at row_at found_topology insert_revision
row_at-insert now actor comment summary source t d = rw (nat_eq_refl d.next_revision) refl
  where
    nat_eq_refl : (n : ℕ) → nat_eq n n ≡ true
    nat_eq_refl n = ground arith

pub row_at-insert_other :
    (k : ℕ) (now : String) (actor : Actor) (comment summary source : String) (t : Topology)
    (d : PbxDatabase)
    → nat_eq d.next_revision k ≡ false
    → topology_at k (insert_revision now actor comment summary source t d) ≡ topology_at k d
unfolding topology_at row_at insert_revision
row_at-insert_other k now actor comment summary source t d ne = rw ne refl

pub held_below :
    (next k : ℕ) (rows : List RevisionRow)
    → All (IsNumbered next) rows
    → holds_revision k rows ≡ true
    → (1 ≤ k) × (k < next)
held_below next k [] n h = cc h
held_below next k (row ∷ rows) n h = elim (Bool-cases (nat_eq row.revision k)) [
  | inl e ↦
      let same : row.revision ≡ k = ground arith in
      (omega (arith, n.0.0, same), omega (arith, n.0.1, same))
  | inr e ↦ held_below next k rows n.1 (rw e at h)
]
