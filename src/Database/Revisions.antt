-- ===== src/Database/Revisions.antt =====
-- The revisions of the topology: `saveTopology`, `pruneRevisions`, and how they are read.
-- `now` is the text of the clock at the operation.
pub mod Pruning
pub mod Concurrency
use essentials_calls.Base.{
  ℕ, suc, zero, ◌≤◌, String, Bool, true, false, not, ◌&&◌, ◌||◌, Option, none, some, List, [], ◌∷◌,
  ◌++◌, map, length, find, filter, any, contains, nat_eq, ltb, leb, ◌==◌, if◌then◌else◌,
}
use essentials_calls.Base.Entries.{Entries, is_some}
use essentials_calls.Base.Texts.{◌<>◌, all_chars, utf16_length}
use essentials_calls.Generator.Values.{show, slice}
use essentials_calls.History.{take, drop}
use essentials_calls.Json.{Json, Fields, end, field, object, text, number, null, safe_details}
use essentials_calls.Model.{IvrProperties, Properties, PbxNode, Topology, pos}
use essentials_calls.Security.Cipher.{SecretCipher}
use essentials_calls.Database.Secrets.{
  Secrets, prepare_secrets, put_secret, fill_nodes, with_properties,
}
use essentials_calls.Database.Summary.{topology_summary}
use essentials_calls.Database.Store.{
  Actor, RevisionRow, TopologyState, DeploymentRow, PbxDatabase, Result, ok, err, ◌>>=◌, unless,
  revision_conflict, no_revision, invalid_secret, no_extension, constraint, audit, bounded_limit,
}

pub record StoredTopology : Type 0 where
  pub topology : Topology
  pub revision : ℕ
  pub active_revision : Option ℕ
  pub last_good_revision : Option ℕ

pub record RevisionInfo : Type 0 where
  pub revision : ℕ
  pub actor : String
  pub comment : String
  pub summary : String
  pub source : String
  pub created_at : String
  pub active : Bool

unfoldable pub row_at : ℕ → List RevisionRow → Option RevisionRow
row_at r rows = find (λ (row : RevisionRow). nat_eq row.revision r) rows

unfoldable pub found_topology : ℕ → Option RevisionRow → Result Topology
found_topology r none = err (no_revision r)
found_topology r (some row) = ok row.topology

unfoldable pub topology_at : ℕ → PbxDatabase → Result Topology
unfolding row_at found_topology
topology_at r d = found_topology r (row_at r d.revisions)

abbrev pub stored : Topology → ℕ → TopologyState → StoredTopology
stored t r s = record {
  topology = t;
  revision = r;
  active_revision = s.active;
  last_good_revision = s.last_good;
}

unfoldable pub current_topology : PbxDatabase → Result StoredTopology
unfolding topology_at
current_topology d = topology_at d.state.current d >>= λ t. ok (stored t d.state.current d.state)

unfoldable pub selected_revision : Option ℕ → ℕ → ℕ
selected_revision none current = current
selected_revision (some r) current = r

-- The topology with its passwords, for the generator.
unfoldable pub materialized_topology : Option ℕ → PbxDatabase → Result Topology
unfolding selected_revision topology_at
materialized_topology revision d =
    topology_at (selected_revision revision d.state.current) d >>= λ t.
    fill_nodes d.cipher t.nodes d.sip_secrets >>= λ ns. ok (record t { nodes = ns })

abbrev pub is_revision : ℕ → Option ℕ → Bool
is_revision r none = false
is_revision r (some k) = nat_eq r k

-- `keep.has(r)`: null and 0 are not in the set.
unfoldable pub is_kept : TopologyState → ℕ → Bool
is_kept s r =
    not (nat_eq r 0) && (nat_eq r s.current || is_revision r s.active || is_revision r s.last_good)

-- The deployments of the revision and the revision are deleted.
unfoldable pub delete_revision : ℕ → PbxDatabase → PbxDatabase
delete_revision r d = record d {
  deployments = filter (λ (x : DeploymentRow). not (nat_eq x.revision r)) d.deployments;
  revisions = filter (λ (x : RevisionRow). not (nat_eq x.revision r)) d.revisions;
}

unfoldable pub prune_rows : TopologyState → List RevisionRow → PbxDatabase → PbxDatabase
unfolding is_kept delete_revision
prune_rows s [] d = d
prune_rows s (row ∷ rows) d =
    prune_rows s rows (if is_kept s row.revision then d else delete_revision row.revision d)

unfoldable pub prune_revisions : PbxDatabase → PbxDatabase
unfolding prune_rows
prune_revisions d = prune_rows d.state (drop d.revision_limit d.revisions) d

unfoldable pub insert_revision :
    String → Actor → String → String → String → Topology → PbxDatabase → PbxDatabase
insert_revision now actor comment summary source t d = record d {
  revisions =
      (record {
        revision = d.next_revision;
        topology = t;
        actor_id = actor.id;
        actor_name = actor.username;
        comment = comment;
        change_summary = summary;
        source = source;
        created_at = now;
      })
      ∷ d.revisions;
  next_revision = suc d.next_revision;
  state = record d.state { current = d.next_revision };
}

module _ (same : PbxNode → PbxNode → Bool) (random_iv : String → String) (now : String) where
  -- The new revision, and the entry of the log that tells of it.
  unfoldable pub insert_logged :
      ℕ → Actor → String → String → String → Topology → Secrets → PbxDatabase → PbxDatabase
  unfolding insert_revision
  insert_logged expected actor comment summary source t secrets d =
      audit now actor "topology.save" ("revision:" <> show d.next_revision) "success"
        (field "previousRevision" (number (pos expected)) (
          field "comment" (text comment)
            (field "summary" (text summary) (field "source" (text source) end))))
        (insert_revision now actor (slice 500 comment) summary source t
          (record d { sip_secrets = secrets }))

  -- The writes of `saveTopology`, with the topology that goes into the table.
  unfoldable pub write_revision :
      ℕ → Actor → String → String → String → Topology → Secrets → PbxDatabase → PbxDatabase
  unfolding insert_logged prune_revisions
  write_revision expected actor comment summary source t secrets d =
      prune_revisions (insert_logged expected actor comment summary source t secrets d)

  unfoldable pub save_topology :
      Topology
      → ℕ
      → Actor
      → String
      → String
      → Bool
      → PbxDatabase
      → Result (StoredTopology × PbxDatabase)
  unfolding topology_at write_revision
  save_topology t expected actor comment source allow d =
      unless (not (nat_eq d.state.current expected)) (revision_conflict expected d.state.current) (
        topology_at d.state.current d >>= λ previous.
        prepare_secrets d.cipher random_iv allow t d.sip_secrets >>= λ (sanitized, secrets). ok (
          stored sanitized d.next_revision d.state,
          write_revision expected actor comment (topology_summary same (some previous) sanitized)
              source sanitized secrets d,
        ))

unfoldable pub list_revisions : Option ℕ → PbxDatabase → List RevisionInfo
unfolding bounded_limit
list_revisions limit d =
    map
      (λ (row : RevisionRow). record {
        revision = row.revision;
        actor = row.actor_name;
        comment = row.comment;
        summary = row.change_summary;
        source = row.source;
        created_at = row.created_at;
        active = is_revision row.revision d.state.active;
      })
      (take (bounded_limit 50 200 limit) d.revisions)
