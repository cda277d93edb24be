-- ===== src/Database/Deployments.antt =====
-- The log of deployments, and the revision that is active.
use essentials_calls.Base.{
  ℕ, String, Bool, not, ◌||◌, Option, none, some, ◌∷◌, map, any, nat_eq, ◌==◌, if◌then◌else◌,
}
use essentials_calls.Json.{Fields, end, object, safe_details}
use essentials_calls.Database.Store.{
  Actor, RevisionRow, DeploymentRow, PbxDatabase, Result, ok, unless, constraint,
}

-- The foreign keys of `topology_state` and of `deployments`.
unfoldable pub has_revision : ℕ → PbxDatabase → Bool
has_revision r d = any (λ (row : RevisionRow). nat_eq row.revision r) d.revisions

unfoldable pub mark_deployment_active : ℕ → PbxDatabase → Result PbxDatabase
unfolding has_revision
mark_deployment_active r d =
    unless (not (has_revision r d)) constraint
      (ok (record d { state = record d.state { active = some r; last_good = some r } }))

unfoldable pub create_deployment : String → String → ℕ → Actor → PbxDatabase → Result PbxDatabase
unfolding has_revision
create_deployment now id r actor d =
    unless (not (has_revision r d) || any (λ (x : DeploymentRow). x.id == id) d.deployments)
      constraint
      (ok (record d {
        deployments =
            (record {
              id = id;
              revision = r;
              actor_name = actor.username;
              started_at = now;
              finished_at = none;
              config_checksum = none;
              result = "started";
              details = object end;
            })
            ∷ d.deployments;
      }))

unfoldable pub finish_row :
    String → String → String → Option String → Fields → DeploymentRow → DeploymentRow
finish_row now id result checksum details x =
    if x.id == id
    then record x {
      finished_at = some now;
      config_checksum = checksum;
      result = result;
      details = safe_details (object details);
    }
    else x

unfoldable pub finish_deployment :
    String → String → String → Option String → Fields → PbxDatabase → PbxDatabase
unfolding finish_row
finish_deployment now id result checksum details d = record d {
  deployments = map (finish_row now id result checksum details) d.deployments;
}
