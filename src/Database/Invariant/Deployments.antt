-- ===== src/Database/Invariant/Deployments.antt =====
-- The invariant, the log of deployments and the active revision.
use essentials_calls.Base.{
  ℕ, String, ◌≡◌, subst, true, not, ◌||◌, Option, List, [], ◌∷◌, map, any, All, arith, ◌==◌,
  if_either,
}
use essentials_calls.Json.{Fields}
use essentials_calls.Database.Store.{
  Actor, RevisionRow, DeploymentRow, PbxDatabase, ok, ok_injective, unless_ok,
}
use essentials_calls.Database.Deployments.{
  has_revision, mark_deployment_active, create_deployment, finish_row, finish_deployment,
}
use essentials_calls.Database.Invariant.{holds_revision, IsSound}

-- Other deployments, each of a revision that exists.
with_deployments :
    (d : PbxDatabase) (xs : List DeploymentRow)
    → IsSound d
    → All (λ (x : DeploymentRow). holds_revision x.revision d.revisions ≡ true) xs
    → IsSound (record d { deployments = xs })
with_deployments d xs s deployed = record {
  positive = s.positive;
  numbered = s.numbered;
  descending = s.descending;
  clean = s.clean;
  current = s.current;
  active = s.active;
  last_good = s.last_good;
  deployed = deployed;
}

pub mark_deployment_active-IsSound :
    (r : ℕ) (d d' : PbxDatabase) → mark_deployment_active r d ≡ ok d' → IsSound d → IsSound d'
unfolding mark_deployment_active has_revision
mark_deployment_active-IsSound r d d' h s =
    let (held, e) = unless_ok (not (has_revision r d)) _ _ d' h in
    let there : holds_revision r d.revisions ≡ true = ground arith in
    subst IsSound (ok_injective _ _ e) (record {
      positive = s.positive;
      numbered = s.numbered;
      descending = s.descending;
      clean = s.clean;
      current = s.current;
      active = there;
      last_good = there;
      deployed = s.deployed;
    })

pub create_deployment-IsSound :
    (now id : String) (r : ℕ) (actor : Actor) (d d' : PbxDatabase)
    → create_deployment now id r actor d ≡ ok d'
    → IsSound d
    → IsSound d'
unfolding create_deployment has_revision
create_deployment-IsSound now id r actor d d' h s =
    let (held, e) =
      unless_ok (not (has_revision r d) || any (λ (x : DeploymentRow). x.id == id) d.deployments) _
        _ d' h in
    let there : holds_revision r d.revisions ≡ true = ground arith in
    subst IsSound (ok_injective _ _ e) (with_deployments d _ s (there, s.deployed))

finish_rows :
    (now id result : String) (checksum : Option String) (details : Fields) (rows : List RevisionRow)
    (xs : List DeploymentRow)
    → All (λ (x : DeploymentRow). holds_revision x.revision rows ≡ true) xs
    → All
        (λ (x : DeploymentRow). holds_revision x.revision rows ≡ true)
        (map (finish_row now id result checksum details) xs)
unfolding finish_row
finish_rows now id result checksum details rows [] h = tt
finish_rows now id result checksum details rows (x ∷ xs) h = (
  if_either (λ (y : DeploymentRow). holds_revision y.revision rows ≡ true) (x.id == id) _ x h.0 h.0,
  finish_rows now id result checksum details rows xs h.1,
)

pub finish_deployment-IsSound :
    (now id result : String) (checksum : Option String) (details : Fields) (d : PbxDatabase)
    → IsSound d
    → IsSound (finish_deployment now id result checksum details d)
unfolding finish_deployment
finish_deployment-IsSound now id result checksum details d s =
    with_deployments d _ s
      (finish_rows now id result checksum details d.revisions d.deployments s.deployed)
