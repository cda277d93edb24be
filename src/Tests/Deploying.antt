-- ===== src/Tests/Deploying.antt =====
-- A deployment of a small topology.
use essentials_calls.Base.{String, ◌≡◌, refl, true, false, none, some, [], ◌∷◌}
use essentials_calls.Model.{Topology}
use essentials_calls.Database.Store.{Result, ok, err, audit}
use essentials_calls.Database.Secrets.{prepare_secrets}
use essentials_calls.Database.Revisions.{insert_revision}
use essentials_calls.Database.Deployments.{create_deployment}
use essentials_calls.Deployment.Health.{Fault, got, HealthAnswers}
use essentials_calls.Deployment.Staging.{World}
use essentials_calls.Deployment.Run.{Calls, DeployResult, deploy_topology, deploy_created}
use essentials_calls.Deployment.Success.{IsDeployed}
use essentials_calls.Deployment.Transition.{IsKept, deploy_topology-Moves}
use essentials_calls.Tests.Storage.{first_tables, actor}

abbrev empty : Topology
empty = record {
  id = "t";
  name = "t";
  description = none;
  nodes = [];
  edges = [];
  memberships = [];
}

abbrev good : HealthAnswers
good = record {
  version = got "Asterisk 20";
  dialplan = got "Calling";
  canary = got "d1";
  endpoints = got 0;
}

abbrev calls : Calls
calls = record {
  test_failure = false;
  write = none;
  preflight = record {
    configured = true;
    required = true;
    request = none;
    polls = none ∷ some "ok" ∷ [];
    cleanup = none;
  };
  connect = none;
  version = none;
  read_link = none;
  switch = none;
  reload = none;
  health = good;
  last_good = none;
  back_switch = none;
  back_connect = none;
  back_reload = none;
  back_health = good;
}

abbrev digest : String → String
digest s = "0"

abbrev wording : Fault → String
wording f = "error"

abbrev world : World
world = record {
  versions = [];
  current = some "versions/d0";
  last_good = some "versions/d0";
  running = some "versions/d0";
  database = first_tables;
}

abbrev deploy : World → Result (DeployResult × World)
deploy w = deploy_topology digest digest wording "now" calls empty 1 actor "d1" w

abbrev ended_or : Result (DeployResult × World) → DeployResult × World
ended_or (ok out) = out
ended_or (err e) = (
  record {
    deployed = false;
    configs_written = false;
    activated = false;
    reloaded = false;
    runtime_healthy = false;
    rolled_back = false;
    deployment_id = "";
    checksum = none;
    error = none;
    rollback_error = none;
  },
  world,
)

ended : DeployResult × World
ended = ended_or (deploy world)

ended_is : deploy world ≡ ok ended
unfolding ended deploy_topology deploy_created create_deployment first_tables prepare_secrets audit
    insert_revision
ended_is = refl

deploy_topology-Moves_example :
    (ended.0.deployed ≡ true → IsDeployed calls empty "d1" 1 ended.1)
    × (ended.0.deployed ≡ false → IsKept world ended.1 ended.0.rollback_error)
deploy_topology-Moves_example =
    deploy_topology-Moves digest digest wording "now" calls empty 1 actor "d1" world ended ended_is
