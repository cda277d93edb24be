-- ===== src/Deployment/Run.antt =====
-- `deployTopology`: a version is staged, tested, activated and probed; where a step fails behind the
-- activation, the previous version is activated again. The corruption that a test environment asks
-- for is left out.
use Prim.Native.Char.{code}
use essentials_calls.Base.{
  ℕ, String, Bool, true, false, Option, none, some, nat_eq, ◌==◌, if◌then◌else◌,
}
use essentials_calls.Base.Entries.{is_some}
use essentials_calls.Base.Texts.{◌<>◌}
use essentials_calls.Generator.Values.{show}
use essentials_calls.Json.{Fields, end, field, text, bool}
use essentials_calls.Model.{Topology}
use essentials_calls.Database.Store.{Actor, PbxDatabase, Result, ok, err, audit}
use essentials_calls.Database.Revisions.{materialized_topology}
use essentials_calls.Database.Deployments.{
  mark_deployment_active, create_deployment, finish_deployment,
}
use essentials_calls.Deployment.Health.{
  Fault, outside, no_topology, no_revision, HealthAnswers, runtime_health,
}
use essentials_calls.Deployment.Staging.{
  StagedConfig, World, Staged, staged, unstaged, stage_generated_configs, switch_current, Preflight,
  validate_staged_with_asterisk,
}

-- What the outside does in the course of a deployment: an error, or none, at each call; and the
-- answers of the PBX after each of the two reloads.
pub record Calls : Type 0 where
  pub test_failure : Bool
  pub write : Option String
  pub preflight : Preflight
  pub connect : Option String
  pub version : Option String
  pub read_link : Option String
  pub switch : Option String
  pub reload : Option String
  pub health : HealthAnswers
  pub last_good : Option String
  pub back_switch : Option String
  pub back_connect : Option String
  pub back_reload : Option String
  pub back_health : HealthAnswers

-- The variables of the `try` block, and the world.
pub record Progress : Type 0 where
  pub version : Option StagedConfig
  pub previous : Option String
  pub activated : Bool
  pub reloaded : Bool
  pub world : World

abbrev pub Attempt : Type 0
Attempt = Option Fault × Progress

infixl 5 ◌>=>◌
abbrev pub ◌>=>◌ : Attempt → (Progress → Attempt) → Attempt
(none, p) >=> k = k p
(some f, p) >=> k = (some f, p)

-- A call that may fail, and what it does where it does not.
unfoldable pub calling : Option String → (Progress → Progress) → Progress → Attempt
calling none f p = (none, f p)
calling (some message) f p = (some (outside message), p)

-- After a reload the PBX runs what the link leads to.
abbrev pub reload_world : World → World
reload_world w = record w { running = w.current }

abbrev pub target_of : Option StagedConfig → Option String
target_of none = none
target_of (some v) = some v.target

pub record DeployResult : Type 0 where
  pub deployed : Bool
  pub configs_written : Bool
  pub activated : Bool
  pub reloaded : Bool
  pub runtime_healthy : Bool
  pub rolled_back : Bool
  pub deployment_id : String
  pub checksum : Option String
  pub error : Option Fault
  pub rollback_error : Option Fault

-- `path.basename(target)`
unfoldable pub basename_from : String → String → String
basename_from seen String.[] = seen
basename_from seen (String.◌∷◌ c s) =
    let rest = basename_from seen s in
    let fresh = basename_from s s in if nat_eq (code c) b'/' then fresh else rest

unfoldable pub basename : String → String
unfolding basename_from
basename target = basename_from target target

unfoldable pub expected_canary : String → Option String
unfolding basename
expected_canary target = if basename target == "bootstrap" then none else some (basename target)

unfoldable pub checksum_of : Option StagedConfig → Option String
checksum_of none = none
checksum_of (some v) = some v.checksum

unfoldable pub stage : Progress → Staged → Attempt
stage p (unstaged f) = (some f, p)
stage p (staged v w) = (none, record p { version = some v; world = w })

unfoldable pub activate : Progress → Progress
unfolding switch_current
activate p = record p {
  previous = p.world.current;
  activated = true;
  world = switch_current (target_of p.version) p.world;
}

unfoldable pub mark_good : Progress → Progress
mark_good p = record p { world = record p.world { last_good = target_of p.version } }

unfoldable pub mark_revision : Progress → Result PbxDatabase → Attempt
mark_revision p (err e) = (some no_revision, p)
mark_revision p (ok d) = (none, record p { world = record p.world { database = d } })

unfoldable pub back : Progress → Progress
unfolding switch_current
back p = record p { world = switch_current p.previous p.world }

abbrev pub begin : World → Progress
begin w = record { version = none; previous = none; activated = false; reloaded = false; world = w }

module _ (md5 sha256 : String → String) (message : Fault → String) (now : String) (calls : Calls)
    (t : Topology) (revision : ℕ) (actor : Actor) (id : String) where
  -- The body of the `try` block up to `markDeploymentActive`.
  unfoldable pub attempt : Progress → Attempt
  unfolding stage calling activate mark_good mark_revision
  attempt p₀ =
      stage p₀ (stage_generated_configs md5 sha256 t id calls.test_failure calls.write p₀.world)
      >=> (λ p. (validate_staged_with_asterisk calls.preflight, p))
      >=> calling calls.connect (λ p. p)
      >=> calling calls.version (λ p. p)
      >=> calling calls.read_link (λ p. p)
      >=> calling calls.switch activate
      >=> calling calls.reload (λ p. record p { reloaded = true; world = reload_world p.world })
      >=> (λ p. (runtime_health calls.health t (some id), p))
      >=> calling calls.last_good mark_good
      >=> λ p. mark_revision p (mark_deployment_active revision p.world.database)

  unfoldable pub back_health : String → Progress → Result Topology → Attempt
  back_health target p (err e) = (some no_topology, p)
  back_health target p (ok previous) =
      (runtime_health calls.back_health previous (expected_canary target), p)

  -- The PBX is probed where there was a version before.
  unfoldable pub probe_previous : Option String → Progress → Attempt
  unfolding back_health
  probe_previous none p = (none, p)
  probe_previous (some target) p =
      back_health target p (materialized_topology p.world.database.state.last_good p.world.database)

  unfoldable pub roll_back : Progress → Attempt
  unfolding calling back probe_previous
  roll_back p₀ =
      calling calls.back_switch back p₀
      >=> calling calls.back_connect (λ p. p)
      >=> calling calls.back_reload (λ p. record p { world = reload_world p.world })
      >=> λ p. probe_previous p₀.previous p

  abbrev pub optional_text : String → Option String → Fields → Fields
  optional_text key none rest = rest
  optional_text key (some s) rest = field key (text s) rest

  abbrev pub message_of : Option Fault → Option String
  message_of none = none
  message_of (some f) = some (message f)

  -- `{ ...result }`
  unfoldable pub result_fields : DeployResult → Fields
  result_fields r = field "deployed" (bool r.deployed) (
      field "configsWritten" (bool r.configs_written) (
        field "activated" (bool r.activated) (
          field "reloaded" (bool r.reloaded) (
            field "runtimeHealthy" (bool r.runtime_healthy) (
              field "rolledBack" (bool r.rolled_back) (
                field "deploymentId" (text r.deployment_id) (
                  optional_text "checksum" r.checksum (
                    optional_text "error" (message_of r.error)
                      (optional_text "rollbackError" (message_of r.rollback_error) end)))))))))

  -- The deployment is closed in the database, and logged.
  unfoldable pub close : DeployResult → String → String → Fields → World → DeployResult × World
  unfolding result_fields
  close r result outcome details w = (
    r,
    record w {
      database =
          audit now actor "deploy" ("revision:" <> show revision) outcome details
            (finish_deployment now id result r.checksum (result_fields r) w.database);
    },
  )

  unfoldable pub succeeded : Progress → DeployResult × World
  unfolding close checksum_of
  succeeded p =
      close
        (record {
          deployed = true;
          configs_written = true;
          activated = true;
          reloaded = true;
          runtime_healthy = true;
          rolled_back = false;
          deployment_id = id;
          checksum = checksum_of p.version;
          error = none;
          rollback_error = none;
        })
        "success" "success"
        (field "deploymentId" (text id) (optional_text "checksum" (checksum_of p.version) end))
        p.world

  abbrev pub failure_fields : Fault → Bool → Option Fault → Fields
  failure_fields fault back problem = field "deploymentId" (text id) (
      field "error" (text (message fault))
        (field "rolledBack" (bool back) (optional_text "rollbackError" (message_of problem) end)))

  -- The end of the `catch` block.
  unfoldable pub give_up : Fault → Progress → Bool → Option Fault → World → DeployResult × World
  unfolding close checksum_of
  give_up fault p rolled problem w =
      close
        (record {
          deployed = false;
          configs_written = is_some p.version;
          activated = p.activated;
          reloaded = p.reloaded;
          runtime_healthy = false;
          rolled_back = rolled;
          deployment_id = id;
          checksum = checksum_of p.version;
          error = some fault;
          rollback_error = problem;
        })
        (if rolled then "failed-rolled-back" else "failed") "failure"
        (failure_fields fault rolled problem) w

  unfoldable pub after_roll_back : Fault → Progress → Attempt → DeployResult × World
  unfolding give_up
  after_roll_back fault p (none, q) = give_up fault p true none q.world
  after_roll_back fault p (some problem, q) = give_up fault p false (some problem) q.world

  unfoldable pub failed_attempt : Fault → Progress → DeployResult × World
  unfolding give_up after_roll_back roll_back
  failed_attempt fault p =
      let taken_back = after_roll_back fault p (roll_back p) in
      if p.activated then taken_back else give_up fault p false none p.world

  unfoldable pub conclude : Attempt → DeployResult × World
  unfolding succeeded failed_attempt
  conclude (none, p) = succeeded p
  conclude (some fault, p) = failed_attempt fault p

  -- Where `createDeployment` throws, nothing was done.
  unfoldable pub deploy_created : World → Result PbxDatabase → Result (DeployResult × World)
  unfolding attempt conclude
  deploy_created w (err e) = err e
  deploy_created w (ok d) = ok (conclude (attempt (begin (record w { database = d }))))

  unfoldable pub deploy_topology : World → Result (DeployResult × World)
  unfolding deploy_created
  deploy_topology w = deploy_created w (create_deployment now id revision actor w.database)
