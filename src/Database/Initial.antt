-- ===== src/Database/Initial.antt =====
-- The first revision: `insertInitialTopology`, on empty tables.
use essentials_calls.Base.{ℕ, String, true, none, [], ◌==◌, if◌then◌else◌}
use essentials_calls.Base.Texts.{◌<>◌}
use essentials_calls.Generator.Values.{show}
use essentials_calls.Json.{field, text, end}
use essentials_calls.Model.{PbxNode, Topology}
use essentials_calls.Security.Cipher.{SecretCipher}
use essentials_calls.Database.Secrets.{prepare_secrets}
use essentials_calls.Database.Summary.{topology_summary}
use essentials_calls.Database.Store.{Actor, PbxDatabase, Result, ok, ◌>>=◌, audit}
use essentials_calls.Database.Revisions.{insert_revision}
use essentials_calls.Base.{Bool}

abbrev pub system : Actor
system = record { id = none; username = "system"; role = none }

-- The tables as `createSchema` makes them; the row of `topology_state` is written with the first
-- revision, whose number is 1.
abbrev pub empty_tables : SecretCipher → ℕ → PbxDatabase
empty_tables cipher limit = record {
  cipher = cipher;
  revision_limit = limit;
  revisions = [];
  next_revision = 1;
  state = record { current = 1; active = none; last_good = none };
  sip_secrets = [];
  deployments = [];
  users = [];
  sessions = [];
  login_attempts = [];
  audit_events = [];
  next_audit = 1;
}

module _ (same : PbxNode → PbxNode → Bool) (random_iv : String → String) (now : String) where
  unfoldable pub insert_initial_topology : Topology → String → PbxDatabase → Result PbxDatabase
  insert_initial_topology t source d =
      prepare_secrets d.cipher random_iv true t d.sip_secrets >>= λ (sanitized, secrets). ok (
        audit now system "topology.initialize" ("revision:" <> show d.next_revision) "success"
          (field "source" (text source) end)
          (insert_revision now system
            (if source == "seed"
              then "Initial synthetic topology"
              else "One-time topology.json migration")
            (topology_summary same none sanitized) source sanitized
            (record d { sip_secrets = secrets })))
