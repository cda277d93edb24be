-- ===== src/Tests/Storage.antt =====
-- The results on the database, at the tables of a small system.
use essentials_calls.Base.{
  ℕ, ◌<◌, String, ◌≡◌, refl, sym, subst, inl, Bool, true, false, ◌||◌, none, some, [], ◌∷◌, map,
}
use essentials_calls.Base.Entries.{set}
use essentials_calls.Json.{object, field, text, end, safe_details}
use essentials_calls.Model.{PbxNode, Topology, Properties}
use essentials_calls.Security.Cipher.{
  SecretCipher, Gcm, RoundTrips, encrypt, decrypt, secret_cipher, secret_cipher-RoundTrips,
}
use essentials_calls.Database.Store.{Actor, PbxDatabase, Result, ok, err, revision_conflict, audit}
use essentials_calls.Database.Secrets.{prepare_secrets, put_if_given}
use essentials_calls.Database.Secrets.Restored.{configured}
use essentials_calls.Database.Secrets.RoundTrip.{materialized_topology-save_topology}
use essentials_calls.Database.Rotation.{rotate_secrets}
use essentials_calls.Database.Rotation.Materialized.{materialized_topology-rotate_secrets}
use essentials_calls.Database.Revisions.Concurrency.{
  current_topology-save_topology, stale_save_refused,
}
use essentials_calls.Database.Invariant.{IsSound}
use essentials_calls.Database.Invariant.Reachable.{Reachable, Reachable-IsSound}
use essentials_calls.Database.Startup.{Installation, initialize_topology}
use essentials_calls.Database.Startup.Files.{Holds, initialize_topology-Holds}
use essentials_calls.Documents.{has_plaintext_sip_secrets, redact_topology}
use essentials_calls.Documents.Redaction.{redact_topology_stable}
use essentials_calls.Json.Redaction.{IsRedacted, safe_details-IsRedacted}
use essentials_calls.Database.Initial.{empty_tables, insert_initial_topology}
use essentials_calls.Database.Revisions.{
  StoredTopology, save_topology, is_revision, insert_revision, topology_at, current_topology,
  materialized_topology,
}
use essentials_calls.Tests.Sample.{anna}

abbrev pub gcm : Gcm
gcm = record {
  seal = λ key iv context plaintext. (plaintext, context);
  unseal = λ key iv context tag ciphertext. some ciphertext;
  key_digest = λ key. key;
}

abbrev pub cipher : SecretCipher
cipher = secret_cipher gcm "key"

cipher_law : RoundTrips cipher
cipher_law = secret_cipher-RoundTrips gcm "key" (λ key iv context plaintext. refl)

abbrev iv : String → String
iv id = "random"

abbrev pub same : PbxNode → PbxNode → Bool
same a b = false

abbrev pub team : Topology
team = record {
  id = "t";
  name = "t";
  description = none;
  nodes =
      (record {
        id = "anna";
        label = "anna";
        position = none;
        metadata = none;
        properties = Properties.extension anna;
      })
      ∷ [];
  edges = [];
  memberships = [];
}

abbrev pub actor : Actor
actor = record { id = some "u1"; username = "ute"; role = none }

abbrev or_empty : Result PbxDatabase → PbxDatabase
or_empty (ok d) = d
or_empty (err e) = empty_tables cipher 1

unfoldable pub first_tables : PbxDatabase
unfolding insert_initial_topology
first_tables = or_empty (insert_initial_topology same iv "now" team "seed" (empty_tables cipher 1))

first_is :
    insert_initial_topology same iv "now" team "seed" (empty_tables cipher 1) ≡ ok first_tables
unfolding first_tables insert_initial_topology prepare_secrets
first_is = refl

reached : Reachable same first_tables
reached = Reachable.first cipher 1 iv "now" team "seed" first_is

Reachable-IsSound_example : IsSound first_tables
Reachable-IsSound_example = Reachable-IsSound same reached

first-IsSound : IsSound first_tables
first-IsSound = Reachable-IsSound same reached

abbrev saved_or : Result (StoredTopology × PbxDatabase) → StoredTopology × PbxDatabase
saved_or (ok out) = out
saved_or (err e) = (
  record { topology = team; revision = 0; active_revision = none; last_good_revision = none },
  empty_tables cipher 1,
)

abbrev save_team : PbxDatabase → Result (StoredTopology × PbxDatabase)
save_team d = save_topology same iv "later" team 1 actor "again" "editor" true d

second : StoredTopology × PbxDatabase
second = saved_or (save_team first_tables)

second_is : save_team first_tables ≡ ok second
unfolding second save_topology first_tables insert_initial_topology prepare_secrets topology_at
    audit
second_is = refl

current_topology-save_topology_example :
    (current_topology second.1 ≡ ok second.0)
    × (1 < second.0.revision)
    × ((k : ℕ)
        → (is_revision k first_tables.state.active || is_revision k first_tables.state.last_good)
          ≡ true
        → topology_at k second.1 ≡ topology_at k first_tables)
current_topology-save_topology_example =
    current_topology-save_topology same iv "later" team 1 actor "again" "editor" true first_tables
      second first-IsSound second_is

stale_save_refused_example :
    save_topology same iv "later" team 1 actor "mine" "editor" true second.1
    ≡ err (revision_conflict 1 second.0.revision)
stale_save_refused_example =
    stale_save_refused same iv "later" team team 1 actor actor "again" "editor" "mine" "editor" true
      true first_tables second first-IsSound second_is

first_cipher : first_tables.cipher ≡ cipher
unfolding first_tables insert_initial_topology prepare_secrets secret_cipher audit insert_revision
first_cipher = refl

materialized_topology-save_topology_example :
    materialized_topology none second.1 ≡ ok (record team { nodes = map configured team.nodes })
materialized_topology-save_topology_example =
    materialized_topology-save_topology same iv "later" team 1 actor "again" "editor" first_tables
      second (subst RoundTrips (sym first_cipher) cipher_law) (("secret", refl, refl), refl, tt)
      first-IsSound second_is

abbrev new_cipher : SecretCipher
new_cipher = secret_cipher gcm "new key"

abbrev rotated_or : Result (ℕ × PbxDatabase) → ℕ × PbxDatabase
rotated_or (ok out) = out
rotated_or (err e) = (0, empty_tables cipher 1)

rotated : ℕ × PbxDatabase
rotated = rotated_or (rotate_secrets first_tables.cipher new_cipher iv "later" actor first_tables)

rotated_is :
    rotate_secrets first_tables.cipher new_cipher iv "later" actor first_tables ≡ ok rotated
unfolding rotated rotate_secrets first_tables insert_initial_topology prepare_secrets audit
    insert_revision put_if_given set secret_cipher decrypt encrypt
rotated_is = refl

materialized_topology-rotate_secrets_example :
    materialized_topology (some 1) rotated.1 ≡ materialized_topology (some 1) first_tables
materialized_topology-rotate_secrets_example =
    materialized_topology-rotate_secrets new_cipher iv "later" actor (some 1) first_tables rotated
      (secret_cipher-RoundTrips gcm "new key" (λ key iv context plaintext. refl)) rotated_is

safe_details-IsRedacted_example :
    IsRedacted (safe_details (object (field "sipPassword" (text "secret") end)))
safe_details-IsRedacted_example =
    safe_details-IsRedacted (object (field "sipPassword" (text "secret") end))

redact_topology_stable_example :
    (has_plaintext_sip_secrets (redact_topology team) ≡ false)
    × (redact_topology (redact_topology team) ≡ redact_topology team)
redact_topology_stable_example = redact_topology_stable team

abbrev upgraded : Installation
upgraded = record {
  tables = none;
  migrated = false;
  files = record { legacy = some "an old topology"; backup = none };
}

initialize_topology-Holds_example :
    Holds "an old topology"
      (initialize_topology (λ content. some team) same iv "now" cipher 100 upgraded).1.files
initialize_topology-Holds_example =
    initialize_topology-Holds (λ content. some team) same iv "now" cipher 100 "an old topology"
      upgraded (inl refl)
