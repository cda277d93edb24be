-- ===== src/Deployment/Staging.antt =====
-- A version of the files: `stageGeneratedConfigs`, `switchCurrent` and `validateStagedWithAsterisk`.
-- The errors of the file system and the answers of the other container are given.
use essentials_calls.Base.{
  String, Bool, ◌&&◌, ◌||◌, Option, none, some, List, [], ◌∷◌, leb, nat_eq, ◌==◌, if◌then◌else◌,
}
use essentials_calls.Base.Entries.{Entries, lookup, is_some}
use essentials_calls.Base.Texts.{◌<>◌, all_chars, utf16_length, is_word}
use essentials_calls.Deployment.Configs.{are_valid, with_deployment_canary, checksum_text}
use essentials_calls.Deployment.Health.{
  Fault, outside, write_failure, bad_id, generator, bad_configs, preflight_missing,
  preflight_refused, preflight_timeout,
}
use essentials_calls.Generator.Files.{GeneratedConfigs, generate_all}
use essentials_calls.Generator.Values.{Outcome, done, thrown, trim_start, trim_end}
use essentials_calls.Model.{Topology}
use essentials_calls.Database.Store.{PbxDatabase}

pub record StagedConfig : Type 0 where
  pub target : String
  pub checksum : String
  pub configs : GeneratedConfigs

-- The configuration directory with its two links, the database, and what Asterisk read at its last
-- reload.
pub record World : Type 0 where
  pub versions : Entries StagedConfig
  pub current : Option String
  pub last_good : Option String
  pub running : Option String
  pub database : PbxDatabase

pub data Staged : Type 0 where
  staged : StagedConfig → World → Staged
  unstaged : Fault → Staged

-- `/^[A-Za-z0-9_-]{1,128}$/`
unfoldable pub is_deployment_id : String → Bool
is_deployment_id id =
    leb 1 (utf16_length id)
    && leb (utf16_length id) 128
    && all_chars (λ c. is_word c || nat_eq c b'-') id

-- The files are written into a directory of their own, which then gets its name. Where one of these
-- steps fails, the directory is removed.
unfoldable pub write_version : String → StagedConfig → Option String → World → Staged
write_version id v (some message) w = unstaged (outside message)
write_version id v none w =
    if is_some (lookup id w.versions)
    then unstaged (outside "ENOTEMPTY")
    else staged v (record w { versions = (id, v) ∷ w.versions })

module _ (md5 sha256 : String → String) where
  unfoldable pub stage_configs : GeneratedConfigs → String → Option String → World → Staged
  unfolding write_version
  stage_configs configs id io w =
      if are_valid configs
      then write_version id
          (record {
            target = "versions/" <> id;
            checksum = sha256 (checksum_text configs);
            configs = configs;
          })
          io w
      else unstaged bad_configs

  unfoldable pub stage_outcome : Outcome GeneratedConfigs → String → Option String → World → Staged
  unfolding stage_configs
  stage_outcome (thrown e) id io w = unstaged generator
  stage_outcome (done configs) id io w = stage_configs (with_deployment_canary configs id) id io w

  unfoldable pub stage_generated_configs : Topology → String → Bool → Option String → World → Staged
  unfolding stage_outcome is_deployment_id
  stage_generated_configs t id test_failure io w =
      let run = stage_outcome (generate_all md5 t) id io w in
      if test_failure
      then unstaged write_failure
      else if is_deployment_id id
      then run
      else unstaged bad_id

-- The link is replaced in one step, or removed where there was none.
unfoldable pub switch_current : Option String → World → World
switch_current target w = record w { current = target }

-- What the preflight container is asked with and what each look at its answer finds, until the
-- deadline.
pub record Preflight : Type 0 where
  pub configured : Bool
  pub required : Bool
  pub request : Option String
  pub polls : List (Option String)
  pub cleanup : Option String

unfoldable pub poll : List (Option String) → Option Fault
poll [] = some preflight_timeout
poll (none ∷ rest) = poll rest
poll (some answer ∷ rest) =
    let said = trim_end (trim_start answer) in
    if said == "ok" then none else some (preflight_refused said)

-- An error of the `finally` block takes the place of the result.
unfoldable pub cleaned : Option String → Option Fault → Option Fault
cleaned none result = result
cleaned (some message) result = some (outside message)

unfoldable pub ask_preflight : Preflight → Option String → Option Fault
unfolding poll cleaned
ask_preflight p (some message) = some (outside message)
ask_preflight p none = cleaned p.cleanup (poll p.polls)

unfoldable pub validate_staged_with_asterisk : Preflight → Option Fault
unfolding ask_preflight
validate_staged_with_asterisk p =
    let asked = ask_preflight p p.request in
    if p.configured then asked else if p.required then some preflight_missing else none
