-- ===== src/Deployment/Health.antt =====
-- `runtimeHealth`: what the PBX is asked after a reload, and which answers are good.
use essentials_calls.Base.{
  ℕ, String, Bool, true, false, ◌||◌, Option, none, some, List, [], ◌∷◌, length, filter, leb,
  if◌then◌else◌,
}
use essentials_calls.Base.Texts.{codes}
use essentials_calls.Base.Texts.Search.{mentions, includes, starts_with, lower}
use essentials_calls.Deployment.Configs.{is_break, after_word}
use essentials_calls.Model.{PbxNode, Properties, Topology}

-- An answer of the outside, or the message of an error.
pub data Answer (A : Type 0) : Type 0 where
  got : A → Answer A
  failed : String → Answer A

pub record HealthAnswers : Type 0 where
  pub version : Answer String
  pub dialplan : Answer String
  pub canary : Answer String
  pub endpoints : Answer ℕ

pub data Fault : Type 0 where
  outside : String → Fault
  write_failure : Fault
  bad_id : Fault
  generator : Fault
  bad_configs : Fault
  preflight_missing : Fault
  preflight_refused : String → Fault
  preflight_timeout : Fault
  no_version : Fault
  no_dialplan : Fault
  no_canary : Fault
  few_endpoints : Fault
  no_topology : Fault
  no_revision : Fault

unfoldable pub on_line : List ℕ → List ℕ → Bool
on_line word [] = starts_with word []
on_line word (c ∷ cs) = starts_with word (c ∷ cs) || (if is_break c then false else on_line word cs)

unfoldable pub then_on_line : List ℕ → Option (List ℕ) → Bool
unfolding on_line
then_on_line word none = false
then_on_line word (some cs) = on_line word cs

-- `/first.*second/`
unfoldable pub has_pair : List ℕ → List ℕ → List ℕ → Bool
unfolding then_on_line
has_pair first second [] = then_on_line second (after_word first [])
has_pair first second (c ∷ cs) =
    then_on_line second (after_word first (c ∷ cs)) || has_pair first second cs

-- `/\[ Context 'internal'|include.*entrypoints|Calling/i`
unfoldable pub shows_internal : String → Bool
unfolding has_pair
shows_internal dialplan =
    mentions "[ context 'internal'" dialplan
    || has_pair (codes "include") (codes "entrypoints") (lower (codes dialplan))
    || mentions "calling" dialplan

abbrev pub is_extension : PbxNode → Bool
is_extension n = elim n.properties [ Properties.extension p ↦ true | _ ↦ false ]

abbrev pub check : Bool → Fault → Option Fault → Option Fault
check true f rest = rest
check false f rest = some f

unfoldable pub check_endpoints : Topology → Answer ℕ → Option Fault
check_endpoints t (failed m) = some (outside m)
check_endpoints t (got n) = check (leb (length (filter is_extension t.nodes)) n) few_endpoints none

-- The canary is asked for where a deployment is expected.
unfoldable pub check_canary : Option String → Answer String → Option Fault → Option Fault
check_canary none answer rest = rest
check_canary (some id) (failed m) rest = some (outside m)
check_canary (some id) (got canary) rest = check (includes id canary) no_canary rest

unfoldable pub check_dialplan : Answer String → Option Fault → Option Fault
unfolding shows_internal
check_dialplan (failed m) rest = some (outside m)
check_dialplan (got dialplan) rest = check (shows_internal dialplan) no_dialplan rest

unfoldable pub check_version : Answer String → Option Fault → Option Fault
check_version (failed m) rest = some (outside m)
check_version (got version) rest = check (mentions "asterisk" version) no_version rest

-- What `runtimeHealth` throws.
unfoldable pub runtime_health : HealthAnswers → Topology → Option String → Option Fault
unfolding check_version check_dialplan check_canary check_endpoints
runtime_health a t expected =
    check_version a.version
      (check_dialplan a.dialplan (check_canary expected a.canary (check_endpoints t a.endpoints)))
