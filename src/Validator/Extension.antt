-- ===== src/Validator/Extension.antt =====
-- The checks of one node's ids, number, SIP user and mailbox: the first half of the loop body of
-- `validateNodes`, and `checkMailbox`, of
-- shared/src/validator.ts. A map whose values only word a message is the set of its keys.
pub mod Claims
use Prim.Native.Char.{code}
use essentials_calls.Base.{
  ℕ, ◌+◌, ◌-◌, ◌*◌, String, Bool, not, ◌&&◌, ◌||◌, Option, none, some, List, [], ◌∷◌, ◌++◌,
}
use essentials_calls.Base.{contains, ltb, leb, nat_eq, ◌==◌, if◌then◌else◌}
use essentials_calls.Base.Texts.{is_empty, all_chars, digits_only, is_word}
use essentials_calls.Model.{
  ExtensionProperties, ExtensionVoicemail, truthy, is_configured, entrypoint_base,
}
use essentials_calls.Names.{sanitize}
use essentials_calls.Validator.Issue.{ValidationIssue, error, warning, node_issue, report_if}
use essentials_calls.Validator.Issue

-- The sets that the loop keeps.
pub record Owners : Type 0 where
  pub node_ids : List String
  pub generated_nodes : List String
  pub numbers : List String
  pub sip_users : List String
  pub generated_sips : List String
  pub mailboxes : List String

abbrev pub no_owners : Owners
no_owners = record {
  node_ids = [];
  generated_nodes = [];
  numbers = [];
  sip_users = [];
  generated_sips = [];
  mailboxes = [];
}

abbrev pub Found : Type 0
Found = List String × List ValidationIssue

unfoldable pub check_node_id : String → List String → Found
check_node_id id seen =
    (id ∷ seen, report_if (contains id seen) (node_issue error Issue.duplicate_node_id id))

unfoldable pub check_generated_name : String → List String → Found
check_generated_name id seen =
    if is_empty (sanitize id) || contains (sanitize id) seen
    then (seen, node_issue error Issue.generated_node_name_collision id ∷ [])
    else (sanitize id ∷ seen, [])

-- `Number(number)` of a text of digits.
abbrev pub decimal_from : ℕ → String → ℕ
decimal_from acc String.[] = acc
decimal_from acc (String.◌∷◌ c s) = decimal_from (acc * 10 + (code c - b'0')) s

unfoldable pub is_emergency : String → Bool
is_emergency number = number == "110" || number == "112"

unfoldable pub hits_entrypoint : ℕ → String → Bool
hits_entrypoint node_count number =
    leb entrypoint_base (decimal_from 0 number)
    && ltb (decimal_from 0 number) (entrypoint_base + node_count)

unfoldable pub check_number : ℕ → String → String → List String → Found
unfolding hits_entrypoint
check_number node_count id number seen =
    if not (digits_only number)
    then (seen, node_issue error Issue.invalid_extension_number id ∷ [])
    else if is_emergency number
    then (seen, node_issue error Issue.reserved_emergency_number id ∷ [])
    else if contains number seen
    then (seen, node_issue error Issue.duplicate_extension_number id ∷ [])
    else (
      number ∷ seen,
      report_if (hits_entrypoint node_count number)
          (node_issue warning Issue.entrypoint_collision id),
    )

unfoldable pub check_password : String → ExtensionProperties → List ValidationIssue
check_password id p =
    report_if (not (truthy p.sip_password) && not (is_configured p.sip_secret))
      (node_issue warning Issue.missing_sip_password id)

-- `[A-Za-z0-9_.@+-]`
unfoldable pub is_sip_char : ℕ → Bool
is_sip_char c = is_word c || nat_eq c b'.' || nat_eq c b'@' || nat_eq c b'+' || nat_eq c b'-'

unfoldable pub is_sip_user : String → Bool
is_sip_user user = not (is_empty user) && all_chars is_sip_char user

-- The sets of SIP users and of their sanitised forms.
unfoldable pub check_sip_user : String → String → List String → List String → List String × Found
check_sip_user id user users generated =
    if not (is_sip_user user)
    then (users, (generated, node_issue error Issue.missing_sip_user id ∷ []))
    else if contains user users
    then (users, (generated, node_issue error Issue.duplicate_sip_user id ∷ []))
    else if contains (sanitize user) generated
    then (user ∷ users, (generated, node_issue error Issue.generated_sip_name_collision id ∷ []))
    else (user ∷ users, (sanitize user ∷ generated, []))

unfoldable pub check_mailbox : String → String → List String → Found
check_mailbox id mailbox owners =
    if is_empty mailbox
    then (owners, node_issue error Issue.missing_mailbox id ∷ [])
    else if not (digits_only mailbox)
    then (owners, node_issue error Issue.invalid_mailbox id ∷ [])
    else if contains mailbox owners
    then (owners, node_issue error Issue.duplicate_mailbox id ∷ [])
    else (mailbox ∷ owners, [])

-- `if (vm?.enabled)`
abbrev pub active_mailbox : Option ExtensionVoicemail → Option String
active_mailbox none = none
active_mailbox (some vm) = if vm.enabled then some vm.mailbox else none

unfoldable pub check_voicemail : String → Option String → List String → Found
check_voicemail id none owners = (owners, [])
check_voicemail id (some mailbox) owners = check_mailbox id mailbox owners

unfoldable pub check_extension :
    ℕ → String → ExtensionProperties → Owners → Owners × List ValidationIssue
check_extension node_count id p s =
    let (numbers, i) = check_number node_count id p.number s.numbers in
    let (users, (generated, j)) = check_sip_user id p.sip_user s.sip_users s.generated_sips in
    let (mailboxes, k) = check_voicemail id (active_mailbox p.voicemail) s.mailboxes in
    (
      record s {
        numbers = numbers;
        sip_users = users;
        generated_sips = generated;
        mailboxes = mailboxes;
      },
      i ++ (check_password id p ++ (j ++ k)),
    )
