-- ===== src/Validator/Extension/Claims.antt =====
-- Where a check of an extension, an id or a mailbox reports no error, its key is sound, was free,
-- and is taken from then on.
use essentials_calls.Base.{ℕ, String, ◌≡◌, true, false, some, List, arith}
use essentials_calls.Base.Texts.{is_empty, digits_only}
use essentials_calls.Names.{sanitize}
use essentials_calls.Validator.Issue.{has_errors, report_if}
use essentials_calls.Validator.Pass.{Claims}
use essentials_calls.Validator.Extension.{
  check_node_id, check_generated_name, check_number, check_sip_user, check_mailbox, is_emergency,
  is_sip_user,
}

pub check_node_id-Claims :
    (id : String) (seen : List String)
    → has_errors (check_node_id id seen).1 ≡ false
    → Claims (some id) seen (check_node_id id seen).0
unfolding check_node_id has_errors report_if
check_node_id-Claims id seen h = ground arith

pub check_generated_name-Claims :
    (id : String) (seen : List String)
    → has_errors (check_generated_name id seen).1 ≡ false
    → (is_empty (sanitize id) ≡ false)
      × Claims (some (sanitize id)) seen (check_generated_name id seen).0
unfolding check_generated_name has_errors report_if
check_generated_name-Claims id seen h = ground arith

pub check_number-Claims :
    (node_count : ℕ) (id number : String) (seen : List String)
    → has_errors (check_number node_count id number seen).1 ≡ false
    → (digits_only number ≡ true)
      × (is_emergency number ≡ false)
      × Claims (some number) seen (check_number node_count id number seen).0
unfolding check_number has_errors report_if
check_number-Claims node_count id number seen h = ground arith

pub check_sip_user-Claims :
    (id user : String) (users generated : List String)
    → has_errors (check_sip_user id user users generated).1.1 ≡ false
    → (is_sip_user user ≡ true)
      × Claims (some (sanitize user)) generated (check_sip_user id user users generated).1.0
unfolding check_sip_user has_errors report_if
check_sip_user-Claims id user users generated h = ground arith

pub check_mailbox-Claims :
    (id mailbox : String) (owners : List String)
    → has_errors (check_mailbox id mailbox owners).1 ≡ false
    → (digits_only mailbox ≡ true)
      × Claims (some mailbox) owners (check_mailbox id mailbox owners).0
unfolding check_mailbox has_errors report_if
check_mailbox-Claims id mailbox owners h = ground arith
