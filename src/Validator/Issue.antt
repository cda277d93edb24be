-- ===== src/Validator/Issue.antt =====
-- What the validator reports (`ValidationIssue`), and what it is given besides the topology. The
-- wording of an issue is not modelled: the code and the ids say which check failed for what.
use essentials_calls.Base.{String, Bool, true, false, ◌||◌, ◌≡◌, Option, none, some, List, ◌++◌}
use essentials_calls.Base.{any, any-append, if◌then◌else◌, [], ◌∷◌, refl}

pub data ValidationSeverity : Type 0 where
  error warning : ValidationSeverity

pub data Code : Type 0 where
  duplicate_node_id generated_node_name_collision disabled_node_type : Code
  invalid_extension_number reserved_emergency_number duplicate_extension_number : Code
  entrypoint_collision missing_sip_password missing_sip_user duplicate_sip_user : Code
  generated_sip_name_collision missing_mailbox invalid_mailbox duplicate_mailbox : Code
  ivr_missing_greeting ivr_invalid_greeting ivr_invalid_timeout ivr_greeting_not_found : Code
  ivr_invalid_retries invalid_ring_strategy invalid_ring_timeout invalid_queue_strategy : Code
  invalid_queue_empty_policy invalid_queue_timeout schedule_invalid_timezone : Code
  schedule_without_windows schedule_invalid_window_id schedule_invalid_time_window : Code
  schedule_invalid_weekdays schedule_overlapping_windows schedule_invalid_holiday : Code
  schedule_duplicate_holiday duplicate_edge_id edge_unknown_source edge_unknown_target : Code
  self_loop voicemail_outgoing_edge invalid_transition schedule_invalid_condition : Code
  schedule_condition_on_non_schedule invalid_digit_condition duplicate_digit_condition : Code
  digit_condition_on_non_ivr invalid_condition_on_non_ivr duplicate_condition : Code
  ivr_without_options schedule_missing_open_edge schedule_missing_closed_edge : Code
  schedule_ambiguous_outputs ambiguous_fallback duplicate_membership_id : Code
  duplicate_membership membership_invalid_group membership_invalid_member : Code
  group_without_members infinite_cycle cycle_check_truncated : Code

pub record ValidationIssue : Type 0 where
  pub severity : ValidationSeverity
  pub code : Code
  pub node_id : Option String
  pub edge_id : Option String
  pub membership_id : Option String

abbrev pub node_issue : ValidationSeverity → Code → String → ValidationIssue
node_issue s c id = record {
  severity = s;
  code = c;
  node_id = some id;
  edge_id = none;
  membership_id = none;
}

abbrev pub edge_issue : Code → String → ValidationIssue
edge_issue c id = record {
  severity = error;
  code = c;
  node_id = none;
  edge_id = some id;
  membership_id = none;
}

abbrev pub edge_node_issue : Code → String → String → ValidationIssue
edge_node_issue c edge node = record {
  severity = error;
  code = c;
  node_id = some node;
  edge_id = some edge;
  membership_id = none;
}

abbrev pub membership_issue : Code → String → ValidationIssue
membership_issue c id = record {
  severity = error;
  code = c;
  node_id = none;
  edge_id = none;
  membership_id = some id;
}

abbrev pub graph_issue : ValidationSeverity → Code → ValidationIssue
graph_issue s c = record {
  severity = s;
  code = c;
  node_id = none;
  edge_id = none;
  membership_id = none;
}

abbrev pub is_error : ValidationIssue → Bool
is_error i = elim i.severity [ error ↦ true | warning ↦ false ]

-- `if (b) issues.push(i)`
unfoldable pub report_if : Bool → ValidationIssue → List ValidationIssue
report_if b i = if b then i ∷ [] else []

-- `hasErrors`
unfoldable pub has_errors : List ValidationIssue → Bool
has_errors issues = any is_error issues

pub has_errors-append :
    (xs ys : List ValidationIssue) → has_errors (xs ++ ys) ≡ (has_errors xs || has_errors ys)
unfolding has_errors
has_errors-append xs ys = any-append is_error xs ys

-- Where a whole list of issues has no error, its two parts have none.
pub no_errors-append :
    (xs ys : List ValidationIssue)
    → has_errors (xs ++ ys) ≡ false
    → (has_errors xs ≡ false) × (has_errors ys ≡ false)
no_errors-append xs ys h = split (has_errors xs) (has_errors ys) (rw has_errors-append at h)
  where
    split : (a b : Bool) → (a || b) ≡ false → (a ≡ false) × (b ≡ false)
    split false false e = (e, e)
    split true b e = cc
    split false true e = cc

-- A test whose issue is an error did not hold where no error is reported.
pub report_if-false :
    (b : Bool) (i : ValidationIssue)
    → is_error i ≡ true
    → has_errors (report_if b i) ≡ false
    → b ≡ false
unfolding has_errors report_if
report_if-false true i e h = cc (e, h)
report_if-false false i e h = refl

-- The same of the first of several tests, with what the others report.
pub report_if-append :
    (b : Bool) (i : ValidationIssue) (rest : List ValidationIssue)
    → is_error i ≡ true
    → has_errors (report_if b i ++ rest) ≡ false
    → (b ≡ false) × (has_errors rest ≡ false)
report_if-append b i rest e h =
    let (a, r) = no_errors-append (report_if b i) rest h in (report_if-false b i e a, r)
