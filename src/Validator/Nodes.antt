-- ===== src/Validator/Nodes.antt =====
-- The checks of the nodes: `validateNodes` of shared/src/validator.ts.
pub mod Soundness
pub mod WellFormed
use Prim.Native.Char.{code}
use essentials_calls.Base.{
  ℕ, String, Bool, false, not, ◌&&◌, ◌||◌, Option, none, some, List, [], ◌∷◌, ◌++◌,
}
use essentials_calls.Base.{contains, nat_eq, length}
use essentials_calls.Base.Texts.{is_empty, all_chars, is_word}
use essentials_calls.Model.{
  PbxNode, Properties, IvrProperties, RingGroupProperties, QueueProperties, Number, is_integer,
  below, above, is_disabled_type, node_type,
}
use essentials_calls.Validator.Issue.{ValidationIssue, error, node_issue, report_if}
use essentials_calls.Validator.Issue
use essentials_calls.Validator.Pass.{pass}
use essentials_calls.Validator.ScheduleNode.{Platform, validate_schedule_node}
use essentials_calls.Validator.Extension.{
  Owners, no_owners, check_node_id, check_generated_name, check_extension, check_mailbox,
}

-- `ValidationOptions`: the references that can be played, where the caller has them.
pub record ValidationOptions : Type 0 where
  pub sound_references : Option (List String)

-- `!Number.isInteger(x) || x < low || x > high`
abbrev pub outside : ℕ → ℕ → Number → Bool
outside low high x = not (is_integer x) || below x low || above x high

-- `s.includes('..')`
abbrev pub starts_dot : String → Bool
starts_dot String.[] = false
starts_dot (String.◌∷◌ c s) = nat_eq (code c) b'.'

unfoldable pub has_dots : String → Bool
has_dots String.[] = false
has_dots (String.◌∷◌ c s) = nat_eq (code c) b'.' && starts_dot s || has_dots s

-- `s.startsWith('/')`
abbrev pub starts_slash : String → Bool
starts_slash String.[] = false
starts_slash (String.◌∷◌ c s) = nat_eq (code c) b'/'

-- `[A-Za-z0-9_/-]`
unfoldable pub is_greeting_char : ℕ → Bool
is_greeting_char c = is_word c || nat_eq c b'/' || nat_eq c b'-'

unfoldable pub unsafe_greeting : String → Bool
unsafe_greeting g = not (all_chars is_greeting_char g) || has_dots g || starts_slash g

-- `options.soundReferences && !options.soundReferences.has(greeting)`
abbrev pub unknown_sound : Option (List String) → String → Bool
unknown_sound none g = false
unknown_sound (some refs) g = not (contains g refs)

unfoldable pub check_ivr : ValidationOptions → String → IvrProperties → List ValidationIssue
check_ivr options id p =
    report_if (is_empty p.greeting) (node_issue error Issue.ivr_missing_greeting id)
    ++ (report_if (not (is_empty p.greeting) && unsafe_greeting p.greeting)
          (node_issue error Issue.ivr_invalid_greeting id)
        ++ (report_if (outside 1 120 p.timeout) (node_issue error Issue.ivr_invalid_timeout id)
            ++ (report_if
                  (not (is_empty p.greeting) && unknown_sound options.sound_references p.greeting)
                  (node_issue error Issue.ivr_greeting_not_found id)
                ++ report_if (below p.invalid_retries 1)
                    (node_issue error Issue.ivr_invalid_retries id))))

abbrev pub ring_strategies : List String
ring_strategies = "ringall" ∷ "roundrobin" ∷ "leastrecent" ∷ "fewestcalls" ∷ "random" ∷ []

abbrev pub queue_strategies : List String
queue_strategies =
    "ringall" ∷ "roundrobin" ∷ "leastrecent" ∷ "fewestcalls" ∷ "random" ∷ "rrmemory" ∷ []

unfoldable pub check_ringgroup : String → RingGroupProperties → List ValidationIssue
check_ringgroup id p =
    report_if (not (contains p.strategy ring_strategies))
      (node_issue error Issue.invalid_ring_strategy id)
    ++ report_if (outside 1 300 p.ring_timeout) (node_issue error Issue.invalid_ring_timeout id)

unfoldable pub check_queue : String → QueueProperties → List ValidationIssue
check_queue id p =
    report_if (not (contains p.strategy queue_strategies))
      (node_issue error Issue.invalid_queue_strategy id)
    ++ (report_if
          (not (contains p.join_empty ("yes" ∷ "no" ∷ "strict" ∷ []))
            || not (contains p.leave_when_empty ("yes" ∷ "no" ∷ [])))
          (node_issue error Issue.invalid_queue_empty_policy id)
        ++ report_if (outside 1 300 p.timeout || outside 1 3600 p.max_wait_time)
            (node_issue error Issue.invalid_queue_timeout id))

module _ (platform : Platform) (options : ValidationOptions) (node_count : ℕ) where
  -- The part of the loop body that depends on the type of the node.
  unfoldable pub check_properties : String → Properties → Owners → Owners × List ValidationIssue
  check_properties id (Properties.extension p) s = check_extension node_count id p s
  check_properties id (Properties.voicemail p) s =
      let (mailboxes, i) = check_mailbox id p.mailbox s.mailboxes in
      (record s { mailboxes = mailboxes }, i)
  check_properties id (Properties.ivr p) s = (s, check_ivr options id p)
  check_properties id (Properties.schedule p) s = (s, validate_schedule_node platform id p)
  check_properties id (Properties.ringgroup p) s = (s, check_ringgroup id p)
  check_properties id (Properties.queue p) s = (s, check_queue id p)
  check_properties id Properties.trunk s = (s, [])
  check_properties id Properties.external s = (s, [])

  -- The loop body.
  unfoldable pub check_node : PbxNode → Owners → Owners × List ValidationIssue
  check_node n s =
      let (ids, i) = check_node_id n.id s.node_ids in
      let (generated, j) = check_generated_name n.id s.generated_nodes in
      let (s', k) =
        check_properties n.id n.properties
          (record s { node_ids = ids; generated_nodes = generated }) in
      (
        s',
        i
            ++ (j
                ++ (report_if (is_disabled_type (node_type n))
                      (node_issue error Issue.disabled_node_type n.id)
                    ++ k)),
      )

unfoldable pub validate_nodes : Platform → ValidationOptions → List PbxNode → List ValidationIssue
validate_nodes platform options nodes =
    (pass (check_node platform options (length nodes)) nodes no_owners).1
