-- ===== src/Tests/Validation.antt =====
-- The results on the validator, at the sample.
use mathlib.Core.List.{Memᴰ}
use essentials_calls.Base.{
  arith, ==_false, subst, sym, ◌≡◌, refl, true, false, List, [], ◌∷◌, any, All, inl,
}
use essentials_calls.Base.Texts.{
  digits_only, is_astral, is_digit, is_letter, is_word, all_chars, utf16_length,
}
use essentials_calls.Names.Laws.{sanitize_safe}
use essentials_calls.Names.{sanitize}
use essentials_calls.Model.{is_disabled_type, Membership}
use essentials_calls.Schedule.{LocalParts, is_window_open, previous_weekday, minutes, hhmm_minutes}
use essentials_calls.Validator.Issue.{ValidationIssue, has_errors, report_if}
use essentials_calls.Validator.Pass.{pass}
use essentials_calls.Validator.Nodes.{
  validate_nodes, check_node, check_properties, check_ivr, check_ringgroup, is_greeting_char,
  unsafe_greeting, has_dots,
}
use essentials_calls.Validator.Extension.{
  check_node_id, check_generated_name, check_extension, check_mailbox, check_number, check_password,
  check_sip_user, check_voicemail, hits_entrypoint, is_emergency, is_sip_char, is_sip_user,
}
use essentials_calls.Validator.ScheduleNode.{
  validate_schedule_node, check_window, time_minutes, bad_weekdays, some_overlap, window_segments,
  check_holiday, day_segments, match_time, overlaps, segments_between,
}
use essentials_calls.Validator.Edges.{
  validate_edges, check_condition, check_edge, check_ends, check_outputs, check_route, is_dial_key,
  node_by_id, outgoing,
}
use essentials_calls.Validator.Transitions.{is_transition_allowed}
use essentials_calls.Validator.Memberships.{
  validate_memberships, validate_groups_have_members, check_group, check_membership, member_count,
  pair_key,
}
use essentials_calls.Validator.Cycles.{
  find_unsafe_cycles, cycle_key, insert_sorted, sort, text_before, close_cycle, edges_from, follow,
  index_from, index_of, is_exit_condition, report_cycle, scan, search_from, walk,
}
use essentials_calls.Validator.ScheduleNode.Soundness.{
  IsSchedule, validate_schedule_node-IsSchedule,
}
use essentials_calls.Validator.ScheduleNode.Disjoint.{one_window_open}
use essentials_calls.Validator.Nodes.WellFormed.{WellFormedNodes, validate_nodes-WellFormed}
use essentials_calls.Validator.Edges.WellFormed.{WellFormedEdges, validate_edges-WellFormed}
use essentials_calls.Validator.Memberships.WellFormed.{
  WellFormedMemberships, validate_memberships-WellFormed, validate_groups-HasMembers,
}
use essentials_calls.Validator.Cycles.Soundness.{ExitlessWalk, find_unsafe_cycles_sound}
use essentials_calls.Validator.Cycles.HaveExits.{SimpleCycle}
use essentials_calls.Validator.Topology.{
  validate_topology, WellFormed, validate_topology-WellFormed,
}
use essentials_calls.Validator.Topology.Exits.{IsWhole, simple_cycles_have_exits}
use essentials_calls.Tests.Sample.{
  platform, options, flow, nodes, team, edges, memberships, ring, to_team, back, hours, night,
}

valid_nodes : validate_nodes platform options nodes ≡ []
unfolding has_errors report_if pass validate_nodes check_node check_properties check_ivr
    check_ringgroup is_greeting_char unsafe_greeting has_dots check_node_id check_generated_name
    check_extension check_mailbox check_number check_password check_sip_user check_voicemail
    hits_entrypoint is_emergency is_sip_char is_sip_user validate_schedule_node check_window
    time_minutes bad_weekdays some_overlap window_segments check_holiday day_segments match_time
    overlaps segments_between digits_only is_astral is_digit is_letter is_word sanitize
    is_disabled_type
valid_nodes = refl

valid_edges : validate_edges nodes edges ≡ []
unfolding has_errors report_if pass validate_edges check_condition check_edge check_ends
    check_outputs check_route is_dial_key node_by_id outgoing is_transition_allowed is_digit
valid_edges = refl

valid_memberships : validate_memberships nodes memberships ≡ []
unfolding has_errors report_if pass validate_memberships validate_groups_have_members check_group
    check_membership member_count pair_key node_by_id
valid_memberships = refl

valid_groups : validate_groups_have_members nodes memberships ≡ []
unfolding has_errors report_if pass validate_memberships validate_groups_have_members check_group
    check_membership member_count pair_key
valid_groups = refl

valid_cycles : find_unsafe_cycles nodes edges ≡ []
unfolding find_unsafe_cycles cycle_key insert_sorted sort text_before close_cycle edges_from follow
    index_from index_of is_exit_condition report_cycle scan search_from walk
valid_cycles = refl

flow_is_valid : validate_topology platform options flow ≡ []
unfolding validate_topology
flow_is_valid = rw (valid_nodes, valid_edges, valid_memberships, valid_groups, valid_cycles) refl

valid_hours : validate_schedule_node platform "hours" hours ≡ []
unfolding has_errors report_if pass validate_schedule_node check_window time_minutes bad_weekdays
    some_overlap window_segments check_holiday day_segments match_time overlaps segments_between
    is_digit
valid_hours = refl

bad_ring : has_errors (find_unsafe_cycles nodes ring) ≡ true
unfolding has_errors report_if find_unsafe_cycles cycle_key insert_sorted sort text_before
    close_cycle edges_from follow index_from index_of is_exit_condition report_cycle scan
    search_from walk
bad_ring = refl

no_issue : {issues : List ValidationIssue} → issues ≡ [] → has_errors issues ≡ false
unfolding has_errors
no_issue e = rw e refl

validate_topology-WellFormed_example : WellFormed platform options flow
validate_topology-WellFormed_example =
    validate_topology-WellFormed platform options flow (no_issue flow_is_valid)

menu_and_team : SimpleCycle edges (to_team ∷ back ∷ [])
menu_and_team = record {
  start = "menu";
  walk = (
    refl,
    Memᴰ.tail (Memᴰ.tail (Memᴰ.head refl)),
    (refl, Memᴰ.tail (Memᴰ.tail (Memᴰ.tail (Memᴰ.tail (Memᴰ.head refl)))), refl),
  );
  not_empty = λ e. cc e;
  distinct = ((==_false "menu" "team" refl, tt), (tt, tt));
}

simple_cycles_have_exits_example : any is_exit_condition (to_team ∷ back ∷ []) ≡ true
simple_cycles_have_exits_example =
    simple_cycles_have_exits platform options flow (no_issue flow_is_valid)
      (subst (All IsWhole) (sym flow_is_valid) tt) (refl, (refl, (refl, (refl, (refl, tt)))))
      (to_team ∷ back ∷ []) menu_and_team

find_unsafe_cycles_sound_example : ExitlessWalk ring
find_unsafe_cycles_sound_example = find_unsafe_cycles_sound nodes ring bad_ring

validate_nodes-WellFormed_example : WellFormedNodes platform options nodes
validate_nodes-WellFormed_example =
    validate_nodes-WellFormed platform options nodes (no_issue valid_nodes)

validate_edges-WellFormed_example : WellFormedEdges nodes edges
validate_edges-WellFormed_example = validate_edges-WellFormed nodes edges (no_issue valid_edges)

validate_memberships-WellFormed_example : WellFormedMemberships nodes memberships
validate_memberships-WellFormed_example =
    validate_memberships-WellFormed nodes memberships (no_issue valid_memberships)

validate_groups-HasMembers_example : (m : Membership) × Memᴰ m memberships × (m.group_id ≡ "team")
validate_groups-HasMembers_example =
    validate_groups-HasMembers nodes memberships team (no_issue valid_groups)
      (Memᴰ.tail (Memᴰ.tail (Memᴰ.head refl))) (inl refl)

validate_schedule_node-IsSchedule_example : IsSchedule platform hours
validate_schedule_node-IsSchedule_example =
    validate_schedule_node-IsSchedule platform "hours" hours (no_issue valid_hours)

-- Tuesday, a quarter past one in the morning.
abbrev pub tuesday_night : LocalParts
tuesday_night = record { date = "2026-06-02"; weekday = 2; minutes = 75 }

night_is_open : is_window_open tuesday_night night ≡ true
unfolding is_window_open minutes hhmm_minutes previous_weekday
night_is_open = refl

one_window_open_example : night ≡ night
one_window_open_example =
    one_window_open platform "hours" hours tuesday_night night night (no_issue valid_hours)
      (record { first = omega arith; last = omega arith; minute = omega arith })
      (Memᴰ.tail (Memᴰ.head refl)) (Memᴰ.tail (Memᴰ.head refl)) night_is_open night_is_open

sanitize_safe_example :
    (all_chars is_word (sanitize "a b-c") ≡ true)
    × (utf16_length (sanitize "a b-c") ≡ utf16_length "a b-c")
sanitize_safe_example = sanitize_safe "a b-c"

pub fine_flow : has_errors (validate_topology platform options flow) ≡ false
fine_flow = no_issue flow_is_valid
