-- ===== src/Tests/Sample.antt =====
-- A small call flow: opening hours lead to a menu or to a mailbox; the menu leads to a ring group,
-- and to the mailbox when nobody presses a key; the ring group leads back to the menu after a time.
use essentials_calls.Base.{String, true, none, some, List, [], ◌∷◌, ◌==◌}
use essentials_calls.Model.{
  pos, ExtensionProperties, ScheduleWindow, ScheduleProperties, Properties, PbxNode, EdgeCondition,
  digit, timeout, open_hours, closed, Edge, MembershipRole, Membership, Topology,
}
use essentials_calls.Validator.ScheduleNode.{Platform}
use essentials_calls.Validator.Nodes.{ValidationOptions}

abbrev pub platform : Platform
platform = record { valid_timezone = λ z. z == "Europe/Berlin"; valid_date = λ d. true }

abbrev pub options : ValidationOptions
options = record { sound_references = some ("hello-world" ∷ []) }

abbrev node : String → Properties → PbxNode
node id p = record { id = id; label = id; position = none; metadata = none; properties = p }

abbrev pub anna : ExtensionProperties
anna = record {
  number = "101";
  sip_user = "anna";
  sip_password = some "secret";
  sip_secret = none;
  caller_id_name = none;
  voicemail = none;
}

abbrev pub morning : ScheduleWindow
morning = record { id = "morning"; weekdays = pos 1 ∷ pos 2 ∷ []; start = "09:00"; end = "12:00" }

abbrev pub night : ScheduleWindow
night = record { id = "night"; weekdays = pos 1 ∷ []; start = "22:00"; end = "02:00" }

abbrev pub hours : ScheduleProperties
hours = record {
  timezone = "Europe/Berlin";
  windows = morning ∷ night ∷ [];
  holidays = "2026-12-25" ∷ [];
}

abbrev pub hours_node : PbxNode
hours_node = node "hours" (Properties.schedule hours)

abbrev pub team : PbxNode
team = node "team" (Properties.ringgroup (record { strategy = "ringall"; ring_timeout = pos 20 }))

abbrev pub nodes : List PbxNode
nodes =
    hours_node
    ∷ node "menu" (
        Properties.ivr
          (record { greeting = "hello-world"; timeout = pos 5; invalid_retries = pos 3 }))
    ∷ team
    ∷ node "anna" (Properties.extension anna)
    ∷ node "box" (
        Properties.voicemail
          (record { mailbox = "200"; pin = none; email = none; attach_audio = true }))
    ∷ []

abbrev edge : String → String → String → EdgeCondition → Edge
edge id source target condition = record {
  id = id;
  source = source;
  target = target;
  condition = some condition;
}

abbrev pub to_menu : Edge
to_menu = edge "e1" "hours" "menu" open_hours

abbrev pub to_box : Edge
to_box = edge "e2" "hours" "box" closed

abbrev pub to_team : Edge
to_team = edge "e3" "menu" "team" (digit "1")

abbrev pub back : Edge
back = edge "e5" "team" "menu" timeout

abbrev pub edges : List Edge
edges = to_menu ∷ to_box ∷ to_team ∷ edge "e4" "menu" "box" timeout ∷ back ∷ []

abbrev pub anna_in_team : Membership
anna_in_team = record {
  id = "m1";
  group_id = "team";
  member_id = "anna";
  role = MembershipRole.member;
  position = none;
  paused = none;
}

abbrev pub memberships : List Membership
memberships = anna_in_team ∷ []

abbrev pub flow : Topology
flow = record {
  id = "t1";
  name = "Flow";
  description = none;
  nodes = nodes;
  edges = edges;
  memberships = memberships;
}

-- The same ring without a timeout.
abbrev pub ring : List Edge
ring = to_team ∷ edge "e5" "team" "menu" EdgeCondition.unconditional ∷ []
