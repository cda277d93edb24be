-- ===== src/Status/Events.antt =====
-- The handler of AMI events: `onMessage` of status.ts, of a message, the nodes of the current
-- topology and the clock. What it asks of others is told in the result.
use essentials_calls.Base.{
  ℕ, ◌-◌, String, Bool, true, false, ◌||◌, Option, none, some, List, [], ◌∷◌, ◌==◌, ltb, length,
  if◌then◌else◌,
}
use essentials_calls.Base.Texts.{codes}
use essentials_calls.Model.{pos, PbxNode, truthy}
use essentials_calls.Base.Texts.Search.{mentions}
use essentials_calls.Status.Messages.{
  AmiMessage, endpoint_of_message, text_of, event_key, first_of, waiting_calls,
}
use essentials_calls.Base.Entries.{Entries, is_some, lookup, set}
use essentials_calls.Status.{
  Availability, Activity, NodeStatus, plain_status, queue_status, Statuses, id_by_endpoint,
  id_by_queue, same_codes, present, snapshot,
}

pub record Service : Type 0 where
  pub statuses : Statuses
  pub event_keys : Entries ℕ
  pub last_event_at : Option ℕ

-- `idByEndpoint.get(endpoint)`
abbrev pub lookup_codes : List ℕ → Entries String → Option String
lookup_codes k [] = none
lookup_codes k ((j, a) ∷ rest) = if same_codes (codes j) k then some a else lookup_codes k rest

abbrev pub node_of_name : Option (List ℕ) → Entries String → Option String
node_of_name none ids = none
node_of_name (some []) ids = none
node_of_name (some (c ∷ cs)) ids = present (lookup_codes (c ∷ cs) ids)

-- The loop over the remembered events: what is older than two minutes goes, and the oldest ones
-- while more than 900 are left.
unfoldable pub evict : ℕ → ℕ → Entries ℕ → Entries ℕ
evict now size [] = []
evict now size ((k, t) ∷ rest) =
    let dropped = evict now (size - 1) rest in
    let kept = evict now size rest in
    if ltb 120000 (now - t) || ltb 900 size then dropped else (k, t) ∷ kept

unfoldable pub remember : String → ℕ → Entries ℕ → Entries ℕ
remember key now keys =
    let all = set key now keys in if ltb 1000 (length all) then evict now (length all) all else all

unfoldable pub contact_availability : String → Availability
contact_availability status =
    if mentions "created" status
      || mentions "registered" status
      || mentions "reachable" status
      || mentions "up" status
    then Availability.online
    else Availability.offline

abbrev pub known_activity : Option NodeStatus → Activity
known_activity none = Activity.idle
known_activity (some s) = s.activity

abbrev pub known_availability : Option NodeStatus → Availability
known_availability none = Availability.online
known_availability (some s) = s.availability

unfoldable pub channel_activity : String → Activity → Activity
channel_activity state before =
    if mentions "ring" state
    then Activity.ringing
    else if mentions "up" state || mentions "busy" state
    then Activity.in_call
    else before

-- The kinds of event that the handler tells apart.
pub data EventKind : Type 0 where
  contact channel_state bridge_enter hangup queue_caller queue_member other : EventKind

unfoldable pub event_kind : String → EventKind
event_kind e =
    if e == "ContactStatus" || e == "PeerStatus"
    then contact
    else if e == "Newchannel" || e == "Newstate"
    then channel_state
    else if e == "BridgeEnter"
    then bridge_enter
    else if e == "Hangup"
    then hangup
    else if e == "QueueCallerJoin" || e == "QueueCallerLeave"
    then queue_caller
    else if e == "QueueMemberStatus"
        || e == "QueueMemberAdded"
        || e == "QueueMemberRemoved"
        || e == "BridgeLeave"
    then queue_member
    else other

-- The status of the node of an endpoint after an event of a kind, where the event gives one.
unfoldable pub endpoint_status :
    AmiMessage → EventKind → String → Option NodeStatus → Option NodeStatus
endpoint_status m contact id known = some (
    plain_status id (contact_availability (first_of m.contact_status m.peer_status))
      (known_activity known))
endpoint_status m channel_state id known =
    some
      (record (plain_status id (known_availability known)
        (channel_activity (text_of m.channel_state_desc) (known_activity known))) {
          caller_id = present m.caller_id_num;
        })
endpoint_status m bridge_enter id known =
    some (plain_status id Availability.online Activity.in_call)
endpoint_status m hangup id known = some (plain_status id (known_availability known) Activity.idle)
endpoint_status m _ id known = none

abbrev pub put : String → Option NodeStatus → Statuses → Statuses
put id none s = s
put id (some status) s = set id status s

abbrev pub update_endpoint : AmiMessage → EventKind → Option String → Statuses → Statuses
update_endpoint m kind none s = s
update_endpoint m kind (some id) s = put id (endpoint_status m kind id (lookup id s)) s

abbrev pub update_queue : AmiMessage → Option String → Statuses → Statuses
update_queue m none s = s
update_queue m (some id) s =
    let waiting = waiting_calls m in
    set id
      (queue_status id (if ltb 0 waiting then Activity.ringing else Activity.idle) (pos waiting)) s

-- The `switch`.
unfoldable pub handle : List PbxNode → AmiMessage → EventKind → Statuses → Statuses
handle nodes m queue_caller s =
    update_queue m (present (lookup (text_of m.queue) (id_by_queue nodes []))) s
handle nodes m queue_member s = s
handle nodes m other s = s
handle nodes m kind s =
    update_endpoint m kind (node_of_name (endpoint_of_message m) (id_by_endpoint nodes [])) s

-- Whether the statuses are sent out, and whether they are fetched anew.
unfoldable pub publishes : EventKind → Bool
publishes other = false
publishes _ = true

unfoldable pub refreshes : EventKind → Bool
refreshes queue_member = true
refreshes _ = false

pub record Handled : Type 0 where
  pub service : Service
  pub published : Bool
  pub refreshed : Bool

abbrev pub unchanged : Service → Handled
unchanged s = record { service = s; published = false; refreshed = false }

abbrev pub is_known : String → Entries ℕ → Bool
is_known k keys = is_some (lookup k keys)

-- The handler behind its two early exits. What is published is the snapshot, which stays.
unfoldable pub take_event : List PbxNode → ℕ → AmiMessage → Service → Handled
take_event nodes now m s =
    let kind = event_kind (text_of m.event) in
    let handled = handle nodes m kind s.statuses in
    let shown = snapshot nodes handled in
    record {
      service = record {
        statuses = if publishes kind then shown else handled;
        event_keys = remember (event_key m) now s.event_keys;
        last_event_at = some now;
      };
      published = publishes kind;
      refreshed = refreshes kind;
    }

unfoldable pub on_message : List PbxNode → ℕ → AmiMessage → Service → Handled
on_message nodes now m s =
    if truthy m.event
    then if is_known (event_key m) s.event_keys then unchanged s else take_event nodes now m s
    else unchanged s
