-- ===== src/Status.antt =====
-- The status of the nodes: the map of backend/src/asterisk/status.ts and what fills it.
pub mod Messages
pub mod Events
pub mod Dedup
pub mod Snapshot
use essentials_calls.Base.{
  ℕ, suc, ◌+◌, ◌-◌, ◌*◌, ◌^◌, String, Bool, true, false, ◌&&◌, ◌||◌, Option, none, some, List, [],
  ◌∷◌, ◌==◌, ltb, leb, nat_eq, any, if◌then◌else◌,
}
use essentials_calls.Base.Texts.{is_empty, codes}
use essentials_calls.Model.{Number, pos, above, Properties, PbxNode}
use essentials_calls.Names.{sanitize, endpoint_name}
use essentials_calls.Base.Entries.{Entries, lookup, set}

pub data Availability : Type 0 where
  online offline unknown : Availability

pub data Activity : Type 0 where
  idle ringing in_call busy : Activity

pub record StatusMetrics : Type 0 where
  pub waiting_calls : Option Number
  pub active_calls : Option Number
  pub talk_time : Option Number

pub record NodeStatus : Type 0 where
  pub node_id : String
  pub availability : Availability
  pub activity : Activity
  pub metrics : Option StatusMetrics
  pub caller_id : Option String
  pub queue_position : Option Number

-- `{ nodeId, availability, activity }`
abbrev pub plain_status : String → Availability → Activity → NodeStatus
plain_status id availability activity = record {
  node_id = id;
  availability = availability;
  activity = activity;
  metrics = none;
  caller_id = none;
  queue_position = none;
}

-- A status of a queue with its waiting calls.
abbrev pub queue_status : String → Activity → Number → NodeStatus
queue_status id activity waiting = record (plain_status id Availability.online activity) {
  metrics = some (record { waiting_calls = some waiting; active_calls = none; talk_time = none });
}

abbrev pub Statuses : Type 0
Statuses = Entries NodeStatus

-- `unknownStatuses`, of the nodes that are left and the entries so far.
unfoldable pub unknown_from : List PbxNode → Statuses → Statuses
unknown_from [] s = s
unknown_from (n ∷ ns) s =
    unknown_from ns (set n.id (plain_status n.id Availability.unknown Activity.idle) s)

unfoldable pub unknown_statuses : List PbxNode → Statuses
unfolding unknown_from
unknown_statuses nodes = unknown_from nodes []

-- `endpointMaps`: which node has which name in Asterisk.
abbrev pub endpoint_key : Properties → Option String
endpoint_key (Properties.extension p) = some (endpoint_name p)
endpoint_key _ = none

abbrev pub queue_key : String → Properties → Option String
queue_key id (Properties.queue p) = some (sanitize id)
queue_key id _ = none

abbrev pub set_key : Option String → String → Entries String → Entries String
set_key none id s = s
set_key (some k) id s = set k id s

unfoldable pub id_by_endpoint : List PbxNode → Entries String → Entries String
id_by_endpoint [] s = s
id_by_endpoint (n ∷ ns) s = id_by_endpoint ns (set_key (endpoint_key n.properties) n.id s)

unfoldable pub id_by_queue : List PbxNode → Entries String → Entries String
id_by_queue [] s = s
id_by_queue (n ∷ ns) s = id_by_queue ns (set_key (queue_key n.id n.properties) n.id s)

-- The two loops of `snapshot`: a node without an entry gets one, an entry without a node goes.
abbrev pub add_if_missing : Option NodeStatus → String → Statuses → Statuses
add_if_missing (some old) id s = s
add_if_missing none id s = set id (plain_status id Availability.unknown Activity.idle) s

unfoldable pub add_missing : List PbxNode → Statuses → Statuses
add_missing [] s = s
add_missing (n ∷ ns) s = add_missing ns (add_if_missing (lookup n.id s) n.id s)

unfoldable pub drop_unknown : List PbxNode → Statuses → Statuses
drop_unknown nodes [] = []
drop_unknown nodes ((id, s) ∷ rest) =
    let kept = drop_unknown nodes rest in
    if any (λ n. n.id == id) nodes then (id, s) ∷ kept else kept

unfoldable pub snapshot : List PbxNode → Statuses → Statuses
snapshot nodes s = drop_unknown nodes (add_missing nodes s)

-- `toUpperCase`, as far as the words go that it is compared with: two letters outside ASCII have an
-- ASCII capital.
abbrev pub upper : List ℕ → List ℕ
upper [] = []
upper (c ∷ cs) =
    (if leb b'a' c && leb c b'z'
      then c - 32
      else if nat_eq c 0x131
      then b'I'
      else if nat_eq c 0x17f
      then b'S'
      else c)
    ∷ upper cs

abbrev pub same_codes : List ℕ → List ℕ → Bool
same_codes [] [] = true
same_codes [] (d ∷ ds) = false
same_codes (c ∷ cs) [] = false
same_codes (c ∷ cs) (d ∷ ds) = nat_eq c d && same_codes cs ds

-- `value === word`, of the state of an endpoint in capitals.
unfoldable pub is_state : String → String → Bool
is_state state word = same_codes (upper (codes state)) (codes word)

unfoldable pub endpoint_availability : String → Availability
endpoint_availability state =
    if is_state state "UNAVAILABLE" || is_state state "UNKNOWN"
    then Availability.offline
    else Availability.online

unfoldable pub endpoint_activity : String → Activity
endpoint_activity state =
    if is_state state "INUSE" || is_state state "BUSY"
    then Activity.in_call
    else if is_state state "RINGING" || is_state state "RINGINUSE"
    then Activity.ringing
    else Activity.idle

-- What the AMI client lists.
pub record EndpointState : Type 0 where
  pub endpoint : String
  pub state : String

pub record QueueState : Type 0 where
  pub queue : String
  pub calls : Number

-- A node id that was found; an empty one is not taken.
abbrev pub present : Option String → Option String
present none = none
present (some id) = if is_empty id then none else some id

abbrev pub waiting_activity : Number → Activity
waiting_activity calls = if above calls 0 then Activity.ringing else Activity.idle

-- The loops of `refreshSnapshot` over the endpoints and the queues.
unfoldable pub refresh_endpoints : Entries String → List EndpointState → Statuses → Statuses
refresh_endpoints ids [] next = next
refresh_endpoints ids (e ∷ es) next = elim (present (lookup e.endpoint ids)) [
  | none ↦ refresh_endpoints ids es next
  | some id ↦
      refresh_endpoints ids es
        (set id (plain_status id (endpoint_availability e.state) (endpoint_activity e.state)) next)
]

unfoldable pub refresh_queues : Entries String → List QueueState → Statuses → Statuses
refresh_queues ids [] next = next
refresh_queues ids (q ∷ qs) next = elim (present (lookup q.queue ids)) [
  | none ↦ refresh_queues ids qs next
  | some id ↦
      refresh_queues ids qs (set id (queue_status id (waiting_activity q.calls) q.calls) next)
]

-- The statuses after `refreshSnapshot` has its answers.
unfoldable pub refresh_snapshot : List PbxNode → List EndpointState → List QueueState → Statuses
refresh_snapshot nodes endpoints queues =
    refresh_queues (id_by_queue nodes []) queues
      (refresh_endpoints (id_by_endpoint nodes []) endpoints (unknown_statuses nodes))
