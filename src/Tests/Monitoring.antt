-- ===== src/Tests/Monitoring.antt =====
-- The results on the status of the nodes, at a short run of the service.
use essentials_calls.Base.{◌≤◌, ◌≡◌, refl, true, none, some, List, [], ◌∷◌, arith, length}
use essentials_calls.Base.Entries.{lookup}
use essentials_calls.Status.{Availability, Activity, NodeStatus, plain_status, Statuses, snapshot}
use essentials_calls.Base.Texts.Search.{mentions}
use essentials_calls.Status.Messages.{AmiMessage}
use essentials_calls.Status.Events.{Service, on_message, unchanged, contact_availability}
use essentials_calls.Status.Dedup.{Arrival, on_message_once, run_events, run_events_bounded}
use essentials_calls.Status.Snapshot.{has_entry, is_node, lookup-snapshot}
use essentials_calls.Tests.Sample.{nodes}

abbrev ring : AmiMessage
ring = record {
  event = some "Newstate";
  unique_id = some "call-1";
  linked_id = none;
  sequence_number = none;
  endpoint = none;
  channel = some "PJSIP/anna-0001";
  interface = none;
  queue = none;
  contact_status = none;
  peer_status = none;
  channel_state_desc = some "Ringing";
  caller_id_num = none;
  count = none;
  position = none;
}

abbrev fresh : Service
fresh = record { statuses = []; event_keys = []; last_event_at = none }

abbrev old : Statuses
old = ("gone", plain_status "gone" Availability.online Activity.idle) ∷ []

abbrev hang_up : AmiMessage
hang_up = record ring { event = some "Hangup" }

abbrev others : List Arrival
others = (nodes, (15, hang_up)) ∷ []

on_message_once_example :
    on_message nodes 20 ring (run_events (on_message nodes 10 ring fresh).service others)
    ≡ unchanged (run_events (on_message nodes 10 ring fresh).service others)
unfolding lookup
on_message_once_example =
    on_message_once nodes nodes 10 20 ring fresh others refl (omega arith) (omega arith, tt)

run_events_bounded_example :
    length (run_events fresh ((nodes, (10, ring)) ∷ (nodes, (20, ring)) ∷ [])).event_keys ≤ 1000
run_events_bounded_example =
    run_events_bounded ((nodes, (10, ring)) ∷ (nodes, (20, ring)) ∷ []) fresh (omega arith)

lookup-snapshot_example :
    (has_entry "gone" (snapshot nodes old) ≡ is_node "gone" nodes)
    × ((x : NodeStatus)
        → is_node "gone" nodes ≡ true
        → lookup "gone" old ≡ some x
        → lookup "gone" (snapshot nodes old) ≡ some x)
lookup-snapshot_example = lookup-snapshot nodes "gone" old

-- A contact that is reported as not reachable counts as online.
unreachable_is_online : contact_availability "Unreachable" ≡ Availability.online
unfolding contact_availability mentions
unreachable_is_online = refl
