-- ===== src/Generator/Callflow.antt =====
-- The dialplan of each node: `generateIvrContext`, `ringGroupDialLines`, `generateCallflowEntry`.
use essentials_calls.Base.{
  String, ◌==◌, Option, none, some, List, [], ◌∷◌, ◌++◌, map, if◌then◌else◌,
}
use essentials_calls.Base.Texts.{◌<>◌, join, is_empty}
use essentials_calls.Model.{
  ExtensionProperties, ExtensionVoicemail, IvrProperties, RingGroupProperties, QueueProperties,
  Properties, PbxNode, Edge, Topology,
}
use essentials_calls.Names.{sanitize, endpoint_name, node_name, context_name}
use essentials_calls.Generator.Values.{Outcome, done, ◌>>=◌, display, config_value, show_number}
use essentials_calls.Generator.Routes.{
  outgoing, find_edge_by_condition, find_fallback_edge, is_timeout, is_invalid_entry, DigitEdge,
  digit_edges, Member, members_of,
}
use essentials_calls.Generator.Schedule.{schedule_dialplan}

-- ` same => n,Goto(callflow,<target>,1)`
unfoldable pub goto_line : Edge → String
goto_line e = " same => n,Goto(callflow," <> node_name e.target <> ",1)"

abbrev pub hangup_line : String
hangup_line = " same => n,Hangup()"

unfoldable pub digit_line : DigitEdge → String
digit_line d = "exten => " <> d.value <> ",1,Goto(callflow," <> node_name d.edge.target <> ",1)"

unfoldable pub retry_variable : String → String
retry_variable id = "RETRY_" <> sanitize id

abbrev pub timeout_line : Option Edge → String
timeout_line none = hangup_line
timeout_line (some e) = goto_line e

abbrev pub giveup_target : String → Option Edge → String
giveup_target id none = context_name id <> ",giveup,1"
giveup_target id (some e) = "callflow," <> node_name e.target <> ",1"

unfoldable pub ivr_context : Topology → String → String → IvrProperties → Outcome (List String)
ivr_context t id label p =
    let edges = outgoing t id in
    let timeout_edge = find_edge_by_condition edges is_timeout in
    let invalid_edge = find_edge_by_condition edges is_invalid_entry in
    let var = retry_variable id in
    config_value p.greeting "IVR greeting" >>= λ greeting. done (
      ("[" <> context_name id <> "]")
      ∷ ("exten => s,1,NoOp(IVR " <> display label <> ")")
      ∷ (" same => n,Set(" <> var <> "=0)")
      ∷ (" same => n(menu),Background(" <> greeting <> ")")
      ∷ (" same => n,WaitExten(" <> show_number p.timeout <> ")")
      ∷ (map digit_line (digit_edges edges)
          ++ "exten => t,1,NoOp(IVR timeout)"
            ∷ timeout_line timeout_edge
            ∷ ("exten => i,1,Set(" <> var <> "=$[0${" <> var <> "} + 1])")
            ∷ " same => n,Playback(invalid)"
            ∷ (" same => n,GotoIf($[0${"
                <> var
                <> "} >= "
                <> show_number p.invalid_retries
                <> "]?"
                <> giveup_target id invalid_edge
                <> ")")
            ∷ (" same => n,Goto(" <> context_name id <> ",s,menu)")
            ∷ "exten => giveup,1,Hangup()"
            ∷ ""
            ∷ []))

abbrev pub peer : Member → String
peer m = "PJSIP/" <> endpoint_name m.ext.properties

unfoldable pub dial_line : String → String → String
dial_line timeout peers = " same => n,Dial(" <> peers <> "," <> timeout <> ")"

-- `ringGroupDialLines`, of the members in their order.
unfoldable pub dial_lines : RingGroupProperties → List String → List String
dial_lines p [] = " same => n,NoOp(Ring group has no members)" ∷ []
dial_lines p (m ∷ ms) =
    if p.strategy == "ringall"
    then dial_line (show_number p.ring_timeout) (join "&" (m ∷ ms)) ∷ []
    else map (dial_line (show_number p.ring_timeout)) (m ∷ ms)

unfoldable pub ring_group_dial_lines : Topology → String → RingGroupProperties → List String
ring_group_dial_lines t id p = dial_lines p (map peer (members_of t id))

abbrev pub mailbox_line : String → List String
mailbox_line mailbox =
    if is_empty mailbox then [] else (" same => n,VoiceMail(" <> mailbox <> "@default,u)") ∷ []

-- `finish`: where the call goes when nobody takes it. A missing mailbox is an empty one.
unfoldable pub finish : Option Edge → String → List String
finish (some fallback) mailbox = goto_line fallback ∷ hangup_line ∷ []
finish none mailbox = mailbox_line mailbox ++ hangup_line ∷ []

-- `ext.properties.voicemail?.enabled ? ext.properties.voicemail.mailbox : undefined`
abbrev pub enabled_mailbox : Option ExtensionVoicemail → String
enabled_mailbox none = ""
enabled_mailbox (some vm) = if vm.enabled then vm.mailbox else ""

abbrev pub entry_line : String → String → String
entry_line id text = "exten => " <> node_name id <> ",1,NoOp(" <> text <> ")"

unfoldable pub extension_entry : Topology → String → String → ExtensionProperties → List String
extension_entry t id label p =
    entry_line id ("Route to extension " <> display label)
    ∷ (" same => n,Dial(PJSIP/" <> endpoint_name p <> ",20)")
    ∷ finish (find_fallback_edge (outgoing t id)) (enabled_mailbox p.voicemail)

unfoldable pub ringgroup_entry : Topology → String → String → RingGroupProperties → List String
ringgroup_entry t id label p =
    entry_line id ("Ring Group " <> display label <> " " <> p.strategy)
    ∷ (ring_group_dial_lines t id p ++ finish (find_fallback_edge (outgoing t id)) "")

unfoldable pub queue_entry : Topology → String → String → QueueProperties → List String
queue_entry t id label p =
    entry_line id ("Queue " <> display label)
    ∷ (" same => n,Queue(" <> sanitize id <> ",,,," <> show_number p.max_wait_time <> ")")
    ∷ finish (find_fallback_edge (outgoing t id)) ""

-- The `switch` of `generateCallflowEntry`.
unfoldable pub entry_lines : Topology → String → String → Properties → Outcome (List String)
entry_lines t id label (Properties.ivr p) = done (
    entry_line id ("Enter IVR " <> display label)
    ∷ (" same => n,Goto(" <> context_name id <> ",s,1)")
    ∷ [])
entry_lines t id label (Properties.extension p) = done (extension_entry t id label p)
entry_lines t id label (Properties.ringgroup p) = done (ringgroup_entry t id label p)
entry_lines t id label (Properties.queue p) = done (queue_entry t id label p)
entry_lines t id label (Properties.schedule p) = schedule_dialplan t id label p
entry_lines t id label (Properties.voicemail p) = done (
    entry_line id ("Voicemail " <> display label)
    ∷ (" same => n,VoiceMail(" <> p.mailbox <> "@default,u)")
    ∷ hangup_line
    ∷ [])
entry_lines t id label _ = done []

unfoldable pub callflow_entry : Topology → PbxNode → Outcome (List String)
callflow_entry t n = entry_lines t n.id n.label n.properties >>= λ ls. done (ls ++ "" ∷ [])
