-- ===== src/Generator/Queues.antt =====
-- The queues: `generateQueuesConf`.
use essentials_calls.Base.{String, ◌==◌, List, [], ◌∷◌, ◌++◌, map, if◌then◌else◌}
use essentials_calls.Base.Texts.{◌<>◌}
use essentials_calls.Model.{Properties, QueueProperties, PbxNode, Topology}
use essentials_calls.Names.{sanitize, endpoint_name}
use essentials_calls.Generator.Values.{display, show_number}
use essentials_calls.Generator.Routes.{Member, members_of}

unfoldable pub queue_strategy : String → String
queue_strategy strategy = if strategy == "roundrobin" then "rrmemory" else strategy

unfoldable pub member_line : Member → String
member_line m =
    "member => PJSIP/" <> endpoint_name m.ext.properties <> ",0," <> display m.ext.node.label

unfoldable pub queue_block : Topology → String → QueueProperties → List String
queue_block t id p =
    ("[" <> sanitize id <> "]")
    ∷ "musiconhold=default"
    ∷ ("strategy=" <> queue_strategy p.strategy)
    ∷ ("timeout=" <> show_number p.timeout)
    ∷ "maxlen=0"
    ∷ ("joinempty=" <> p.join_empty)
    ∷ ("leavewhenempty=" <> p.leave_when_empty)
    ∷ (map member_line (members_of t id) ++ "" ∷ [])

unfoldable pub queue_entry : Topology → String → Properties → List String
queue_entry t id (Properties.queue p) = queue_block t id p
queue_entry t id _ = []

-- The loop over the nodes.
unfoldable pub queue_lines : Topology → List PbxNode → List String
queue_lines t [] = []
queue_lines t (n ∷ ns) = queue_entry t n.id n.properties ++ queue_lines t ns
