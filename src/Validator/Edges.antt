-- ===== src/Validator/Edges.antt =====
-- The checks of the edges: `validateEdges` of shared/src/validator.ts.
pub mod Routes
pub mod WellFormed
use essentials_calls.Base.{
  ℕ, String, Bool, true, false, not, ◌&&◌, ◌||◌, Option, none, some, List, [], ◌∷◌, ◌++◌,
}
use essentials_calls.Base.{
  any, find, filter, contains, nat_eq, ltb, length, ◌==◌, if◌then◌else◌, map,
}
use essentials_calls.Base.Texts.{codes, is_digit}
use essentials_calls.Model.{
  NodeType, PbxNode, node_type, Edge, EdgeCondition, digit, invalid, open_hours, closed,
  unconditional,
}
use essentials_calls.Validator.Issue.{
  ValidationIssue, error, warning, node_issue, edge_issue, edge_node_issue, report_if,
}
use essentials_calls.Validator.Issue
use essentials_calls.Validator.Transitions.{
  is_transition_allowed, is_ivr, is_schedule, is_voicemail,
}
use essentials_calls.Validator.Pass.{pass, each}

-- `nodeById`
unfoldable pub node_by_id : List PbxNode → String → Option PbxNode
node_by_id nodes id = find (λ n. n.id == id) nodes

unfoldable pub outgoing : List Edge → String → List Edge
outgoing edges id = filter (λ e. e.source == id) edges

-- `edge.condition ?? { type: 'unconditional' }`
abbrev pub condition_of : Edge → EdgeCondition
condition_of e = elim e.condition [ none ↦ unconditional | some c ↦ c ]

-- `condition.type`
abbrev pub condition_type : EdgeCondition → String
condition_type (digit v) = "digit"
condition_type EdgeCondition.timeout = "timeout"
condition_type invalid = "invalid"
condition_type open_hours = "open"
condition_type closed = "closed"
condition_type unconditional = "unconditional"

abbrev pub is_schedule_condition : EdgeCondition → Bool
is_schedule_condition open_hours = true
is_schedule_condition closed = true
is_schedule_condition _ = false

abbrev pub is_invalid : EdgeCondition → Bool
is_invalid invalid = true
is_invalid _ = false

-- `/^[0-9*#]$/`
match_key : List ℕ → Bool
match_key (c ∷ []) = is_digit c || nat_eq c b'*' || nat_eq c b'#'
match_key _ = false

unfoldable pub is_dial_key : String → Bool
unfolding match_key
is_dial_key v = match_key (codes v)

-- `map.get(a)?.has(b)` of a map of sets that is kept as the list of its pairs.
abbrev pub has_pair : String → String → List (String × String) → Bool
has_pair a b [] = false
has_pair a b ((x, y) ∷ ps) = x == a && y == b || has_pair a b ps

-- The sets that the loop keeps: `seenEdgeIds`, `digitsBySource`, `singletonBySource`.
pub record Branches : Type 0 where
  pub ids : List String
  pub digits : List (String × String)
  pub singletons : List (String × String)

abbrev pub no_branches : Branches
no_branches = record { ids = []; digits = []; singletons = [] }

-- The tests of a condition and the branches that it takes.
unfoldable pub check_condition :
    Edge → PbxNode → EdgeCondition → Branches → Branches × List ValidationIssue
check_condition e source (digit v) s =
    let i =
      report_if (not (is_ivr (node_type source)))
        (edge_issue Issue.digit_condition_on_non_ivr e.id) in
    if not (is_dial_key v)
    then (s, edge_issue Issue.invalid_digit_condition e.id ∷ i)
    else if has_pair e.source v s.digits
    then (s, edge_issue Issue.duplicate_digit_condition e.id ∷ i)
    else (record s { digits = (e.source, v) ∷ s.digits }, i)
check_condition e source c s =
    let i =
      report_if (is_invalid c && not (is_ivr (node_type source)))
        (edge_issue Issue.invalid_condition_on_non_ivr e.id) in
    if has_pair e.source (condition_type c) s.singletons
    then (s, i ++ edge_issue Issue.duplicate_condition e.id ∷ [])
    else (record s { singletons = (e.source, condition_type c) ∷ s.singletons }, i)

-- The tests of an edge between two nodes, behind the early `continue`s.
unfoldable pub check_ends : Edge → PbxNode → PbxNode → Branches → Branches × List ValidationIssue
check_ends e source target s =
    let (s', i) = check_condition e source (condition_of e) s in
    (
      s',
      report_if (not (is_transition_allowed (node_type source) (node_type target)))
            (edge_issue Issue.invalid_transition e.id)
          ++ (report_if
                (is_schedule (node_type source) && not (is_schedule_condition (condition_of e)))
                (edge_node_issue Issue.schedule_invalid_condition e.id source.id)
              ++ (report_if
                    (not (is_schedule (node_type source)) && is_schedule_condition (condition_of e))
                    (edge_issue Issue.schedule_condition_on_non_schedule e.id)
                  ++ i)),
    )

-- The early `continue`s, for the source and the target that were found.
unfoldable pub check_route :
    Edge → Option PbxNode → Option PbxNode → Branches → Branches × List ValidationIssue
check_route e none target s = (s, edge_issue Issue.edge_unknown_source e.id ∷ [])
check_route e (some source) none s = (s, edge_issue Issue.edge_unknown_target e.id ∷ [])
check_route e (some source) (some target) s =
    if e.source == e.target
    then (s, edge_issue Issue.self_loop e.id ∷ [])
    else if is_voicemail (node_type source)
    then (s, edge_node_issue Issue.voicemail_outgoing_edge e.id source.id ∷ [])
    else check_ends e source target s

-- The body of the loop over the edges.
unfoldable pub check_edge : List PbxNode → Edge → Branches → Branches × List ValidationIssue
check_edge nodes e s =
    let (s', i) =
      check_route e (node_by_id nodes e.source) (node_by_id nodes e.target)
        (record s { ids = e.id ∷ s.ids }) in
    (s', report_if (contains e.id s.ids) (edge_issue Issue.duplicate_edge_id e.id) ++ i)

-- `digitsBySource.get(id)` is missing or empty.
abbrev pub no_digits : String → List (String × String) → Bool
no_digits id [] = true
no_digits id ((x, y) ∷ ps) = not (x == id) && no_digits id ps

-- The types of the conditions on the edges from a node.
abbrev pub output_types : List Edge → String → List String
output_types edges id = map (λ e. condition_type (condition_of e)) (outgoing edges id)

-- The body of the loop over the nodes, by the type of the node. `outgoingCount` counts the edges
-- from a node.
unfoldable pub check_outputs :
    List Edge → List (String × String) → PbxNode → NodeType → List ValidationIssue
check_outputs edges digits n NodeType.ivr =
    report_if (no_digits n.id digits) (node_issue warning Issue.ivr_without_options n.id)
check_outputs edges digits n NodeType.schedule =
    report_if (not (contains "open" (output_types edges n.id)))
      (node_issue error Issue.schedule_missing_open_edge n.id)
    ++ (report_if (not (contains "closed" (output_types edges n.id)))
          (node_issue error Issue.schedule_missing_closed_edge n.id)
        ++ report_if (not (nat_eq (length (outgoing edges n.id)) 2))
            (node_issue error Issue.schedule_ambiguous_outputs n.id))
check_outputs edges digits n NodeType.voicemail = []
check_outputs edges digits n _ =
    report_if (ltb 1 (length (outgoing edges n.id)))
      (node_issue error Issue.ambiguous_fallback n.id)

unfoldable pub validate_edges : List PbxNode → List Edge → List ValidationIssue
validate_edges nodes edges =
    let (s, i) = pass (check_edge nodes) edges no_branches in
    i ++ each (λ n. check_outputs edges s.digits n (node_type n)) nodes
