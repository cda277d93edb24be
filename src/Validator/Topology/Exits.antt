-- ===== src/Validator/Topology/Exits.antt =====
-- What the cycle check says of a whole topology that passes the validation.
use mathlib.Core.List.{Memᴰ}
use essentials_calls.Base.{
  String, subst, ◌≡◌, refl, Bool, true, false, some, List, [], ◌∷◌, ◌++◌, map, All, any, contains,
  find_sound, mem→contains, ==_iff, ◌==◌, All-intro, All-mem, if◌then◌else◌,
}
use essentials_calls.Base.Members.{All-split, mem-map_of_mem}
use essentials_calls.Base.Texts.Join.{CommaFree}
use essentials_calls.Model.{PbxNode, Edge, Topology}
use essentials_calls.Validator.Issue.{ValidationIssue, Code, has_errors, warning, graph_issue}
use essentials_calls.Validator.Issue
use essentials_calls.Validator.ScheduleNode.{Platform}
use essentials_calls.Validator.Nodes.{ValidationOptions, validate_nodes}
use essentials_calls.Validator.Edges.{node_by_id, validate_edges}
use essentials_calls.Validator.Memberships.{validate_memberships, validate_groups_have_members}
use essentials_calls.Validator.Edges.Routes.{IsRouted}
use essentials_calls.Validator.Cycles.{
  is_exit_condition, no_search, search_from, find_unsafe_cycles,
}
use essentials_calls.Validator.Cycles.Soundness.{warning_only}
use essentials_calls.Validator.Cycles.Simple.{IsInside}
use essentials_calls.Validator.Cycles.HaveExits.{SimpleCycle, SimpleCycle-exits}
use essentials_calls.Validator.Topology.{
  validate_topology, validate_topology-WellFormed, validate_topology-cycles,
}

-- The warning that the search of cycles was cut off.
abbrev pub is_cut_off_code : Code → Bool
is_cut_off_code Issue.cycle_check_truncated = true
is_cut_off_code _ = false

abbrev pub is_cut_off : ValidationIssue → Bool
is_cut_off i = is_cut_off_code i.code

abbrev pub IsWhole : ValidationIssue → Type 0
IsWhole i = is_cut_off i ≡ false

node_by_id-known :
    (nodes : List PbxNode) (id : String) {n : PbxNode}
    → node_by_id nodes id ≡ some n
    → contains id (map (λ (m : PbxNode). m.id) nodes) ≡ true
unfolding node_by_id
node_by_id-known nodes id {n} h =
    let (m, same) = find_sound (λ m. m.id == id) nodes h in
    let e : n.id ≡ id = (==_iff n.id id).0 same in
    let all = map (λ (m : PbxNode). m.id) nodes in
    mem→contains id all (subst (λ i. Memᴰ i all) e (mem-map_of_mem (λ (m : PbxNode). m.id) nodes m))

routed-IsInside :
    (nodes : List PbxNode) (edges : List Edge)
    → All (IsRouted nodes) edges
    → All (IsInside (map (λ n. n.id) nodes)) edges
routed-IsInside nodes edges h = All-intro _ edges λ e m.
    let routed = All-mem _ edges h m in
    (node_by_id-known nodes e.source routed.from, node_by_id-known nodes e.target routed.to)

not_cut_off :
    (b : Bool) (issues : List ValidationIssue)
    → All IsWhole
        (issues ++ (if b then graph_issue warning Issue.cycle_check_truncated ∷ [] else []))
    → b ≡ false
not_cut_off true issues h = (All-split IsWhole issues _ h).1.0
not_cut_off false issues h = refl

topology-IsWhole :
    (platform : Platform) (options : ValidationOptions) (t : Topology)
    → All IsWhole (validate_topology platform options t)
    → All IsWhole (find_unsafe_cycles t.nodes t.edges)
unfolding validate_topology
topology-IsWhole platform options t h =
    let h1 = (All-split IsWhole (validate_nodes platform options t.nodes) _ h).1 in
    let h2 = (All-split IsWhole (validate_edges t.nodes t.edges) _ h1).1 in
    let h3 = (All-split IsWhole (validate_memberships t.nodes t.memberships) _ h2).1 in
    (All-split IsWhole (validate_groups_have_members t.nodes t.memberships) _ h3).1

-- In a topology without an error, whose search of cycles was not cut off and whose edge ids have
-- no comma, each simple cycle has a timeout or an invalid edge.
pub simple_cycles_have_exits :
    (platform : Platform) (options : ValidationOptions) (t : Topology)
    → has_errors (validate_topology platform options t) ≡ false
    → All IsWhole (validate_topology platform options t)
    → All (λ e. CommaFree e.id) t.edges
    → (c : List Edge) → SimpleCycle t.edges c
    → any is_exit_condition c ≡ true
unfolding find_unsafe_cycles
simple_cycles_have_exits platform options t fine whole free c cycle =
    let formed = validate_topology-WellFormed platform options t fine in
    let order = map (λ (n : PbxNode). n.id) t.nodes in
    let found = search_from order t.edges 0 order no_search in
    let no_errors : has_errors found.issues ≡ false =
      rw warning_only at (validate_topology-cycles platform options t fine) in
    let not_cut : found.truncated ≡ false =
      not_cut_off found.truncated found.issues (topology-IsWhole platform options t whole) in
    SimpleCycle-exits order t.edges not_cut no_errors formed.edges.ids free
      (routed-IsInside t.nodes t.edges formed.edges.routed) c cycle
