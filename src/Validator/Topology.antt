-- ===== src/Validator/Topology.antt =====
-- The whole validation of a topology whose shape is sound: `validateTopology` of
-- shared/src/validator.ts behind its first line, which tests the shape of the JSON value. A
-- `Topology` of the model has that shape.
pub mod Exits
use essentials_calls.Base.{◌≡◌, false, List, ◌++◌}
use essentials_calls.Model.{Topology}
use essentials_calls.Validator.Issue.{ValidationIssue, has_errors, no_errors-append}
use essentials_calls.Validator.ScheduleNode.{Platform}
use essentials_calls.Validator.Nodes.{ValidationOptions, validate_nodes}
use essentials_calls.Validator.Nodes.WellFormed.{WellFormedNodes, validate_nodes-WellFormed}
use essentials_calls.Validator.Edges.{validate_edges}
use essentials_calls.Validator.Edges.WellFormed.{WellFormedEdges, validate_edges-WellFormed}
use essentials_calls.Validator.Memberships.{validate_memberships, validate_groups_have_members}
use essentials_calls.Validator.Memberships.WellFormed.{
  WellFormedMemberships, HasMembers, validate_memberships-WellFormed, all-HasMembers,
}
use essentials_calls.Validator.Cycles.{find_unsafe_cycles}
use essentials_calls.Base.{All}

unfoldable pub validate_topology : Platform → ValidationOptions → Topology → List ValidationIssue
validate_topology platform options t =
    validate_nodes platform options t.nodes
    ++ (validate_edges t.nodes t.edges
        ++ (validate_memberships t.nodes t.memberships
            ++ (validate_groups_have_members t.nodes t.memberships
                ++ find_unsafe_cycles t.nodes t.edges)))

-- The rules of the parts of a topology, together.
pub record WellFormed (platform : Platform) (options : ValidationOptions) (t : Topology)
    : Type 0 where
  pub nodes : WellFormedNodes platform options t.nodes
  pub edges : WellFormedEdges t.nodes t.edges
  pub memberships : WellFormedMemberships t.nodes t.memberships
  pub groups : All (HasMembers t.memberships) t.nodes

-- A topology without an error has well-formed nodes, edges and memberships, and no empty group.
pub validate_topology-WellFormed :
    (platform : Platform) (options : ValidationOptions) (t : Topology)
    → has_errors (validate_topology platform options t) ≡ false
    → WellFormed platform options t
unfolding validate_topology
validate_topology-WellFormed platform options t h =
    let (a, h1) = no_errors-append _ _ h in
    let (b, h2) = no_errors-append _ _ h1 in
    let (c, h3) = no_errors-append _ _ h2 in
    let (d, e) = no_errors-append _ _ h3 in
    record {
      nodes = validate_nodes-WellFormed platform options t.nodes a;
      edges = validate_edges-WellFormed t.nodes t.edges b;
      memberships = validate_memberships-WellFormed t.nodes t.memberships c;
      groups = all-HasMembers t.nodes t.memberships d;
    }

-- Without an error there is no issue of a cycle that is one.
pub validate_topology-cycles :
    (platform : Platform) (options : ValidationOptions) (t : Topology)
    → has_errors (validate_topology platform options t) ≡ false
    → has_errors (find_unsafe_cycles t.nodes t.edges) ≡ false
unfolding validate_topology
validate_topology-cycles platform options t h =
    let (_, h1) = no_errors-append (validate_nodes platform options t.nodes) _ h in
    let (_, h2) = no_errors-append (validate_edges t.nodes t.edges) _ h1 in
    let (_, h3) = no_errors-append (validate_memberships t.nodes t.memberships) _ h2 in
    (no_errors-append (validate_groups_have_members t.nodes t.memberships) _ h3).1
