-- ===== src/Generator/Routes.antt =====
-- How the generator follows the edges and memberships of a topology: `outgoing`,
-- `findEdgeByCondition`, `findFallbackEdge`, `membersOf` of configGenerator.ts.
pub mod Fallback
pub mod Hours
pub mod Members
use essentials_calls.Base.{
  String, Bool, true, false, Option, none, some, List, [], ◌∷◌, ◌==◌, find, filter, if◌then◌else◌,
}
use essentials_calls.Model.{
  Number, pos, number_before, ExtensionProperties, Properties, PbxNode, Edge, EdgeCondition, digit,
  timeout, invalid, open_hours, closed, unconditional, Membership, Topology,
}

-- An extension node with its properties.
pub record ExtensionNode : Type 0 where
  pub node : PbxNode
  pub properties : ExtensionProperties

abbrev pub extension_of : PbxNode → Properties → Option ExtensionNode
extension_of n (Properties.extension p) = some (record { node = n; properties = p })
extension_of n _ = none

-- `topology.nodes.filter((n) => n.type === 'extension')`
unfoldable pub extension_nodes : List PbxNode → List ExtensionNode
extension_nodes [] = []
extension_nodes (n ∷ ns) = elim (extension_of n n.properties) [
  | some e ↦ e ∷ extension_nodes ns
  | none ↦ extension_nodes ns
]

unfoldable pub outgoing : Topology → String → List Edge
outgoing t source_id = filter (λ e. e.source == source_id) t.edges

-- `e.condition?.type === ...`
abbrev pub is_timeout : Option EdgeCondition → Bool
is_timeout (some timeout) = true
is_timeout _ = false

abbrev pub is_invalid_entry : Option EdgeCondition → Bool
is_invalid_entry (some invalid) = true
is_invalid_entry _ = false

abbrev pub is_open_hours : Option EdgeCondition → Bool
is_open_hours (some open_hours) = true
is_open_hours _ = false

abbrev pub is_closed : Option EdgeCondition → Bool
is_closed (some closed) = true
is_closed _ = false

abbrev pub is_fallback : Option EdgeCondition → Bool
is_fallback none = true
is_fallback (some timeout) = true
is_fallback (some unconditional) = true
is_fallback _ = false

-- `findEdgeByCondition`, with the test of the condition.
unfoldable pub find_edge_by_condition : List Edge → (Option EdgeCondition → Bool) → Option Edge
find_edge_by_condition edges test = find (λ e. test e.condition) edges

unfoldable pub find_fallback_edge : List Edge → Option Edge
find_fallback_edge edges = find (λ e. is_fallback e.condition) edges

-- A digit of a menu, with where it leads.
pub record DigitEdge : Type 0 where
  pub value : String
  pub edge : Edge

abbrev pub digit_of : Edge → Option EdgeCondition → Option DigitEdge
digit_of e (some (digit v)) = some (record { value = v; edge = e })
digit_of e _ = none

unfoldable pub digit_edges : List Edge → List DigitEdge
digit_edges [] = []
digit_edges (e ∷ es) = elim (digit_of e e.condition) [
  | some d ↦ d ∷ digit_edges es
  | none ↦ digit_edges es
]

-- A member of a group, with its extension.
pub record Member : Type 0 where
  pub membership : Membership
  pub ext : ExtensionNode

-- `m.membership.position ?? 0`
abbrev pub position_of : Member → Number
position_of m = elim m.membership.position [ none ↦ pos 0 | some x ↦ x ]

-- `.sort((a, b) => ...)`, which is stable.
unfoldable pub insert_member : Member → List Member → List Member
insert_member m [] = m ∷ []
insert_member m (n ∷ ns) =
    let rest = insert_member m ns in
    if number_before (position_of n) (position_of m) then n ∷ rest else m ∷ n ∷ ns

unfoldable pub sort_members : List Member → List Member
sort_members [] = []
sort_members (m ∷ ms) = insert_member m (sort_members ms)

-- The extension that a membership names, where the first node with that id is one.
abbrev pub extension_found : Option PbxNode → Option ExtensionNode
extension_found none = none
extension_found (some n) = extension_of n n.properties

unfoldable pub joined : List PbxNode → String → List Membership → List Member
joined nodes group_id [] = []
joined nodes group_id (m ∷ ms) =
    let rest = joined nodes group_id ms in
    if m.group_id == group_id
    then elim (extension_found (find (λ n. n.id == m.member_id) nodes)) [
      | some x ↦ record { membership = m; ext = x } ∷ rest
      | none ↦ rest
    ]
    else rest

unfoldable pub members_of : Topology → String → List Member
members_of t group_id = sort_members (joined t.nodes group_id t.memberships)
