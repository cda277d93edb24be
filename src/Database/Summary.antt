-- ===== src/Database/Summary.antt =====
-- The text that describes a change of a topology: `topologySummary`. `same` stands for the
-- comparison of two nodes by `JSON.stringify`.
use essentials_calls.Base.{
  String, Bool, false, not, Option, none, some, List, [], ◌∷◌, length, filter, nat_eq,
  if◌then◌else◌, ℕ,
}
use essentials_calls.Base.Entries.{Entries, lookup, set, is_some}
use essentials_calls.Base.Texts.{◌<>◌, is_empty, join}
use essentials_calls.Generator.Values.{show}
use essentials_calls.Model.{PbxNode, Topology}

-- `new Map(nodes.map((node) => [node.id, node]))`
unfoldable pub by_id : List PbxNode → Entries PbxNode → Entries PbxNode
by_id [] m = m
by_id (n ∷ ns) m = by_id ns (set n.id n m)

abbrev pub keys : Entries PbxNode → List String
keys [] = []
keys ((k, n) ∷ rest) = k ∷ keys rest

-- `+2 nodes (a, b)`, or nothing where there are none.
unfoldable pub nodes_part : String → List String → String
nodes_part sign [] = ""
nodes_part sign (id ∷ ids) =
    sign <> show (length (id ∷ ids)) <> " nodes (" <> join ", " (id ∷ ids) <> ")"

unfoldable pub count_part : String → ℕ → ℕ → String
count_part name before after =
    if nat_eq before after then "" else name <> " " <> show before <> "→" <> show after

module _ (same : PbxNode → PbxNode → Bool) where
  unfoldable pub is_changed : Option PbxNode → Option PbxNode → Bool
  is_changed (some before) (some after) = not (same before after)
  is_changed _ _ = false

  unfoldable pub summary_of : Entries PbxNode → Entries PbxNode → Topology → Topology → String
  unfolding nodes_part count_part is_changed
  summary_of before after previous next =
      let parts =
        filter (λ (s : String). not (is_empty s))
          (nodes_part "+" (filter (λ id. not (is_some (lookup id before))) (keys after))
            ∷ nodes_part "-" (filter (λ id. not (is_some (lookup id after))) (keys before))
            ∷ nodes_part "~"
                (filter (λ id. is_changed (lookup id before) (lookup id after)) (keys after))
            ∷ count_part "edges" (length previous.edges) (length next.edges)
            ∷ count_part "memberships" (length previous.memberships) (length next.memberships)
            ∷ []) in
      let text = join "; " parts in if is_empty text then "No topology content change" else text

  unfoldable pub topology_summary : Option Topology → Topology → String
  unfolding summary_of by_id
  topology_summary none next =
      "Initial topology: "
      <> show (length next.nodes)
      <> " nodes, "
      <> show (length next.edges)
      <> " edges"
  topology_summary (some previous) next =
      summary_of (by_id previous.nodes []) (by_id next.nodes []) previous next
