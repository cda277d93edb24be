-- ===== src/Validator/Cycles.antt =====
-- The search for cycles without an exit: `findUnsafeCycles` of shared/src/validator.ts.
mod Keys
pub mod Completeness
pub mod Invariant
pub mod Soundness
pub mod Exits
pub mod Simple
pub mod Rotation
pub mod HaveExits
unfoldable pub use Keys.*
use essentials_calls.Base.{
  ℕ, zero, suc, ◌+◌, String, Bool, true, false, not, ◌&&◌, ◌||◌, Option, none, some, List, [], ◌∷◌,
  ◌++◌, map,
}
use essentials_calls.Base.{any, find, filter, contains, ltb, length, ◌==◌, if◌then◌else◌}
use essentials_calls.Model.{PbxNode, Edge, EdgeCondition, timeout, invalid, Topology}
use essentials_calls.Validator.Issue.{ValidationIssue, error, warning, graph_issue}
use essentials_calls.Validator.Issue

abbrev pub max_cycles_explored : ℕ
max_cycles_explored = 5000

abbrev pub is_exit : Option EdgeCondition → Bool
is_exit (some EdgeCondition.timeout) = true
is_exit (some EdgeCondition.invalid) = true
is_exit _ = false

unfoldable pub is_exit_condition : Edge → Bool
is_exit_condition e = is_exit e.condition

-- `new Map(order.map((id, i) => [id, i]))`: of equal ids the last one counts.
unfoldable pub index_from : ℕ → String → List String → Option ℕ
index_from i id [] = none
index_from i id (x ∷ xs) = elim (index_from (suc i) id xs) [
  | some j ↦ some j
  | none ↦ if x == id then some i else none
]

-- `index.get(target)! < start`; only edges between known nodes are searched.
abbrev pub before : Option ℕ → ℕ → Bool
before none start = true
before (some i) start = ltb i start

-- What the search keeps between two cycles.
pub record Search : Type 0 where
  pub reported : List String
  pub explored : ℕ
  pub truncated : Bool
  pub issues : List ValidationIssue

abbrev pub no_search : Search
no_search = record { reported = []; explored = 0; truncated = false; issues = [] }

-- `explored++`
abbrev pub counted : Search → Search
counted s = record s { explored = suc s.explored }

-- A cycle with a new key: an issue is raised if no edge of the cycle is an exit.
unfoldable pub report_cycle : List Edge → Search → Search
report_cycle cycle s = record s {
  reported = cycle_key cycle ∷ s.reported;
  issues =
      if any is_exit_condition cycle
      then s.issues
      else s.issues ++ graph_issue error Issue.infinite_cycle ∷ [];
}

-- A cycle is closed. Past the limit the search is cut off; a cycle with a known key is skipped.
unfoldable pub close_cycle : List Edge → Search → Search
unfolding report_cycle
close_cycle cycle s =
    if ltb max_cycles_explored (suc s.explored)
    then record (counted s) { truncated = true }
    else if contains (cycle_key cycle) s.reported
    then counted s
    else report_cycle cycle (counted s)

module _ (order : List String) (edges : List Edge) where
  unfoldable pub index_of : String → Option ℕ
  unfolding index_from
  index_of id = index_from 0 id order

  -- `outgoing.get(id) ?? []`: the edges from a node, between nodes that exist.
  unfoldable pub edges_from : String → List Edge
  edges_from id =
      filter (λ e. e.source == id && contains e.source order && contains e.target order) edges

  module _ (start_index : ℕ) (start : String) where
    -- One edge of the loop of `walk`. `visit` is the recursive call of `walk`, for a longer path.
    unfoldable pub follow :
        (String → List String → List Edge → Search → Search)
        → List String
        → List Edge
        → Edge
        → Search
        → Search
    follow visit on_path path e s =
        if before (index_of e.target) start_index
        then s
        else if e.target == start
        then close_cycle (path ++ e ∷ []) s
        else if contains e.target on_path
        then s
        else visit e.target (e.target ∷ on_path) (path ++ e ∷ []) s

    -- The loop of `walk` over the edges of a node; it ends early when the search is cut off.
    unfoldable pub scan :
        (String → List String → List Edge → Search → Search)
        → List String
        → List Edge
        → List Edge
        → Search
        → Search
    scan visit on_path path [] s = s
    scan visit on_path path (e ∷ es) s =
        let next = follow visit on_path path e s in
        let rest = scan visit on_path path es next in if next.truncated then next else rest

    -- `walk`, on fuel: a path has at most one edge for each node.
    unfoldable pub walk : ℕ → String → List String → List Edge → Search → Search
    walk zero current on_path path s = s
    walk (suc fuel) current on_path path s =
        let found = scan (walk fuel) on_path path (edges_from current) s in
        if s.truncated then s else found

  -- The loop over the start nodes, from an index on.
  unfoldable pub search_from : ℕ → List String → Search → Search
  search_from i [] s = s
  search_from i (start ∷ starts) s =
      let found = walk i start (suc (length order)) start (start ∷ []) [] s in
      let rest = search_from (suc i) starts found in if found.truncated then found else rest

unfoldable pub find_unsafe_cycles : List PbxNode → List Edge → List ValidationIssue
find_unsafe_cycles nodes edges =
    let order = map (λ n. n.id) nodes in
    let found = search_from order edges 0 order no_search in
    found.issues
    ++ (if found.truncated then graph_issue warning Issue.cycle_check_truncated ∷ [] else [])
