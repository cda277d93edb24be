-- ===== src/Validator/Cycles/Soundness.antt =====
-- What the search reports is true: each reported key is that of a closed walk in the graph, and an
-- error is reported only for a closed walk without an exit.
use essentials_calls.Base.{
  suc, String, ◌≡◌, ◌≢◌, refl, Bool, true, false, List, [], ◌∷◌, ◌++◌, contains, ==_iff, ◌==◌, any,
  inl, inr, if◌then◌else◌, Bool-cases, ◌∙◌, if_either, map, ltb, any-append, if_split,
}
use mathlib.Core.Bool.{or-false}
use essentials_calls.Model.{PbxNode, Edge}
use essentials_calls.Validator.Issue.{
  ValidationIssue, is_error, error, warning, graph_issue, has_errors, no_errors-append,
  has_errors-append,
}
use essentials_calls.Validator.Issue
use essentials_calls.Validator.Cycles.{
  cycle_key, is_exit_condition, Search, no_search, before, close_cycle, search_from, counted,
  report_cycle, max_cycles_explored, find_unsafe_cycles,
}
use essentials_calls.Validator.Cycles.Invariant.{Chain, search_invariant}

-- A key that was reported without an error is that of a closed walk with an exit.
abbrev pub Explained : List Edge → String → Type 0
Explained edges k =
    (start : String) × (c : List Edge) × Chain edges start start c
    × (c ≢ [])
    × (cycle_key c ≡ k)
    × (any is_exit_condition c ≡ true)

abbrev Explains : List Edge → Search → Type 0
Explains edges s =
    (k : String) → has_errors s.issues ≡ false → contains k s.reported ≡ true → Explained edges k

-- A closed walk without an exit.
abbrev pub ExitlessWalk : List Edge → Type 0
ExitlessWalk edges =
    (start : String) × (c : List Edge) × Chain edges start start c
    × (c ≢ [])
    × (any is_exit_condition c ≡ false)

-- Where the issues of a cycle have no error, it has an exit, and those before it have none.
exit_issues :
    (ok : Bool) (before after : List ValidationIssue)
    → after ≡ before ++ graph_issue error Issue.infinite_cycle ∷ []
    → has_errors (if ok then before else after) ≡ false
    → (ok ≡ true) × (has_errors before ≡ false)
unfolding has_errors
exit_issues true before after e h = (refl, h)
exit_issues false before after e h =
    let (_, last) = no_errors-append before _ (unfold has_errors in (rw e at h)) in cc last

module _ (edges : List Edge) where
  new_key :
      (start : String) (c : List Edge) (k : String) (seen : List String)
      → Chain edges start start c
      → c ≢ []
      → any is_exit_condition c ≡ true
      → (contains k seen ≡ true → Explained edges k)
      → contains k (cycle_key c ∷ seen) ≡ true
      → Explained edges k
  new_key start c k seen chain ne exit old h = elim (Bool-cases (cycle_key c == k)) [
    | inl same ↦ (start, c, chain, ne, (==_iff _ _).0 same, exit)
    | inr other ↦ old (rw other at h)
  ]

  report-Explains :
      (start : String) (c : List Edge) (s : Search)
      → Chain edges start start c
      → c ≢ []
      → Explains edges s
      → Explains edges (report_cycle c s)
  unfolding report_cycle
  report-Explains start c s chain ne old k fine rep =
      let (exit, fine') = exit_issues (any is_exit_condition c) s.issues _ refl fine in
      new_key start c k s.reported chain ne exit (old k fine') rep

  close-Explains :
      (start : String) (c : List Edge) (s : Search)
      → Chain edges start start c
      → c ≢ []
      → Explains edges s
      → Explains edges (close_cycle c s)
  unfolding close_cycle
  close-Explains start c s chain ne old =
      let cut : Search = record (counted s) { truncated = true } in
      let new : Search = report_cycle c (counted s) in
      if_either (Explains edges) (ltb max_cycles_explored (suc s.explored)) cut
        (if contains (cycle_key c) s.reported then counted s else new) old
        (if_either (Explains edges) (contains (cycle_key c) s.reported) (counted s) new old
          (report-Explains start c (counted s) chain ne old))

  -- Each key that the search has reported without an error is that of a closed walk with an exit.
  pub search_explains :
      (order starts : List String) (k : String)
      → has_errors (search_from order edges 0 starts no_search).issues ≡ false
      → contains k (search_from order edges 0 starts no_search).reported ≡ true
      → Explained edges k
  search_explains order starts k =
      search_invariant order edges (Explains edges) close-Explains 0 starts no_search
        (λ k fine none_yet. cc none_yet) k

  abbrev Blames : Search → Type 0
  Blames s = has_errors s.issues ≡ true → ExitlessWalk edges

  report-Blames :
      (start : String) (c : List Edge) (s : Search)
      → Chain edges start start c
      → c ≢ []
      → Blames s
      → Blames (report_cycle c s)
  unfolding report_cycle
  report-Blames start c s chain ne old =
      if_split (λ issues. has_errors issues ≡ true → ExitlessWalk edges) (any is_exit_condition c)
        s.issues _ (λ _. old) (λ e _. (start, c, chain, ne, e))

  close-Blames :
      (start : String) (c : List Edge) (s : Search)
      → Chain edges start start c
      → c ≢ []
      → Blames s
      → Blames (close_cycle c s)
  unfolding close_cycle
  close-Blames start c s chain ne old =
      let cut : Search = record (counted s) { truncated = true } in
      let new : Search = report_cycle c (counted s) in
      if_either Blames (ltb max_cycles_explored (suc s.explored)) cut
        (if contains (cycle_key c) s.reported then counted s else new) old
        (if_either Blames (contains (cycle_key c) s.reported) (counted s) new old
          (report-Blames start c (counted s) chain ne old))

  pub search_blames :
      (order starts : List String)
      → has_errors (search_from order edges 0 starts no_search).issues ≡ true
      → ExitlessWalk edges
  unfolding has_errors
  search_blames order starts =
      search_invariant order edges Blames close-Blames 0 starts no_search (λ h. cc h)

-- The warning of a search that was cut off is no error.
pub warning_only :
    (issues : List ValidationIssue) (b : Bool)
    → has_errors
        (issues ++ (if b then graph_issue warning Issue.cycle_check_truncated ∷ [] else []))
      ≡ has_errors issues
unfolding has_errors
warning_only issues true = any-append is_error issues _ ∙ or-false (any is_error issues)
warning_only issues false = any-append is_error issues _ ∙ or-false (any is_error issues)

-- An error of the cycle check is true: the graph has a closed walk without an exit.
pub find_unsafe_cycles_sound :
    (nodes : List PbxNode) (edges : List Edge)
    → has_errors (find_unsafe_cycles nodes edges) ≡ true
    → ExitlessWalk edges
unfolding find_unsafe_cycles
find_unsafe_cycles_sound nodes edges h = search_blames edges order order (rw warning_only at h)
  where
    order : List String
    order = map (λ n. n.id) nodes
