-- ===== src/Validator/Edges/WellFormed.antt =====
-- What a list of edges guarantees that passes the checks: `validateEdges` is sound.
use mathlib.Core.List.{Memᴰ}
use essentials_calls.Base.{
  ℕ, ◌≤◌, String, ◌≡◌, ◌≢◌, refl, true, false, some, List, ◌∷◌, map, subst, ap, arith, All,
  Distinct, length, contains_true, not-false, or_false, ==_iff, ◌==◌, nat_eq, ltb, ◌&&◌,
}
use essentials_calls.Model.{NodeType, PbxNode, node_type, Edge}
use essentials_calls.Validator.Issue.{
  ValidationIssue, has_errors, no_errors-append, report_if-append, report_if-false,
}
use essentials_calls.Validator.Pass.{
  pass-All, pass-Distinct, pass-Distinct_by, each-All, collect, collect-map,
}
use essentials_calls.Validator.Edges.{
  outgoing, output_types, Branches, no_branches, check_edge, check_outputs, validate_edges,
}
use essentials_calls.Validator.Edges.Routes.{
  IsRouted, digit_branch, other_branch, known_pair, check_edge-parts,
}

-- What the outputs of a node of each type are.
abbrev pub HasOutputs : List Edge → PbxNode → NodeType → Type 0
HasOutputs edges n NodeType.ivr = Unit {0}
HasOutputs edges n NodeType.voicemail = Unit {0}
HasOutputs edges n NodeType.schedule =
    Memᴰ "open" (output_types edges n.id)
    × Memᴰ "closed" (output_types edges n.id)
    × (length (outgoing edges n.id) ≡ 2)
HasOutputs edges n _ = length (outgoing edges n.id) ≤ 1

pub record WellFormedEdges (nodes : List PbxNode) (edges : List Edge) : Type 0 where
  pub routed : All (IsRouted nodes) edges
  pub ids : Distinct (map (λ (e : Edge). e.id) edges)
  pub digits : Distinct (collect digit_branch edges)
  pub others : Distinct (collect other_branch edges)
  pub outputs : All (λ n. HasOutputs edges n (node_type n)) nodes

known_pair_miss :
    (k j : String × String) (seen : List (String × String))
    → known_pair k (j ∷ seen) ≡ false
    → (j ≢ k) × (known_pair k seen ≡ false)
known_pair_miss (a, b) (x, y) seen h =
    let (differ, rest) = or_false (x == a && y == b) _ h in
    (
      (λ e. cc (
        differ,
        both (ap (λ (p : String × String). p.0) e) (ap (λ (p : String × String). p.1) e),
      )),
      rest,
    )
  where
    both : x ≡ a → y ≡ b → (x == a && y == b) ≡ true
    both p q = ground (arith, ==_iff x a, ==_iff y b)

check_outputs-HasOutputs :
    (edges : List Edge) (digits : List (String × String)) (n : PbxNode) (t : NodeType)
    → has_errors (check_outputs edges digits n t) ≡ false
    → HasOutputs edges n t
unfolding check_outputs
check_outputs-HasOutputs edges digits n NodeType.ivr h = tt
check_outputs-HasOutputs edges digits n NodeType.schedule h =
    let (a, h1) = report_if-append _ _ _ refl h in
    let (b, h2) = report_if-append _ _ _ refl h1 in
    let c = not-false _ (report_if-false _ _ refl h2) in
    (contains_true "open" _ (not-false _ a), contains_true "closed" _ (not-false _ b), two _ c)
  where
    two : (k : ℕ) → nat_eq k 2 ≡ true → k ≡ 2
    two k e = ground arith
check_outputs-HasOutputs edges digits n NodeType.voicemail h = tt
check_outputs-HasOutputs edges digits n _ h = at_most_one _ (report_if-false _ _ refl h)
  where
    at_most_one : (k : ℕ) → ltb 1 k ≡ false → k ≤ 1
    at_most_one k e = ground arith

-- Edges without an error join nodes as their types and conditions allow, have distinct ids, and take
-- distinct branches of their sources; a schedule has an open and a closed output and no other, and
-- any other node, unless it is a menu or a mailbox, has at most one output.
pub validate_edges-WellFormed :
    (nodes : List PbxNode) (edges : List Edge)
    → has_errors (validate_edges nodes edges) ≡ false
    → WellFormedEdges nodes edges
unfolding validate_edges
validate_edges-WellFormed nodes edges h =
    let (a, b) = no_errors-append _ _ h in
    record {
      routed = pass-All check _ (λ e s k. (check_edge-parts nodes e s k).0) edges no_branches a;
      ids = subst Distinct (collect-map (λ (e : Edge). e.id) edges) (
          pass-Distinct check (λ s. s.ids) (λ e. some e.id)
            (λ e s k. (check_edge-parts nodes e s k).1) edges no_branches a);
      digits =
          (pass-Distinct_by known_pair known_pair_miss check (λ s. s.digits) digit_branch
            (λ e s k. (check_edge-parts nodes e s k).2) edges no_branches a).0;
      others =
          (pass-Distinct_by known_pair known_pair_miss check (λ s. s.singletons) other_branch
            (λ e s k. (check_edge-parts nodes e s k).3) edges no_branches a).0;
      outputs = each-All _ _ (λ n k. check_outputs-HasOutputs edges _ n (node_type n) k) nodes b;
    }
  where
    check : Edge → Branches → Branches × List ValidationIssue
    check = check_edge nodes
