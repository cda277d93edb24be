-- ===== src/Generator/Routes/Hours.antt =====
-- The generator follows both edges of a schedule of a topology that passes the validation.
use mathlib.Core.List.{Memᴰ}
use essentials_calls.Base.{
  String, ◌≡◌, refl, true, false, Option, none, some, List, [], ◌∷◌, map, arith, ap, sym, ◌∙◌,
  subst, inl, inr, ◌⊎◌, All, All-intro, ==_false, length, All-mem, ==_iff, ◌==◌, mem_of_mem-filter,
}
use essentials_calls.Model.{
  NodeType, PbxNode, node_type, Edge, EdgeCondition, digit, timeout, invalid, open_hours, closed,
  unconditional, Topology,
}
use essentials_calls.Validator.Issue.{has_errors}
use essentials_calls.Validator.ScheduleNode.{Platform}
use essentials_calls.Validator.Nodes.{ValidationOptions}
use essentials_calls.Validator.Transitions.{is_schedule}
use essentials_calls.Validator.Edges.{condition_of, condition_type, is_schedule_condition}
use essentials_calls.Validator.Edges
use essentials_calls.Validator.Edges.WellFormed.{HasOutputs}
use essentials_calls.Validator.Topology.{validate_topology, validate_topology-WellFormed}
use essentials_calls.Generator.Routes.{outgoing, is_open_hours, is_closed, find_edge_by_condition}
use essentials_calls.Generator.Routes.Fallback.{edge_routed, source_type, outgoing_mem}

-- The types of the conditions of a list of edges.
abbrev types : List Edge → List String
types es = map (λ e. condition_type (condition_of e)) es

-- The search for the open edge, or for the closed one, finds this edge.
abbrev pub IsFollowed : List Edge → Edge → Type 0
IsFollowed es e =
    (find_edge_by_condition es is_open_hours ≡ some e)
    ⊎ (find_edge_by_condition es is_closed ≡ some e)

-- A condition of a schedule is met by one of the two searches.
schedule_condition :
    (c : Option EdgeCondition)
    → is_schedule_condition (elim c [ none ↦ unconditional | some d ↦ d ]) ≡ true
    → ((is_open_hours c ≡ true) × (is_closed c ≡ false))
      ⊎ ((is_open_hours c ≡ false) × (is_closed c ≡ true))
schedule_condition (some open_hours) h = inl (refl, refl)
schedule_condition (some closed) h = inr (refl, refl)
schedule_condition none h = cc
schedule_condition (some timeout) h = cc
schedule_condition (some invalid) h = cc
schedule_condition (some (digit v)) h = cc
schedule_condition (some unconditional) h = cc

first-IsFollowed :
    (a b : Edge) → is_schedule_condition (condition_of a) ≡ true → IsFollowed (a ∷ b ∷ []) a
unfolding find_edge_by_condition
first-IsFollowed a b h = elim (schedule_condition a.condition h) [
  | inl (o, c) ↦ inl (rw o refl)
  | inr (o, c) ↦ inr (rw c refl)
]

open_type :
    (c : Option EdgeCondition)
    → is_open_hours c ≡ true
    → condition_type (elim c [ none ↦ unconditional | some d ↦ d ]) ≡ "open"
open_type (some open_hours) h = refl
open_type none h = cc
open_type (some closed) h = cc
open_type (some timeout) h = cc
open_type (some invalid) h = cc
open_type (some (digit v)) h = cc
open_type (some unconditional) h = cc

closed_type :
    (c : Option EdgeCondition)
    → is_closed c ≡ true
    → condition_type (elim c [ none ↦ unconditional | some d ↦ d ]) ≡ "closed"
closed_type (some closed) h = refl
closed_type none h = cc
closed_type (some open_hours) h = cc
closed_type (some timeout) h = cc
closed_type (some invalid) h = cc
closed_type (some (digit v)) h = cc
closed_type (some unconditional) h = cc

not_twice : (x y a b : String) → (x == y) ≡ false → a ≡ y → b ≡ y → Memᴰ x (a ∷ b ∷ []) → ⊥
not_twice x y a b ne ea eb (Memᴰ.head e) = ==_false x y ne (e ∙ ea)
not_twice x y a b ne ea eb (Memᴰ.tail (Memᴰ.head e)) = ==_false x y ne (e ∙ eb)
not_twice x y a b ne ea eb (Memᴰ.tail (Memᴰ.tail m)) = elim m [ ]

second-IsFollowed :
    (a b : Edge)
    → is_schedule_condition (condition_of a) ≡ true
    → is_schedule_condition (condition_of b) ≡ true
    → Memᴰ "open" (types (a ∷ b ∷ []))
    → Memᴰ "closed" (types (a ∷ b ∷ []))
    → IsFollowed (a ∷ b ∷ []) b
unfolding find_edge_by_condition
second-IsFollowed a b ha hb some_open some_closed = elim (schedule_condition a.condition ha) [
  | inl (oa, ca) ↦ elim (schedule_condition b.condition hb) [
    | inl (ob, cb) ↦ absurd (
        not_twice "closed" "open" _ _ refl (open_type a.condition oa) (open_type b.condition ob)
          some_closed)
    | inr (ob, cb) ↦ inr (rw (ca, cb) refl)
  ]
  | inr (oa, ca) ↦ elim (schedule_condition b.condition hb) [
    | inl (ob, cb) ↦ inl (rw (oa, ob) refl)
    | inr (ob, cb) ↦ absurd (
        not_twice "open" "closed" _ _ refl (closed_type a.condition ca) (closed_type b.condition cb)
          some_open)
  ]
]

both-IsFollowed :
    (es : List Edge) (e : Edge)
    → length es ≡ 2
    → Memᴰ "open" (types es)
    → Memᴰ "closed" (types es)
    → All (λ f. is_schedule_condition (condition_of f) ≡ true) es
    → Memᴰ e es
    → IsFollowed es e
both-IsFollowed [] e l o c all m = elim m [ ]
both-IsFollowed (a ∷ []) e l o c all m = absurd (omega arith)
both-IsFollowed (a ∷ b ∷ []) e l o c all (Memᴰ.head q) =
    subst (IsFollowed (a ∷ b ∷ [])) (sym q) (first-IsFollowed a b all.0)
both-IsFollowed (a ∷ b ∷ []) e l o c all (Memᴰ.tail (Memᴰ.head q)) =
    subst (IsFollowed (a ∷ b ∷ [])) (sym q) (second-IsFollowed a b all.0 all.1.0 o c)
both-IsFollowed (a ∷ b ∷ []) e l o c all (Memᴰ.tail (Memᴰ.tail m)) = elim m [ ]
both-IsFollowed (a ∷ b ∷ d ∷ es) e l o c all m = absurd (omega arith)

schedule_outputs :
    (edges : List Edge) (n : PbxNode) (k : NodeType)
    → is_schedule k ≡ true
    → HasOutputs edges n k
    → Memᴰ "open" (Edges.output_types edges n.id)
      × Memᴰ "closed" (Edges.output_types edges n.id)
      × (length (Edges.outgoing edges n.id) ≡ 2)
schedule_outputs edges n NodeType.schedule h outputs = outputs
schedule_outputs edges n NodeType.extension h outputs = cc h
schedule_outputs edges n NodeType.ringgroup h outputs = cc h
schedule_outputs edges n NodeType.queue h outputs = cc h
schedule_outputs edges n NodeType.ivr h outputs = cc h
schedule_outputs edges n NodeType.voicemail h outputs = cc h
schedule_outputs edges n NodeType.trunk h outputs = cc h
schedule_outputs edges n NodeType.external h outputs = cc h

-- In a topology without an error, each edge that leaves a schedule is the open edge or the closed
-- edge that the generated configuration leads to.
pub schedule-IsFollowed :
    (platform : Platform) (options : ValidationOptions) (t : Topology) (n : PbxNode) (e : Edge)
    → has_errors (validate_topology platform options t) ≡ false
    → Memᴰ n t.nodes
    → Memᴰ e t.edges
    → e.source ≡ n.id
    → is_schedule (node_type n) ≡ true
    → IsFollowed (outgoing t n.id) e
unfolding outgoing Edges.outgoing
schedule-IsFollowed platform options t n e fine mn me from h =
    let formed = validate_topology-WellFormed platform options t fine in
    let (o, c, two) =
      schedule_outputs t.edges n (node_type n) h
        (All-mem (λ m. HasOutputs t.edges m (node_type m)) t.nodes formed.edges.outputs mn) in
    both-IsFollowed (outgoing t n.id) e two o c
      (All-intro _ (outgoing t n.id) λ f m.
        let (mf, here) = mem_of_mem-filter _ t.edges m in
        let from_f = (==_iff f.source n.id).0 here in
        sym (edge_routed platform options t formed n f mn mf from_f).hours
        ∙ ap is_schedule (source_type platform options t formed n f mn mf from_f)
        ∙ h)
      (outgoing_mem platform options t formed n e mn me from)
