-- ===== src/Generator/Routes/Fallback.antt =====
-- The generator follows each edge of a topology that passes the validation: the edge out of an
-- extension, a ring group or a queue, and the two edges out of a schedule.
use mathlib.Core.List.{Memᴰ}
use essentials_calls.Base.{
  ◌≤◌, String, ◌≡◌, refl, Bool, true, false, Option, none, some, List, [], ◌∷◌, map, arith, ap, sym,
  ◌∙◌, subst, find_sound, length, All-mem, Distinct, ==_iff, ◌==◌, mem-filter_of_mem,
}
use essentials_calls.Base.Members.{Distinct-injective}
use essentials_calls.Model.{
  NodeType, PbxNode, node_type, Edge, EdgeCondition, digit, timeout, invalid, open_hours, closed,
  unconditional, Topology,
}
use essentials_calls.Validator.Issue.{has_errors}
use essentials_calls.Validator.ScheduleNode.{Platform}
use essentials_calls.Validator.Nodes.{ValidationOptions}
use essentials_calls.Validator.Transitions.{is_ivr, is_schedule}
use essentials_calls.Validator.Edges.{node_by_id, condition_of, is_schedule_condition}
use essentials_calls.Validator.Edges
use essentials_calls.Validator.Edges.Routes.{IsRouted, Fits}
use essentials_calls.Validator.Edges.WellFormed.{HasOutputs}
use essentials_calls.Validator.Topology.{
  validate_topology, validate_topology-WellFormed, WellFormed,
}
use essentials_calls.Generator.Routes.{outgoing, is_fallback, find_fallback_edge}

-- The types of node with one successor, where a call goes that nobody takes.
abbrev pub has_fallback : NodeType → Bool
has_fallback NodeType.extension = true
has_fallback NodeType.ringgroup = true
has_fallback NodeType.queue = true
has_fallback _ = false

-- A list of at most one element is that of its member.
only_member : {A : Type 0} (xs : List A) {x : A} → length xs ≤ 1 → Memᴰ x xs → xs ≡ x ∷ []
only_member [] h m = elim m [ ]
only_member (y ∷ []) h (Memᴰ.head e) = ap (λ z. z ∷ []) (sym e)
only_member (y ∷ []) h (Memᴰ.tail m) = elim m [ ]
only_member (y ∷ z ∷ zs) h m = absurd (omega arith)

not_schedule : (t : NodeType) → has_fallback t ≡ true → is_schedule t ≡ false
not_schedule NodeType.schedule h = cc
not_schedule _ h = refl

not_ivr : (t : NodeType) → has_fallback t ≡ true → is_ivr t ≡ false
not_ivr NodeType.ivr h = cc
not_ivr _ h = refl

abbrev given : Option EdgeCondition → EdgeCondition
given c = elim c [ none ↦ unconditional | some d ↦ d ]

fallback_condition :
    (t : NodeType) (c : Option EdgeCondition)
    → has_fallback t ≡ true
    → is_schedule t ≡ is_schedule_condition (given c)
    → Fits (given c) t
    → is_fallback c ≡ true
fallback_condition t none h hours fits = refl
fallback_condition t (some timeout) h hours fits = refl
fallback_condition t (some unconditional) h hours fits = refl
fallback_condition t (some open_hours) h hours fits = cc (hours, not_schedule t h)
fallback_condition t (some closed) h hours fits = cc (hours, not_schedule t h)
fallback_condition t (some invalid) h hours fits = cc (fits, not_ivr t h)
fallback_condition t (some (digit v)) h hours fits = cc (fits.0, not_ivr t h)

-- The node that an edge leaves, by its id.
source_is :
    (nodes : List PbxNode) (n m : PbxNode) (id : String)
    → Distinct (map (λ (x : PbxNode). x.id) nodes)
    → Memᴰ n nodes
    → node_by_id nodes id ≡ some m
    → id ≡ n.id
    → m ≡ n
unfolding node_by_id
source_is nodes n m id ids mem found e =
    let (there, same) = find_sound (λ x. x.id == id) nodes found in
    Distinct-injective (λ (x : PbxNode). x.id) nodes ids there mem ((==_iff m.id id).0 same ∙ e)

few_outputs :
    (edges : List Edge) (n : PbxNode) (t : NodeType)
    → has_fallback t ≡ true
    → HasOutputs edges n t
    → length (Edges.outgoing edges n.id) ≤ 1
few_outputs edges n NodeType.extension h outputs = outputs
few_outputs edges n NodeType.ringgroup h outputs = outputs
few_outputs edges n NodeType.queue h outputs = outputs
few_outputs edges n NodeType.ivr h outputs = cc h
few_outputs edges n NodeType.schedule h outputs = cc h
few_outputs edges n NodeType.voicemail h outputs = cc h
few_outputs edges n NodeType.trunk h outputs = cc h
few_outputs edges n NodeType.external h outputs = cc h

module _ (platform : Platform) (options : ValidationOptions) (t : Topology)
    (formed : WellFormed platform options t) (n : PbxNode) (e : Edge) (mn : Memᴰ n t.nodes)
    (me : Memᴰ e t.edges) (from : e.source ≡ n.id) where
  pub edge_routed : IsRouted t.nodes e
  edge_routed = All-mem (IsRouted t.nodes) t.edges formed.edges.routed me

  pub source_type : node_type edge_routed.source ≡ node_type n
  source_type =
      ap node_type
        (source_is t.nodes n edge_routed.source e.source formed.nodes.ids mn edge_routed.from from)

  pub outgoing_mem : Memᴰ e (outgoing t n.id)
  unfolding outgoing
  outgoing_mem = mem-filter_of_mem _ t.edges me ((==_iff e.source n.id).1 from)

  fallback_found : has_fallback (node_type n) ≡ true → find_fallback_edge (outgoing t n.id) ≡ some e
  unfolding find_fallback_edge outgoing Edges.outgoing
  fallback_found h =
      let few : length (outgoing t n.id) ≤ 1 =
        few_outputs t.edges n (node_type n) h
          (All-mem (λ m. HasOutputs t.edges m (node_type m)) t.nodes formed.edges.outputs mn) in
      let one = only_member (outgoing t n.id) few outgoing_mem in
      let hours =
        subst (λ k. is_schedule k ≡ is_schedule_condition (condition_of e)) source_type
          edge_routed.hours in
      let fits = subst (λ k. Fits (condition_of e) k) source_type edge_routed.fits in
      let test = fallback_condition (node_type n) e.condition h hours fits in rw (one, test) refl

-- In a topology without an error, the edge that leaves an extension, a ring group or a queue is the
-- one that the generated configuration falls back to: none is dropped.
pub fallback_is_followed :
    (platform : Platform) (options : ValidationOptions) (t : Topology) (n : PbxNode) (e : Edge)
    → has_errors (validate_topology platform options t) ≡ false
    → Memᴰ n t.nodes
    → Memᴰ e t.edges
    → e.source ≡ n.id
    → has_fallback (node_type n) ≡ true
    → find_fallback_edge (outgoing t n.id) ≡ some e
fallback_is_followed platform options t n e fine mn me from h =
    fallback_found platform options t (validate_topology-WellFormed platform options t fine) n e mn
      me from h
