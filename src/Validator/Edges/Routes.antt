-- ===== src/Validator/Edges/Routes.antt =====
-- What one edge guarantees that passes the checks.
use essentials_calls.Base.{
  String, ◌≡◌, ◌≢◌, refl, Bool, true, false, not, ◌&&◌, Option, none, some, List, arith, inl, inr,
  ==_false, ◌==◌, not-false, Bool-cases,
}
use essentials_calls.Model.{
  NodeType, PbxNode, node_type, Edge, EdgeCondition, digit, timeout, invalid, open_hours, closed,
  unconditional,
}
use essentials_calls.Validator.Issue.{has_errors, report_if, report_if-append}
use essentials_calls.Validator.Pass.{ClaimsBy, Claims}
use essentials_calls.Validator.Transitions.{
  is_transition_allowed, is_ivr, is_schedule, is_voicemail,
}
use essentials_calls.Validator.Edges.{
  node_by_id, condition_of, condition_type, is_schedule_condition, is_dial_key, has_pair, Branches,
  check_condition, check_ends, check_route, check_edge,
}

-- The branch of its source that an edge takes.
abbrev pub digit_branch_of : EdgeCondition → String → Option (String × String)
digit_branch_of (digit v) source = some (source, v)
digit_branch_of _ source = none

abbrev pub other_branch_of : EdgeCondition → String → Option (String × String)
other_branch_of (digit v) source = none
other_branch_of c source = some (source, condition_type c)

abbrev pub digit_branch : Edge → Option (String × String)
digit_branch e = digit_branch_of (condition_of e) e.source

abbrev pub other_branch : Edge → Option (String × String)
other_branch e = other_branch_of (condition_of e) e.source

abbrev pub known_pair : String × String → List (String × String) → Bool
known_pair k ps = has_pair k.0 k.1 ps

-- What a condition asks of the type of the node that the edge leaves.
abbrev pub Fits : EdgeCondition → NodeType → Type 0
Fits (digit v) t = (is_ivr t ≡ true) × (is_dial_key v ≡ true)
Fits invalid t = is_ivr t ≡ true
Fits _ t = Unit {0}

pub record IsRouted (nodes : List PbxNode) (e : Edge) : Type 0 where
  pub source : PbxNode
  pub target : PbxNode
  pub from : node_by_id nodes e.source ≡ some source
  pub to : node_by_id nodes e.target ≡ some target
  pub no_loop : e.source ≢ e.target
  pub has_outputs : is_voicemail (node_type source) ≡ false
  pub allowed : is_transition_allowed (node_type source) (node_type target) ≡ true
  pub hours : is_schedule (node_type source) ≡ is_schedule_condition (condition_of e)
  pub fits : Fits (condition_of e) (node_type source)

check_condition-parts :
    (e : Edge) (source : PbxNode) (c : EdgeCondition) (s : Branches)
    → has_errors (check_condition e source c s).1 ≡ false
    → Fits c (node_type source)
      × ClaimsBy known_pair
          (digit_branch_of c e.source)
          s.digits
          (check_condition e source c s).0.digits
      × ClaimsBy known_pair
          (other_branch_of c e.source)
          s.singletons
          (check_condition e source c s).0.singletons
unfolding check_condition has_errors report_if
check_condition-parts e source (digit v) s h = (ground arith, ground arith, ground arith)
check_condition-parts e source invalid s h = (ground arith, ground arith, ground arith)
check_condition-parts e source timeout s h = (tt, ground arith, ground arith)
check_condition-parts e source open_hours s h = (tt, ground arith, ground arith)
check_condition-parts e source closed s h = (tt, ground arith, ground arith)
check_condition-parts e source unconditional s h = (tt, ground arith, ground arith)

check_condition-ids :
    (e : Edge) (source : PbxNode) (c : EdgeCondition) (s : Branches)
    → (check_condition e source c s).0.ids ≡ s.ids
unfolding check_condition
check_condition-ids e source (digit v) s = ground arith
check_condition-ids e source _ s = ground arith

-- What an edge takes and leaves of the sets that the loop keeps.
pub record EdgeStep (e : Edge) (s t : Branches) : Type 0 where
  pub ids : t.ids ≡ s.ids
  pub digits : ClaimsBy known_pair (digit_branch e) s.digits t.digits
  pub singletons : ClaimsBy known_pair (other_branch e) s.singletons t.singletons

same_hours : (a b : Bool) → (a && not b) ≡ false → (not a && b) ≡ false → a ≡ b
same_hours a b h k = ground arith

-- What the tests behind the early exits guarantee of an edge between two nodes.
record EndsParts (e : Edge) (source target : PbxNode) (s t : Branches) : Type 0 where
  allowed : is_transition_allowed (node_type source) (node_type target) ≡ true
  hours : is_schedule (node_type source) ≡ is_schedule_condition (condition_of e)
  fits : Fits (condition_of e) (node_type source)
  step : EdgeStep e s t

check_ends-parts :
    (e : Edge) (source target : PbxNode) (s : Branches)
    → has_errors (check_ends e source target s).1 ≡ false
    → EndsParts e source target s (check_ends e source target s).0
unfolding check_ends
check_ends-parts e source target s h =
    let (a, h1) = report_if-append _ _ _ refl h in
    let (b, h2) = report_if-append _ _ _ refl h1 in
    let (c, h3) = report_if-append _ _ _ refl h2 in
    let (fits, digits, singletons) = check_condition-parts e source (condition_of e) s h3 in
    record {
      allowed = not-false _ a;
      hours = same_hours _ _ b c;
      fits = fits;
      step = record {
        ids = check_condition-ids e source (condition_of e) s;
        digits = digits;
        singletons = singletons;
      };
    }

check_route-parts :
    (nodes : List PbxNode) (e : Edge) (source target : Option PbxNode) (s : Branches)
    → node_by_id nodes e.source ≡ source
    → node_by_id nodes e.target ≡ target
    → has_errors (check_route e source target s).1 ≡ false
    → IsRouted nodes e × EdgeStep e s (check_route e source target s).0
unfolding check_route has_errors
check_route-parts nodes e none target s from to h = cc
check_route-parts nodes e (some a) none s from to h = cc
check_route-parts nodes e (some a) (some b) s from to h = elim (Bool-cases (e.source == e.target)) [
  | inl loop ↦ cc (rw loop at h)
  | inr no_loop ↦ elim (Bool-cases (is_voicemail (node_type a))) [
    | inl vm ↦ cc (rw (no_loop, vm) at h)
    | inr outputs ↦
        let parts = check_ends-parts e a b s (rw (no_loop, outputs) at h) in
        (
          record {
            source = a;
            target = b;
            from = from;
            to = to;
            no_loop = ==_false _ _ no_loop;
            has_outputs = outputs;
            allowed = parts.allowed;
            hours = parts.hours;
            fits = parts.fits;
          },
          rw (no_loop, outputs) parts.step,
        )
  ]
]

-- An edge without an error joins two nodes as its type and condition allow, has a new id, and takes
-- a branch of its source that was free.
pub check_edge-parts :
    (nodes : List PbxNode) (e : Edge) (s : Branches)
    → has_errors (check_edge nodes e s).1 ≡ false
    → IsRouted nodes e
      × Claims (some e.id) s.ids (check_edge nodes e s).0.ids
      × ClaimsBy known_pair (digit_branch e) s.digits (check_edge nodes e s).0.digits
      × ClaimsBy known_pair (other_branch e) s.singletons (check_edge nodes e s).0.singletons
unfolding check_edge
check_edge-parts nodes e s h =
    let (a, b) = report_if-append _ _ _ refl h in
    let (routed, step) = check_route-parts nodes e _ _ _ refl refl b in
    (routed, (a, step.ids), step.digits, step.singletons)
