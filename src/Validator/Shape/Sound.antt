-- ===== src/Validator/Shape/Sound.antt =====
-- From `validateTopologyShape` to the type of a topology.
use essentials_calls.Base.{
  ℕ, ◌≤◌, ◌≡◌, refl, false, not, ◌&&◌, ◌||◌, Option, none, some, List, [], ◌∷◌, ltb, arith,
}
use essentials_calls.Base.Entries.{is_some}
use essentials_calls.Json.{Json, Fields, null, bool, number, text, array, object, get}
use essentials_calls.Validator.Shape.{
  malformed_node, malformed_topology, topology_too_complex, ShapeCode, is_string, is_text, is_array,
  record_of, object_of, elements_of, count, each, text_of, is_one_of, node_types, is_position,
  shape_rest, shape_node_fields, shape_node, shape_edge, shape_membership, shape_frame, shape_parts,
  shape_fields, shape_record, validate_topology_shape,
}
use essentials_calls.Validator.Shape.Readers.{
  append_nil, report_nil, report_then, HasText, has_text, has_string, has_array, has_record,
  each_nil, not_or, was_true,
}
use essentials_calls.Validator.Shape.Typed.{IsNode, IsEdge, IsMembership, IsTopology, typed_edge}
use essentials_calls.Validator.Shape.Parts.{typed_membership, sound_place, typed_properties}

typed_node : (j : Json) → shape_node j ≡ [] → IsNode j
unfolding shape_node shape_rest
typed_node j h = fields_of (object_of j) refl h
  where
    properties_of :
        (fs : Fields) (o : Option Json)
        → get "properties" fs ≡ o
        → shape_rest fs (record_of o) ≡ []
        → (p : Fields) × (o ≡ some (object p)) × (shape_rest fs (some p) ≡ [])
    properties_of fs none e k = cc k
    properties_of fs (some (object p)) e k = (p, refl, k)
    properties_of fs (some (array xs)) e k = cc k
    properties_of fs (some null) e k = cc k
    properties_of fs (some (bool b)) e k = cc k
    properties_of fs (some (number n)) e k = cc k
    properties_of fs (some (text s)) e k = cc k

    fields_of : (o : Option Fields) → object_of j ≡ o → shape_node_fields o ≡ [] → IsNode j
    fields_of none e k = cc k
    fields_of (some fs) e k =
        let (i, k₁) = report_then (not (is_string 128 (get "id" fs))) malformed_node _ k in
        let bad_type =
          not (is_string 32 (get "type" fs)) || not (is_one_of node_types (get "type" fs)) in
        let (t, k₂) = report_then bad_type malformed_node _ k₁ in
        let (l, k₃) = report_then (not (is_string 200 (get "label" fs))) malformed_node _ k₂ in
        let (p, are, k₄) = properties_of fs (get "properties" fs) refl k₃ in
        let (at, k₅) =
          report_then
            (is_some (get "position" fs) && not (is_position (record_of (get "position" fs))))
            malformed_node _ k₄ in
        let (t₁, t₂) = not_or (is_string 32 (get "type" fs)) _ t in
        record {
          fields = fs;
          is = e;
          id = has_string 128 (get "id" fs) (was_true _ i);
          type = has_string 32 (get "type" fs) t₁;
          known = was_true _ t₂;
          label = has_string 200 (get "label" fs) (was_true _ l);
          position = has_record _ is_position (get "position" fs) refl sound_place at;
          properties = p;
          are = are;
          typed = typed_properties (text_of (get "type" fs)) p k₅;
        }

few : (n k : ℕ) → ltb k n ≡ false → n ≤ k
few n k h = ground arith

typed_parts :
    (t : Fields)
    → get "nodes" t ≡ some (array (elements_of (get "nodes" t)))
    → get "edges" t ≡ some (array (elements_of (get "edges" t)))
    → get "memberships" t ≡ some (array (elements_of (get "memberships" t)))
    → HasText "id" t
    → HasText "name" t
    → shape_parts t ≡ []
    → IsTopology (object t)
unfolding shape_parts
typed_parts t ns es ms id name h =
    let (n, h₁) =
      report_then (ltb 1000 (count (elements_of (get "nodes" t)))) topology_too_complex _ h in
    let (e, h₂) =
      report_then (ltb 5000 (count (elements_of (get "edges" t)))) topology_too_complex _ h₁ in
    let (m, h₃) =
      report_then (ltb 5000 (count (elements_of (get "memberships" t)))) topology_too_complex _
        h₂ in
    let (nodes, h₄) = append_nil (each shape_node (elements_of (get "nodes" t))) _ h₃ in
    let (edges, memberships) = append_nil (each shape_edge (elements_of (get "edges" t))) _ h₄ in
    record {
      fields = t;
      is = refl;
      id = id;
      name = name;
      nodes = (elements_of (get "nodes" t), ns, each_nil shape_node IsNode _ typed_node nodes);
      edges = (elements_of (get "edges" t), es, each_nil shape_edge IsEdge _ typed_edge edges);
      memberships = (
        elements_of (get "memberships" t),
        ms,
        each_nil shape_membership IsMembership _ typed_membership memberships,
      );
      few_nodes = few _ 1000 n;
      few_edges = few _ 5000 e;
      few_memberships = few _ 5000 m;
    }

typed_frame :
    (t : Fields) (codes : List ShapeCode)
    → shape_frame t ≡ codes
    → shape_fields t codes ≡ []
    → IsTopology (object t)
unfolding shape_frame shape_fields
typed_frame t (code ∷ codes) e h = cc h
typed_frame t [] e h =
    let (i, h₁) = report_then (not (is_text (get "id" t))) malformed_topology _ e in
    let (n, h₂) = report_then (not (is_text (get "name" t))) malformed_topology _ h₁ in
    let (a, h₃) = report_then (not (is_array (get "nodes" t))) malformed_topology _ h₂ in
    let (b, h₄) = report_then (not (is_array (get "edges" t))) malformed_topology _ h₃ in
    typed_parts t (has_array (get "nodes" t) (was_true _ a))
      (has_array (get "edges" t) (was_true _ b))
      (has_array (get "memberships" t) (was_true _ (report_nil _ malformed_topology h₄)))
      (has_text (get "id" t) i) (has_text (get "name" t) n) h

-- A JSON value without an issue of its shape is an object with an id, a name and lists of at most
-- 1000 nodes, 5000 edges and 5000 memberships, each element of which has the fields that its kind,
-- or the type of the node, asks for, with the types and the lengths that they are to have.
pub validate_topology_shape-IsTopology :
    (input : Json) → validate_topology_shape input ≡ [] → IsTopology input
unfolding validate_topology_shape shape_record
validate_topology_shape-IsTopology (object t) h = typed_frame t (shape_frame t) refl h
validate_topology_shape-IsTopology (array xs) h = cc h
validate_topology_shape-IsTopology null h = cc h
validate_topology_shape-IsTopology (bool b) h = cc h
validate_topology_shape-IsTopology (number n) h = cc h
validate_topology_shape-IsTopology (text s) h = cc h
