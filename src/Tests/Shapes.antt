-- ===== src/Tests/Shapes.antt =====
-- The shape of a small document.
use essentials_calls.Base.{◌≡◌, refl, []}
use essentials_calls.Base.Texts.{units, is_astral}
use essentials_calls.Json.{Json, text, number, array, object, nil, cons, end, field}
use essentials_calls.Model.{pos}
use essentials_calls.Validator.Shape.{
  validate_topology_shape, shape_frame, shape_parts, shape_node, shape_node_fields, shape_rest,
  shape_properties, is_string, each,
}
use essentials_calls.Validator.Shape.Typed.{IsTopology}
use essentials_calls.Validator.Shape.Sound.{validate_topology_shape-IsTopology}

abbrev menu : Json
menu = object (
    field "id" (text "menu") (
      field "type" (text "ivr") (
        field "label" (text "Menu") (
          field "properties"
            (object (
              field "greeting" (text "hello-world")
                (field "timeout" (number (pos 5)) (field "invalidRetries" (number (pos 2)) end))))
            end))))

abbrev document : Json
document = object (
    field "id" (text "t") (
      field "name" (text "Office") (
        field "nodes" (array (cons menu nil))
          (field "edges" (array nil) (field "memberships" (array nil) end)))))

document_passes : validate_topology_shape document ≡ []
unfolding validate_topology_shape shape_frame shape_parts shape_node shape_node_fields shape_rest
    shape_properties is_string each units is_astral
document_passes = refl

validate_topology_shape-IsTopology_example : IsTopology document
validate_topology_shape-IsTopology_example =
    validate_topology_shape-IsTopology document document_passes
