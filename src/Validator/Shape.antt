-- ===== src/Validator/Shape.antt =====
-- The test of the shape of a JSON value, which runs before any rule: `validateTopologyShape`.
-- A field that is missing is `undefined`. Of an issue the code is modelled: each is an error.
pub mod Readers
pub mod Typed
pub mod Parts
pub mod Sound
use essentials_calls.Base.{
  ℕ, suc, String, Bool, true, false, not, ◌&&◌, ◌||◌, Option, none, some, List, [], ◌∷◌, ◌++◌,
  contains, leb, ltb, ◌==◌, if◌then◌else◌,
}
use essentials_calls.Base.Entries.{is_some}
use essentials_calls.Base.Texts.{utf16_length}
use essentials_calls.Json.{
  Json, Elements, Fields, null, bool, number, text, array, object, nil, cons, end, field, get,
}

pub data ShapeCode : Type 0 where
  malformed_topology topology_too_complex malformed_node malformed_edge malformed_membership :
      ShapeCode

abbrev pub report : Bool → ShapeCode → List ShapeCode
report true code = code ∷ []
report false code = []

-- `isString(value, max)`
unfoldable pub is_string : ℕ → Option Json → Bool
is_string max (some (text s)) = leb (utf16_length s) max
is_string max _ = false

-- `typeof value === 'string'`
abbrev pub is_text : Option Json → Bool
is_text (some (text s)) = true
is_text _ = false

-- `isNumber(value)`: a number of a JSON value is finite.
abbrev pub is_number : Option Json → Bool
is_number (some (number n)) = true
is_number _ = false

abbrev pub is_boolean : Option Json → Bool
is_boolean (some (bool b)) = true
is_boolean _ = false

abbrev pub is_array : Option Json → Bool
is_array (some (array xs)) = true
is_array _ = false

-- The fields of what passes `isRecord`.
abbrev pub record_of : Option Json → Option Fields
record_of (some (object fs)) = some fs
record_of _ = none

-- The fields of what `typeof` calls an object: an array has none of those that are asked for.
abbrev pub object_of : Json → Option Fields
object_of (object fs) = some fs
object_of (array xs) = some end
object_of _ = none

abbrev pub elements_of : Option Json → Elements
elements_of (some (array xs)) = xs
elements_of _ = nil

abbrev pub count : Elements → ℕ
count nil = 0
count (cons x xs) = suc (count xs)

-- The issues of a list of values.
unfoldable pub each : (Json → List ShapeCode) → Elements → List ShapeCode
each f nil = []
each f (cons x xs) = f x ++ each f xs

abbrev pub text_of : Option Json → String
text_of (some (text s)) = s
text_of _ = ""

abbrev pub node_types : List String
node_types =
    "extension" ∷ "ivr" ∷ "ringgroup" ∷ "queue" ∷ "schedule" ∷ "voicemail" ∷ "trunk" ∷ "external"
    ∷ []

-- One of the texts.
abbrev pub is_one_of : List String → Option Json → Bool
is_one_of names (some (text s)) = contains s names
is_one_of names _ = false

-- `{ x, y }` with two numbers.
unfoldable pub is_position : Option Fields → Bool
is_position none = false
is_position (some p) = is_number (get "x" p) && is_number (get "y" p)

unfoldable pub is_secret_state : Option Fields → Bool
is_secret_state none = false
is_secret_state (some s) = is_boolean (get "configured" s)

unfoldable pub is_voicemail_box : Option Fields → Bool
unfolding is_string
is_voicemail_box none = false
is_voicemail_box (some v) = is_boolean (get "enabled" v) && is_string 64 (get "mailbox" v)

unfoldable pub shape_extension : Fields → List ShapeCode
unfolding is_string is_secret_state is_voicemail_box
shape_extension p =
    report (not (is_string 32 (get "number" p)) || not (is_string 128 (get "sipUser" p)))
      malformed_node
    ++ (report (is_some (get "sipPassword" p) && not (is_string 256 (get "sipPassword" p)))
          malformed_node
        ++ (report
              (is_some (get "sipSecret" p) && not (is_secret_state (record_of (get "sipSecret" p))))
              malformed_node
            ++ report
                (is_some (get "voicemail" p)
                  && not (is_voicemail_box (record_of (get "voicemail" p))))
                malformed_node))

unfoldable pub is_window : Option Fields → Bool
unfolding is_string
is_window none = false
is_window (some w) =
    is_string 128 (get "id" w)
    && is_array (get "weekdays" w)
    && is_string 5 (get "start" w)
    && is_string 5 (get "end" w)

unfoldable pub shape_window : Json → List ShapeCode
unfolding is_window
shape_window w = report (not (is_window (record_of (some w)))) malformed_node

unfoldable pub has_long_holiday : Elements → Bool
unfolding is_string
has_long_holiday nil = false
has_long_holiday (cons h hs) = not (is_string 10 (some h)) || has_long_holiday hs

unfoldable pub shape_schedule : Fields → List ShapeCode
unfolding is_string each shape_window has_long_holiday
shape_schedule p =
    let lists =
      each shape_window (elements_of (get "windows" p))
      ++ report (has_long_holiday (elements_of (get "holidays" p))) malformed_node in
    if not (is_string 128 (get "timezone" p))
      || not (is_array (get "windows" p))
      || not (is_array (get "holidays" p))
    then malformed_node ∷ []
    else lists

-- The fields of the properties, by the type of the node.
unfoldable pub shape_properties : String → Fields → List ShapeCode
unfolding is_string shape_extension shape_schedule
shape_properties type p =
    if type == "extension"
    then shape_extension p
    else if type == "ivr"
    then report
        (not (is_string 256 (get "greeting" p))
          || not (is_number (get "timeout" p))
          || not (is_number (get "invalidRetries" p)))
        malformed_node
    else if type == "ringgroup"
    then report (not (is_string 32 (get "strategy" p)) || not (is_number (get "ringTimeout" p)))
        malformed_node
    else if type == "queue"
    then report
        (not (is_string 32 (get "strategy" p))
          || not (is_number (get "timeout" p))
          || not (is_number (get "maxWaitTime" p))
          || not (is_string 16 (get "joinEmpty" p))
          || not (is_string 16 (get "leaveWhenEmpty" p)))
        malformed_node
    else if type == "schedule"
    then shape_schedule p
    else if type == "voicemail"
    then report (not (is_string 64 (get "mailbox" p)) || not (is_boolean (get "attachAudio" p)))
        malformed_node
    else []

-- Without properties the rest is not looked at.
unfoldable pub shape_rest : Fields → Option Fields → List ShapeCode
unfolding is_position shape_properties
shape_rest n none = malformed_node ∷ []
shape_rest n (some p) =
    report (is_some (get "position" n) && not (is_position (record_of (get "position" n))))
      malformed_node
    ++ shape_properties (text_of (get "type" n)) p

unfoldable pub shape_node_fields : Option Fields → List ShapeCode
unfolding is_string shape_rest
shape_node_fields none = malformed_node ∷ []
shape_node_fields (some n) =
    report (not (is_string 128 (get "id" n))) malformed_node
    ++ (report (not (is_string 32 (get "type" n)) || not (is_one_of node_types (get "type" n)))
          malformed_node
        ++ (report (not (is_string 200 (get "label" n))) malformed_node
            ++ shape_rest n (record_of (get "properties" n))))

unfoldable pub shape_node : Json → List ShapeCode
unfolding shape_node_fields
shape_node n = shape_node_fields (object_of n)

abbrev pub condition_types : List String
condition_types = "digit" ∷ "timeout" ∷ "invalid" ∷ "open" ∷ "closed" ∷ "unconditional" ∷ []

-- The condition of an edge; a digit has a value of at most one character.
unfoldable pub is_bad_condition : Option Fields → Bool
unfolding is_string
is_bad_condition none = true
is_bad_condition (some c) =
    if not (is_string 32 (get "type" c)) || not (is_one_of condition_types (get "type" c))
    then true
    else text_of (get "type" c) == "digit" && not (is_string 1 (get "value" c))

unfoldable pub shape_edge_fields : Option Fields → List ShapeCode
unfolding is_bad_condition
shape_edge_fields none = malformed_edge ∷ []
shape_edge_fields (some e) =
    report (not (is_text (get "id" e))) malformed_edge
    ++ (report (not (is_text (get "source" e))) malformed_edge
        ++ (report (not (is_text (get "target" e))) malformed_edge
            ++ report
                (is_some (get "condition" e) && is_bad_condition (record_of (get "condition" e)))
                malformed_edge))

unfoldable pub shape_edge : Json → List ShapeCode
unfolding shape_edge_fields
shape_edge e = shape_edge_fields (object_of e)

unfoldable pub shape_membership_fields : Option Fields → List ShapeCode
shape_membership_fields none = malformed_membership ∷ []
shape_membership_fields (some m) =
    report (not (is_text (get "id" m))) malformed_membership
    ++ (report (not (is_text (get "groupId" m))) malformed_membership
        ++ (report (not (is_text (get "memberId" m))) malformed_membership
            ++ report (not (is_one_of ("member" ∷ "agent" ∷ []) (get "role" m)))
                malformed_membership))

unfoldable pub shape_membership : Json → List ShapeCode
unfolding shape_membership_fields
shape_membership m = shape_membership_fields (object_of m)

-- The two strings and the three lists of the document itself.
unfoldable pub shape_frame : Fields → List ShapeCode
shape_frame t =
    report (not (is_text (get "id" t))) malformed_topology
    ++ (report (not (is_text (get "name" t))) malformed_topology
        ++ (report (not (is_array (get "nodes" t))) malformed_topology
            ++ (report (not (is_array (get "edges" t))) malformed_topology
                ++ report (not (is_array (get "memberships" t))) malformed_topology)))

unfoldable pub shape_parts : Fields → List ShapeCode
unfolding each shape_node shape_edge shape_membership
shape_parts t =
    report (ltb 1000 (count (elements_of (get "nodes" t)))) topology_too_complex
    ++ (report (ltb 5000 (count (elements_of (get "edges" t)))) topology_too_complex
        ++ (report (ltb 5000 (count (elements_of (get "memberships" t)))) topology_too_complex
            ++ (each shape_node (elements_of (get "nodes" t))
                ++ (each shape_edge (elements_of (get "edges" t))
                    ++ each shape_membership (elements_of (get "memberships" t))))))

-- The parts are looked at where the frame is sound.
unfoldable pub shape_fields : Fields → List ShapeCode → List ShapeCode
unfolding shape_parts
shape_fields t [] = shape_parts t
shape_fields t (code ∷ codes) = code ∷ codes

unfoldable pub shape_record : Option Fields → List ShapeCode
unfolding shape_fields shape_frame
shape_record none = malformed_topology ∷ []
shape_record (some t) = shape_fields t (shape_frame t)

unfoldable pub validate_topology_shape : Json → List ShapeCode
unfolding shape_record
validate_topology_shape input = shape_record (record_of (some input))
