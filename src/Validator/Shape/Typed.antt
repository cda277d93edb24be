-- ===== src/Validator/Shape/Typed.antt =====
-- A JSON value without an issue of its shape has the fields, with the types, that the rules read.
use essentials_calls.Base.{
  ◌≤◌, String, ◌≡◌, refl, sym, subst, true, not, ◌&&◌, ◌||◌, Option, none, some, [], ◌∷◌, ◌==◌,
  ==_refl, inl, inr, Bool-cases, arith,
}
use essentials_calls.Json.{Json, Fields, object, get}
use essentials_calls.Validator.Shape.{
  is_string, is_array, object_of, elements_of, count, text_of, is_one_of, node_types,
  is_bad_condition, shape_edge_fields, shape_edge, condition_types,
}
use essentials_calls.Validator.Shape.Readers.{
  report_nil, report_then, HasText, HasString, HasNumber, HasBoolean, HasList, MayHave, has_text,
  has_string, has_record,
}

abbrev pub IsPosition : Fields → Type 0
IsPosition p = HasNumber "x" p × HasNumber "y" p

abbrev pub IsVoicemailBox : Fields → Type 0
IsVoicemailBox v = HasBoolean "enabled" v × HasString 64 "mailbox" v

abbrev pub IsWindow : Json → Type 0
IsWindow j =
    (w : Fields) × (j ≡ object w)
    × HasString 128 "id" w
    × (is_array (get "weekdays" w) ≡ true)
    × HasString 5 "start" w
    × HasString 5 "end" w

-- The properties of a node of the type.
pub record HasProperties (type : String) (p : Fields) : Type 0 where
  pub extension :
      type ≡ "extension"
      → HasString 32 "number" p
        × HasString 128 "sipUser" p
        × ((j : Json) → get "sipPassword" p ≡ some j → is_string 256 (some j) ≡ true)
        × MayHave (HasBoolean "configured") "sipSecret" p
        × MayHave IsVoicemailBox "voicemail" p
  pub ivr :
      type ≡ "ivr"
      → HasString 256 "greeting" p × HasNumber "timeout" p × HasNumber "invalidRetries" p
  pub ringgroup : type ≡ "ringgroup" → HasString 32 "strategy" p × HasNumber "ringTimeout" p
  pub queue :
      type ≡ "queue"
      → HasString 32 "strategy" p
        × HasNumber "timeout" p
        × HasNumber "maxWaitTime" p
        × HasString 16 "joinEmpty" p
        × HasString 16 "leaveWhenEmpty" p
  pub schedule :
      type ≡ "schedule"
      → HasString 128 "timezone" p
        × HasList IsWindow "windows" p
        × HasList (λ h. is_string 10 (some h) ≡ true) "holidays" p
  pub voicemail : type ≡ "voicemail" → HasString 64 "mailbox" p × HasBoolean "attachAudio" p

-- A node has an id, a known type, a label and the properties of its type.
pub record IsNode (j : Json) : Type 0 where
  pub fields : Fields
  pub is : object_of j ≡ some fields
  pub id : HasString 128 "id" fields
  pub type : HasString 32 "type" fields
  pub known : is_one_of node_types (get "type" fields) ≡ true
  pub label : HasString 200 "label" fields
  pub position : MayHave IsPosition "position" fields
  pub properties : Fields
  pub are : get "properties" fields ≡ some (object properties)
  pub typed : HasProperties (text_of (get "type" fields)) properties

-- An edge has its texts, and its condition, if any, is one of the six.
pub record IsEdge (j : Json) : Type 0 where
  pub fields : Fields
  pub is : object_of j ≡ some fields
  pub id : HasText "id" fields
  pub source : HasText "source" fields
  pub target : HasText "target" fields
  pub condition :
      MayHave
        (λ c.
          HasString 32 "type" c
          × (is_one_of condition_types (get "type" c) ≡ true)
          × (text_of (get "type" c) ≡ "digit" → HasString 1 "value" c))
        "condition"
        fields

pub record IsMembership (j : Json) : Type 0 where
  pub fields : Fields
  pub is : object_of j ≡ some fields
  pub id : HasText "id" fields
  pub group_id : HasText "groupId" fields
  pub member_id : HasText "memberId" fields
  pub role : is_one_of ("member" ∷ "agent" ∷ []) (get "role" fields) ≡ true

pub record IsTopology (j : Json) : Type 0 where
  pub fields : Fields
  pub is : j ≡ object fields
  pub id : HasText "id" fields
  pub name : HasText "name" fields
  pub nodes : HasList IsNode "nodes" fields
  pub edges : HasList IsEdge "edges" fields
  pub memberships : HasList IsMembership "memberships" fields
  pub few_nodes : count (elements_of (get "nodes" fields)) ≤ 1000
  pub few_edges : count (elements_of (get "edges" fields)) ≤ 5000
  pub few_memberships : count (elements_of (get "memberships" fields)) ≤ 5000

typed_condition :
    (c : Fields)
    → not (is_bad_condition (some c)) ≡ true
    → HasString 32 "type" c
      × (is_one_of condition_types (get "type" c) ≡ true)
      × (text_of (get "type" c) ≡ "digit" → HasString 1 "value" c)
unfolding is_bad_condition
typed_condition c h =
    let bad = not (is_string 32 (get "type" c)) || not (is_one_of condition_types (get "type" c)) in
    elim (Bool-cases bad) [
      | inl e ↦ cc (rw e at h)
      | inr e ↦
          let digit : not (text_of (get "type" c) == "digit" && not (is_string 1 (get "value" c)))
              ≡ true =
            rw e at h in
          (
            has_string 32 (get "type" c) (ground arith),
            ground arith,
            λ d.
                has_string 1 (get "value" c)
                  (ground (arith, subst (λ s. (s == "digit") ≡ true) (sym d) (==_refl "digit"))),
          )
    ]

pub typed_edge : (j : Json) → shape_edge j ≡ [] → IsEdge j
unfolding shape_edge
typed_edge j h = go (object_of j) refl h
  where
    go : (o : Option Fields) → object_of j ≡ o → shape_edge_fields o ≡ [] → IsEdge j
    go none e h = cc h
    go (some fs) e h =
        let (i, h₁) = report_then _ _ _ h in
        let (s, h₂) = report_then _ _ _ h₁ in
        let (t, h₃) = report_then _ _ _ h₂ in
        record {
          fields = fs;
          is = e;
          id = has_text (get "id" fs) i;
          source = has_text (get "source" fs) s;
          target = has_text (get "target" fs) t;
          condition =
              has_record _ (λ o. not (is_bad_condition o)) (get "condition" fs) refl typed_condition
                (ground (arith, report_nil _ _ h₃));
        }
