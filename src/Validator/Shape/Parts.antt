-- ===== src/Validator/Shape/Parts.antt =====
-- The properties and the position of a node, and the memberships, behind `validateTopologyShape`.
use essentials_calls.Base.{
  String, ◌≡◌, refl, subst, true, false, not, ◌&&◌, ◌||◌, Option, none, some, [], inl, inr,
  Bool-cases, or_false, arith,
}
use essentials_calls.Base.Entries.{is_some}
use essentials_calls.Json.{
  Json, Elements, Fields, null, bool, number, text, array, object, nil, cons, get,
}
use essentials_calls.Validator.Shape.{
  malformed_node, is_string, is_number, is_boolean, is_array, object_of, elements_of, each,
  is_position, is_secret_state, is_voicemail_box, shape_extension, is_window, shape_window,
  has_long_holiday, shape_schedule, shape_properties, shape_membership_fields, shape_membership,
}
use essentials_calls.Validator.Shape.Readers.{
  append_nil, report_nil, report_then, HasString, HasNumber, HasBoolean, AllOf, HasList, MayHave,
  has_text, has_string, has_number, has_boolean, has_array, has_record, each_nil, not_or, was_true,
}
use essentials_calls.Validator.Shape.Typed.{
  IsPosition, IsVoicemailBox, IsWindow, HasProperties, IsMembership,
}

pub typed_membership : (j : Json) → shape_membership j ≡ [] → IsMembership j
unfolding shape_membership
typed_membership j h = go (object_of j) refl h
  where
    go : (o : Option Fields) → object_of j ≡ o → shape_membership_fields o ≡ [] → IsMembership j
    go none e h = cc h
    go (some fs) e h =
        let (i, h₁) = report_then _ _ _ h in
        let (g, h₂) = report_then _ _ _ h₁ in
        let (m, h₃) = report_then _ _ _ h₂ in
        record {
          fields = fs;
          is = e;
          id = has_text (get "id" fs) i;
          group_id = has_text (get "groupId" fs) g;
          member_id = has_text (get "memberId" fs) m;
          role = ground (arith, report_nil _ _ h₃);
        }

pub sound_place : (p : Fields) → is_position (some p) ≡ true → IsPosition p
unfolding is_position
sound_place p h = (has_number (get "x" p) (ground arith), has_number (get "y" p) (ground arith))

typed_box : (v : Fields) → is_voicemail_box (some v) ≡ true → IsVoicemailBox v
unfolding is_voicemail_box
typed_box v h =
    (has_boolean (get "enabled" v) (ground arith), has_string 64 (get "mailbox" v) (ground arith))

typed_secret : (s : Fields) → is_secret_state (some s) ≡ true → HasBoolean "configured" s
unfolding is_secret_state
typed_secret s h = has_boolean (get "configured" s) h

typed_extension :
    (p : Fields)
    → shape_extension p ≡ []
    → HasString 32 "number" p
      × HasString 128 "sipUser" p
      × ((j : Json) → get "sipPassword" p ≡ some j → is_string 256 (some j) ≡ true)
      × MayHave (HasBoolean "configured") "sipSecret" p
      × MayHave IsVoicemailBox "voicemail" p
unfolding shape_extension
typed_extension p h =
    let names_bad = not (is_string 32 (get "number" p)) || not (is_string 128 (get "sipUser" p)) in
    let (names, h₁) = report_then names_bad malformed_node _ h in
    let (n, u) = not_or (is_string 32 (get "number" p)) _ names in
    let (password, h₂) = report_then _ _ _ h₁ in
    let (secret, h₃) = report_then _ _ _ h₂ in
    (
      has_string 32 (get "number" p) n,
      has_string 128 (get "sipUser" p) (was_true _ u),
      λ j e. given (get "sipPassword" p) j e password,
      has_record _ is_secret_state (get "sipSecret" p) refl typed_secret secret,
      has_record _ is_voicemail_box (get "voicemail" p) refl typed_box (report_nil _ _ h₃),
    )
  where
    given :
        (o : Option Json) (j : Json)
        → o ≡ some j
        → (is_some o && not (is_string 256 o)) ≡ false
        → is_string 256 (some j) ≡ true
    given none j e k = cc e
    given (some i) j e k = subst (λ (x : Option Json). is_string 256 x ≡ true) e (ground (arith, k))

sound_hours : (j : Json) → shape_window j ≡ [] → IsWindow j
unfolding shape_window is_window
sound_hours (object w) h =
    let e = report_nil _ _ h in
    (
      w,
      refl,
      has_string 128 (get "id" w) (ground (arith, e)),
      ground (arith, e),
      has_string 5 (get "start" w) (ground (arith, e)),
      has_string 5 (get "end" w) (ground (arith, e)),
    )
sound_hours (array xs) h = cc h
sound_hours null h = cc h
sound_hours (bool b) h = cc h
sound_hours (number n) h = cc h
sound_hours (text s) h = cc h

short_holidays :
    (xs : Elements) → has_long_holiday xs ≡ false → AllOf (λ h. is_string 10 (some h) ≡ true) xs
unfolding has_long_holiday
short_holidays nil h = tt
short_holidays (cons x xs) h = (ground arith, short_holidays xs (ground arith))

typed_schedule :
    (p : Fields)
    → shape_schedule p ≡ []
    → HasString 128 "timezone" p
      × HasList IsWindow "windows" p
      × HasList (λ h. is_string 10 (some h) ≡ true) "holidays" p
unfolding shape_schedule
typed_schedule p h =
    let bad =
      not (is_string 128 (get "timezone" p))
      || not (is_array (get "windows" p))
      || not (is_array (get "holidays" p)) in
    elim (Bool-cases bad) [
      | inl e ↦ cc (rw e at h)
      | inr e ↦
          let (w, h₁) =
            append_nil (each shape_window (elements_of (get "windows" p))) _ (rw e at h) in
          (
            has_string 128 (get "timezone" p) (ground arith),
            (
              elements_of (get "windows" p),
              has_array (get "windows" p) (ground arith),
              each_nil shape_window IsWindow (elements_of (get "windows" p)) sound_hours w,
            ),
            (
              elements_of (get "holidays" p),
              has_array (get "holidays" p) (ground arith),
              short_holidays (elements_of (get "holidays" p)) (report_nil _ _ h₁),
            ),
          )
    ]

typed_queue :
    (p : Fields)
    → (not (is_string 32 (get "strategy" p))
        || not (is_number (get "timeout" p))
        || not (is_number (get "maxWaitTime" p))
        || not (is_string 16 (get "joinEmpty" p))
        || not (is_string 16 (get "leaveWhenEmpty" p)))
      ≡ false
    → HasString 32 "strategy" p
      × HasNumber "timeout" p
      × HasNumber "maxWaitTime" p
      × HasString 16 "joinEmpty" p
      × HasString 16 "leaveWhenEmpty" p
typed_queue p h =
    let (h₁, e) = or_false _ (not (is_string 16 (get "leaveWhenEmpty" p))) h in
    let (h₂, d) = or_false _ (not (is_string 16 (get "joinEmpty" p))) h₁ in
    let (h₃, c) = or_false _ (not (is_number (get "maxWaitTime" p))) h₂ in
    let (a, b) = not_or (is_string 32 (get "strategy" p)) _ h₃ in
    (
      has_string 32 (get "strategy" p) a,
      has_number (get "timeout" p) (was_true _ b),
      has_number (get "maxWaitTime" p) (was_true _ c),
      has_string 16 (get "joinEmpty" p) (was_true _ d),
      has_string 16 (get "leaveWhenEmpty" p) (was_true _ e),
    )

typed_ivr :
    (p : Fields)
    → (not (is_string 256 (get "greeting" p))
        || not (is_number (get "timeout" p))
        || not (is_number (get "invalidRetries" p)))
      ≡ false
    → HasString 256 "greeting" p × HasNumber "timeout" p × HasNumber "invalidRetries" p
typed_ivr p h =
    let (h₁, c) = or_false _ (not (is_number (get "invalidRetries" p))) h in
    let (a, b) = not_or (is_string 256 (get "greeting" p)) _ h₁ in
    (
      has_string 256 (get "greeting" p) a,
      has_number (get "timeout" p) (was_true _ b),
      has_number (get "invalidRetries" p) (was_true _ c),
    )

typed_ringgroup :
    (p : Fields)
    → (not (is_string 32 (get "strategy" p)) || not (is_number (get "ringTimeout" p))) ≡ false
    → HasString 32 "strategy" p × HasNumber "ringTimeout" p
typed_ringgroup p h =
    let (a, b) = not_or (is_string 32 (get "strategy" p)) _ h in
    (has_string 32 (get "strategy" p) a, has_number (get "ringTimeout" p) (was_true _ b))

typed_voicemail :
    (p : Fields)
    → (not (is_string 64 (get "mailbox" p)) || not (is_boolean (get "attachAudio" p))) ≡ false
    → HasString 64 "mailbox" p × HasBoolean "attachAudio" p
typed_voicemail p h =
    let (a, b) = not_or (is_string 64 (get "mailbox" p)) _ h in
    (has_string 64 (get "mailbox" p) a, has_boolean (get "attachAudio" p) (was_true _ b))

pub typed_properties :
    (type : String) (p : Fields) → shape_properties type p ≡ [] → HasProperties type p
unfolding shape_properties
typed_properties type p h =
    let named = λ (name : String) (e : type ≡ name). subst (λ s. shape_properties s p ≡ []) e h in
    record {
      extension = λ e. typed_extension p (named "extension" e);
      ivr = λ e. typed_ivr p (report_nil _ malformed_node (named "ivr" e));
      ringgroup = λ e. typed_ringgroup p (report_nil _ malformed_node (named "ringgroup" e));
      queue = λ e. typed_queue p (report_nil _ malformed_node (named "queue" e));
      schedule = λ e. typed_schedule p (named "schedule" e);
      voicemail = λ e. typed_voicemail p (report_nil _ malformed_node (named "voicemail" e));
    }
