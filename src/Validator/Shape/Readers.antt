-- ===== src/Validator/Shape/Readers.antt =====
-- The fields that a value has where a report of its shape is empty.
use essentials_calls.Base.{
  ℕ, ◌≤◌, String, ◌≡◌, refl, sym, Bool, true, false, not, ◌&&◌, ◌||◌, Option, none, some, List, [],
  ◌∷◌, ◌++◌, arith,
}
use essentials_calls.Base.Entries.{is_some}
use essentials_calls.Base.Texts.{utf16_length}
use essentials_calls.Json.{
  Json, Elements, Fields, null, bool, number, text, array, object, nil, cons, get,
}
use essentials_calls.Model.{Number}
use essentials_calls.Validator.Shape.{
  ShapeCode, report, is_string, is_text, is_number, is_boolean, is_array, record_of, elements_of,
  each,
}

pub append_nil : (xs ys : List ShapeCode) → xs ++ ys ≡ [] → (xs ≡ []) × (ys ≡ [])
append_nil [] ys h = (refl, h)
append_nil (x ∷ xs) ys h = cc h

pub report_nil : (b : Bool) (code : ShapeCode) → report b code ≡ [] → b ≡ false
report_nil true code h = cc h
report_nil false code h = refl

-- A report, and what comes after it.
pub report_then :
    (b : Bool) (code : ShapeCode) (rest : List ShapeCode)
    → report b code ++ rest ≡ []
    → (b ≡ false) × (rest ≡ [])
report_then b code rest h =
    let (r, e) = append_nil (report b code) rest h in (report_nil b code r, e)

-- The field is there with a value of the type.
abbrev pub HasText : String → Fields → Type 0
HasText k fs = (s : String) × (get k fs ≡ some (text s))

abbrev pub HasString : ℕ → String → Fields → Type 0
HasString max k fs = (s : String) × (get k fs ≡ some (text s)) × (utf16_length s ≤ max)

abbrev pub HasNumber : String → Fields → Type 0
HasNumber k fs = (n : Number) × (get k fs ≡ some (number n))

abbrev pub HasBoolean : String → Fields → Type 0
HasBoolean k fs = (b : Bool) × (get k fs ≡ some (bool b))

abbrev pub AllOf : (Json → Type 0) → Elements → Type 0
AllOf P nil = Unit
AllOf P (cons x xs) = P x × AllOf P xs

-- The field is a list whose elements are so.
abbrev pub HasList : (Json → Type 0) → String → Fields → Type 0
HasList P k fs = (xs : Elements) × (get k fs ≡ some (array xs)) × AllOf P xs

-- Where the field is there, it is an object that is so.
abbrev pub MayHave : (Fields → Type 0) → String → Fields → Type 0
MayHave P k fs = (j : Json) → get k fs ≡ some j → (o : Fields) × (j ≡ object o) × P o

pub has_text : (o : Option Json) → not (is_text o) ≡ false → (s : String) × (o ≡ some (text s))
has_text none h = cc h
has_text (some (text s)) h = (s, refl)
has_text (some null) h = cc h
has_text (some (bool b)) h = cc h
has_text (some (number n)) h = cc h
has_text (some (array xs)) h = cc h
has_text (some (object fs)) h = cc h

pub has_string :
    (max : ℕ) (o : Option Json)
    → is_string max o ≡ true
    → (s : String) × (o ≡ some (text s)) × (utf16_length s ≤ max)
unfolding is_string
has_string max none h = cc h
has_string max (some (text s)) h = (s, refl, ground arith)
has_string max (some null) h = cc h
has_string max (some (bool b)) h = cc h
has_string max (some (number n)) h = cc h
has_string max (some (array xs)) h = cc h
has_string max (some (object fs)) h = cc h

pub has_number : (o : Option Json) → is_number o ≡ true → (n : Number) × (o ≡ some (number n))
has_number none h = cc h
has_number (some (text s)) h = cc h
has_number (some null) h = cc h
has_number (some (bool b)) h = cc h
has_number (some (number n)) h = (n, refl)
has_number (some (array xs)) h = cc h
has_number (some (object fs)) h = cc h

pub has_boolean : (o : Option Json) → is_boolean o ≡ true → (b : Bool) × (o ≡ some (bool b))
has_boolean none h = cc h
has_boolean (some (text s)) h = cc h
has_boolean (some null) h = cc h
has_boolean (some (bool b)) h = (b, refl)
has_boolean (some (number n)) h = cc h
has_boolean (some (array xs)) h = cc h
has_boolean (some (object fs)) h = cc h

pub has_array : (o : Option Json) → is_array o ≡ true → o ≡ some (array (elements_of o))
has_array none h = cc h
has_array (some (text s)) h = cc h
has_array (some null) h = cc h
has_array (some (bool b)) h = cc h
has_array (some (number n)) h = cc h
has_array (some (array xs)) h = refl
has_array (some (object fs)) h = cc h

pub has_record :
    (P : Fields → Type 0) (test : Option Fields → Bool) (o : Option Json)
    → test none ≡ false
    → ((fs : Fields) → test (some fs) ≡ true → P fs)
    → (is_some o && not (test (record_of o))) ≡ false
    → (j : Json) → o ≡ some j
    → (fs : Fields) × (j ≡ object fs) × P fs
has_record P test none empty f h j e = cc e
has_record P test (some (object fs)) empty f h j e =
    (fs, sym (some_injective _ _ e), f fs (ground arith))
  where
    some_injective : (a b : Json) → some a ≡ some b → a ≡ b
    some_injective a b e = cc
has_record P test (some (text s)) empty f h j e = cc (rw empty at h)
has_record P test (some null) empty f h j e = cc (rw empty at h)
has_record P test (some (bool b)) empty f h j e = cc (rw empty at h)
has_record P test (some (number n)) empty f h j e = cc (rw empty at h)
has_record P test (some (array xs)) empty f h j e = cc (rw empty at h)

pub each_nil :
    (f : Json → List ShapeCode) (P : Json → Type 0) (xs : Elements)
    → ((j : Json) → f j ≡ [] → P j)
    → each f xs ≡ []
    → AllOf P xs
unfolding each
each_nil f P nil g h = tt
each_nil f P (cons x xs) g h =
    let (here, there) = append_nil (f x) (each f xs) h in (g x here, each_nil f P xs g there)

-- No test of a disjunction of negations fails.
pub not_or : (a b : Bool) → (not a || b) ≡ false → (a ≡ true) × (b ≡ false)
not_or true b h = (refl, h)
not_or false b h = cc h

pub was_true : (a : Bool) → not a ≡ false → a ≡ true
was_true true h = refl
was_true false h = cc h
