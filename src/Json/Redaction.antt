-- ===== src/Json/Redaction.antt =====
-- What `safeDetails` leaves under a sensitive key.
use mathlib.Core.List.{Memᴰ}
use essentials_calls.Base.{
  ℕ, String, ◌≡◌, refl, ap, ◌∙◌, subst, true, List, [], ◌∷◌, ◌++◌, arith, if◌then◌else◌, if_either,
}
use essentials_calls.Base.Texts.{codes}
use essentials_calls.Base.Texts.Search.{lower, starts_with, has_part, mentions}
use essentials_calls.Json.{
  Json, Elements, Fields, null, bool, number, text, array, object, nil, cons, end, field,
  is_sensitive, redacted, safe_details, safe_elements, safe_fields,
}

-- The words of a credential.
abbrev pub credential_words : List String
credential_words = "password" ∷ "secret" ∷ "token" ∷ "ciphertext" ∷ "authorization" ∷ "cookie" ∷ []

-- The key has one of the words somewhere, its capitals made small.
abbrev pub Names : String → String → Type 0
Names key word = (a b : List ℕ) × (lower (codes key) ≡ a ++ (codes word ++ b))

starts_with-append : (w b : List ℕ) → starts_with w (w ++ b) ≡ true
starts_with-append [] b = refl
starts_with-append (c ∷ w) b = ground (arith, starts_with-append w b)

has_part-append : (w a b : List ℕ) → has_part w (a ++ (w ++ b)) ≡ true
has_part-append [] [] [] = refl
has_part-append [] [] (c ∷ b) = refl
has_part-append (d ∷ w) [] b = ground (arith, starts_with-append (d ∷ w) b)
has_part-append w (c ∷ a) b = ground (arith, has_part-append w a b)

mentions-Names : (key word : String) → Names key word → mentions word key ≡ true
unfolding mentions
mentions-Names key word (a, b, e) = ap (has_part (codes word)) e ∙ has_part-append (codes word) a b

sensitive :
    (key word : String) → Memᴰ word credential_words → Names key word → is_sensitive key ≡ true
unfolding is_sensitive
sensitive key word m n = among m (mentions-Names key word n)
  where
    found : (w : String) → word ≡ w → mentions word key ≡ true → mentions w key ≡ true
    found w e h = subst (λ v. mentions v key ≡ true) e h

    among : Memᴰ word credential_words → mentions word key ≡ true → is_sensitive key ≡ true
    among (Memᴰ.head e) h = ground (arith, found "password" e h)
    among (Memᴰ.tail (Memᴰ.head e)) h = ground (arith, found "secret" e h)
    among (Memᴰ.tail (Memᴰ.tail (Memᴰ.head e))) h = ground (arith, found "token" e h)
    among (Memᴰ.tail (Memᴰ.tail (Memᴰ.tail (Memᴰ.head e)))) h =
        ground (arith, found "ciphertext" e h)
    among (Memᴰ.tail (Memᴰ.tail (Memᴰ.tail (Memᴰ.tail (Memᴰ.head e))))) h =
        ground (arith, found "authorization" e h)
    among (Memᴰ.tail (Memᴰ.tail (Memᴰ.tail (Memᴰ.tail (Memᴰ.tail (Memᴰ.head e)))))) h =
        ground (arith, found "cookie" e h)
    among (Memᴰ.tail (Memᴰ.tail (Memᴰ.tail (Memᴰ.tail (Memᴰ.tail (Memᴰ.tail n)))))) h = elim n [ ]

-- A value under a key that names a credential is the mark of redaction, at every depth.
unfoldable mutual
  pub IsRedacted : Json → Type 0
  IsRedacted (array xs) = AreRedacted xs
  IsRedacted (object fs) = HasRedacted fs
  IsRedacted null = Unit
  IsRedacted (bool b) = Unit
  IsRedacted (number n) = Unit
  IsRedacted (text s) = Unit

  pub AreRedacted : Elements → Type 0
  AreRedacted nil = Unit
  AreRedacted (cons x xs) = IsRedacted x × AreRedacted xs

  pub HasRedacted : Fields → Type 0
  HasRedacted end = Unit
  HasRedacted (field key child rest) =
      ((word : String) → Memᴰ word credential_words → Names key word → child ≡ redacted)
      × (IsRedacted child × HasRedacted rest)

redacted_field :
    (key : String) (kept : Json)
    → IsRedacted kept
    → ((word : String)
        → Memᴰ word credential_words
        → Names key word
        → (if is_sensitive key then redacted else kept) ≡ redacted)
      × IsRedacted (if is_sensitive key then redacted else kept)
unfolding IsRedacted
redacted_field key kept h = (
  λ word m n. rw (sensitive key word m n) refl,
  if_either IsRedacted (is_sensitive key) redacted kept tt h,
)

mutual
  unfolding safe_details safe_elements safe_fields IsRedacted AreRedacted HasRedacted

  clean_details : (j : Json) → IsRedacted (safe_details j)
  clean_details (array xs) = clean_elements xs
  clean_details (object fs) = clean_fields fs
  clean_details null = tt
  clean_details (bool b) = tt
  clean_details (number n) = tt
  clean_details (text s) = tt

  clean_elements : (xs : Elements) → AreRedacted (safe_elements xs)
  clean_elements nil = tt
  clean_elements (cons x xs) = (clean_details x, clean_elements xs)

  clean_fields : (fs : Fields) → HasRedacted (safe_fields fs)
  clean_fields end = tt
  clean_fields (field key child rest) =
      let h = redacted_field key (safe_details child) (clean_details child) in
      (h.0, (h.1, clean_fields rest))

-- The details that are kept of an event have `[REDACTED]` under each key that has one of the words
-- password, secret, token, ciphertext, authorization and cookie in it, in any case, at every depth.
pub safe_details-IsRedacted : (details : Json) → IsRedacted (safe_details details)
safe_details-IsRedacted details = clean_details details
