-- ===== src/Base/Entries.antt =====
-- A `Map` of JavaScript: entries in the order in which their keys were first set.
use essentials_calls.Base.{
  String, ◌≡◌, ◌≢◌, refl, Bool, true, false, Option, none, some, List, [], ◌∷◌, ◌==◌, ==_refl,
  ==_iff, if◌then◌else◌, arith,
}

abbrev pub Entries : Type 0 → Type 0
Entries A = List (String × A)

unfoldable pub lookup : {A : Type 0} → String → Entries A → Option A
lookup k [] = none
lookup k ((j, a) ∷ rest) = let found = lookup k rest in if j == k then some a else found

unfoldable pub set : {A : Type 0} → String → A → Entries A → Entries A
set k a [] = (k, a) ∷ []
set k a ((j, b) ∷ rest) = let done = set k a rest in if j == k then (k, a) ∷ rest else (j, b) ∷ done

abbrev pub is_some : {A : Type 0} → Option A → Bool
is_some none = false
is_some (some a) = true

-- What was set is found, and no other entry changes.
pub lookup-set : {A : Type 0} (k : String) (a : A) (s : Entries A) → lookup k (set k a s) ≡ some a
unfolding lookup set
lookup-set k a [] = rw (==_refl k) refl
lookup-set k a ((j, b) ∷ rest) = ground (arith, ==_refl k, lookup-set k a rest)

pub lookup-set_other :
    {A : Type 0} (k j : String) (a : A) (s : Entries A) → k ≢ j → lookup j (set k a s) ≡ lookup j s
unfolding lookup set
lookup-set_other k j a [] ne = ground (arith, ==_iff k j)
lookup-set_other k j a ((i, b) ∷ rest) ne =
    ground (arith, ==_iff k j, ==_iff i k, ==_iff i j, lookup-set_other k j a rest ne)
