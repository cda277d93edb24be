-- ===== src/Base/Lists.antt =====
-- Searches, tests and predicates on lists, with the laws that the components share.
use Prim.Native.Nat.{ℕ, zero, suc, ◌+◌}
use Prim.Native.String.{String}
use mathlib.Core.Path.{◌≡◌, refl, sym, ap, ◌∙◌}
use mathlib.Core.Logic.{◌≢◌, inl, inr}
use mathlib.Core.Bool.{Bool, true, false, ◌&&◌, ◌||◌}
use mathlib.Core.Option.{Option, none, some}
use mathlib.Core.List.{List, [], ◌∷◌, ◌++◌, Memᴰ}
use native.Mathlib.Omega.{arith}
use essentials_calls.Base.Tests.{◌==◌, ==_iff, if◌then◌else◌, Bool-cases, if_either}

module _ {ℓ} {A : Type ℓ} where
  abbrev pub length : List A → ℕ
  length [] = 0
  length (x ∷ xs) = suc (length xs)

  abbrev pub get_elem? : List A → ℕ → Option A
  get_elem? [] i = none
  get_elem? (x ∷ xs) zero = some x
  get_elem? (x ∷ xs) (suc i) = get_elem? xs i

  -- `xs.some(p)`
  abbrev pub any : (A → Bool) → List A → Bool
  any p [] = false
  any p (x ∷ xs) = p x || any p xs

  abbrev pub all : (A → Bool) → List A → Bool
  all p [] = true
  all p (x ∷ xs) = p x && all p xs

  -- `xs.find(p)`
  abbrev pub find : (A → Bool) → List A → Option A
  find p [] = none
  find p (x ∷ xs) = if p x then some x else find p xs

  -- `xs.filter(p)`
  abbrev pub filter : (A → Bool) → List A → List A
  filter p [] = []
  filter p (x ∷ xs) = let rest = filter p xs in if p x then x ∷ rest else rest

  pub any-append : (p : A → Bool) (xs ys : List A) → any p (xs ++ ys) ≡ (any p xs || any p ys)
  any-append p [] ys = refl
  any-append p (x ∷ xs) ys = ground (arith, any-append p xs ys)

  pub length-append : (xs ys : List A) → length (xs ++ ys) ≡ length xs + length ys
  length-append [] ys = omega arith
  length-append (x ∷ xs) ys = omega (arith, length-append xs ys)

  -- What `find` returns passes the test and stands in the list.
  pub find_sound :
      (p : A → Bool) (xs : List A) {x : A} → find p xs ≡ some x → Memᴰ x xs × (p x ≡ true)
  find_sound p [] h = elim (no_value h) [ ]
    where
      no_value : {x : A} → none ≡ some x → ⊥
      no_value e = cc
  find_sound p (y ∷ ys) {x} h = elim (Bool-cases (p y)) [
    | inl e ↦ let q : y ≡ x = ground arith in (Memᴰ.head (ground arith), ground arith)
    | inr e ↦
        let r : find p ys ≡ some x = ground arith in
        let (m, t) = find_sound p ys r in (Memᴰ.tail m, t)
  ]

-- What `filter` keeps stands in the list and passes the test, and the other way round.
filter_head {ℓ} :
    {A : Type ℓ} (p : A → Bool) (y : A) (ys : List A) {x : A} (b : Bool)
    → p y ≡ b
    → (Memᴰ x (filter p ys) → Memᴰ x ys × (p x ≡ true))
    → Memᴰ x (if b then y ∷ filter p ys else filter p ys)
    → Memᴰ x (y ∷ ys) × (p x ≡ true)
filter_head p y ys true e ih (Memᴰ.head q) = (Memᴰ.head q, ap p q ∙ e)
filter_head p y ys true e ih (Memᴰ.tail m) = let (a, b) = ih m in (Memᴰ.tail a, b)
filter_head p y ys false e ih m = let (a, b) = ih m in (Memᴰ.tail a, b)

pub mem_of_mem-filter {ℓ} :
    {A : Type ℓ} (p : A → Bool) (xs : List A) {x : A}
    → Memᴰ x (filter p xs)
    → Memᴰ x xs × (p x ≡ true)
mem_of_mem-filter p [] m = elim m [ ]
mem_of_mem-filter p (y ∷ ys) m = filter_head p y ys (p y) refl (λ n. mem_of_mem-filter p ys n) m

pub mem-filter_of_mem {ℓ} :
    {A : Type ℓ} (p : A → Bool) (xs : List A) {x : A}
    → Memᴰ x xs
    → p x ≡ true
    → Memᴰ x (filter p xs)
mem-filter_of_mem p [] m h = elim m [ ]
mem-filter_of_mem p (y ∷ ys) (Memᴰ.head e) h = rw (ap p (sym e) ∙ h) (Memᴰ.head e)
mem-filter_of_mem p (y ∷ ys) {x} (Memᴰ.tail m) h =
    let rest = mem-filter_of_mem p ys m h in
    if_either (λ zs. Memᴰ x zs) (p y) (y ∷ filter p ys) (filter p ys) (Memᴰ.tail rest) rest

module _ {ℓ κ} {A : Type ℓ} (P : A → Type κ) where
  abbrev pub All : List A → Type κ
  All [] = Unit
  All (x ∷ xs) = P x × All xs

  pub All-intro : (xs : List A) → ((x : A) → Memᴰ x xs → P x) → All xs
  All-intro [] f = tt
  All-intro (x ∷ xs) f = (f x (Memᴰ.head refl), All-intro xs (λ y m. f y (Memᴰ.tail m)))

  pub All-append : (xs ys : List A) → All xs → All ys → All (xs ++ ys)
  All-append [] ys h k = k
  All-append (x ∷ xs) ys h k = (h.0, All-append xs ys h.1 k)

  pub All-mem : (xs : List A) {x : A} → All xs → Memᴰ x xs → P x
  All-mem [] h m = elim m [ ]
  All-mem (y ∷ ys) h (Memᴰ.head e) = rw e h.0
  All-mem (y ∷ ys) h (Memᴰ.tail m) = All-mem ys h.1 m

-- No two positions of the list hold the same element.
abbrev pub Distinct {ℓ} : {A : Type ℓ} → List A → Type ℓ
Distinct [] = Unit
Distinct (x ∷ xs) = All (λ y. x ≢ y) xs × Distinct xs

-- `set.has(k)` of a set that is kept as the list of its elements.
abbrev pub contains : String → List String → Bool
contains k [] = false
contains k (j ∷ js) = j == k || contains k js

pub contains-append :
    (k : String) (xs ys : List String) → contains k (xs ++ ys) ≡ (contains k xs || contains k ys)
contains-append k [] ys = refl
contains-append k (x ∷ xs) ys = ground (arith, contains-append k xs ys)

pub contains-false : (k : String) (xs : List String) → contains k xs ≡ false → All (λ y. k ≢ y) xs
contains-false k [] h = tt
contains-false k (x ∷ xs) h = (λ e. ground (arith, ==_iff x k), contains-false k xs (ground arith))

pub contains_true : (k : String) (xs : List String) → contains k xs ≡ true → Memᴰ k xs
contains_true k [] h = elim (no_value h) [ ]
  where
    no_value : false ≡ true → ⊥
    no_value e = cc
contains_true k (x ∷ xs) h = elim (Bool-cases (x == k)) [
  | inl e ↦ Memᴰ.head (ground (arith, ==_iff x k))
  | inr e ↦ Memᴰ.tail (contains_true k xs (ground arith))
]

pub mem→contains : (k : String) (xs : List String) → Memᴰ k xs → contains k xs ≡ true
mem→contains k [] m = elim m [ ]
mem→contains k (x ∷ xs) (Memᴰ.head e) = ground (arith, ==_iff x k)
mem→contains k (x ∷ xs) (Memᴰ.tail m) = ground (arith, mem→contains k xs m)
