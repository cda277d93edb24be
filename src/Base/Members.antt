-- ===== src/Base/Members.antt =====
-- Membership, distinctness and rearrangement of lists.
use mathlib.Core.List.{Memᴰ}
use mathlib.Core.List.Memᴰ
use essentials_calls.Base.{
  ℕ, suc, ◌+◌, ◌≤◌, ◌≡◌, ◌≢◌, refl, Bool, true, ◌⊎◌, inl, inr, List, [], ◌∷◌, ◌++◌, map, arith, sym,
  ap, subst, ◌∙◌,
}
use essentials_calls.Base.{
  length, length-append, any, All, All-append, All-mem, All-intro, Distinct, Bool-cases,
}

pub All-split {ℓ κ} :
    {A : Type ℓ} (P : A → Type κ) (ls rs : List A) → All P (ls ++ rs) → All P ls × All P rs
All-split P [] rs h = (tt, h)
All-split P (a ∷ ls) rs h = let (p, q) = All-split P ls rs h.1 in ((h.0, p), q)

pub All-swap {ℓ κ} :
    {A : Type ℓ} (P : A → Type κ) (ls rs : List A) → All P (ls ++ rs) → All P (rs ++ ls)
All-swap P ls rs h = let (p, q) = All-split P ls rs h in All-append P rs ls q p

module _ {ℓ} {A : Type ℓ} where
  pub any_elim : (p : A → Bool) (xs : List A) → any p xs ≡ true → (x : A) × Memᴰ x xs × (p x ≡ true)
  any_elim p [] h = cc
  any_elim p (x ∷ xs) h = elim (Bool-cases (p x)) [
    | inl e ↦ (x, Memᴰ.head refl, e)
    | inr e ↦ let (y, m, t) = any_elim p xs (rw e at h) in (y, Memᴰ.tail m, t)
  ]

  pub any_intro : (p : A → Bool) (xs : List A) {x : A} → Memᴰ x xs → p x ≡ true → any p xs ≡ true
  any_intro p [] m h = elim m [ ]
  any_intro p (y ∷ ys) (Memᴰ.head e) h = rw (ap p (sym e) ∙ h) refl
  any_intro p (y ∷ ys) (Memᴰ.tail m) h = ground (arith, any_intro p ys m h)

  -- A member splits the list.
  pub split_mem :
      (xs : List A) {x : A} → Memᴰ x xs → (ls : List A) × (rs : List A) × (xs ≡ ls ++ x ∷ rs)
  split_mem [] m = elim m [ ]
  split_mem (y ∷ ys) (Memᴰ.head e) = ([], ys, ap (λ z. z ∷ ys) (sym e))
  split_mem (y ∷ ys) (Memᴰ.tail m) =
      let (ls, rs, e) = split_mem ys m in (y ∷ ls, rs, ap (λ zs. y ∷ zs) e)

  -- A smallest element of a list, by a measure.
  pub least_mem :
      (f : A → ℕ) (x : A) (xs : List A) → (m : A) × Memᴰ m (x ∷ xs) × All (λ y. f m ≤ f y) (x ∷ xs)
  least_mem f x [] = (x, Memᴰ.head refl, (omega arith, tt))
  least_mem f x (y ∷ ys) =
      let (m, n, all) = least_mem f y ys in
      elim (le_total (f m) (f x)) [
        | inl le ↦ (m, Memᴰ.tail n, (le, all))
        | inr ge ↦ (x, Memᴰ.head refl, (omega arith, weaker (f x) (f m) ge (y ∷ ys) all))
      ]
    where
      le_total : (a b : ℕ) → (a ≤ b) ⊎ (b ≤ a)
      le_total a b = omega arith

      weaker : (a b : ℕ) → a ≤ b → (zs : List A) → All (λ y. b ≤ f y) zs → All (λ y. a ≤ f y) zs
      weaker a b le [] h = tt
      weaker a b le (z ∷ zs) h = (omega arith, weaker a b le zs h.1)

  pub Distinct-split :
      (ls rs : List A)
      → Distinct (ls ++ rs)
      → Distinct ls × Distinct rs × ((x y : A) → Memᴰ x ls → Memᴰ y rs → x ≢ y)
  Distinct-split [] rs h = (tt, h, λ x y m n. elim m [ ])
  Distinct-split (a ∷ ls) rs h =
      let (here, there) = All-split (λ y. a ≢ y) ls rs h.0 in
      let (p, q, apart) = Distinct-split ls rs h.1 in
      ((here, p), q, λ x y m n. cases x y (Memᴰ.cases_cons m) n there apart)
    where
      cases :
          (x y : A)
          → (x ≡ a) ⊎ Memᴰ x ls
          → Memᴰ y rs
          → All (λ z. a ≢ z) rs
          → ((u v : A) → Memᴰ u ls → Memᴰ v rs → u ≢ v)
          → x ≢ y
      cases x y (inl e) n there apart k = All-mem (λ z. a ≢ z) rs there n (sym e ∙ k)
      cases x y (inr m) n there apart k = apart x y m n k

  pub Distinct-join :
      (ls rs : List A)
      → Distinct ls
      → Distinct rs
      → ((x y : A) → Memᴰ x ls → Memᴰ y rs → x ≢ y)
      → Distinct (ls ++ rs)
  Distinct-join [] rs p q apart = q
  Distinct-join (a ∷ ls) rs p q apart = (
    All-append (λ z. a ≢ z) ls rs p.0
        (All-intro (λ z. a ≢ z) rs (λ z m. apart a z (Memᴰ.head refl) m)),
    Distinct-join ls rs p.1 q (λ x y m n. apart x y (Memᴰ.tail m) n),
  )

  -- Distinctness does not depend on where a list is cut.
  pub Distinct-swap : (ls rs : List A) → Distinct (ls ++ rs) → Distinct (rs ++ ls)
  Distinct-swap ls rs h =
      let (p, q, apart) = Distinct-split ls rs h in
      Distinct-join rs ls q p (λ x y m n e. apart y x n m (sym e))

  -- A distinct list of members of another list is not longer.
  pub length-le_of_members :
      (xs ys : List A) → Distinct xs → All (λ x. Memᴰ x ys) xs → length xs ≤ length ys
  length-le_of_members [] ys d h = omega arith
  length-le_of_members (x ∷ xs) ys d h =
      let (ls, rs, e) = split_mem ys h.0 in
      let shorter = length-le_of_members xs (ls ++ rs) d.1 (
        All-intro (λ z. Memᴰ z (ls ++ rs)) xs
          λ z m.
            without z ls rs (All-mem (λ y. x ≢ y) xs d.0 m)
              (subst (λ zs. Memᴰ z zs) e (All-mem (λ y. Memᴰ y ys) xs h.1 m))) in
      let total : length ys ≡ length ls + suc (length rs) =
        ap length e ∙ length-append ls (x ∷ rs) in
      omega (arith, shorter, total, length-append ls rs)
    where
      without : (z : A) (ls rs : List A) → x ≢ z → Memᴰ z (ls ++ x ∷ rs) → Memᴰ z (ls ++ rs)
      without z ls rs ne m = elim (Memᴰ.append_cases ls m) [
        | inl n ↦ Memᴰ.append_left rs n
        | inr n ↦ elim (Memᴰ.cases_cons n) [
          | inl e ↦ absurd (ne (sym e))
          | inr k ↦ Memᴰ.append_right ls k
        ]
      ]

module _ {ℓ κ} {A : Type ℓ} {B : Type κ} (f : A → B) where
  pub mem-map_of_mem : (xs : List A) {x : A} → Memᴰ x xs → Memᴰ (f x) (map f xs)
  mem-map_of_mem [] m = elim m [ ]
  mem-map_of_mem (y ∷ ys) (Memᴰ.head e) = Memᴰ.head (ap f e)
  mem-map_of_mem (y ∷ ys) (Memᴰ.tail m) = Memᴰ.tail (mem-map_of_mem ys m)

  pub exists_of_mem-map :
      (xs : List A) {y : B} → Memᴰ y (map f xs) → (x : A) × Memᴰ x xs × (f x ≡ y)
  exists_of_mem-map [] m = elim m [ ]
  exists_of_mem-map (x ∷ xs) (Memᴰ.head e) = (x, Memᴰ.head refl, sym e)
  exists_of_mem-map (x ∷ xs) (Memᴰ.tail m) =
      let (z, n, e) = exists_of_mem-map xs m in (z, Memᴰ.tail n, e)

  -- Members with one image are the same where the images are distinct.
  pub Distinct-injective :
      (xs : List A) {x y : A} → Distinct (map f xs) → Memᴰ x xs → Memᴰ y xs → f x ≡ f y → x ≡ y
  Distinct-injective [] d m n e = elim m [ ]
  Distinct-injective (z ∷ zs) d (Memᴰ.head p) (Memᴰ.head q) e = p ∙ sym q
  Distinct-injective (z ∷ zs) d (Memᴰ.head p) (Memᴰ.tail n) e =
      absurd (All-mem (λ w. f z ≢ w) (map f zs) d.0 (mem-map_of_mem zs n) (ap f (sym p) ∙ e))
  Distinct-injective (z ∷ zs) d (Memᴰ.tail m) (Memᴰ.head q) e =
      absurd (All-mem (λ w. f z ≢ w) (map f zs) d.0 (mem-map_of_mem zs m) (ap f (sym q) ∙ sym e))
  Distinct-injective (z ∷ zs) d (Memᴰ.tail m) (Memᴰ.tail n) e = Distinct-injective zs d.1 m n e
