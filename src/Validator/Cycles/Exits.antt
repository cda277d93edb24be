-- ===== src/Validator/Cycles/Exits.antt =====
-- A key tells whether a cycle has an exit, where the ids of the edges are distinct and have no comma.
use mathlib.Core.List.{Memᴰ}
use essentials_calls.Base.{
  String, ◌≡◌, ◌≢◌, refl, true, List, [], ◌∷◌, map, ap, sym, ◌∙◌, subst, All, All-mem, All-intro,
  any, Distinct, if_either,
}
use essentials_calls.Base.Members.{
  any_elim, any_intro, mem-map_of_mem, exists_of_mem-map, Distinct-injective,
}
use essentials_calls.Base.Texts.Join.{CommaFree, join_injective}
use essentials_calls.Model.{Edge}
use essentials_calls.Validator.Cycles.{
  cycle_key, sort, insert_sorted, text_before, is_exit_condition,
}

insert_sorted_mem : (s : String) (ts : List String) → Memᴰ s (insert_sorted s ts)
unfolding insert_sorted
insert_sorted_mem s [] = Memᴰ.head refl
insert_sorted_mem s (t ∷ ts) =
    if_either (λ l. Memᴰ s l) (text_before t s) _ _ (Memᴰ.tail (insert_sorted_mem s ts))
      (Memᴰ.head refl)

insert_sorted_keeps :
    (s : String) (ts : List String) {x : String} → Memᴰ x ts → Memᴰ x (insert_sorted s ts)
unfolding insert_sorted
insert_sorted_keeps s [] m = elim m [ ]
insert_sorted_keeps s (t ∷ ts) {x} (Memᴰ.head e) =
    if_either (λ l. Memᴰ x l) (text_before t s) _ _ (Memᴰ.head e) (Memᴰ.tail (Memᴰ.head e))
insert_sorted_keeps s (t ∷ ts) {x} (Memᴰ.tail m) =
    if_either (λ l. Memᴰ x l) (text_before t s) _ _ (Memᴰ.tail (insert_sorted_keeps s ts m))
      (Memᴰ.tail (Memᴰ.tail m))

insert_sorted-All :
    (P : String → Type 0) (s : String) (ts : List String)
    → P s
    → All P ts
    → All P (insert_sorted s ts)
unfolding insert_sorted
insert_sorted-All P s [] p h = (p, tt)
insert_sorted-All P s (t ∷ ts) p h =
    if_either (All P) (text_before t s) (t ∷ insert_sorted s ts) (s ∷ t ∷ ts)
      (h.0, insert_sorted-All P s ts p h.1) (p, h)

-- Sorting keeps the members, and adds none.
pub mem-sort : (xs : List String) {x : String} → Memᴰ x xs → Memᴰ x (sort xs)
unfolding sort
mem-sort [] m = elim m [ ]
mem-sort (y ∷ ys) (Memᴰ.head e) =
    subst (λ z. Memᴰ z (insert_sorted y (sort ys))) (sym e) (insert_sorted_mem y (sort ys))
mem-sort (y ∷ ys) (Memᴰ.tail m) = insert_sorted_keeps y (sort ys) (mem-sort ys m)

pub sort-All : (P : String → Type 0) (xs : List String) → All P xs → All P (sort xs)
unfolding sort
sort-All P [] h = tt
sort-All P (x ∷ xs) h = insert_sorted-All P x (sort xs) h.0 (sort-All P xs h.1)

pub mem_of_mem-sort : (xs : List String) {x : String} → Memᴰ x (sort xs) → Memᴰ x xs
mem_of_mem-sort xs {x} m =
    All-mem (λ y. Memᴰ y xs) (sort xs) (sort-All (λ y. Memᴰ y xs) xs (All-intro _ xs (λ y n. n))) m

sort-ne-nil : (x : String) (xs : List String) → sort (x ∷ xs) ≢ []
sort-ne-nil x xs e = none_there (subst (λ l. Memᴰ x l) e (mem-sort (x ∷ xs) (Memᴰ.head refl)))
  where
    none_there : Memᴰ x [] → ⊥
    none_there m = elim m [ ]

abbrev ids : List Edge → List String
ids c = map (λ e. e.id) c

ids-CommaFree :
    (edges c : List Edge)
    → All (λ e. CommaFree e.id) edges
    → All (λ e. Memᴰ e edges) c
    → All CommaFree (ids c)
ids-CommaFree edges [] free m = tt
ids-CommaFree edges (e ∷ c) free m =
    (All-mem (λ e. CommaFree e.id) edges free m.0, ids-CommaFree edges c free m.1)

module _ (edges : List Edge) (distinct : Distinct (map (λ (e : Edge). e.id) edges))
    (free : All (λ e. CommaFree e.id) edges) where
  same_ids :
      (c d : List Edge)
      → All (λ e. Memᴰ e edges) c
      → All (λ e. Memᴰ e edges) d
      → c ≢ []
      → d ≢ []
      → cycle_key c ≡ cycle_key d
      → sort (ids c) ≡ sort (ids d)
  unfolding cycle_key
  same_ids [] d mc md nc nd k = absurd (nc refl)
  same_ids (e ∷ c) [] mc md nc nd k = absurd (nd refl)
  same_ids (e ∷ c) (f ∷ d) mc md nc nd k =
      join_injective _ _ (sort-All CommaFree _ (ids-CommaFree edges (e ∷ c) free mc))
        (sort-All CommaFree _ (ids-CommaFree edges (f ∷ d) free md)) (sort-ne-nil e.id (ids c))
        (sort-ne-nil f.id (ids d)) k

  -- Of two cycles with one key, either both have an exit or none has.
  pub key_exit :
      (c d : List Edge)
      → All (λ e. Memᴰ e edges) c
      → All (λ e. Memᴰ e edges) d
      → c ≢ []
      → d ≢ []
      → cycle_key c ≡ cycle_key d
      → any is_exit_condition c ≡ true
      → any is_exit_condition d ≡ true
  key_exit c d mc md nc nd k exit =
      let (e, m, t) = any_elim is_exit_condition c exit in
      let there : Memᴰ e.id (sort (ids d)) =
        subst (λ l. Memᴰ e.id l) (same_ids c d mc md nc nd k)
          (mem-sort (ids c) (mem-map_of_mem (λ (x : Edge). x.id) c m)) in
      let (f, n, same) = exists_of_mem-map (λ (x : Edge). x.id) d (mem_of_mem-sort (ids d) there) in
      let equal : f ≡ e =
        Distinct-injective (λ (x : Edge). x.id) edges distinct (All-mem (λ x. Memᴰ x edges) d md n)
          (All-mem (λ x. Memᴰ x edges) c mc m) same in
      any_intro is_exit_condition d n (ap is_exit_condition equal ∙ t)
