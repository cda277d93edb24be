-- ===== src/Validator/Cycles/Simple.antt =====
-- Simple cycles as the search meets them: the index of a node, and paths that close.
use mathlib.Core.List.{Memᴰ}
use essentials_calls.Base.{
  ℕ, zero, suc, ◌+◌, String, ◌≡◌, ◌≢◌, refl, true, false, none, some, List, [], ◌∷◌, map, arith, ap,
  subst, inl, inr, All, Distinct, contains, ==_iff, ◌==◌, get_elem?, Bool-cases, Option-cases,
  mem-filter_of_mem, ◌⊎◌, if◌then◌else◌,
}
use essentials_calls.Model.{Edge}
use essentials_calls.Validator.Cycles.{before, index_from, index_of, edges_from}
use essentials_calls.Validator.Cycles.Completeness.{Closes}
use essentials_calls.Validator.Cycles.Invariant.{Chain}

-- The index of an id is a position where it stands.
pub index_from_sound :
    (i : ℕ) (id : String) (xs : List String) (j : ℕ)
    → index_from i id xs ≡ some j
    → (k : ℕ) × (j ≡ i + k) × (get_elem? xs k ≡ some id)
unfolding index_from
index_from_sound i id [] j h = cc
index_from_sound i id (x ∷ xs) j h = elim (Option-cases (index_from (suc i) id xs)) [
  | inl none_later ↦ here (Bool-cases (x == id)) (rw none_later at h)
  | inr (m, later) ↦
      let (k, e, g) = index_from_sound (suc i) id xs m later in
      let same : m ≡ j = cc (rw later at h) in (suc k, omega arith, g)
]
  where
    here :
        (x == id ≡ true) ⊎ (x == id ≡ false)
        → (if x == id then some i else none) ≡ some j
        → (k : ℕ) × (j ≡ i + k) × (get_elem? (x ∷ xs) k ≡ some id)
    here (inl e) q =
        let same : i ≡ j = cc (rw e at q) in (zero, omega arith, ap some ((==_iff x id).0 e))
    here (inr e) q = cc (rw e at q)

pub index_from_total :
    (i : ℕ) (id : String) (xs : List String)
    → contains id xs ≡ true
    → (j : ℕ) × (index_from i id xs ≡ some j)
unfolding index_from
index_from_total i id [] h = cc
index_from_total i id (x ∷ xs) h = elim (Option-cases (index_from (suc i) id xs)) [
  | inl none_later ↦ elim (Bool-cases (x == id)) [
    | inl e ↦ (i, rw (none_later, e) refl)
    | inr e ↦ let (j, later) = index_from_total (suc i) id xs (rw e at h) in cc (none_later, later)
  ]
  | inr (m, later) ↦ (m, rw later refl)
]

-- Both ends of an edge are known nodes.
abbrev pub IsInside : List String → Edge → Type 0
IsInside order e = (contains e.source order ≡ true) × (contains e.target order ≡ true)

module _ (order : List String) (edges : List Edge) (n : ℕ) (start : String) where
  abbrev pub IsAfter : Edge → Type 0
  IsAfter e = before (index_of order edges e.target) n ≡ false

  edges_from_intro :
      (e : Edge) (from : String)
      → Memᴰ e edges
      → e.source ≡ from
      → IsInside order e
      → Memᴰ e (edges_from order edges from)
  unfolding edges_from
  edges_from_intro e from m s (p, q) =
      mem-filter_of_mem _ edges m (ground (arith, ==_iff e.source from))

  contains_apart :
      (a b : String) (l : List String)
      → contains a l ≡ true
      → contains b l ≡ false
      → (b == a) ≡ false
  contains_apart a b l p q = elim (Bool-cases (b == a)) [
    | inl e ↦ let same : b ≡ a = (==_iff b a).0 e in cc (p, q, ap (λ t. contains t l) same)
    | inr e ↦ e
  ]

  -- A walk that comes back to the start, and meets no node twice, is a path that closes.
  pub chain-Closes :
      (e : Edge) (es : List Edge) (on_path : List String) (from : String)
      → contains start on_path ≡ true
      → e.source ≡ from
      → All (λ f. Memᴰ f edges) (e ∷ es)
      → Chain edges e.target start es
      → All (IsInside order) (e ∷ es)
      → All IsAfter (e ∷ es)
      → Distinct (map (λ (f : Edge). f.source) es)
      → All (λ f. contains f.source on_path ≡ false) es
      → Closes order edges n start on_path from (e ∷ es)
  chain-Closes e [] on_path from known s m chain inside after distinct fresh =
      (edges_from_intro e from m.0 s inside.0, after.0, chain)
  chain-Closes e (f ∷ es) on_path from known s m chain inside after distinct fresh =
      let off : contains e.target on_path ≡ false =
        subst (λ t. contains t on_path ≡ false) chain.0 fresh.0 in
      (
        edges_from_intro e from m.0 s inside.0,
        after.0,
        contains_apart start e.target on_path known off,
        off,
        chain-Closes f es (e.target ∷ on_path) e.target (ground arith) chain.0 m.1 chain.2 inside.1
            after.1 distinct.1 (fresher es distinct.0 fresh.1),
      )
    where
      fresher :
          (gs : List Edge)
          → All (λ t. f.source ≢ t) (map (λ (g : Edge). g.source) gs)
          → All (λ g. contains g.source on_path ≡ false) gs
          → All (λ g. contains g.source (e.target ∷ on_path) ≡ false) gs
      fresher [] d h = tt
      fresher (g ∷ gs) d h =
          (ground (arith, ==_iff e.target g.source, chain.0, d.0, h.0), fresher gs d.1 h.1)
