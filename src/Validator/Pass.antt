-- ===== src/Validator/Pass.antt =====
-- The loops of the validator go once through a list, collect issues, and remember the keys that
-- they have met. The laws of such a pass, for any item, state and check.
use essentials_calls.Base.{String, ◌≡◌, ◌≢◌, false, Option, none, some, List, [], ◌∷◌, ◌++◌, subst}
use essentials_calls.Base.{Bool, map, ap, refl, or_false, ==_false, ◌==◌, All, Distinct, contains}
use essentials_calls.Validator.Issue.{ValidationIssue, has_errors, no_errors-append}

-- One check of one item: the state after it, and what it reports.
abbrev pub Check : Type 0 → Type 0 → Type 0
Check A S = A → S → S × List ValidationIssue

-- A loop whose body keeps no state.
abbrev pub each : {A : Type 0} → (A → List ValidationIssue) → List A → List ValidationIssue
each check [] = []
each check (x ∷ xs) = check x ++ each check xs

-- The keys that the items claim, in order.
abbrev pub collect : {A K : Type 0} → (A → Option K) → List A → List K
collect key [] = []
collect key (x ∷ xs) = let rest = collect key xs in elim (key x) [ none ↦ rest | some k ↦ k ∷ rest ]

pub collect-map :
    {A : Type 0} (f : A → String) (xs : List A) → collect (λ x. some (f x)) xs ≡ map f xs
collect-map f [] = refl
collect-map f (x ∷ xs) = ap (λ ks. f x ∷ ks) (collect-map f xs)

module _ {A S : Type 0} where
  -- `for (const x of xs) { … }`
  unfoldable pub pass : Check A S → List A → S → S × List ValidationIssue
  pass step [] s = (s, [])
  pass step (x ∷ xs) s =
      ((pass step xs (step x s).0).0, (step x s).1 ++ (pass step xs (step x s).0).1)

  -- What holds of an item whose check reports no error holds of all items of such a pass.
  pub pass-All :
      (step : Check A S) (P : A → Type 0)
      → ((x : A) (s : S) → has_errors (step x s).1 ≡ false → P x)
      → (xs : List A) (s : S) → has_errors (pass step xs s).1 ≡ false
      → All P xs
  unfolding pass
  pass-All step P one [] s h = tt
  pass-All step P one (x ∷ xs) s h =
      let (a, b) = no_errors-append (step x s).1 (pass step xs (step x s).0).1 h in
      (one x s a, pass-All step P one xs (step x s).0 b)

pub each-All :
    {A : Type 0} (check : A → List ValidationIssue) (P : A → Type 0)
    → ((x : A) → has_errors (check x) ≡ false → P x)
    → (xs : List A) → has_errors (each check xs) ≡ false
    → All P xs
each-All check P one [] h = tt
each-All check P one (x ∷ xs) h =
    let (a, b) = no_errors-append (check x) (each check xs) h in
    (one x a, each-All check P one xs b)

-- A set of keys that is kept as a list of its elements, with the test for an element.
module _ {K : Type 0} (known : K → List K → Bool) where
  -- How a check without errors treats the set: a claimed key is new, and is added.
  abbrev pub ClaimsBy : Option K → List K → List K → Type 0
  ClaimsBy none before after = after ≡ before
  ClaimsBy (some k) before after = (known k before ≡ false) × (after ≡ k ∷ before)

  abbrev pub FreshBy : List K → List K → Type 0
  FreshBy seen ks = All (λ k. known k seen ≡ false) ks

module _ {K : Type 0} (known : K → List K → Bool)
    (miss : (k j : K) (seen : List K)
      → known k (j ∷ seen) ≡ false
      → (j ≢ k) × (known k seen ≡ false)) where
  Fresh-cons :
      (k : K) (seen ks : List K)
      → FreshBy known (k ∷ seen) ks
      → All (λ j. k ≢ j) ks × FreshBy known seen ks
  Fresh-cons k seen [] h = (tt, tt)
  Fresh-cons k seen (j ∷ js) h =
      let (ne, f) = miss j k seen h.0 in
      let (ds, fs) = Fresh-cons k seen js h.1 in ((ne, ds), (f, fs))

  module _ {A S : Type 0} (step : Check A S) (proj : S → List K) (key : A → Option K)
      (one : (x : A) (s : S)
        → has_errors (step x s).1 ≡ false
        → ClaimsBy known (key x) (proj s) (proj (step x s).0)) where
    -- A pass without errors has met pairwise distinct keys, none of them known before.
    pub pass-Distinct_by :
        (xs : List A) (s : S)
        → has_errors (pass step xs s).1 ≡ false
        → Distinct (collect key xs) × FreshBy known (proj s) (collect key xs)
    unfolding pass
    pass-Distinct_by [] s h = (tt, tt)
    pass-Distinct_by (x ∷ xs) s h =
        let (a, b) = no_errors-append (step x s).1 (pass step xs (step x s).0).1 h in
        go (key x) (one x s a) (pass-Distinct_by xs (step x s).0 b)
      where
        ks : List K
        ks = collect key xs

        after : List K
        after = proj (step x s).0

        go :
            (o : Option K)
            → ClaimsBy known o (proj s) after
            → Distinct ks × FreshBy known after ks
            → Distinct (elim o [ none ↦ ks | some k ↦ k ∷ ks ])
              × FreshBy known (proj s) (elim o [ none ↦ ks | some k ↦ k ∷ ks ])
        go none c r = (r.0, subst (λ t. FreshBy known t ks) c r.1)
        go (some k) c r =
            let (d, f) = Fresh-cons k (proj s) ks (subst (λ t. FreshBy known t ks) c.1 r.1) in
            ((d, r.0), (c.0, f))

-- The same for sets of texts.
abbrev pub Claims : Option String → List String → List String → Type 0
Claims = ClaimsBy contains

contains_miss :
    (k j : String) (seen : List String)
    → contains k (j ∷ seen) ≡ false
    → (j ≢ k) × (contains k seen ≡ false)
contains_miss k j seen h = let (a, b) = or_false (j == k) (contains k seen) h in (==_false j k a, b)

pub pass-Distinct :
    {A S : Type 0} (step : Check A S) (proj : S → List String) (key : A → Option String)
    → ((x : A) (s : S)
        → has_errors (step x s).1 ≡ false
        → Claims (key x) (proj s) (proj (step x s).0))
    → (xs : List A) (s : S) → has_errors (pass step xs s).1 ≡ false
    → Distinct (collect key xs)
pass-Distinct step proj key one xs s h =
    (pass-Distinct_by contains contains_miss step proj key one xs s h).0
