-- ===== src/Validator/Cycles/HaveExits.antt =====
-- The cycle check is complete: where it was not cut off and reports no error, each simple cycle of
-- the graph has an exit.
use mathlib.Core.List.{Memᴰ}
use essentials_calls.Base.{
  ℕ, ◌≤◌, String, ◌≡◌, ◌≢◌, refl, true, false, Option, none, some, List, [], ◌∷◌, ◌++◌, map, arith,
  ap, sym, ◌∙◌, subst, All, All-mem, All-intro, any, Distinct, contains, get_elem?, contains_true,
  ==_refl, ==_iff,
}
use essentials_calls.Base.Members.{
  All-swap, Distinct-swap, split_mem, least_mem, length-le_of_members,
}
use essentials_calls.Base.Texts.Join.{CommaFree}
use essentials_calls.Model.{Edge}
use essentials_calls.Validator.Issue.{has_errors}
use essentials_calls.Validator.Cycles.{is_exit_condition, no_search, before, index_of, search_from}
use essentials_calls.Validator.Cycles.Completeness.{search-Reports}
use essentials_calls.Validator.Cycles.Invariant.{Chain}
use essentials_calls.Validator.Cycles.Soundness.{search_explains}
use essentials_calls.Validator.Cycles.Exits.{key_exit}
use essentials_calls.Validator.Cycles.Simple.{
  IsInside, index_from_sound, index_from_total, chain-Closes,
}
use essentials_calls.Validator.Cycles.Rotation.{
  sources, sources-append, length-sources, Chain-rotate, Chain-All, Chain-targets, any-swap,
}

-- A closed walk that meets no node twice.
pub record SimpleCycle (edges : List Edge) (c : List Edge) : Type 0 where
  pub start : String
  pub walk : Chain edges start start c
  pub not_empty : c ≢ []
  pub distinct : Distinct (sources c)

abbrev rank : Option ℕ → ℕ
rank none = 0
rank (some i) = i

index_of_total :
    (order : List String) (edges : List Edge) (id : String)
    → contains id order ≡ true
    → index_of order edges id ≡ some (rank (index_of order edges id))
unfolding index_of
index_of_total order edges id h = let (j, e) = index_from_total 0 id order h in cc e

index_of_sound :
    (order : List String) (edges : List Edge) (id : String) (j : ℕ)
    → index_of order edges id ≡ some j
    → get_elem? order j ≡ some id
unfolding index_of
index_of_sound order edges id j h =
    let (k, e, g) = index_from_sound 0 id order j h in
    let same : j ≡ k = omega arith in subst (λ m. get_elem? order m ≡ some id) (sym same) g

module _ (order : List String) (edges : List Edge) where
  -- A node that is not before another is not before its index.
  not_before :
      (n : ℕ) (id : String)
      → contains id order ≡ true
      → n ≤ rank (index_of order edges id)
      → before (index_of order edges id) n ≡ false
  not_before n id known le =
      subst (λ i. before i n ≡ false) (sym (index_of_total order edges id known)) (ground arith)

  -- A simple cycle, started at the first of its nodes in the order, is reported.
  module _ (whole : (search_from order edges 0 order no_search).truncated ≡ false)
      (fine : has_errors (search_from order edges 0 order no_search).issues ≡ false)
      (ids : Distinct (map (λ (e : Edge). e.id) edges)) (free : All (λ e. CommaFree e.id) edges)
      (inside : All (IsInside order) edges) where
    members-IsInside : (c : List Edge) → All (λ e. Memᴰ e edges) c → All (IsInside order) c
    members-IsInside c m = All-intro _ c λ e n. All-mem _ edges inside (All-mem _ c m n)

    exit_from_first :
        (e : Edge) (es : List Edge)
        → Chain edges e.target e.source es
        → Memᴰ e edges
        → Distinct (sources (e ∷ es))
        → All
            (λ f. rank (index_of order edges e.source) ≤ rank (index_of order edges f.source))
            (e ∷ es)
        → any is_exit_condition (e ∷ es) ≡ true
    exit_from_first e es chain m distinct least =
        let n = rank (index_of order edges e.source) in
        let ms : All (λ f. Memᴰ f edges) (e ∷ es) =
          (m, Chain-All edges e.target e.source es chain) in
        let ins = members-IsInside (e ∷ es) ms in
        let from : All (λ (f : Edge). before (index_of order edges f.source) n ≡ false) (e ∷ es) =
          All-intro _ (e ∷ es) λ f k.
            not_before n f.source (All-mem _ (e ∷ es) ins k).0 (All-mem _ (e ∷ es) least k) in
        let after =
          Chain-targets edges (λ id. before (index_of order edges id) n ≡ false) e.source e.source
            (e ∷ es) (refl, m, chain) from from.0 in
        let closes =
          chain-Closes order edges n e.source e es (e.source ∷ []) e.source
            (rw (==_refl e.source) refl) refl ms chain ins after distinct.1
            (fresh e.source es distinct.0) in
        let short = length-le_of_members (sources (e ∷ es)) order distinct (known (e ∷ es) ins) in
        let reported =
          search-Reports order edges n 0 n order e.source (e ∷ es) no_search (omega arith)
            (index_of_sound order edges e.source n (index_of_total order edges e.source ins.0.0))
            closes (omega (arith, length-sources (e ∷ es), short)) whole in
        let (start, c, walk, some_edge, same_key, exit) =
          search_explains edges order order _ fine reported in
        key_exit edges ids free c (e ∷ es) (Chain-All edges start start c walk) ms some_edge
          (λ h. cc h) same_key exit
      where
        fresh :
            (s : String) (fs : List Edge)
            → All (λ t. s ≢ t) (sources fs)
            → All (λ (f : Edge). contains f.source (s ∷ []) ≡ false) fs
        fresh s [] h = tt
        fresh s (f ∷ fs) h = (ground (arith, ==_iff s f.source, h.0), fresh s fs h.1)

        known : (fs : List Edge) → All (IsInside order) fs → All (λ id. Memᴰ id order) (sources fs)
        known [] h = tt
        known (f ∷ fs) h = (contains_true f.source order h.0.0, known fs h.1)

    -- Each simple cycle has an exit.
    pub SimpleCycle-exits : (c : List Edge) → SimpleCycle edges c → any is_exit_condition c ≡ true
    SimpleCycle-exits [] cycle = absurd (cycle.not_empty refl)
    SimpleCycle-exits (f ∷ fs) cycle =
        let (e, m, least) = least_mem (λ (g : Edge). rank (index_of order edges g.source)) f fs in
        let (ls, rs, cut) = split_mem (f ∷ fs) m in
        let walk : Chain edges cycle.start cycle.start (ls ++ e ∷ rs) =
          subst (λ c. Chain edges cycle.start cycle.start c) cut cycle.walk in
        let distinct : Distinct (sources (e ∷ rs) ++ sources ls) =
          Distinct-swap (sources ls) (sources (e ∷ rs)) (
            subst Distinct (sources-append ls (e ∷ rs))
              (subst (λ c. Distinct (sources c)) cut cycle.distinct)) in
        let least' =
          All-swap
            (λ (g : Edge).
              rank (index_of order edges e.source) ≤ rank (index_of order edges g.source))
            ls (e ∷ rs)
            (subst
              (λ c.
                All
                  (λ (g : Edge).
                    rank (index_of order edges e.source) ≤ rank (index_of order edges g.source))
                  c)
              cut least) in
        ap (any is_exit_condition) cut
        ∙ any-swap is_exit_condition ls (e ∷ rs)
        ∙ exit_from_first e (rs ++ ls) (Chain-rotate edges cycle.start ls rs e walk)
            (All-mem (λ g. Memᴰ g edges) _
              (Chain-All edges cycle.start cycle.start (f ∷ fs) cycle.walk) m)
            (subst Distinct (sym (sources-append (e ∷ rs) ls)) distinct) least'
