-- ===== src/Validator/Cycles/Invariant.antt =====
-- Invariants of the search of cycles: what holds at its start and is kept whenever a closed walk of
-- the graph is looked at.
use mathlib.Core.List.{Memᴰ}
use essentials_calls.Base.{
  ℕ, zero, suc, String, ◌≡◌, ◌≢◌, refl, List, [], ◌∷◌, ◌++◌, length, contains, ==_iff, ◌==◌,
  if◌then◌else◌, sym, subst, ◌∙◌, if_either, if_split, and_true, All, mem_of_mem-filter, All-intro,
}
use essentials_calls.Model.{Edge}
use essentials_calls.Validator.Cycles.{
  Search, before, close_cycle, index_of, edges_from, follow, scan, walk, search_from,
}

-- A walk along edges of the graph.
abbrev pub Chain : List Edge → String → String → List Edge → Type 0
Chain edges from to [] = from ≡ to
Chain edges from to (e ∷ es) = (e.source ≡ from) × Memᴰ e edges × Chain edges e.target to es

Chain-concat :
    (edges : List Edge) (from : String) (path : List Edge) (e : Edge) {to : String}
    → Chain edges from to path
    → e.source ≡ to
    → Memᴰ e edges
    → Chain edges from e.target (path ++ e ∷ [])
Chain-concat edges from [] e c s m = (s ∙ sym c, m, refl)
Chain-concat edges from (f ∷ path) e c s m = (c.0, c.1, Chain-concat edges f.target path e c.2 s m)

Chain-eq :
    (edges : List Edge) (from : String) (path : List Edge) {to there : String}
    → Chain edges from to path
    → to ≡ there
    → Chain edges from there path
Chain-eq edges from path c e = subst (λ t. Chain edges from t path) e c

append-ne-nil : (path : List Edge) (e : Edge) → path ++ e ∷ [] ≢ []
append-ne-nil [] e h = cc
append-ne-nil (f ∷ path) e h = cc

-- The edges from a node leave it.
edges_from-All :
    (order : List String) (edges : List Edge) (id : String)
    → All (λ e. (e.source ≡ id) × Memᴰ e edges) (edges_from order edges id)
unfolding edges_from
edges_from-All order edges id = All-intro _ _ λ e m.
    let (n, t) = mem_of_mem-filter _ edges m in
    let (ends, _) = and_true _ _ t in
    let (from, _) = and_true _ _ ends in ((==_iff e.source id).0 from, n)

-- An invariant of the search: it holds at the start, and closing a closed walk keeps it.
module _ (order : List String) (edges : List Edge) (P : Search → Type 0)
    (keep : (start : String) (c : List Edge) (s : Search)
      → Chain edges start start c
      → c ≢ []
      → P s
      → P (close_cycle c s)) where
  module _ (i : ℕ) (start : String) where
    abbrev Invariant : (String → List String → List Edge → Search → Search) → Type 0
    Invariant visit =
        (cur : String) (on_path : List String) (path : List Edge) (s : Search)
        → Chain edges start cur path
        → P s
        → P (visit cur on_path path s)

    follow_invariant :
        (visit : String → List String → List Edge → Search → Search)
        → Invariant visit
        → (cur : String) (on_path : List String) (path : List Edge) (e : Edge) (s : Search)
        → Chain edges start cur path
        → e.source ≡ cur
        → Memᴰ e edges
        → P s
        → P (follow order edges i start visit on_path path e s)
    unfolding follow
    follow_invariant visit inv cur on_path path e s c from m h =
        let longer = Chain-concat edges start path e c from m in
        let on = path ++ e ∷ [] in
        let inner = visit e.target (e.target ∷ on_path) on s in
        let outer = if contains e.target on_path then s else inner in
        if_either P (before (index_of order edges e.target) i) s
          (if e.target == start then close_cycle on s else outer) h
          (if_split P (e.target == start) (close_cycle on s) outer
            (λ closed.
              keep start on s (Chain-eq edges start on longer ((==_iff e.target start).0 closed))
                (append-ne-nil path e) h)
            (λ _.
              if_either P (contains e.target on_path) s inner h
                (inv e.target (e.target ∷ on_path) on s longer h)))

    scan_invariant :
        (visit : String → List String → List Edge → Search → Search)
        → Invariant visit
        → (cur : String) (on_path : List String) (path es : List Edge) (s : Search)
        → Chain edges start cur path
        → All (λ e. (e.source ≡ cur) × Memᴰ e edges) es
        → P s
        → P (scan order edges i start visit on_path path es s)
    unfolding scan
    scan_invariant visit inv cur on_path path [] s c m h = h
    scan_invariant visit inv cur on_path path (e ∷ es) s c m h =
        let next = follow order edges i start visit on_path path e s in
        let here : P next = follow_invariant visit inv cur on_path path e s c m.0.0 m.0.1 h in
        if_either P next.truncated next _ here
          (scan_invariant visit inv cur on_path path es next c m.1 here)

    walk-Invariant : (fuel : ℕ) → Invariant (walk order edges i start fuel)
    unfolding walk
    walk-Invariant zero cur on_path path s c h = h
    walk-Invariant (suc fuel) cur on_path path s c h = if_either P s.truncated s _ h (
        scan_invariant (walk order edges i start fuel) (walk-Invariant fuel) cur on_path path
          (edges_from order edges cur) s c (edges_from-All order edges cur) h)

  pub search_invariant :
      (i : ℕ) (starts : List String) (s : Search) → P s → P (search_from order edges i starts s)
  unfolding search_from
  search_invariant i [] s h = h
  search_invariant i (start ∷ starts) s h =
      let found = walk order edges i start (suc (length order)) start (start ∷ []) [] s in
      let here : P found =
        walk-Invariant i start (suc (length order)) start (start ∷ []) [] s refl h in
      if_either P found.truncated found _ here (search_invariant (suc i) starts found here)
