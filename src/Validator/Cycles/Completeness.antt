-- ===== src/Validator/Cycles/Completeness.antt =====
-- The search of cycles finds every simple path that closes: what it has reported stays reported,
-- and a search that was not cut off has reported the key of each such path.
use mathlib.Core.List.{Memᴰ}
use essentials_calls.Base.{
  ℕ, zero, suc, ◌≤◌, String, ◌≡◌, refl, Bool, true, false, List, [], ◌∷◌, ◌++◌, arith, length,
  contains, get_elem?, ◌+◌, some, ==_refl, ==_iff, ◌==◌, if◌then◌else◌, if_either, subst,
}
use mathlib.Core.Path.{subst₂}
use mathlib.Core.List.{append_assoc}
use essentials_calls.Model.{Edge}
use essentials_calls.Validator.Cycles.{
  cycle_key, Search, before, close_cycle, index_of, edges_from, follow, scan, walk, search_from,
}

abbrev Reports : String → Search → Type 0
Reports k s = contains k s.reported ≡ true

close_cycle_keeps :
    (k : String) (cycle : List Edge) (s : Search) → Reports k s → Reports k (close_cycle cycle s)
unfolding close_cycle
close_cycle_keeps k cycle s h = ground arith

close_cycle-Reports :
    (cycle : List Edge) (s : Search)
    → (close_cycle cycle s).truncated ≡ false
    → Reports (cycle_key cycle) (close_cycle cycle s)
unfolding close_cycle
close_cycle-Reports cycle s h = ground (arith, ==_refl (cycle_key cycle))

-- A result that is not cut off comes from a step that was not cut off, and from what follows it.
going_on :
    (P : Search → Type 0) (b : Bool) (next rest : Search)
    → next.truncated ≡ b
    → (if b then next else rest).truncated ≡ false
    → (next.truncated ≡ false → rest.truncated ≡ false → P rest)
    → P (if b then next else rest)
going_on P true next rest e h f = cc
going_on P false next rest e h f = f e h

module _ (order : List String) (edges : List Edge) (i : ℕ) (start : String) where
  -- A simple path from a node, off the nodes of `on_path`, that closes at the start. The nodes
  -- before the start in the order are avoided, as the search does.
  abbrev pub Closes : List String → String → List Edge → Type 0
  Closes on_path from [] = ⊥
  Closes on_path from (e ∷ []) =
      Memᴰ e (edges_from order edges from)
      × (before (index_of order edges e.target) i ≡ false)
      × (e.target ≡ start)
  Closes on_path from (e ∷ f ∷ es) =
      Memᴰ e (edges_from order edges from)
      × (before (index_of order edges e.target) i ≡ false)
      × ((e.target == start) ≡ false)
      × (contains e.target on_path ≡ false)
      × Closes (e.target ∷ on_path) e.target (f ∷ es)

  abbrev Visit : Type 0
  Visit = String → List String → List Edge → Search → Search

  abbrev Keeps : Visit → Type 0
  Keeps visit =
      (k : String) (cur : String) (on_path : List String) (path : List Edge) (s : Search)
      → Reports k s
      → Reports k (visit cur on_path path s)

  follow-Keeps :
      (visit : Visit)
      → Keeps visit
      → (k : String) (on_path : List String) (path : List Edge) (e : Edge) (s : Search)
      → Reports k s
      → Reports k (follow order edges i start visit on_path path e s)
  unfolding follow
  follow-Keeps visit keeps k on_path path e s h = ground (
    arith,
    close_cycle_keeps k (path ++ e ∷ []) s h,
    keeps k e.target (e.target ∷ on_path) (path ++ e ∷ []) s h,
  )

  scan-Keeps :
      (visit : Visit)
      → Keeps visit
      → (k : String) (on_path : List String) (path es : List Edge) (s : Search) → Reports k s
      → Reports k (scan order edges i start visit on_path path es s)
  unfolding scan
  scan-Keeps visit keeps k on_path path [] s h = h
  scan-Keeps visit keeps k on_path path (e ∷ es) s h =
      let here = follow-Keeps visit keeps k on_path path e s h in
      ground (
        arith,
        here,
        scan-Keeps visit keeps k on_path path es (follow order edges i start visit on_path path e s)
            here,
      )

  walk-Keeps : (fuel : ℕ) → Keeps (walk order edges i start fuel)
  unfolding walk
  walk-Keeps zero k cur on_path path s h = h
  walk-Keeps (suc fuel) k cur on_path path s h = ground (
    arith,
    scan-Keeps (walk order edges i start fuel) (walk-Keeps fuel) k on_path path
        (edges_from order edges cur) s h,
  )

  -- Following an edge reports the key, unless the search is cut off.
  abbrev Followed : Visit → List String → List Edge → String → Edge → Search → Type 0
  Followed visit on_path path k e s =
      (follow order edges i start visit on_path path e s).truncated ≡ false
      → Reports k (follow order edges i start visit on_path path e s)

  -- A loop that was not cut off has followed each of its edges, and was cut off in none of them.
  scan_follows :
      (visit : Visit)
      → Keeps visit
      → (k : String) (on_path : List String) (path es : List Edge) (e : Edge)
      → ((s : Search) → Followed visit on_path path k e s)
      → Memᴰ e es
      → (s : Search) → (scan order edges i start visit on_path path es s).truncated ≡ false
      → Reports k (scan order edges i start visit on_path path es s)
  unfolding scan
  scan_follows visit keeps k on_path path [] e one m s h = elim m [ ]
  scan_follows visit keeps k on_path path (f ∷ es) e one (Memᴰ.head p) s h =
      let next = follow order edges i start visit on_path path f s in
      going_on (Reports k) next.truncated next _ refl h λ going t.
        scan-Keeps visit keeps k on_path path es next
          (subst (λ (g : Edge). Followed visit on_path path k g s) p (one s) going)
  scan_follows visit keeps k on_path path (f ∷ es) e one (Memᴰ.tail n) s h =
      let next = follow order edges i start visit on_path path f s in
      going_on (Reports k) next.truncated next _ refl h
        λ going t. scan_follows visit keeps k on_path path es e one n next t

  follow_close :
      (visit : Visit) (on_path : List String) (path : List Edge) (e : Edge)
      → before (index_of order edges e.target) i ≡ false
      → e.target ≡ start
      → (s : Search) → Followed visit on_path path (cycle_key (path ++ e ∷ [])) e s
  unfolding follow
  follow_close visit on_path path e after closed s h =
      ground (arith, ==_iff e.target start, close_cycle-Reports (path ++ e ∷ []) s)

  follow_on :
      (visit : Visit) (on_path : List String) (path : List Edge) (e : Edge) (k : String)
      (s : Search)
      → before (index_of order edges e.target) i ≡ false
      → (e.target == start) ≡ false
      → contains e.target on_path ≡ false
      → ((visit e.target (e.target ∷ on_path) (path ++ e ∷ []) s).truncated ≡ false
          → Reports k (visit e.target (e.target ∷ on_path) (path ++ e ∷ []) s))
      → Followed visit on_path path k e s
  unfolding follow
  follow_on visit on_path path e k s a b c f = rw (a, b, c) f

  -- A walk with enough fuel that was not cut off has reported each path that closes.
  pub walk-Reports :
      (fuel : ℕ) (cur : String) (on_path : List String) (path es : List Edge) (s : Search)
      → Closes on_path cur es
      → length es ≤ fuel
      → (walk order edges i start fuel cur on_path path s).truncated ≡ false
      → Reports (cycle_key (path ++ es)) (walk order edges i start fuel cur on_path path s)
  unfolding walk
  walk-Reports fuel cur on_path path [] s c l h = elim c [ ]
  walk-Reports zero cur on_path path (e ∷ es) s c l h = absurd (omega arith)
  walk-Reports (suc fuel) cur on_path path (e ∷ []) s c l h =
      let visit = walk order edges i start fuel in
      going_on (Reports (cycle_key (path ++ e ∷ []))) s.truncated s _ refl h λ going t.
        scan_follows visit (walk-Keeps fuel) (cycle_key (path ++ e ∷ [])) on_path path
          (edges_from order edges cur) e (follow_close visit on_path path e c.1 c.2) c.0 s t
  walk-Reports (suc fuel) cur on_path path (e ∷ f ∷ es) s c l h =
      let visit = walk order edges i start fuel in
      going_on (Reports (cycle_key (path ++ e ∷ f ∷ es))) s.truncated s _ refl h λ going t.
        scan_follows visit (walk-Keeps fuel) (cycle_key (path ++ e ∷ f ∷ es)) on_path path
          (edges_from order edges cur) e
          (λ u. follow_on visit on_path path e _ u c.1 c.2 c.3 (
            rw append_assoc at (
              walk-Reports fuel e.target (e.target ∷ on_path) (path ++ e ∷ []) (f ∷ es) u c.4
                (omega arith))))
          c.0 s t

module _ (order : List String) (edges : List Edge) where
  search_keeps :
      (k : String) (i : ℕ) (starts : List String) (s : Search)
      → Reports k s
      → Reports k (search_from order edges i starts s)
  unfolding search_from
  search_keeps k i [] s h = h
  search_keeps k i (start ∷ starts) s h =
      let found = walk order edges i start (suc (length order)) start (start ∷ []) [] s in
      let here : Reports k found =
        walk-Keeps order edges i start (suc (length order)) k start (start ∷ []) [] s h in
      if_either (Reports k) found.truncated found _ here (search_keeps k (suc i) starts found here)

  -- A search that was not cut off has reported each path that closes at one of its starts.
  pub search-Reports :
      (n i j : ℕ) (starts : List String) (start : String) (es : List Edge) (s : Search)
      → n ≡ i + j
      → get_elem? starts j ≡ some start
      → Closes order edges n start (start ∷ []) start es
      → length es ≤ suc (length order)
      → (search_from order edges i starts s).truncated ≡ false
      → Reports (cycle_key es) (search_from order edges i starts s)
  unfolding search_from
  search-Reports n i j [] start es s e g c l h = cc
  search-Reports n i zero (x ∷ starts) start es s e g c l h =
      let fuel = suc (length order) in
      let found = walk order edges i x fuel x (x ∷ []) [] s in
      let same_index : n ≡ i = omega arith in
      let same_start : start ≡ x = ground arith in
      let c' : Closes order edges i x (x ∷ []) x es =
        subst₂ (λ m t. Closes order edges m t (t ∷ []) t es) same_index same_start c in
      going_on (Reports (cycle_key es)) found.truncated found _ refl h λ going t.
        search_keeps (cycle_key es) (suc i) starts found
          (walk-Reports order edges i x fuel x (x ∷ []) [] es s c' l going)
  search-Reports n i (suc j) (x ∷ starts) start es s e g c l h =
      let found = walk order edges i x (suc (length order)) x (x ∷ []) [] s in
      going_on (Reports (cycle_key es)) found.truncated found _ refl h
        λ going t. search-Reports n (suc i) j starts start es found (omega arith) g c l t
