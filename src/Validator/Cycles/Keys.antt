-- ===== src/Validator/Cycles/Keys.antt =====
-- The key of a cycle: `cycleEdges.map((e) => e.id).sort().join(',')`. `sort` orders texts by their
-- UTF-16 units.
use essentials_calls.Base.{
  ℕ, ◌+◌, String, Bool, true, false, List, [], ◌∷◌, map, ltb, nat_eq, if◌then◌else◌,
}
use essentials_calls.Base.Texts.{codes, join}
use essentials_calls.Model.{Edge}

-- Characters past U+FFFF are surrogate pairs, which stand before U+E000 in the order of the units.
abbrev pub unit_rank : ℕ → ℕ
unit_rank c = if ltb c 0xe000 then c else if ltb c 0x10000 then c + 0x110000 else c

abbrev pub codes_before : List ℕ → List ℕ → Bool
codes_before [] [] = false
codes_before [] (d ∷ ds) = true
codes_before (c ∷ cs) [] = false
codes_before (c ∷ cs) (d ∷ ds) =
    let rest = codes_before cs ds in if nat_eq c d then rest else ltb (unit_rank c) (unit_rank d)

unfoldable pub text_before : String → String → Bool
text_before s t = codes_before (codes s) (codes t)

unfoldable pub insert_sorted : String → List String → List String
insert_sorted s [] = s ∷ []
insert_sorted s (t ∷ ts) =
    let rest = insert_sorted s ts in if text_before t s then t ∷ rest else s ∷ t ∷ ts

-- `ids.sort()`
unfoldable pub sort : List String → List String
sort [] = []
sort (s ∷ ss) = insert_sorted s (sort ss)

unfoldable pub cycle_key : List Edge → String
cycle_key cycle = join "," (sort (map (λ e. e.id) cycle))
