-- ===== src/Base/Texts/Search.antt =====
-- Search in texts, of code points.
use Prim.Native.Nat.{ℕ, ◌+◌}
use Prim.Native.String.{String}
use mathlib.Core.Bool.{Bool, true, false, ◌&&◌, ◌||◌}
use mathlib.Core.List.{List, [], ◌∷◌}
use essentials_calls.Base.Tests.{leb, nat_eq, if◌then◌else◌}
use essentials_calls.Base.Texts.{codes}

-- `toLowerCase`, as far as the words go that are searched in it.
abbrev pub lower : List ℕ → List ℕ
lower [] = []
lower (c ∷ cs) = (if leb b'A' c && leb c b'Z' then c + 32 else c) ∷ lower cs

abbrev pub starts_with : List ℕ → List ℕ → Bool
starts_with [] cs = true
starts_with (p ∷ ps) [] = false
starts_with (p ∷ ps) (c ∷ cs) = nat_eq p c && starts_with ps cs

abbrev pub has_part : List ℕ → List ℕ → Bool
has_part ps [] = starts_with ps []
has_part ps (c ∷ cs) = starts_with ps (c ∷ cs) || has_part ps cs

-- `/word/.test(text.toLowerCase())`
unfoldable pub mentions : String → String → Bool
mentions word text = has_part (codes word) (lower (codes text))

-- `text.startsWith(word)`
unfoldable pub begins : String → String → Bool
begins word text = starts_with (codes word) (codes text)

-- `text.includes(word)`
unfoldable pub includes : String → String → Bool
includes word text = has_part (codes word) (codes text)
