-- ===== src/Base/Texts.antt =====
-- Texts, character by character. A text of the program is a sequence of UTF-16 code units; here it
-- is a sequence of characters, and a character past U+FFFF stands for two units.
pub mod Join
pub mod Search
use Prim.Native.Nat.{ℕ, ◌+◌}
use Prim.Native.Char.{code}
use Prim.Native.String
use Prim.Native.String.{String}
use native.Mathlib.Omega.{arith}
use mathlib.Core.Path.{◌≡◌, refl}
use mathlib.Core.Bool.{Bool, true, false, not, ◌&&◌, ◌||◌}
use mathlib.Core.List.{List, [], ◌∷◌}
use essentials_calls.Base.Tests.{leb, nat_eq, if◌then◌else◌}

infixr 60 ◌<>◌
abbrev pub ◌<>◌ : String → String → String
s <> t = String.◌++◌ s t

-- The code points of a text.
abbrev pub codes : String → List ℕ
codes String.[] = []
codes (String.◌∷◌ c s) = code c ∷ codes s

-- `!s` for a string.
abbrev pub is_empty : String → Bool
is_empty String.[] = true
is_empty (String.◌∷◌ c s) = false

abbrev pub all_chars : (ℕ → Bool) → String → Bool
all_chars p String.[] = true
all_chars p (String.◌∷◌ c s) = p (code c) && all_chars p s

-- `s.length`, in UTF-16 code units.
unfoldable pub is_astral : ℕ → Bool
is_astral c = leb 0x10000 c

unfoldable pub units : ℕ → ℕ
units c = if is_astral c then 2 else 1

abbrev pub utf16_length : String → ℕ
utf16_length String.[] = 0
utf16_length (String.◌∷◌ c s) = units (code c) + utf16_length s

unfoldable pub is_digit : ℕ → Bool
is_digit c = leb b'0' c && leb c b'9'

unfoldable pub is_letter : ℕ → Bool
is_letter c = leb b'A' c && leb c b'Z' || leb b'a' c && leb c b'z'

-- `[A-Za-z0-9_]`
unfoldable pub is_word : ℕ → Bool
unfolding is_letter is_digit
is_word c = is_letter c || is_digit c || nat_eq c b'_'

-- `/^[0-9]+$/.test(s)`
unfoldable pub digits_only : String → Bool
unfolding is_digit
digits_only s = not (is_empty s) && all_chars is_digit s

-- A word character is ASCII.
pub units-is_word : (c : ℕ) → is_word c ≡ true → units c ≡ 1
unfolding is_word units is_astral
units-is_word c h = ground arith

pub units-ascii : (c : ℕ) → is_astral c ≡ false → units c ≡ 1
unfolding units
units-ascii c h = ground arith

pub units-astral : (c : ℕ) → is_astral c ≡ true → units c ≡ 2
unfolding units
units-astral c h = ground arith

pub is_word-underscore : is_word b'_' ≡ true
unfolding is_word
is_word-underscore = refl

pub is_word-digit : (c : ℕ) → is_digit c ≡ true → is_word c ≡ true
unfolding is_word
is_word-digit c h = ground arith

-- `xs.join(sep)`
abbrev pub join : String → List String → String
join sep [] = ""
join sep (x ∷ []) = x
join sep (x ∷ y ∷ ys) = x <> sep <> join sep (y ∷ ys)
