-- ===== src/Model/Numeric.antt =====
-- Finite JavaScript numbers, as far as the program looks at them: it asks whether a number is an
-- integer, compares it with integer constants, and prints it.
use essentials_calls.Base.{ℕ, String, Bool, true, false}
use essentials_calls.Base.{◌≡◌, ◌≤◌}
use essentials_calls.Base.{ltb, leb, nat_eq, ◌&&◌, ◌||◌, List, [], ◌∷◌, if◌then◌else◌}
use essentials_calls.Base.Texts.{codes}

-- `negsuc n` is -(n + 1). `fraction negative whole text` lies strictly between `whole` and
-- `whole + 1`, or their negatives, and `text` is how it prints, in positional notation.
pub data Number : Type 0 where
  pos : ℕ → Number
  negsuc : ℕ → Number
  fraction : Bool → ℕ → String → Number

-- `Number.isInteger(x)`
abbrev pub is_integer : Number → Bool
is_integer (pos n) = true
is_integer (negsuc n) = true
is_integer (fraction neg n s) = false

-- `x < k`
abbrev pub below : Number → ℕ → Bool
below (pos n) k = ltb n k
below (negsuc n) k = true
below (fraction true n s) k = true
below (fraction false n s) k = ltb n k

-- `x > k`
abbrev pub above : Number → ℕ → Bool
above (pos n) k = ltb k n
above (negsuc n) k = false
above (fraction true n s) k = false
above (fraction false n s) k = leb k n

-- The order of the printed digits.
abbrev pub digits_before : List ℕ → List ℕ → Bool
digits_before [] [] = false
digits_before [] (d ∷ ds) = true
digits_before (c ∷ cs) [] = false
digits_before (c ∷ cs) (d ∷ ds) =
    let rest = digits_before cs ds in if nat_eq c d then rest else ltb c d

-- `x - y < 0`
abbrev pub number_before : Number → Number → Bool
number_before (pos m) (pos n) = ltb m n
number_before (pos m) (negsuc n) = false
number_before (pos m) (fraction true w t) = false
number_before (pos m) (fraction false w t) = leb m w
number_before (negsuc m) (pos n) = true
number_before (negsuc m) (negsuc n) = ltb n m
number_before (negsuc m) (fraction true w t) = leb w m
number_before (negsuc m) (fraction false w t) = true
number_before (fraction true w t) (pos n) = true
number_before (fraction true w t) (negsuc n) = ltb n w
number_before (fraction true w t) (fraction true v u) =
    ltb v w || nat_eq w v && digits_before (codes u) (codes t)
number_before (fraction true w t) (fraction false v u) = true
number_before (fraction false w t) (pos n) = ltb w n
number_before (fraction false w t) (negsuc n) = false
number_before (fraction false w t) (fraction true v u) = false
number_before (fraction false w t) (fraction false v u) =
    ltb w v || nat_eq w v && digits_before (codes t) (codes u)

-- The number is an integer of the range.
abbrev pub InRange : ℕ → ℕ → Number → Type 0
InRange low high x = (n : ℕ) × (x ≡ pos n) × (low ≤ n) × (n ≤ high)
