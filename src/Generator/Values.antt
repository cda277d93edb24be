-- ===== src/Generator/Values.antt =====
-- How values are written into a configuration: `display`, `configValue` and template strings of
-- backend/src/asterisk/configGenerator.ts. What may throw gives an `Outcome`.
pub mod Safety
use Prim.Native.Char.{code}
use Prim.Native.String
use essentials_calls.Base.{
  ℕ, zero, suc, ◌-◌, ◌/◌, ◌%◌, ◌+◌, String, Bool, true, false, not, ◌&&◌, ◌||◌, List, [], ◌∷◌, ◌++◌,
  nat_eq, leb, ltb, if◌then◌else◌,
}
use essentials_calls.Base.Texts.{◌<>◌, is_empty, units, all_chars, join}
use essentials_calls.Model.{Number, pos, negsuc, fraction}

-- What the generator throws.
pub data Failure : Type 0 where
  illegal_value : String → Failure
  missing_secret : String → Failure

pub data Outcome (A : Type 0) : Type 0 where
  done : A → Outcome A
  thrown : Failure → Outcome A

infixl 10 ◌>>=◌
abbrev pub ◌>>=◌ : {A B : Type 0} → Outcome A → (A → Outcome B) → Outcome B
done a >>= f = f a
thrown e >>= f = thrown e

-- The lines that a loop appends, one element after another.
unfoldable pub lines_of :
    {A : Type 0} → (A → Outcome (List String)) → List A → Outcome (List String)
lines_of f [] = done []
lines_of f (x ∷ xs) = f x >>= λ l. lines_of f xs >>= λ ls. done (l ++ ls)

-- `[\r\n\0;,\[\]"]`
unfoldable pub is_reserved : ℕ → Bool
is_reserved c =
    nat_eq c 13
    || nat_eq c 10
    || nat_eq c 0
    || nat_eq c b';'
    || nat_eq c b','
    || nat_eq c b'['
    || nat_eq c b']'
    || nat_eq c b'"'

-- `\s`, which is also what `trim` removes.
unfoldable pub is_space : ℕ → Bool
is_space c =
    leb 9 c && leb c 13
    || nat_eq c 32
    || nat_eq c 0xa0
    || nat_eq c 0x1680
    || leb 0x2000 c && leb c 0x200a
    || nat_eq c 0x2028
    || nat_eq c 0x2029
    || nat_eq c 0x202f
    || nat_eq c 0x205f
    || nat_eq c 0x3000
    || nat_eq c 0xfeff

-- `.replace(/[\r\n\0;,\[\]"]/g, ' ')`
unfoldable pub blank_reserved : String → String
blank_reserved String.[] = ""
blank_reserved (String.◌∷◌ c s) =
    let rest = blank_reserved s in
    if is_reserved (code c) then String.◌∷◌ " " rest else String.◌∷◌ c rest

-- `.replace(/\s+/g, ' ')`; the flag says that a run of white space has begun.
unfoldable pub squeeze : Bool → String → String
squeeze in_run String.[] = ""
squeeze in_run (String.◌∷◌ c s) =
    let run = squeeze true s in
    let out = squeeze false s in
    if is_space (code c) then (if in_run then run else String.◌∷◌ " " run) else String.◌∷◌ c out

unfoldable pub trim_start : String → String
trim_start String.[] = ""
trim_start (String.◌∷◌ c s) =
    let rest = trim_start s in if is_space (code c) then rest else String.◌∷◌ c s

unfoldable pub trim_end : String → String
trim_end String.[] = ""
trim_end (String.◌∷◌ c s) =
    let rest = trim_end s in if is_space (code c) && is_empty rest then "" else String.◌∷◌ c rest

-- `.slice(0, n)`, of UTF-16 units. A surrogate that loses its pair is written as U+FFFD.
unfoldable pub slice : ℕ → String → String
slice n String.[] = ""
slice n (String.◌∷◌ c s) =
    let rest = slice (n - units (code c)) s in
    if leb (units (code c)) n then String.◌∷◌ c rest else if nat_eq n 0 then "" else "�"

unfoldable pub display : String → String
display value = slice 120 (trim_end (trim_start (squeeze false (blank_reserved value))))

-- `[\r\n\0;\[\]]`
unfoldable pub is_illegal : ℕ → Bool
is_illegal c =
    nat_eq c 13 || nat_eq c 10 || nat_eq c 0 || nat_eq c b';' || nat_eq c b'[' || nat_eq c b']'

unfoldable pub config_value : String → String → Outcome String
config_value value field =
    if is_empty value || not (all_chars (λ c. not (is_illegal c)) value)
    then thrown (illegal_value field)
    else done value

abbrev pub char_at : ℕ → String → String
char_at n String.[] = ""
char_at zero (String.◌∷◌ c s) = String.◌∷◌ c ""
char_at (suc n) (String.◌∷◌ c s) = char_at n s

unfoldable pub digit_text : ℕ → String
digit_text n = char_at n "0123456789"

-- Decimal digits, on fuel: a number has no more digits than its value and one.
unfoldable pub show_digits : ℕ → ℕ → String
show_digits zero n = ""
show_digits (suc fuel) n =
    let front = show_digits fuel (n / 10) in
    if ltb n 10 then digit_text n else front <> digit_text (n % 10)

unfoldable pub show : ℕ → String
unfolding show_digits
show n = show_digits (suc n) n

-- `${x}`: integers are below 10 ^ 21 in magnitude, where the decimal notation is positional.
unfoldable pub show_number : Number → String
show_number (pos n) = show n
show_number (negsuc n) = "-" <> show (suc n)
show_number (fraction neg whole text) = text

-- `String(n).padStart(2, '0')`, of a number below 100.
unfoldable pub pad_two : ℕ → String
pad_two n = if ltb n 10 then "0" <> show n else show n
