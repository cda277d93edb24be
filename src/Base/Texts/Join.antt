-- ===== src/Base/Texts/Join.antt =====
-- Joining by commas loses nothing where no part has a comma.
use Prim.Native.Char.{code}
use text.Mathlib.TextEquality.{Char-path}
use text.Mathlib.TextLemmas.{nil-append, cons-append}
use essentials_calls.Base.Tests.{nat_eq, if◌then◌else◌}
use essentials_calls.Base.Lists.{All, all}
use essentials_calls.Base.Texts.{◌<>◌, codes, join}
use Prim.Native.Nat.{ℕ}
use Prim.Native.String.{String}
use mathlib.Core.Path.{◌≡◌, refl, ap, ap₂, ◌∙◌, sym}
use mathlib.Core.Logic.{◌≢◌}
use mathlib.Core.Bool.{Bool, true, not}
use mathlib.Core.Option.{Option, none, some}
use mathlib.Core.List.{List, [], ◌∷◌, ◌++◌, map}
use native.Mathlib.Omega.{arith}

pub codes-append : (s t : String) → codes (s <> t) ≡ codes s ++ codes t
codes-append String.[] t = ap codes (nil-append t)
codes-append (String.◌∷◌ c s) t =
    ap codes (cons-append c s t) ∙ ap (λ l. code c ∷ l) (codes-append s t)

pub codes_injective : (s t : String) → codes s ≡ codes t → s ≡ t
codes_injective String.[] String.[] h = refl
codes_injective String.[] (String.◌∷◌ d t) h = cc
codes_injective (String.◌∷◌ c s) String.[] h = cc
codes_injective (String.◌∷◌ c s) (String.◌∷◌ d t) h =
    let heads : code c ≡ code d = cc in
    let tails : codes s ≡ codes t = cc in
    ap₂ String.◌∷◌ (Char-path c d heads) (codes_injective s t tails)

abbrev pub is_comma : ℕ → Bool
is_comma c = nat_eq c b','

abbrev pub NoComma : List ℕ → Type 0
NoComma l = all (λ c. not (is_comma c)) l ≡ true

join_codes : List (List ℕ) → List ℕ
join_codes [] = []
join_codes (x ∷ []) = x
join_codes (x ∷ y ∷ ys) = x ++ b',' ∷ join_codes (y ∷ ys)

codes-join : (xs : List String) → codes (join "," xs) ≡ join_codes (map codes xs)
unfolding join_codes
codes-join [] = refl
codes-join (x ∷ []) = refl
codes-join (x ∷ y ∷ ys) =
    codes-append x ("," <> join "," (y ∷ ys))
    ∙ ap (λ l. codes x ++ l)
        (codes-append "," (join "," (y ∷ ys)) ∙ ap (λ l. b',' ∷ l) (codes-join (y ∷ ys)))

-- The part before the first comma, and what follows that comma.
first_part : List ℕ → List ℕ
first_part [] = []
first_part (c ∷ l) = let rest = first_part l in if is_comma c then [] else c ∷ rest

after_comma : List ℕ → Option (List ℕ)
after_comma [] = none
after_comma (c ∷ l) = let rest = after_comma l in if is_comma c then some l else rest

first_part-append : (a r : List ℕ) → NoComma a → first_part (a ++ b',' ∷ r) ≡ a
unfolding first_part
first_part-append [] r h = refl
first_part-append (c ∷ a) r h = ground (arith, first_part-append a r)

after_comma-append : (a r : List ℕ) → NoComma a → after_comma (a ++ b',' ∷ r) ≡ some r
unfolding after_comma
after_comma-append [] r h = refl
after_comma-append (c ∷ a) r h = ground (arith, after_comma-append a r)

after_comma-none : (a : List ℕ) → NoComma a → after_comma a ≡ none
unfolding after_comma
after_comma-none [] h = refl
after_comma-none (c ∷ a) h = ground (arith, after_comma-none a)

join_codes_injective :
    (xs ys : List (List ℕ))
    → All NoComma xs
    → All NoComma ys
    → xs ≢ []
    → ys ≢ []
    → join_codes xs ≡ join_codes ys
    → xs ≡ ys
unfolding join_codes
join_codes_injective [] ys hx hy nx ny h = absurd (nx refl)
join_codes_injective (x ∷ xs) [] hx hy nx ny h = absurd (ny refl)
join_codes_injective (x ∷ []) (y ∷ []) hx hy nx ny h = ap (λ l. l ∷ []) h
join_codes_injective (x ∷ []) (y ∷ y' ∷ ys) hx hy nx ny h =
    cc (after_comma-none x hx.0, after_comma-append y (join_codes (y' ∷ ys)) hy.0)
join_codes_injective (x ∷ x' ∷ xs) (y ∷ []) hx hy nx ny h =
    cc (after_comma-none y hy.0, after_comma-append x (join_codes (x' ∷ xs)) hx.0)
join_codes_injective (x ∷ x' ∷ xs) (y ∷ y' ∷ ys) hx hy nx ny h =
    let heads : x ≡ y =
      sym (first_part-append x (join_codes (x' ∷ xs)) hx.0)
      ∙ (ap first_part h ∙ first_part-append y (join_codes (y' ∷ ys)) hy.0) in
    let tails : some (join_codes (x' ∷ xs)) ≡ some (join_codes (y' ∷ ys)) =
      sym (after_comma-append x (join_codes (x' ∷ xs)) hx.0)
      ∙ (ap after_comma h ∙ after_comma-append y (join_codes (y' ∷ ys)) hy.0) in
    ap₂ ◌∷◌ heads
      (join_codes_injective (x' ∷ xs) (y' ∷ ys) hx.1 hy.1 (λ e. cc) (λ e. cc) (cc tails))

map-codes_injective : (xs ys : List String) → map codes xs ≡ map codes ys → xs ≡ ys
map-codes_injective [] [] h = refl
map-codes_injective [] (y ∷ ys) h = cc
map-codes_injective (x ∷ xs) [] h = cc
map-codes_injective (x ∷ xs) (y ∷ ys) h =
    ap₂ ◌∷◌ (codes_injective x y (cc)) (map-codes_injective xs ys (cc))

abbrev pub CommaFree : String → Type 0
CommaFree s = NoComma (codes s)

CommaFree-map : (xs : List String) → All CommaFree xs → All NoComma (map codes xs)
CommaFree-map [] h = tt
CommaFree-map (x ∷ xs) h = (h.0, CommaFree-map xs h.1)

map-ne-nil : (xs : List String) → xs ≢ [] → map codes xs ≢ []
map-ne-nil [] h = absurd (h refl)
map-ne-nil (x ∷ xs) h = λ e. cc

-- Lists of comma-free texts with the same join are the same.
pub join_injective :
    (xs ys : List String)
    → All CommaFree xs
    → All CommaFree ys
    → xs ≢ []
    → ys ≢ []
    → join "," xs ≡ join "," ys
    → xs ≡ ys
join_injective xs ys hx hy nx ny h = map-codes_injective xs ys (
    join_codes_injective (map codes xs) (map codes ys) (CommaFree-map xs hx) (CommaFree-map ys hy)
      (map-ne-nil xs nx) (map-ne-nil ys ny) (sym (codes-join xs) ∙ (ap codes h ∙ codes-join ys)))
