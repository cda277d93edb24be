-- ===== src/Generator/Values/Safety.antt =====
-- What a value cannot do to the line that it is written into.
use Prim.Native.Char.{code}
use text.Mathlib.TextLemmas.{nil-append, cons-append}
use essentials_calls.Base.{
  ℕ, ◌-◌, ◌≤◌, String, ◌≡◌, refl, Bool, true, false, not, nat_eq, leb, arith, if_either, Bool-cases,
  inl, inr, ap, ◌∙◌, and_true, if_split, subst, ◌≢◌, All,
}
use essentials_calls.Base.Texts.{◌<>◌, codes, is_empty, units, all_chars, utf16_length, is_astral}
use essentials_calls.Generator.Values.{
  done, is_reserved, blank_reserved, squeeze, trim_start, trim_end, slice, display, is_illegal,
  config_value,
}

pub all_chars-join :
    (p : ℕ → Bool) (s t : String)
    → all_chars p s ≡ true
    → all_chars p t ≡ true
    → all_chars p (s <> t) ≡ true
all_chars-join p String.[] t h k = ap (all_chars p) (nil-append t) ∙ k
all_chars-join p (String.◌∷◌ c s) t h k =
    ap (all_chars p) (cons-append c s t) ∙ ground (arith, all_chars-join p s t)

pub all_chars-weaker :
    (p q : ℕ → Bool) (s : String)
    → ((c : ℕ) → p c ≡ true → q c ≡ true)
    → all_chars p s ≡ true
    → all_chars q s ≡ true
all_chars-weaker p q String.[] f h = refl
all_chars-weaker p q (String.◌∷◌ c s) f h = ground (arith, f (code c), all_chars-weaker p q s f)

abbrev pub Plain : (ℕ → Bool) → String → Type 0
Plain p s = all_chars p s ≡ true

-- A character that is not reserved.
unfoldable pub is_plain : ℕ → Bool
is_plain c = not (is_reserved c)

is_reserved-space : is_reserved 32 ≡ false
unfolding is_reserved
is_reserved-space = refl

is_plain-space : is_plain 32 ≡ true
unfolding is_plain is_reserved
is_plain-space = refl

is_plain-mark : is_plain 0xfffd ≡ true
unfolding is_plain is_reserved
is_plain-mark = refl

units-mark : units 0xfffd ≡ 1
unfolding units is_astral
units-mark = refl

blank_reserved-Plain : (s : String) → Plain is_plain (blank_reserved s)
unfolding blank_reserved is_plain
blank_reserved-Plain String.[] = refl
blank_reserved-Plain (String.◌∷◌ c s) = ground (arith, blank_reserved-Plain s, is_reserved-space)

-- The other steps bring in only a space, or the mark of a broken character.
module _ (p : ℕ → Bool) (space : p 32 ≡ true) (mark : p 0xfffd ≡ true) where
  squeeze-Plain : (b : Bool) (s : String) → Plain p s → Plain p (squeeze b s)
  unfolding squeeze
  squeeze-Plain b String.[] h = refl
  squeeze-Plain b (String.◌∷◌ c s) h =
      ground (arith, space, squeeze-Plain true s, squeeze-Plain false s)

  trim_start-Plain : (s : String) → Plain p s → Plain p (trim_start s)
  unfolding trim_start
  trim_start-Plain String.[] h = refl
  trim_start-Plain (String.◌∷◌ c s) h = ground (arith, trim_start-Plain s)

  trim_end-Plain : (s : String) → Plain p s → Plain p (trim_end s)
  unfolding trim_end
  trim_end-Plain String.[] h = refl
  trim_end-Plain (String.◌∷◌ c s) h = ground (arith, trim_end-Plain s)

  slice-Plain : (n : ℕ) (s : String) → Plain p s → Plain p (slice n s)
  unfolding slice
  slice-Plain n String.[] h = refl
  slice-Plain n (String.◌∷◌ c s) h =
      let (first, rest) = and_true (p (code c)) (all_chars p s) h in
      if_either (Plain p) (leb (units (code c)) n) (String.◌∷◌ c (slice (n - units (code c)) s)) _
        (ground (arith, first, slice-Plain (n - units (code c)) s rest))
        (if_either (Plain p) (nat_eq n 0) "" "�" refl (rw mark refl))

slice-length : (n : ℕ) (s : String) → utf16_length (slice n s) ≤ n
unfolding slice
slice-length n String.[] = omega arith
slice-length n (String.◌∷◌ c s) =
    if_split (λ t. utf16_length t ≤ n) (leb (units (code c)) n)
      (String.◌∷◌ c (slice (n - units (code c)) s)) _
      (λ fits. ground (arith, slice-length (n - units (code c)) s))
      (λ _.
        if_split (λ t. utf16_length t ≤ n) (nat_eq n 0) "" "�" (λ _. omega arith)
          (λ some_left. ground (arith, units-mark)))

differs : (p : ℕ → Bool) (c b : ℕ) → p c ≡ true → p b ≡ false → c ≢ b
differs p c b h k e = cc (ap p e, h, k)

pub all_chars-All :
    {P : ℕ → Type 0} (p : ℕ → Bool) (s : String)
    → ((c : ℕ) → p c ≡ true → P c)
    → all_chars p s ≡ true
    → All P (codes s)
all_chars-All p String.[] f h = tt
all_chars-All p (String.◌∷◌ c s) f h =
    let (first, rest) = and_true (p (code c)) (all_chars p s) h in
    (f (code c) first, all_chars-All p s f rest)

-- None of carriage return, line feed, NUL, semicolon, comma, square brackets and double quote.
abbrev pub IsInert : ℕ → Type 0
IsInert c =
    (c ≢ 13) × (c ≢ 10) × (c ≢ 0) × (c ≢ b';') × (c ≢ b',') × (c ≢ b'[') × (c ≢ b']') × (c ≢ b'"')

is_plain-IsInert : (c : ℕ) → is_plain c ≡ true → IsInert c
unfolding is_plain is_reserved
is_plain-IsInert c h = (
  differs is_plain c 13 h refl,
  differs is_plain c 10 h refl,
  differs is_plain c 0 h refl,
  differs is_plain c b';' h refl,
  differs is_plain c b',' h refl,
  differs is_plain c b'[' h refl,
  differs is_plain c b']' h refl,
  differs is_plain c b'"' h refl,
)

pub display-Plain : (s : String) → Plain is_plain (display s)
unfolding display
display-Plain s =
    let a = blank_reserved-Plain s in
    let b = squeeze-Plain is_plain is_plain-space is_plain-mark false _ a in
    let c = trim_start-Plain is_plain is_plain-space is_plain-mark _ b in
    let d = trim_end-Plain is_plain is_plain-space is_plain-mark _ c in
    slice-Plain is_plain is_plain-space is_plain-mark 120 _ d

-- What `display` writes has at most 120 UTF-16 units, and no carriage return, line feed, NUL,
-- semicolon, comma, square bracket or double quote.
pub display_safe : (s : String) → All IsInert (codes (display s)) × (utf16_length (display s) ≤ 120)
unfolding display
display_safe s =
    (all_chars-All is_plain (display s) is_plain-IsInert (display-Plain s), slice-length 120 _)

-- A character that may stand in a value.
unfoldable pub is_legal : ℕ → Bool
is_legal c = not (is_illegal c)

-- A value that `configValue` accepts is written as it is, is not empty, and has no line break,
-- semicolon or bracket.
pub config_value_safe :
    (value field w : String)
    → config_value value field ≡ done w
    → (w ≡ value) × (all_chars is_legal w ≡ true) × (is_empty w ≡ false)
unfolding config_value is_legal
config_value_safe value field w h = elim (Bool-cases (is_empty value)) [
  | inl e ↦ cc (rw e at h)
  | inr present ↦ elim (Bool-cases (all_chars (λ c. not (is_illegal c)) value)) [
    | inl legal ↦
        let same : value ≡ w = done_injective (rw (present, legal) at h) in
        subst
          (λ v. (v ≡ value) × (all_chars (λ c. not (is_illegal c)) v ≡ true) × (is_empty v ≡ false))
          same (refl, legal, present)
    | inr e ↦ cc (rw (present, e) at h)
  ]
]
  where
    done_injective : {a b : String} → done a ≡ done b → a ≡ b
    done_injective e = cc e
