-- ===== src/Generator/Schedule/Times.antt =====
-- The times that the generator writes, read back.

use essentials_calls.Base.{
  ℕ, zero, suc, ◌+◌, ◌*◌, ◌/◌, ◌%◌, ◌<◌, String, ◌≡◌, refl, true, false, [], ◌∷◌, arith, ap, ◌∙◌,
  ltb, inl, inr, Bool-cases, lt→ltb, ltb→lt,
}
use essentials_calls.Base.Texts.{◌<>◌, codes}
use essentials_calls.Base.Texts.Join.{codes-append}
use essentials_calls.Schedule.{minutes, hhmm_minutes}
use essentials_calls.Generator.Values.{digit_text, show_digits, show, pad_two}
use essentials_calls.Generator.Schedule.{previous_minute}

digit_codes : (n : ℕ) → n < 10 → codes (digit_text n) ≡ (48 + n) ∷ []
unfolding digit_text
digit_codes zero h = refl
digit_codes (suc zero) h = refl
digit_codes (suc (suc zero)) h = refl
digit_codes (suc (suc (suc zero))) h = refl
digit_codes (suc (suc (suc (suc zero)))) h = refl
digit_codes (suc (suc (suc (suc (suc zero))))) h = refl
digit_codes (suc (suc (suc (suc (suc (suc zero)))))) h = refl
digit_codes (suc (suc (suc (suc (suc (suc (suc zero))))))) h = refl
digit_codes (suc (suc (suc (suc (suc (suc (suc (suc zero)))))))) h = refl
digit_codes (suc (suc (suc (suc (suc (suc (suc (suc (suc zero))))))))) h = refl
digit_codes (suc (suc (suc (suc (suc (suc (suc (suc (suc (suc n)))))))))) h = absurd (omega arith)

show_small : (n : ℕ) → n < 10 → show n ≡ digit_text n
unfolding show show_digits
show_small n h = rw (lt→ltb n 10 h) refl

show_two :
    (n : ℕ) → ltb n 10 ≡ false → n < 100 → show n ≡ digit_text (n / 10) <> digit_text (n % 10)
unfolding show show_digits
show_two zero big h = cc big
show_two (suc n) big h =
    let front : ltb (suc n / 10) 10 ≡ true = lt→ltb (suc n / 10) 10 (omega arith) in
    rw (big, front) refl

codes-pad_two : (n : ℕ) → n < 100 → codes (pad_two n) ≡ (48 + n / 10) ∷ (48 + n % 10) ∷ []
unfolding pad_two
codes-pad_two n h = elim (Bool-cases (ltb n 10)) [
  | inl small ↦
      let lt : n < 10 = ltb→lt n 10 small in
      rw (small, codes-append "0" (show n), show_small n lt, digit_codes n lt) (ground arith)
  | inr big ↦
      rw
        (
          big,
          show_two n big h,
          codes-append (digit_text (n / 10)) (digit_text (n % 10)),
          digit_codes (n / 10) (omega arith),
          digit_codes (n % 10) (omega arith),
        )
        refl
]

clock_codes :
    (a b : ℕ)
    → a < 100
    → b < 100
    → codes (pad_two a <> ":" <> pad_two b)
      ≡ (48 + a / 10) ∷ (48 + a % 10) ∷ 58 ∷ (48 + b / 10) ∷ (48 + b % 10) ∷ []
clock_codes a b ha hb =
    codes-append (pad_two a) (":" <> pad_two b)
    ∙ rw (codes-pad_two a ha, codes-append ":" (pad_two b), codes-pad_two b hb) refl

-- A time that is written is read back.
clock_minutes : (a b : ℕ) → a < 100 → b < 100 → minutes (pad_two a <> ":" <> pad_two b) ≡ a * 60 + b
unfolding minutes hhmm_minutes
clock_minutes a b ha hb = ap hhmm_minutes (clock_codes a b ha hb) ∙ omega arith

pub minutes-previous_minute :
    (value : String) → minutes (previous_minute value) ≡ (minutes value + 1439) % 1440
unfolding previous_minute
minutes-previous_minute value =
    let total = (minutes value + 1439) % 1440 in
    clock_minutes (total / 60) (total % 60) (omega arith) (omega arith) ∙ omega arith
