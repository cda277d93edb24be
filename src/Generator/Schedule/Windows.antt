-- ===== src/Generator/Schedule/Windows.antt =====
-- The time tests of a window, and the window of `isScheduleOpen`.
use essentials_calls.Base.{
  ℕ, suc, zero, ◌+◌, ◌%◌, ◌<◌, ◌≤◌, ◌≡◌, ◌≢◌, refl, Bool, false, ◌&&◌, ◌||◌, List, [], ◌∷◌, map,
  arith, ap₂, lt→ltb, not_lt→ltb, ltb→lt, ◌∙◌, sym, ltb, leb, inl, inr, Bool-cases, any, All,
}
use essentials_calls.Model.{Number, pos, negsuc, fraction, InRange, ScheduleWindow}
use essentials_calls.Schedule.{
  LocalParts, minutes, hhmm_minutes, has_day, previous_weekday, is_window_open,
}
use essentials_calls.Validator.ScheduleNode.Soundness.{IsWindow}
use essentials_calls.Validator.ScheduleNode.Cover.{IsInstant, minutes_agree, time_minutes_lt}
use essentials_calls.Generator.Schedule.{TimeTest, next_day, previous_minute, time_tests}
use essentials_calls.Generator.Schedule.Times.{minutes-previous_minute}

-- `GotoIfTime` as Asterisk documents it: a range of times that does not wrap holds from its first
-- minute through its last one, on the weekdays that are listed.
abbrev pub IsGotoIfTime : (TimeTest → LocalParts → Bool) → Type 0
IsGotoIfTime jumps =
    (t : TimeTest) (now : LocalParts)
    → minutes t.from ≤ minutes t.until
    → jumps t now ≡ (
        has_day now.weekday t.days
        && leb (minutes t.from) now.minutes
        && leb now.minutes (minutes t.until))

has_day-next_day :
    (d : ℕ) (days : List Number)
    → 1 ≤ d
    → d ≤ 7
    → All (InRange 1 7) days
    → has_day d (map next_day days) ≡ has_day (previous_weekday d) days
unfolding next_day previous_weekday
has_day-next_day d [] h k all = refl
has_day-next_day d (pos n ∷ days) h k all =
    let (m, e, low, high) = all.0 in
    let same : n ≡ m = cc e in ground (arith, has_day-next_day d days h k all.1)
has_day-next_day d (negsuc n ∷ days) h k all = let (m, e, low, high) = all.0 in cc e
has_day-next_day d (fraction s w t ∷ days) h k all = let (m, e, low, high) = all.0 in cc e

last_minute : minutes "23:59" ≡ 1439
unfolding minutes hhmm_minutes
last_minute = refl

first_minute : minutes "00:00" ≡ 0
unfolding minutes hhmm_minutes
first_minute = refl

inclusive_end :
    (d : Bool) (s n u e : ℕ)
    → u ≡ (e + 1439) % 1440
    → 1 ≤ e
    → e < 1440
    → ((d && leb s n && leb n u) || false) ≡ (d && leb s n && ltb n e)
inclusive_end d s n u e h low high = ground arith

two_ranges :
    (d f : Bool) (s n l z u e : ℕ)
    → l ≡ 1439
    → z ≡ 0
    → u ≡ (e + 1439) % 1440
    → 1 ≤ e
    → e < 1440
    → n < 1440
    → ((d && leb s n && leb n l) || ((f && leb z n && leb n u) || false))
      ≡ ((d && leb s n) || (f && ltb n e))
two_ranges d f s n l z u e hl hz h low high day = ground arith

module _ (jumps : TimeTest → LocalParts → Bool) (documented : IsGotoIfTime jumps) (now : LocalParts)
    (instant : IsInstant now) where
  same_day_agrees :
      (w : ScheduleWindow)
      → minutes w.start < minutes w.end
      → minutes w.end < 1440
      → any (λ t. jumps t now) (time_tests w) ≡ is_window_open now w
  unfolding time_tests is_window_open
  same_day_agrees w lt h =
      let before = minutes-previous_minute w.end in
      let t : TimeTest = record {
        from = w.start;
        until = previous_minute w.end;
        days = w.weekdays;
      } in
      rw
        (
          lt→ltb (minutes w.start) (minutes w.end) lt,
          documented t now (omega (arith, before, lt, h)),
        )
        (inclusive_end _ (minutes w.start) now.minutes _ (minutes w.end) before (omega arith) h)

  overnight_agrees :
      (w : ScheduleWindow)
      → minutes w.end < minutes w.start
      → minutes w.start < 1440
      → minutes w.end ≢ 0
      → All (InRange 1 7) w.weekdays
      → any (λ t. jumps t now) (time_tests w) ≡ is_window_open now w
  unfolding time_tests is_window_open
  overnight_agrees w lt h ne days =
      let before = minutes-previous_minute w.end in
      let late : TimeTest = record { from = w.start; until = "23:59"; days = w.weekdays } in
      let early : TimeTest = record {
        from = "00:00";
        until = previous_minute w.end;
        days = map next_day w.weekdays;
      } in
      let le_late : minutes w.start ≤ minutes "23:59" = omega (arith, last_minute, h) in
      let le_early : minutes "00:00" ≤ minutes (previous_minute w.end) =
        omega (arith, first_minute) in
      rw
        (
          not_lt→ltb (minutes w.start) (minutes w.end) (omega arith),
          documented late now le_late,
          documented early now le_early,
          has_day-next_day now.weekday w.weekdays instant.first instant.last days,
        )
        (two_ranges _ _ (minutes w.start) now.minutes _ _ _ (minutes w.end) last_minute first_minute
          before (positive (minutes w.end) ne) (omega arith) instant.minute)
    where
      positive : (n : ℕ) → n ≢ 0 → 1 ≤ n
      positive zero ne = absurd (ne refl)
      positive (suc n) ne = omega arith

  window_agrees :
      (w : ScheduleWindow)
      → IsWindow w
      → minutes w.end ≢ 0
      → any (λ t. jumps t now) (time_tests w) ≡ is_window_open now w
  window_agrees w formed ne =
      let start = minutes_agree w.start formed.opens formed.start in
      let end = minutes_agree w.end formed.closes formed.end in
      let start_lt = time_minutes_lt w.start formed.opens formed.start in
      let end_lt = time_minutes_lt w.end formed.closes formed.end in
      elim (Bool-cases (ltb (minutes w.start) (minutes w.end))) [
        | inl same_day ↦ same_day_agrees w (ltb→lt _ _ same_day) (omega (arith, end, end_lt))
        | inr overnight ↦
            overnight_agrees w
              (smaller (minutes w.start) (minutes w.end) overnight
                (λ e. formed.differ (sym start ∙ e ∙ end)))
              (omega (arith, start, start_lt)) ne formed.days
      ]
    where
      smaller : (a b : ℕ) → ltb a b ≡ false → a ≢ b → b < a
      smaller a b h ne = ground arith

  pub windows_agree :
      (ws : List ScheduleWindow)
      → All IsWindow ws
      → All (λ w. minutes w.end ≢ 0) ws
      → any (λ w. any (λ t. jumps t now) (time_tests w)) ws ≡ any (is_window_open now) ws
  windows_agree [] formed ne = refl
  windows_agree (w ∷ ws) formed ne =
      ap₂ (λ a b. a || b) (window_agrees w formed.0 ne.0) (windows_agree ws formed.1 ne.1)
