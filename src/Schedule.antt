-- ===== src/Schedule.antt =====
-- Opening hours: shared/src/schedule.ts. The parts of an instant in a time zone come from the
-- platform's `Intl`, so that the decision is a function of these parts.
use essentials_calls.Base.{
  ℕ, ◌+◌, ◌-◌, ◌*◌, String, Bool, false, ◌&&◌, ◌||◌, List, any, contains, ltb, leb, nat_eq,
  if◌then◌else◌, [], ◌∷◌,
}
use essentials_calls.Base.Texts.{codes}
use essentials_calls.Model.{Number, pos, ScheduleWindow, ScheduleProperties}

-- `localParts`: the local date as YYYY-MM-DD, the weekday from 1 (Monday) to 7, and the minute of
-- the day.
pub record LocalParts : Type 0 where
  pub date : String
  pub weekday : ℕ
  pub minutes : ℕ

-- The value of two decimal digits.
abbrev pub two_digits : ℕ → ℕ → ℕ
two_digits a b = (a - b'0') * 10 + (b - b'0')

-- `minutes(value)` of a text of the form HH:MM, which the validator asks for.
unfoldable pub hhmm_minutes : List ℕ → ℕ
hhmm_minutes (a ∷ b ∷ c ∷ d ∷ e ∷ []) = two_digits a b * 60 + two_digits d e
hhmm_minutes _ = 0

unfoldable pub minutes : String → ℕ
unfolding hhmm_minutes
minutes value = hhmm_minutes (codes value)

-- `weekdays.includes(day)`
abbrev pub has_day : ℕ → List Number → Bool
has_day d [] = false
has_day d (x ∷ xs) = elim x [ pos n ↦ nat_eq n d | _ ↦ false ] || has_day d xs

unfoldable pub previous_weekday : ℕ → ℕ
previous_weekday d = if nat_eq d 1 then 7 else d - 1

-- The body of `windows.some`.
unfoldable pub is_window_open : LocalParts → ScheduleWindow → Bool
unfolding previous_weekday
is_window_open now w =
    if ltb (minutes w.start) (minutes w.end)
    then has_day now.weekday w.weekdays
      && leb (minutes w.start) now.minutes
      && ltb now.minutes (minutes w.end)
    else (has_day now.weekday w.weekdays && leb (minutes w.start) now.minutes)
      || (has_day (previous_weekday now.weekday) w.weekdays && ltb now.minutes (minutes w.end))

unfoldable pub is_schedule_open : ScheduleProperties → LocalParts → Bool
unfolding is_window_open
is_schedule_open p now =
    if contains now.date p.holidays then false else any (is_window_open now) p.windows
