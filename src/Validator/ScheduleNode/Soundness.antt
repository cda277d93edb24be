-- ===== src/Validator/ScheduleNode/Soundness.antt =====
-- What the checks of a schedule node guarantee.
use essentials_calls.Base.{
  ℕ, String, ◌≡◌, ◌≢◌, refl, true, false, not, Option, none, some, List, [], ◌∷◌, arith, map, subst,
}
use essentials_calls.Base.{All, Distinct, any, not-false, or_false}
use essentials_calls.Base.Texts.{is_empty}
use essentials_calls.Model.{
  InRange, Number, pos, negsuc, fraction, ScheduleWindow, ScheduleProperties,
}
use essentials_calls.Validator.Issue.{
  has_errors, report_if-false, report_if-append, no_errors-append,
}
use essentials_calls.Validator.Pass.{pass-All, pass-Distinct, Claims, collect-map}
use essentials_calls.Validator.ScheduleNode.{
  Platform, WindowState, check_window, check_holiday, validate_schedule_node, time_minutes,
  bad_times, bad_weekdays, is_weekday, no_windows,
}

-- A window of the format that the generator relies on.
pub record IsWindow (w : ScheduleWindow) : Type 0 where
  pub opens : ℕ
  pub closes : ℕ
  pub start : time_minutes w.start ≡ some opens
  pub end : time_minutes w.end ≡ some closes
  pub differ : opens ≢ closes
  pub some_day : w.weekdays ≢ []
  pub days : All (InRange 1 7) w.weekdays

pub record IsSchedule (platform : Platform) (p : ScheduleProperties) : Type 0 where
  pub zone : platform.valid_timezone p.timezone ≡ true
  pub present : is_empty p.timezone ≡ false
  pub some_window : p.windows ≢ []
  pub windows : All IsWindow p.windows
  pub window_ids : Distinct (map (λ (w : ScheduleWindow). w.id) p.windows)
  pub dates : All (λ d. platform.valid_date d ≡ true) p.holidays
  pub distinct_dates : Distinct (map (λ (d : String). d) p.holidays)

pub InRange-weekday : (x : Number) → is_weekday x ≡ true → InRange 1 7 x
InRange-weekday (pos n) h = (n, refl, ground arith, ground arith)
InRange-weekday (negsuc n) h = cc
InRange-weekday (fraction s w t) h = cc

weekdays-InRange :
    (ds : List Number) → any (λ x. not (is_weekday x)) ds ≡ false → All (InRange 1 7) ds
weekdays-InRange [] h = tt
weekdays-InRange (d ∷ ds) h =
    let (a, b) = or_false _ _ h in
    (InRange-weekday d (not-false (is_weekday d) a), weekdays-InRange ds b)

pub bad_weekdays-false :
    (ds : List Number) → bad_weekdays ds ≡ false → (ds ≢ []) × All (InRange 1 7) ds
unfolding bad_weekdays
bad_weekdays-false [] h = cc
bad_weekdays-false (d ∷ ds) h = ((λ e. cc), weekdays-InRange (d ∷ ds) h)

times_differ :
    (a b : Option ℕ)
    → bad_times a b ≡ false
    → (s : ℕ) × (e : ℕ) × (a ≡ some s) × (b ≡ some e) × (s ≢ e)
times_differ none b h = cc
times_differ (some s) none h = cc
times_differ (some s) (some e) h = (s, e, refl, refl, ground arith)

check_window-parts :
    (node : String) (w : ScheduleWindow) (s : WindowState)
    → has_errors (check_window node w s).1 ≡ false
    → Claims (some w.id) s.ids (check_window node w s).0.ids × IsWindow w
unfolding check_window
check_window-parts node w s h =
    let (known, h1) = report_if-append _ _ _ refl h in
    let (times, h2) = report_if-append _ _ _ refl h1 in
    let (some_day, days) = bad_weekdays-false w.weekdays (report_if-false _ _ refl h2) in
    let (a, b, p, q, d) = times_differ (time_minutes w.start) (time_minutes w.end) times in
    (
      (known, refl),
      record {
        opens = a;
        closes = b;
        start = p;
        end = q;
        differ = d;
        some_day = some_day;
        days = days;
      },
    )

no_windows-false : (ws : List ScheduleWindow) → no_windows ws ≡ false → ws ≢ []
no_windows-false [] h = cc
no_windows-false (w ∷ ws) h = λ e. cc

module _ (platform : Platform) (node : String) where
  check_holiday-parts :
      (d : String) (seen : List String)
      → has_errors (check_holiday platform node d seen).1 ≡ false
      → Claims (some d) seen (check_holiday platform node d seen).0 × (platform.valid_date d ≡ true)
  unfolding check_holiday has_errors
  check_holiday-parts d seen h = ground arith

  -- A schedule node without an error has a valid zone and at least one window, each of them with
  -- times from 00:00 to 23:59 that differ and weekdays from 1 to 7; the ids of its windows and its
  -- holidays are distinct.
  pub validate_schedule_node-IsSchedule :
      (p : ScheduleProperties)
      → has_errors (validate_schedule_node platform node p) ≡ false
      → IsSchedule platform p
  unfolding validate_schedule_node
  validate_schedule_node-IsSchedule p h =
      let (zone, h1) = report_if-append _ _ _ refl h in
      let (present, h2) = report_if-append _ _ _ refl h1 in
      let (windows, h3) = no_errors-append _ _ h2 in
      let (overlap, dates) = report_if-append _ _ _ refl h3 in
      let (empty, valid) = or_false _ _ zone in
      let window_ids =
        pass-Distinct (check_window node) (λ s. s.ids) (λ w. some w.id)
          (λ w s k. (check_window-parts node w s k).0) p.windows _ windows in
      let holidays =
        pass-Distinct (check_holiday platform node) (λ s. s) (λ d. some d)
          (λ d s k. (check_holiday-parts d s k).0) p.holidays _ dates in
      record {
        zone = not-false _ valid;
        present = empty;
        some_window = no_windows-false p.windows present;
        windows =
            pass-All (check_window node) IsWindow (λ w s k. (check_window-parts node w s k).1)
              p.windows _ windows;
        window_ids = subst Distinct (collect-map _ p.windows) window_ids;
        dates =
            pass-All (check_holiday platform node) _ (λ d s k. (check_holiday-parts d s k).1)
              p.holidays _ dates;
        distinct_dates = subst Distinct (collect-map _ p.holidays) holidays;
      }
