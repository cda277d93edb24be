-- ===== src/Validator/ScheduleNode.antt =====
-- The checks of one schedule node: `validateScheduleNode` of shared/src/validator.ts. What `Intl`
-- and `Date.parse` accept is a parameter.
pub mod Soundness
pub mod Cover
pub mod Disjoint
use essentials_calls.Base.{
  ℕ, ◌+◌, ◌*◌, String, Bool, true, false, not, ◌&&◌, ◌||◌, Option, none, some, List, [], ◌∷◌, ◌++◌,
}
use essentials_calls.Base.{any, contains, ltb, nat_eq, ◌==◌, if◌then◌else◌}
use essentials_calls.Base.Texts.{codes, is_digit, is_empty}
use essentials_calls.Model.{
  Number, pos, is_integer, below, above, ScheduleWindow, ScheduleProperties,
}
use essentials_calls.Schedule.{two_digits}
use essentials_calls.Validator.Issue.{ValidationIssue, error, node_issue, report_if}
use essentials_calls.Validator.Issue
use essentials_calls.Validator.Pass.{pass}

-- Which names `Intl.DateTimeFormat` takes for a time zone, and which dates `Date.parse` reads.
pub record Platform : Type 0 where
  pub valid_timezone : String → Bool
  pub valid_date : String → Bool

-- `/^(\d{2}):(\d{2})$/`, and the range of hours and minutes.
unfoldable pub match_time : List ℕ → Option ℕ
match_time (a ∷ b ∷ c ∷ d ∷ e ∷ []) =
    if is_digit a && is_digit b && nat_eq c b':' && is_digit d && is_digit e
    then (if ltb 23 (two_digits a b) || ltb 59 (two_digits d e)
        then none
        else some (two_digits a b * 60 + two_digits d e))
    else none
match_time _ = none

unfoldable pub time_minutes : String → Option ℕ
unfolding match_time
time_minutes value = match_time (codes value)

pub record Segment : Type 0 where
  pub id : String
  pub day : ℕ
  pub start : ℕ
  pub end : ℕ

-- The number of a weekday; it is asked only of the integers from 1 to 7.
abbrev pub day_number : Number → ℕ
day_number (pos n) = n
day_number _ = 0

abbrev pub following_day : ℕ → ℕ
following_day d = if nat_eq d 7 then 1 else d + 1

unfoldable pub day_segments : String → ℕ → ℕ → List Number → List Segment
day_segments id start end [] = []
day_segments id start end (x ∷ xs) =
    let day = day_number x in
    let rest = day_segments id start end xs in
    if ltb start end
    then record { id = id; day = day; start = start; end = end } ∷ rest
    else record { id = id; day = day; start = start; end = 24 * 60 }
      ∷ record { id = id; day = following_day day; start = 0; end = end }
      ∷ rest

-- `start === undefined || end === undefined || start === end`
abbrev pub bad_times : Option ℕ → Option ℕ → Bool
bad_times none e = true
bad_times (some s) none = true
bad_times (some s) (some e) = nat_eq s e

unfoldable pub segments_between : String → List Number → Option ℕ → Option ℕ → List Segment
segments_between id days (some s) (some e) = if nat_eq s e then [] else day_segments id s e days
segments_between id days _ _ = []

unfoldable pub window_segments : ScheduleWindow → List Segment
unfolding segments_between day_segments
window_segments w = segments_between w.id w.weekdays (time_minutes w.start) (time_minutes w.end)

abbrev pub is_weekday : Number → Bool
is_weekday d = not (not (is_integer d) || below d 1 || above d 7)

-- `weekdays.length === 0 || weekdays.some(…)`
unfoldable pub bad_weekdays : List Number → Bool
bad_weekdays [] = true
bad_weekdays (d ∷ ds) = any (λ x. not (is_weekday x)) (d ∷ ds)

pub record WindowState : Type 0 where
  pub ids : List String
  pub segments : List Segment

-- The body of the loop over the windows.
unfoldable pub check_window :
    String → ScheduleWindow → WindowState → WindowState × List ValidationIssue
check_window node w s = (
  record {
    ids = w.id ∷ s.ids;
    segments = if bad_weekdays w.weekdays then s.segments else s.segments ++ window_segments w;
  },
  report_if (contains w.id s.ids) (node_issue error Issue.schedule_invalid_window_id node)
      ++ (report_if (bad_times (time_minutes w.start) (time_minutes w.end))
            (node_issue error Issue.schedule_invalid_time_window node)
          ++ report_if (bad_weekdays w.weekdays)
              (node_issue error Issue.schedule_invalid_weekdays node)),
)

abbrev pub no_windows : List ScheduleWindow → Bool
no_windows [] = true
no_windows (w ∷ ws) = false

abbrev pub check_windows : String → List ScheduleWindow → WindowState × List ValidationIssue
check_windows node ws = pass (check_window node) ws (record { ids = []; segments = [] })

unfoldable pub overlaps : Segment → Segment → Bool
overlaps a b = not (a.id == b.id) && nat_eq a.day b.day && ltb a.start b.end && ltb b.start a.end

-- The two nested loops over the segments stop at the first pair that overlaps.
unfoldable pub some_overlap : List Segment → Bool
some_overlap [] = false
some_overlap (a ∷ rest) = any (overlaps a) rest || some_overlap rest

-- `/^\d{4}-\d{2}-\d{2}$/`
match_date : List ℕ → Bool
match_date (a ∷ b ∷ c ∷ d ∷ e ∷ f ∷ g ∷ h ∷ i ∷ j ∷ []) =
    is_digit a
    && is_digit b
    && is_digit c
    && is_digit d
    && nat_eq e b'-'
    && is_digit f
    && is_digit g
    && nat_eq h b'-'
    && is_digit i
    && is_digit j
match_date _ = false

module _ (platform : Platform) where
  open platform use {valid_timezone, valid_date}

  -- The body of the loop over the holidays.
  unfoldable pub check_holiday : String → String → List String → List String × List ValidationIssue
  unfolding match_date
  check_holiday node holiday dates = (
    holiday ∷ dates,
    if not (match_date (codes holiday)) || not (valid_date holiday)
        then node_issue error Issue.schedule_invalid_holiday node ∷ []
        else if contains holiday dates
        then node_issue error Issue.schedule_duplicate_holiday node ∷ []
        else [],
  )

  unfoldable pub validate_schedule_node : String → ScheduleProperties → List ValidationIssue
  validate_schedule_node node p =
      let (seen, window_issues) = check_windows node p.windows in
      report_if (is_empty p.timezone || not (valid_timezone p.timezone))
        (node_issue error Issue.schedule_invalid_timezone node)
      ++ (report_if (no_windows p.windows) (node_issue error Issue.schedule_without_windows node)
          ++ (window_issues
              ++ (report_if (some_overlap seen.segments)
                    (node_issue error Issue.schedule_overlapping_windows node)
                  ++ (pass (check_holiday node) p.holidays []).1)))
