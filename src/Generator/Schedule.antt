-- ===== src/Generator/Schedule.antt =====
-- The dialplan of opening hours: `scheduleDialplan` and `previousMinute`.
pub mod Times
pub mod Windows
pub mod Agreement
use essentials_calls.Base.{
  ℕ, zero, suc, ◌+◌, ◌*◌, ◌/◌, ◌%◌, String, Option, none, some, List, [], ◌∷◌, ◌++◌, map, ltb,
  nat_eq, if◌then◌else◌,
}
use essentials_calls.Base.Texts.{◌<>◌, join}
use essentials_calls.Model.{
  Number, pos, negsuc, fraction, ScheduleWindow, ScheduleProperties, Edge, Topology,
}
use essentials_calls.Names.{node_name}
use essentials_calls.Schedule.{minutes}
use essentials_calls.Generator.Values.{Outcome, done, ◌>>=◌, display, config_value, pad_two}
use essentials_calls.Generator.Routes.{outgoing, find_edge_by_condition, is_open_hours, is_closed}

unfoldable pub previous_minute : String → String
previous_minute value =
    let total = (minutes value + 1439) % 1440 in pad_two (total / 60) <> ":" <> pad_two (total % 60)

-- `ASTERISK_WEEKDAY`; `join` writes nothing for what is not found.
unfoldable pub weekday_text : Number → String
weekday_text (pos d) =
    if nat_eq d 1
    then "mon"
    else if nat_eq d 2
    then "tue"
    else if nat_eq d 3
    then "wed"
    else if nat_eq d 4
    then "thu"
    else if nat_eq d 5
    then "fri"
    else if nat_eq d 6
    then "sat"
    else if nat_eq d 7
    then "sun"
    else ""
weekday_text _ = ""

-- `day === 7 ? 1 : day + 1`
unfoldable pub next_day : Number → Number
next_day (pos d) = if nat_eq d 7 then pos 1 else pos (suc d)
next_day (negsuc zero) = pos 0
next_day (negsuc (suc n)) = negsuc n
next_day (fraction neg whole text) = fraction neg whole text

-- What a `GotoIfTime` asks: a range of times, and weekdays.
pub record TimeTest : Type 0 where
  pub from : String
  pub until : String
  pub days : List Number

-- The tests of a window; its times are of the form HH:MM. One that ends on the following day has
-- two tests.
unfoldable pub time_tests : ScheduleWindow → List TimeTest
time_tests w =
    if ltb (minutes w.start) (minutes w.end)
    then record { from = w.start; until = previous_minute w.end; days = w.weekdays } ∷ []
    else record { from = w.start; until = "23:59"; days = w.weekdays }
      ∷ record { from = "00:00"; until = previous_minute w.end; days = map next_day w.weekdays }
      ∷ []

-- The applications that a schedule calls behind its first line, with the nodes that they go to.
pub data Application : Type 0 where
  goto_if_date : String → String → Application
  goto_if_time : TimeTest → String → Application
  goto : String → Application
  hangup : Application

unfoldable pub application_line : String → Application → String
application_line timezone (goto_if_date holiday target) =
    " same => n,GotoIf($[\"${STRFTIME(${EPOCH},"
    <> timezone
    <> ",%Y-%m-%d)}\" = \""
    <> holiday
    <> "\"]?callflow,"
    <> node_name target
    <> ",1)"
application_line timezone (goto_if_time t target) =
    " same => n,GotoIfTime("
    <> t.from
    <> "-"
    <> t.until
    <> ","
    <> join "&" (map weekday_text t.days)
    <> ",*,*,"
    <> timezone
    <> "?callflow,"
    <> node_name target
    <> ",1)"
application_line timezone (goto target) = " same => n,Goto(callflow," <> node_name target <> ",1)"
application_line timezone hangup = " same => n,Hangup()"

unfoldable pub window_applications : String → List ScheduleWindow → List Application
window_applications target [] = []
window_applications target (w ∷ ws) =
    map (λ t. goto_if_time t target) (time_tests w) ++ window_applications target ws

-- What stands behind the first line: decisions, where both edges are there.
unfoldable pub decisions : ScheduleProperties → Option Edge → Option Edge → List Application
decisions p (some open_edge) (some closed_edge) =
    map (λ h. goto_if_date h closed_edge.target) p.holidays
    ++ (window_applications open_edge.target p.windows ++ goto closed_edge.target ∷ [])
decisions p _ _ = hangup ∷ []

unfoldable pub schedule_applications : Topology → String → ScheduleProperties → List Application
schedule_applications t id p =
    let edges = outgoing t id in
    decisions p (find_edge_by_condition edges is_open_hours)
      (find_edge_by_condition edges is_closed)

abbrev pub schedule_line : String → String → String → String
schedule_line id label timezone =
    "exten => " <> node_name id <> ",1,NoOp(Schedule " <> display label <> " " <> timezone <> ")"

unfoldable pub schedule_dialplan :
    Topology → String → String → ScheduleProperties → Outcome (List String)
schedule_dialplan t id label p = config_value p.timezone "schedule timezone" >>= λ timezone. done (
    schedule_line id label timezone
    ∷ map (application_line timezone) (schedule_applications t id p))
