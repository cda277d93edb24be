-- ===== src/Generator/Schedule/Agreement.antt =====
-- The generated dialplan and `isScheduleOpen`.
use mathlib.Core.List.{Memᴰ, append_assoc}
use essentials_calls.Base.{
  String, ◌≡◌, ◌≢◌, refl, Bool, true, false, ◌||◌, Option, none, some, List, [], ◌∷◌, ◌++◌, map,
  arith, ap, ap₂, ◌∙◌, sym, subst, inl, inr, any, contains, All, All-mem, find_sound, ◌==◌,
  if◌then◌else◌,
}
use essentials_calls.Model.{
  ScheduleWindow, ScheduleProperties, Properties, PbxNode, type_of, node_type, Edge, open_hours,
  closed, Topology,
}
use essentials_calls.Schedule.{LocalParts, minutes, is_window_open, is_schedule_open}
use essentials_calls.Validator.Issue.{has_errors}
use essentials_calls.Validator.ScheduleNode.{Platform}
use essentials_calls.Validator.ScheduleNode.Soundness.{IsSchedule}
use essentials_calls.Validator.ScheduleNode.Cover.{IsInstant}
use essentials_calls.Validator.Nodes.{ValidationOptions}
use essentials_calls.Validator.Nodes.WellFormed.{IsSound}
use essentials_calls.Validator.Transitions.{is_schedule}
use essentials_calls.Validator.Topology.{validate_topology, validate_topology-WellFormed}
use essentials_calls.Generator.Values.{Outcome, done, thrown, ◌>>=◌, config_value}
use essentials_calls.Generator.Values.Safety.{config_value_safe}
use essentials_calls.Generator.Routes.{outgoing, is_open_hours, is_closed, find_edge_by_condition}
use essentials_calls.Generator.Routes.Hours.{IsFollowed, schedule-IsFollowed}
use essentials_calls.Generator.Schedule.{
  TimeTest, time_tests, Application, goto_if_date, goto_if_time, goto, hangup, application_line,
  window_applications, decisions, schedule_applications, schedule_line, schedule_dialplan,
}
use essentials_calls.Generator.Schedule.Windows.{IsGotoIfTime, windows_agree}

-- Where a call goes that runs the applications one after another: a date or a time that does not
-- hold leads to the next one.
unfoldable pub destination :
    (TimeTest → LocalParts → Bool) → LocalParts → List Application → Option String
destination jumps now [] = none
destination jumps now (goto_if_date holiday target ∷ rest) =
    let later = destination jumps now rest in if holiday == now.date then some target else later
destination jumps now (goto_if_time t target ∷ rest) =
    let later = destination jumps now rest in if jumps t now then some target else later
destination jumps now (goto target ∷ rest) = some target
destination jumps now (hangup ∷ rest) = none

module _ (jumps : TimeTest → LocalParts → Bool) (now : LocalParts) where
  after_dates :
      (target : String) (holidays : List String) (rest : List Application)
      → destination jumps now (map (λ h. goto_if_date h target) holidays ++ rest)
        ≡ (if contains now.date holidays then some target else destination jumps now rest)
  unfolding destination
  after_dates target [] rest = refl
  after_dates target (h ∷ holidays) rest = ground (arith, after_dates target holidays rest)

  after_times :
      (target : String) (tests : List TimeTest) (rest : List Application)
      → destination jumps now (map (λ t. goto_if_time t target) tests ++ rest)
        ≡ (if any (λ t. jumps t now) tests then some target else destination jumps now rest)
  unfolding destination
  after_times target [] rest = refl
  after_times target (t ∷ tests) rest = ground (arith, after_times target tests rest)

  after_windows :
      (target : String) (ws : List ScheduleWindow) (rest : List Application)
      → destination jumps now (window_applications target ws ++ rest) ≡ (
          if any (λ w. any (λ t. jumps t now) (time_tests w)) ws
          then some target
          else destination jumps now rest)
  unfolding window_applications
  after_windows target [] rest = refl
  after_windows target (w ∷ ws) rest =
      ap (destination jumps now) (
        append_assoc (map (λ t. goto_if_time t target) (time_tests w))
          (window_applications target ws) rest)
      ∙ after_times target (time_tests w) (window_applications target ws ++ rest)
      ∙ either (any (λ t. jumps t now) (time_tests w)) _ target _ _ (after_windows target ws rest)
    where
      either :
          (a b : Bool) (x : String) (later last : Option String)
          → later ≡ (if b then some x else last)
          → (if a then some x else later) ≡ (if a || b then some x else last)
      either true b x later last h = refl
      either false b x later last h = h

  decided :
      (p : ScheduleProperties) (o c : Edge)
      → any (λ w. any (λ t. jumps t now) (time_tests w)) p.windows
        ≡ any (is_window_open now) p.windows
      → destination jumps now (decisions p (some o) (some c))
        ≡ some (if is_schedule_open p now then o.target else c.target)
  unfolding decisions is_schedule_open destination
  decided p o c h =
      after_dates c.target p.holidays (window_applications o.target p.windows ++ goto c.target ∷ [])
      ∙ ap (λ d. if contains now.date p.holidays then some c.target else d)
          (after_windows o.target p.windows (goto c.target ∷ [])
            ∙ ap (λ b. if b then some o.target else some c.target) h)
      ∙ chosen (contains now.date p.holidays) (any (is_window_open now) p.windows) o.target c.target
    where
      chosen :
          (closed_day opened : Bool) (x y : String)
          → (if closed_day then some y else if opened then some x else some y)
            ≡ some (if (if closed_day then false else opened) then x else y)
      chosen true opened x y = refl
      chosen false true x y = refl
      chosen false false x y = refl

-- The search for a condition finds the edge that has it, where the two searches follow the edge.
open_found :
    (es : List Edge) (o : Edge)
    → IsFollowed es o
    → o.condition ≡ some open_hours
    → find_edge_by_condition es is_open_hours ≡ some o
unfolding find_edge_by_condition
open_found es o (inl found) e = found
open_found es o (inr found) e =
    cc ((find_sound (λ x. is_closed x.condition) es found).1, ap is_closed e)

closed_found :
    (es : List Edge) (c : Edge)
    → IsFollowed es c
    → c.condition ≡ some closed
    → find_edge_by_condition es is_closed ≡ some c
unfolding find_edge_by_condition
closed_found es c (inr found) e = found
closed_found es c (inl found) e =
    cc ((find_sound (λ x. is_open_hours x.condition) es found).1, ap is_open_hours e)

written :
    (t : Topology) (id label : String) (p : ScheduleProperties) (lines : List String)
    → schedule_dialplan t id label p ≡ done lines
    → lines
      ≡ schedule_line id label p.timezone
        ∷ map (application_line p.timezone) (schedule_applications t id p)
unfolding schedule_dialplan
written t id label p lines h = go (config_value p.timezone "schedule timezone") refl h
  where
    apps : List Application
    apps = schedule_applications t id p

    done_injective : {a b : List String} → done a ≡ done b → a ≡ b
    done_injective e = cc e

    go :
        (out : Outcome String)
        → config_value p.timezone "schedule timezone" ≡ out
        → (out >>= λ z. done (schedule_line id label z ∷ map (application_line z) apps))
          ≡ done lines
        → lines ≡ schedule_line id label p.timezone ∷ map (application_line p.timezone) apps
    go (thrown e) q k = cc k
    go (done z) q k =
        sym (done_injective k)
        ∙ ap (λ y. schedule_line id label y ∷ map (application_line y) apps)
            (config_value_safe p.timezone "schedule timezone" z q).0

-- In a topology without an error, the generator writes opening hours, none of whose windows ends at
-- 00:00, as a first line and the lines of applications that lead a call to the target of the open
-- edge when `isScheduleOpen` says so, and else to that of the closed edge. `GotoIfTime` is to do
-- what Asterisk documents.
pub dialplan_agrees :
    (platform : Platform) (options : ValidationOptions) (t : Topology) (n : PbxNode)
    (p : ScheduleProperties) (o c : Edge) (jumps : TimeTest → LocalParts → Bool) (now : LocalParts)
    (lines : List String)
    → has_errors (validate_topology platform options t) ≡ false
    → Memᴰ n t.nodes
    → n.properties ≡ Properties.schedule p
    → (Memᴰ o t.edges × (o.source ≡ n.id) × (o.condition ≡ some open_hours))
    → (Memᴰ c t.edges × (c.source ≡ n.id) × (c.condition ≡ some closed))
    → IsGotoIfTime jumps
    → IsInstant now
    → All (λ w. minutes w.end ≢ 0) p.windows
    → schedule_dialplan t n.id n.label p ≡ done lines
    → (lines
        ≡ schedule_line n.id n.label p.timezone
          ∷ map (application_line p.timezone) (schedule_applications t n.id p))
      × (destination jumps now (schedule_applications t n.id p)
          ≡ some (if is_schedule_open p now then o.target else c.target))
unfolding schedule_applications
dialplan_agrees platform options t n p o c jumps now lines fine mn is (mo, from_o, opens)
      (mc, from_c, closes) documented instant no_midnight h =
    let sound =
      All-mem (λ m. IsSound platform options m.properties) t.nodes
        (validate_topology-WellFormed platform options t fine).nodes.sound mn in
    let formed : IsSchedule platform p = subst (IsSound platform options) is sound in
    let type : is_schedule (node_type n) ≡ true = ap (λ q. is_schedule (type_of q)) is in
    let open_is =
      open_found (outgoing t n.id) o
        (schedule-IsFollowed platform options t n o fine mn mo from_o type) opens in
    let closed_is =
      closed_found (outgoing t n.id) c
        (schedule-IsFollowed platform options t n c fine mn mc from_c type) closes in
    (
      written t n.id n.label p lines h,
      ap (destination jumps now) (ap₂ (decisions p) open_is closed_is)
          ∙ decided jumps now p o c
              (windows_agree jumps documented now instant p.windows formed.windows no_midnight),
    )
