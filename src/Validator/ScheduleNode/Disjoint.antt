-- ===== src/Validator/ScheduleNode/Disjoint.antt =====
-- The windows of a schedule that passes the checks do not meet: at most one of them is open at any
-- instant, by the test that decides whether the schedule is open.
use mathlib.Core.List.{Memᴰ}
use mathlib.Core.List.Memᴰ
use essentials_calls.Base.Members.{Distinct-injective}
use essentials_calls.Base.{Bool-cases, ==_iff, ==_false, ◌==◌, inl, inr}
use essentials_calls.Base.{String, ◌≡◌, ◌≢◌, refl, Bool, true, false, List, [], ◌∷◌, ◌++◌, subst}
use essentials_calls.Base.{if◌then◌else◌, All-mem}
use essentials_calls.Model.{ScheduleWindow, ScheduleProperties}
use essentials_calls.Schedule.{LocalParts, is_window_open}
use essentials_calls.Validator.Issue.{
  has_errors, no_errors-append, report_if-append, report_if-false,
}
use essentials_calls.Validator.Pass.{pass}
use essentials_calls.Validator.ScheduleNode.{
  Platform, WindowState, Segment, window_segments, bad_weekdays, check_window, check_windows,
  validate_schedule_node,
}
use essentials_calls.Validator.ScheduleNode.Soundness.{IsWindow, validate_schedule_node-IsSchedule}
use essentials_calls.Validator.ScheduleNode.Cover.{IsInstant, one_cover, open-covered}

-- The pass keeps the segments that it has, and adds those of each window.
module _ (node : String) where
  kept_segments :
      (ws : List ScheduleWindow) (s : WindowState) {g : Segment}
      → Memᴰ g s.segments
      → Memᴰ g (pass (check_window node) ws s).0.segments
  unfolding pass check_window
  kept_segments [] s m = m
  kept_segments (w ∷ ws) s {g} m =
      kept_segments ws (check_window node w s).0 (step (bad_weekdays w.weekdays))
    where
      step : (b : Bool) → Memᴰ g (if b then s.segments else s.segments ++ window_segments w)
      step true = m
      step false = Memᴰ.append_left (window_segments w) m

  added_segments :
      (ws : List ScheduleWindow) (s : WindowState) {g : Segment} {w : ScheduleWindow}
      → has_errors (pass (check_window node) ws s).1 ≡ false
      → Memᴰ w ws
      → Memᴰ g (window_segments w)
      → Memᴰ g (pass (check_window node) ws s).0.segments
  unfolding pass check_window
  added_segments [] s h m n = elim m [ ]
  added_segments (v ∷ ws) s {g} {w} h (Memᴰ.head e) n =
      let (a, b) =
        no_errors-append (check_window node v s).1
          (pass (check_window node) ws (check_window node v s).0).1 h in
      let (_, a1) = report_if-append _ _ _ refl a in
      let (_, a2) = report_if-append _ _ _ refl a1 in
      let good : bad_weekdays v.weekdays ≡ false = report_if-false _ _ refl a2 in
      kept_segments ws (check_window node v s).0 (
        rw good (
          Memᴰ.append_right s.segments
            (subst (λ (t : ScheduleWindow). Memᴰ g (window_segments t)) e n)))
  added_segments (v ∷ ws) s h (Memᴰ.tail m) n =
      let (a, b) =
        no_errors-append (check_window node v s).1
          (pass (check_window node) ws (check_window node v s).0).1 h in
      added_segments ws (check_window node v s).0 b m n

  open_same_id :
      (platform : Platform) (p : ScheduleProperties) (now : LocalParts) (v w : ScheduleWindow)
      → has_errors (validate_schedule_node platform node p) ≡ false
      → IsInstant now
      → Memᴰ v p.windows
      → Memᴰ w p.windows
      → is_window_open now v ≡ true
      → is_window_open now w ≡ true
      → ¬ (v.id ≢ w.id)
  unfolding validate_schedule_node
  open_same_id platform p now v w h i mv mw ov ow ne =
      let (_, h1) = report_if-append _ _ _ refl h in
      let (_, h2) = report_if-append _ _ _ refl h1 in
      let (windows, h3) = no_errors-append _ _ h2 in
      let (no_overlap, _) = report_if-append _ _ _ refl h3 in
      let formats = (validate_schedule_node-IsSchedule platform node p h).windows in
      let (g, mg, ig, cg) = open-covered now v i (All-mem IsWindow p.windows formats mv) ov in
      let (k, mk, ik, ck) = open-covered now w i (All-mem IsWindow p.windows formats mw) ow in
      one_cover now.weekday now.minutes (check_windows node p.windows).0.segments no_overlap
        (added_segments p.windows _ windows mv mg) (added_segments p.windows _ windows mw mk) cg ck
        (λ e. ne (cc (e, ig, ik)))

-- A schedule node without an error has at most one window that is open at a given moment.
pub one_window_open :
    (platform : Platform) (node : String) (p : ScheduleProperties) (now : LocalParts)
    (v w : ScheduleWindow)
    → has_errors (validate_schedule_node platform node p) ≡ false
    → IsInstant now
    → Memᴰ v p.windows
    → Memᴰ w p.windows
    → is_window_open now v ≡ true
    → is_window_open now w ≡ true
    → v ≡ w
one_window_open platform node p now v w h i mv mw ov ow =
    let ids = (validate_schedule_node-IsSchedule platform node p h).window_ids in
    elim (Bool-cases (v.id == w.id)) [
      | inl same ↦
          Distinct-injective (λ (x : ScheduleWindow). x.id) p.windows ids mv mw
            ((==_iff v.id w.id).0 same)
      | inr differ ↦
          absurd (open_same_id node platform p now v w h i mv mw ov ow (==_false v.id w.id differ))
    ]
