-- ===== src/Tests/Generation.antt =====
-- The results on the generated configuration, at the sample.
use mathlib.Core.List.{Memᴰ}
use essentials_calls.Base.{
  ◌≤◌, ◌≢◌, String, ◌≡◌, refl, Bool, true, false, ◌&&◌, some, List, [], ◌∷◌, leb, arith, All, map,
  if◌then◌else◌,
}
use essentials_calls.Base.Texts.{codes, all_chars, utf16_length, is_word, is_letter, is_digit}
use essentials_calls.Model.{pos, ScheduleProperties}
use essentials_calls.Schedule.{
  LocalParts, minutes, hhmm_minutes, has_day, is_schedule_open, is_window_open, previous_weekday,
}
use essentials_calls.Generator.Values.{
  Outcome, done, thrown, lines_of, display, config_value, is_illegal, show, show_digits, digit_text,
  pad_two,
}
use essentials_calls.Generator.Values.Safety.{display_safe, IsInert}
use essentials_calls.Generator.Endpoints.{
  endpoint_block, pjsip_entry, pjsip_lines, mailbox_line, extension_mailbox, voicemail_entry,
  voicemail_lines,
}
use essentials_calls.Generator.Endpoints.Total.{pjsip_lines_total}
use essentials_calls.Generator.Endpoints.Safety.{IsLine, pjsip_lines-IsLine}
use essentials_calls.Generator.Endpoints.Mailboxes.{voicemail_lines-IsLine}
use essentials_calls.Generator.Routes.{
  outgoing, find_fallback_edge, extension_nodes, Member, members_of,
}
use essentials_calls.Generator.Routes.Members.{membership_is_dialled}
use essentials_calls.Generator.Routes.Fallback.{fallback_is_followed}
use essentials_calls.Generator.Routes.Hours.{IsFollowed, schedule-IsFollowed}
use essentials_calls.Generator.Schedule.{
  TimeTest, time_tests, previous_minute, next_day, decisions, window_applications, application_line,
  schedule_line, schedule_applications, schedule_dialplan,
}
use essentials_calls.Generator.Schedule.Agreement.{destination, dialplan_agrees}
use essentials_calls.Tests.Sample.{
  platform, options, flow, team, hours_node, to_menu, to_box, back, hours, anna_in_team,
}
use essentials_calls.Tests.Validation.{fine_flow, tuesday_night}

display_safe_example : All IsInert (codes (display "a;b")) × (utf16_length (display "a;b") ≤ 120)
display_safe_example = display_safe "a;b"

-- `GotoIfTime` for ranges that do not wrap.
abbrev jumps : TimeTest → LocalParts → Bool
jumps t now =
    has_day now.weekday t.days
    && leb (minutes t.from) now.minutes
    && leb now.minutes (minutes t.until)

ends_later : All (λ w. minutes w.end ≢ 0) hours.windows
unfolding minutes hhmm_minutes
ends_later = (λ e. cc e, (λ e. cc e, tt))

hours_lines :
    schedule_dialplan flow "hours" "hours" hours
    ≡ done (
        schedule_line "hours" "hours" "Europe/Berlin"
        ∷ map (application_line "Europe/Berlin") (schedule_applications flow "hours" hours))
unfolding schedule_dialplan config_value is_illegal
hours_lines = refl

dialplan_agrees_example :
    (schedule_line "hours" "hours" "Europe/Berlin"
        ∷ map (application_line "Europe/Berlin") (schedule_applications flow "hours" hours)
      ≡ schedule_line "hours" "hours" "Europe/Berlin"
        ∷ map (application_line "Europe/Berlin") (schedule_applications flow "hours" hours))
    × (destination jumps tuesday_night (schedule_applications flow "hours" hours)
        ≡ some (if is_schedule_open hours tuesday_night then "menu" else "box"))
dialplan_agrees_example =
    dialplan_agrees platform options flow hours_node hours to_menu to_box jumps tuesday_night _
      fine_flow (Memᴰ.head refl) refl (Memᴰ.head refl, refl, refl)
      (Memᴰ.tail (Memᴰ.head refl), refl, refl) (λ t now le. refl)
      (record { first = omega arith; last = omega arith; minute = omega arith }) ends_later
      hours_lines

fallback_is_followed_example : find_fallback_edge (outgoing flow "team") ≡ some back
fallback_is_followed_example =
    fallback_is_followed platform options flow team back fine_flow
      (Memᴰ.tail (Memᴰ.tail (Memᴰ.head refl)))
      (Memᴰ.tail (Memᴰ.tail (Memᴰ.tail (Memᴰ.tail (Memᴰ.head refl))))) refl refl

schedule-IsFollowed_example : IsFollowed (outgoing flow "hours") to_menu
schedule-IsFollowed_example =
    schedule-IsFollowed platform options flow hours_node to_menu fine_flow (Memᴰ.head refl)
      (Memᴰ.head refl) refl refl

-- A window from 22:00 to midnight.
abbrev until_midnight : ScheduleProperties
until_midnight = record {
  timezone = "Europe/Berlin";
  windows = record { id = "late"; weekdays = pos 1 ∷ []; start = "22:00"; end = "00:00" } ∷ [];
  holidays = [];
}

abbrev tuesday_noon : LocalParts
tuesday_noon = record { date = "2026-06-02"; weekday = 2; minutes = 720 }

-- On the day after, `isScheduleOpen` is closed and the dialplan is open all day.
midnight_differs :
    (is_schedule_open until_midnight tuesday_noon ≡ false)
    × (destination jumps tuesday_noon (decisions until_midnight (some to_menu) (some to_box))
        ≡ some "menu")
unfolding is_schedule_open is_window_open minutes hhmm_minutes previous_weekday destination
    decisions window_applications time_tests previous_minute next_day pad_two show show_digits
    digit_text
midnight_differs = (refl, refl)

-- A digest of word characters.
abbrev digest : String → String
digest s = "0"

abbrev lines_or : Outcome (List String) → List String
lines_or (done lines) = lines
lines_or (thrown e) = []

zero_is_word : all_chars is_word "0" ≡ true
unfolding is_word is_letter is_digit
zero_is_word = refl

endpoints : List String
endpoints = lines_or (pjsip_lines digest flow)

endpoints_are : pjsip_lines digest flow ≡ done endpoints
unfolding endpoints pjsip_lines lines_of extension_nodes pjsip_entry endpoint_block config_value
    is_illegal
endpoints_are = refl

pjsip_lines-IsLine_example : All IsLine endpoints
pjsip_lines-IsLine_example =
    pjsip_lines-IsLine platform options digest flow endpoints fine_flow (λ s. zero_is_word)
      endpoints_are

pjsip_lines_total_example :
    (lines : List String) × (pjsip_lines digest flow ≡ done lines) × All IsLine lines
pjsip_lines_total_example =
    pjsip_lines_total platform options digest flow fine_flow
      (tt, (tt, (tt, (("secret", refl, refl, refl), (tt, tt))))) (λ s. zero_is_word)

mailboxes : List String
mailboxes = lines_or (voicemail_lines flow)

mailboxes_are : voicemail_lines flow ≡ done mailboxes
unfolding mailboxes voicemail_lines lines_of extension_nodes extension_mailbox voicemail_entry
    mailbox_line config_value is_illegal
mailboxes_are = refl

voicemail_lines-IsLine_example : All IsLine mailboxes
voicemail_lines-IsLine_example =
    voicemail_lines-IsLine platform options flow mailboxes fine_flow mailboxes_are

membership_is_dialled_example :
    (x : Member) × Memᴰ x (members_of flow "team")
    × (x.membership ≡ anna_in_team)
    × Memᴰ x.ext.node flow.nodes
    × (x.ext.node.id ≡ "anna")
membership_is_dialled_example =
    membership_is_dialled platform options flow anna_in_team fine_flow (Memᴰ.head refl)
