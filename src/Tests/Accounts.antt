-- ===== src/Tests/Accounts.antt =====
-- The results on accounts, sessions and failed logins, at two administrators.
use mathlib.Core.List.{Memᴰ}
use essentials_calls.Base.{
  ℕ, ◌+◌, String, ◌≡◌, ◌≢◌, refl, Bool, true, false, ◌&&◌, Option, none, some, List, [], ◌∷◌, leb,
  ltb, length, arith,
}
use essentials_calls.Base.Entries.{lookup}
use essentials_calls.Database.Store.{
  PbxDatabase, Result, ok, err, UserRecord, SessionRow, Role, audit,
}
use essentials_calls.Database.Invariant.Reachable.{Step}
use essentials_calls.Database.Invariant.Admins.{HasAdmin}
use essentials_calls.Database.Invariant.Accounts.{step-HasAdmin}
use essentials_calls.Database.Users.{
  UserPatch, update_user, active_admins, find_user, user_by_id, write_user, update_found,
  delete_sessions, replace_user,
}
use essentials_calls.Database.Sessions.{
  SessionRecord, session, query_session, find_session, answer, drop_expired, session_result,
}
use essentials_calls.Database.Sessions.Guards.{IsAnswer, session_sound, disabled_user_is_out}
use essentials_calls.Database.Logins.{login_rate, window_ms}
use essentials_calls.Database.Logins.Throttle.{fail_all, last_time, login_rate-fail_all}
use essentials_calls.Database.Initial.{empty_tables}
use essentials_calls.Tests.Storage.{cipher, actor, same}

abbrev user : String → Bool → UserRecord
user id disabled = record {
  id = id;
  username = id;
  password_hash = "hash";
  role = Role.admin;
  disabled = disabled;
  created_at = "now";
  updated_at = "now";
}

abbrev row : SessionRow
row = record {
  token_hash = "token";
  user_id = "u2";
  csrf_token = "csrf";
  created_at = 0;
  last_seen_at = 0;
  expires_at = 100;
}

abbrev staffed : PbxDatabase
staffed = record (empty_tables cipher 1) {
  users = user "u1" false ∷ user "u2" false ∷ [];
  sessions = row ∷ record row { token_hash = "other"; user_id = "u1" } ∷ [];
}

abbrev disable : UserPatch
disable = record { role = none; disabled = some true; password_hash = none }

abbrev updated_or : Result (UserRecord × PbxDatabase) → UserRecord × PbxDatabase
updated_or (ok out) = out
updated_or (err e) = (user "u1" false, empty_tables cipher 1)

left : UserRecord × PbxDatabase
left = updated_or (update_user "later" "u2" disable actor staffed)

left_is : update_user "later" "u2" disable actor staffed ≡ ok (left.0, left.1)
unfolding left update_user user_by_id find_user
left_is = refl

staffed-HasAdmin : HasAdmin staffed
unfolding find_user active_admins
staffed-HasAdmin = ((refl, (refl, tt)), omega arith)

step-HasAdmin_example : HasAdmin left.1
step-HasAdmin_example =
    step-HasAdmin same staffed left.1 (Step.change_user "later" "u2" disable actor left.0 left_is)
      staffed-HasAdmin

abbrev answered_or : Option SessionRecord → SessionRecord
answered_or none = record {
  token_hash = "";
  csrf_token = "";
  expires_at = 0;
  user = record {
    id = "";
    username = "";
    role = Role.viewer;
    disabled = true;
    created_at = "";
    updated_at = "";
  };
}
answered_or (some r) = r

answer_now : SessionRecord
answer_now = answered_or (session "token" 50 staffed).0

answer_is : (session "token" 50 staffed).0 ≡ some answer_now
unfolding answer_now session find_user
answer_is = refl

session_sound_example :
    (s : SessionRow) × Memᴰ s staffed.sessions
    × (s.token_hash ≡ "token")
    × IsAnswer 50 staffed.users s answer_now
session_sound_example = session_sound "token" 50 staffed answer_now answer_is

other_answer : SessionRecord
other_answer = answered_or (session "other" 50 left.1).0

other_is : (session "other" 50 left.1).0 ≡ some other_answer
unfolding other_answer left update_user user_by_id find_user session write_user update_found audit
    query_session find_session answer drop_expired session_result delete_sessions replace_user
other_is = refl

left_disabled : left.0.disabled ≡ true
unfolding left update_user user_by_id find_user write_user update_found
left_disabled = refl

disabled_user_is_out_example : other_answer.user.id ≢ "u2"
disabled_user_is_out_example =
    disabled_user_is_out "later" "u2" disable actor staffed left "other" 50 other_answer left_is
      left_disabled other_is

abbrev later_times : List ℕ
later_times = 1 ∷ 2 ∷ 3 ∷ 4 ∷ []

abbrev times : List ℕ
times = 0 ∷ later_times

login_rate-fail_all_example :
    (login_rate "key" 1000 (fail_all "key" times staffed)).blocked
    ≡ (leb 5 (length times) && ltb 1000 (last_time 0 later_times + window_ms))
unfolding lookup
login_rate-fail_all_example =
    login_rate-fail_all "key" 0 1000 later_times staffed refl
      (omega arith, (omega arith, (omega arith, (omega arith, tt))))
