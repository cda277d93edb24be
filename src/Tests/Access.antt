-- ===== src/Tests/Access.antt =====
-- A login with the right password, and what it opens.
use essentials_calls.Base.{◌≡◌, refl, String, Bool, true, false, some, [], ◌∷◌, ◌==◌}
use essentials_calls.Database.Store.{UserRecord, PbxDatabase, Role}
use essentials_calls.Database.Initial.{empty_tables}
use essentials_calls.Database.Users.{find_user, is_username, user_by_id, user_by_username}
use essentials_calls.Database.Sessions.{create_session}
use essentials_calls.Database.Logins.{login_rate, clear_login_failures}
use essentials_calls.Database.Invariant.Admins.{AreDistinct}
use essentials_calls.Base.Entries.{lookup}
use essentials_calls.Base.Texts.{units, is_astral, is_word}
use essentials_calls.Generator.Values.{trim_end, trim_start, is_space}
use essentials_calls.Security.Auth.{Credentials, login, attempt_key, valid_username}
use essentials_calls.Security.Auth.Login.{is_logged_in, IsLetIn, Answered, login-Answered}
use essentials_calls.Tests.Storage.{cipher}

abbrev ute : UserRecord
ute = record {
  id = "u1";
  username = "Ute";
  password_hash = "right";
  role = Role.admin;
  disabled = false;
  created_at = "now";
  updated_at = "now";
}

abbrev tables : PbxDatabase
tables = record (empty_tables cipher 1) { users = ute ∷ [] }

abbrev credentials : Credentials
credentials = record { ip = "10.0.0.1"; username = some " ute "; password = some "right" }

abbrev digest : String → String
digest s = s

abbrev verify : String → String → Bool
verify password hash = password == hash

one_account : AreDistinct tables.users
unfolding find_user
one_account = (refl, tt)

lets_in : is_logged_in (login digest verify "token" "csrf" "now" 10 credentials tables).0 ≡ true
unfolding login login_rate valid_username lookup user_by_username is_username trim_end trim_start
    is_space units is_astral is_word create_session user_by_id clear_login_failures
lets_in = refl

login-Answered_example :
    ((login_rate (attempt_key digest verify "token" "csrf" "now" 10 credentials) 10 tables).blocked
      ≡ false)
    × (u : UserRecord) × IsLetIn verify credentials tables u
    × Answered digest verify "token" "csrf" "now" 10 u
        (login digest verify "token" "csrf" "now" 10 credentials tables).1
login-Answered_example =
    login-Answered digest verify "token" "csrf" "now" 10 credentials tables one_account lets_in
