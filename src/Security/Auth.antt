-- ===== src/Security/Auth.antt =====
-- Who may do what: the handlers of backend/src/security/auth.ts. The digest of a token, the check of
-- a password and the random tokens are given; so is the time, which a handler reads once.
pub mod Login
use Prim.Native.Char.{code}
use Prim.Native.String
use essentials_calls.Base.{
  ℕ, ◌+◌, ◌-◌, String, Bool, true, false, not, ◌&&◌, ◌||◌, Option, none, some, List, [], ◌∷◌, leb,
  ltb, ◌==◌, contains, if◌then◌else◌,
}
use essentials_calls.Base.Entries.{is_some}
use essentials_calls.Base.Texts.{◌<>◌, utf16_length, is_empty}
use essentials_calls.Generator.Values.{trim_start, trim_end, slice, char_at}
use essentials_calls.Json.{Fields, end, field, text}
use essentials_calls.Database.Store.{
  Role, viewer, editor, admin, Actor, UserRecord, PbxDatabase, Result, ok, err, Error, audit,
}
use essentials_calls.Database.Users.{is_username, user_by_username}
use essentials_calls.Database.Sessions.{
  SessionRecord, SessionUser, map_user, create_session, session, delete_session,
}
use essentials_calls.Database.Logins.{
  LoginRate, login_rate, record_login_failure, clear_login_failures,
}

abbrev pub session_ms : ℕ
session_ms = 28800000

-- `ROLE_LEVEL`
abbrev pub role_level : Role → ℕ
role_level viewer = 1
role_level editor = 2
role_level admin = 3

-- `requireRole`: the status that is sent, or none where the request goes on.
unfoldable pub require_role : Role → Option SessionRecord → Option ℕ
require_role minimum none = some 401
require_role minimum (some s) =
    if ltb (role_level s.user.role) (role_level minimum) then some 403 else none

-- `csrfProtection`, of the method, the path and the header.
unfoldable pub csrf_matches : String → Option SessionRecord → Bool
csrf_matches supplied none = false
csrf_matches supplied (some s) = not (is_empty supplied) && supplied == s.csrf_token

unfoldable pub csrf_protection : String → String → String → Option SessionRecord → Option ℕ
unfolding csrf_matches
csrf_protection method path supplied auth =
    if contains method ("GET" ∷ "HEAD" ∷ "OPTIONS" ∷ []) || path == "/auth/login"
    then none
    else if csrf_matches supplied auth
    then none
    else some 403

-- `actor(req)`
abbrev pub actor_of : Option SessionRecord → Actor
actor_of none = record { id = none; username = "anonymous"; role = none }
actor_of (some s) = record {
  id = some s.user.id;
  username = s.user.username;
  role = some s.user.role;
}

pub data Response : Type 0 where
  too_many : ℕ → Response
  denied : Response
  logged_in : String → SessionUser → String → ℕ → Response
  problem : Error → Response

-- What the body of a login holds where it is a string.
pub record Credentials : Type 0 where
  pub ip : String
  pub username : Option String
  pub password : Option String

abbrev pub text_or_empty : Option String → String
text_or_empty none = ""
text_or_empty (some s) = s

abbrev pub submitted_username : Credentials → String
submitted_username c = trim_end (trim_start (text_or_empty c.username))

unfoldable pub valid_username : Credentials → String
valid_username c = let name = submitted_username c in if is_username name then name else ""

-- A password of more than 1024 units is not checked.
abbrev pub is_short : Credentials → Bool
is_short c = leb (utf16_length (text_or_empty c.password)) 1024

unfoldable pub checked_password : Credentials → String
checked_password c = if is_short c then text_or_empty c.password else ""

abbrev pub id_of : Option UserRecord → Option String
id_of none = none
id_of (some u) = some u.id

-- `toLowerCase` of a user name, whose letters are ASCII.
unfoldable pub lower_text : String → String
lower_text String.[] = ""
lower_text (String.◌∷◌ c s) =
    let rest = lower_text s in
    if leb b'A' (code c) && leb (code c) b'Z'
    then char_at (code c - b'A') "abcdefghijklmnopqrstuvwxyz" <> rest
    else String.◌∷◌ c rest

-- The name that the log gives to a failed login.
unfoldable pub named : Credentials → String
named c = let name = slice 64 (submitted_username c) in if is_empty name then "unknown" else name

module _ (token_hash : String → String) (verify : String → String → Bool) (token csrf : String)
    (clock : String) (now : ℕ) where
  unfoldable pub attempt_key : Credentials → String
  unfolding valid_username
  attempt_key c = token_hash (c.ip <> "\0" <> lower_text (valid_username c))

  unfoldable pub refuse : Credentials → Option UserRecord → PbxDatabase → Response × PbxDatabase
  unfolding attempt_key named
  refuse c user d = (
    denied,
    audit clock (record { id = id_of user; username = named c; role = none }) "auth.login" "session"
        "failure" (field "ipHash" (text (token_hash c.ip)) end)
        (record_login_failure (attempt_key c) now d),
  )

  -- The handler passes an error on; what was written before it stays.
  unfoldable pub opened :
      Credentials → UserRecord → PbxDatabase → Result PbxDatabase → Response × PbxDatabase
  opened c u d (err e) = (problem e, d)
  opened c u d (ok d') = (
    logged_in token (map_user u) csrf (now + session_ms),
    audit clock (record { id = some u.id; username = u.username; role = some u.role }) "auth.login"
        "session" "success" (field "ipHash" (text (token_hash c.ip)) end) d',
  )

  unfoldable pub accept : Credentials → UserRecord → PbxDatabase → Response × PbxDatabase
  unfolding opened attempt_key
  accept c u d =
      let cleared = clear_login_failures (attempt_key c) d in
      opened c u cleared
        (create_session u.id (token_hash token) csrf now (now + session_ms) cleared)

  unfoldable pub decide : Credentials → PbxDatabase → Option UserRecord → Response × PbxDatabase
  unfolding refuse accept checked_password
  decide c d none = refuse c none d
  decide c d (some u) =
      let taken = accept c u d in
      if not u.disabled && is_short c && verify (checked_password c) u.password_hash
      then taken
      else refuse c (some u) d

  -- `POST /auth/login`
  unfoldable pub login : Credentials → PbxDatabase → Response × PbxDatabase
  unfolding decide attempt_key valid_username
  login c d =
      let rate = login_rate (attempt_key c) now d in
      let decided = decide c d (user_by_username (valid_username c) d) in
      if rate.blocked then (too_many rate.retry_after_seconds, d) else decided

  -- `POST /auth/logout`, behind `requireRole('viewer')`.
  unfoldable pub logout : SessionRecord → PbxDatabase → PbxDatabase
  logout s d =
      audit clock (actor_of (some s)) "auth.logout" "session" "success" end
        (delete_session s.token_hash d)
