-- ===== src/Database/Sessions.antt =====
-- The sessions of the accounts, by the digest of their token. `now` is `Date.now()`.
pub mod Guards
use essentials_calls.Base.{
  ℕ, ◌+◌, ◌*◌, String, Bool, true, false, not, ◌&&◌, Option, none, some, List, [], ◌∷◌, map, find,
  filter, any, ltb, leb, ◌==◌, if◌then◌else◌,
}
use essentials_calls.Base.Entries.{is_some}
use essentials_calls.Database.Store.{
  Role, UserRecord, SessionRow, PbxDatabase, Result, ok, unless, constraint,
}
use essentials_calls.Database.Users.{find_user, user_by_id}

-- What a request learns of its user; the hash of the password is left out.
pub record SessionUser : Type 0 where
  pub id : String
  pub username : String
  pub role : Role
  pub disabled : Bool
  pub created_at : String
  pub updated_at : String

pub record SessionRecord : Type 0 where
  pub token_hash : String
  pub csrf_token : String
  pub expires_at : ℕ
  pub user : SessionUser

-- `mapUser` without the hash.
abbrev pub map_user : UserRecord → SessionUser
map_user u = record {
  id = u.id;
  username = u.username;
  role = u.role;
  disabled = u.disabled;
  created_at = u.created_at;
  updated_at = u.updated_at;
}

unfoldable pub find_session : String → List SessionRow → Option SessionRow
find_session token ss = find (λ (s : SessionRow). s.token_hash == token) ss

-- The user exists, and the token is new.
unfoldable pub create_session : String → String → String → ℕ → ℕ → PbxDatabase → Result PbxDatabase
unfolding find_session
create_session user_id token csrf created expires d =
    unless (not (is_some (user_by_id user_id d))) constraint (
      unless (is_some (find_session token d.sessions)) constraint (
        ok (record d {
          sessions =
              (record {
                token_hash = token;
                user_id = user_id;
                csrf_token = csrf;
                created_at = created;
                last_seen_at = created;
                expires_at = expires;
              })
              ∷ d.sessions;
        })))

-- `DELETE FROM sessions WHERE expires_at <= ?`
unfoldable pub drop_expired : ℕ → List SessionRow → List SessionRow
drop_expired now ss = filter (λ (s : SessionRow). ltb now s.expires_at) ss

unfoldable pub touch : ℕ → String → List SessionRow → List SessionRow
touch now token ss =
    map (λ (s : SessionRow). if s.token_hash == token then record s { last_seen_at = now } else s)
      ss

unfoldable pub answer : ℕ → SessionRow → Option UserRecord → Option SessionRecord
answer now s none = none
answer now s (some u) =
    if ltb now s.expires_at && not u.disabled
    then some (record {
      token_hash = s.token_hash;
      csrf_token = s.csrf_token;
      expires_at = s.expires_at;
      user = map_user u;
    })
    else none

unfoldable pub query_session : ℕ → List UserRecord → Option SessionRow → Option SessionRecord
unfolding answer
query_session now us none = none
query_session now us (some s) = answer now s (find_user s.user_id us)

-- A session that is found is marked as seen.
unfoldable pub session_result :
    ℕ → String → PbxDatabase → Option SessionRecord → Option SessionRecord × PbxDatabase
unfolding touch
session_result now token d none = (none, d)
session_result now token d (some r) = (some r, record d { sessions = touch now token d.sessions })

unfoldable pub session : String → ℕ → PbxDatabase → Option SessionRecord × PbxDatabase
unfolding drop_expired query_session session_result find_session
session token now d =
    let kept : PbxDatabase = record d { sessions = drop_expired now d.sessions } in
    session_result now token kept (query_session now d.users (find_session token kept.sessions))

unfoldable pub delete_session : String → PbxDatabase → PbxDatabase
delete_session token d = record d {
  sessions = filter (λ (s : SessionRow). not (s.token_hash == token)) d.sessions;
}
