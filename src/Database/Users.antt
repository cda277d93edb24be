-- ===== src/Database/Users.antt =====
-- The accounts: `createUser`, `updateUser` and the queries of users. A user id is the text that
-- `randomUUID` draws.
use essentials_calls.Base.{
  ℕ, String, Bool, true, false, not, ◌&&◌, ◌||◌, Option, none, some, List, [], ◌∷◌, length, find,
  filter, nat_eq, leb, ◌==◌, if◌then◌else◌,
}
use essentials_calls.Base.Entries.{is_some}
use essentials_calls.Base.Texts.{◌<>◌, codes, all_chars, utf16_length, is_word}
use essentials_calls.Base.Texts.Search.{lower}
use essentials_calls.Generator.Values.{trim_start, trim_end}
use essentials_calls.Json.{end, field, text, bool}
use essentials_calls.Database.Store.{
  Role, viewer, editor, admin, Actor, UserRecord, SessionRow, PbxDatabase, Result, ok, err, unless,
  invalid_username, no_user, user_safety, constraint, audit,
}

-- `[a-zA-Z0-9._@-]`
unfoldable pub is_username_char : ℕ → Bool
is_username_char c = is_word c || nat_eq c b'.' || nat_eq c b'@' || nat_eq c b'-'

unfoldable pub is_username : String → Bool
unfolding is_username_char
is_username s = leb 3 (utf16_length s) && leb (utf16_length s) 64 && all_chars is_username_char s

unfoldable pub same_codes : List ℕ → List ℕ → Bool
same_codes [] [] = true
same_codes (a ∷ as') (b ∷ bs) = nat_eq a b && same_codes as' bs
same_codes _ _ = false

-- `COLLATE NOCASE`, which folds the letters of ASCII.
unfoldable pub same_name : String → String → Bool
unfolding same_codes
same_name a b = same_codes (lower (codes a)) (lower (codes b))

unfoldable pub find_user : String → List UserRecord → Option UserRecord
find_user id us = find (λ (u : UserRecord). u.id == id) us

unfoldable pub user_by_id : String → PbxDatabase → Option UserRecord
unfolding find_user
user_by_id id d = find_user id d.users

unfoldable pub user_by_username : String → PbxDatabase → Option UserRecord
unfolding same_name
user_by_username username d = find (λ (u : UserRecord). same_name u.username username) d.users

unfoldable pub count_users : PbxDatabase → ℕ
count_users d = length d.users

abbrev pub role_text : Role → String
role_text viewer = "viewer"
role_text editor = "editor"
role_text admin = "admin"

abbrev pub is_admin : Role → Bool
is_admin viewer = false
is_admin editor = false
is_admin admin = true

-- `role='admin' AND disabled=0`
abbrev pub is_active_admin : UserRecord → Bool
is_active_admin u = is_admin u.role && not u.disabled

unfoldable pub active_admins : List UserRecord → ℕ
active_admins us = length (filter is_active_admin us)

unfoldable pub insert_user :
    String → String → String → String → Role → Actor → PbxDatabase → UserRecord × PbxDatabase
insert_user now id name hash role actor d =
    let user : UserRecord = record {
      id = id;
      username = name;
      password_hash = hash;
      role = role;
      disabled = false;
      created_at = now;
      updated_at = now;
    } in
    (
      user,
      audit now actor "user.create" ("user:" <> id) "success"
          (field "username" (text name) (field "role" (text (role_text role)) end))
          (record d { users = user ∷ d.users }),
    )

-- The id and the name are unique.
unfoldable pub create_user :
    String
    → String
    → String
    → String
    → Role
    → Actor
    → PbxDatabase
    → Result (UserRecord × PbxDatabase)
unfolding is_username user_by_id user_by_username insert_user
create_user now id username hash role actor d =
    let normalized = trim_end (trim_start username) in
    unless (not (is_username normalized)) invalid_username (
      unless (is_some (user_by_id id d) || is_some (user_by_username normalized d)) constraint
        (ok (insert_user now id normalized hash role actor d)))

pub record UserPatch : Type 0 where
  pub role : Option Role
  pub disabled : Option Bool
  pub password_hash : Option String

-- `a ?? b`
abbrev pub given_or : {A : Type 0} → Option A → A → A
given_or none b = b
given_or (some a) b = a

-- `actor.id === id`
abbrev pub is_actor : Option String → String → Bool
is_actor none id = false
is_actor (some a) id = a == id

-- `!!patch.passwordHash`
abbrev pub is_given : Option String → Bool
is_given none = false
is_given (some s) = not (s == "")

abbrev pub patched : String → UserPatch → UserRecord → UserRecord
patched now patch u = record u {
  role = given_or patch.role u.role;
  disabled = given_or patch.disabled u.disabled;
  password_hash = given_or patch.password_hash u.password_hash;
  updated_at = now;
}

-- `UPDATE users SET … WHERE id=?`
unfoldable pub replace_user : String → UserRecord → List UserRecord → List UserRecord
replace_user id new [] = []
replace_user id new (u ∷ us) =
    let rest = replace_user id new us in (if u.id == id then new else u) ∷ rest

unfoldable pub delete_sessions : String → List SessionRow → List SessionRow
delete_sessions id ss = filter (λ (s : SessionRow). not (s.user_id == id)) ss

-- The writes of `updateUser`.
unfoldable pub write_user :
    String → String → UserPatch → UserRecord → Actor → PbxDatabase → UserRecord × PbxDatabase
unfolding replace_user delete_sessions
write_user now id patch new actor d = (
  new,
  audit now actor "user.update" ("user:" <> id) "success"
      (field "role" (text (role_text new.role)) (
        field "disabled" (bool new.disabled)
          (field "passwordChanged" (bool (is_given patch.password_hash)) end)))
      (record d {
        users = replace_user id new d.users;
        sessions = if new.disabled then delete_sessions id d.sessions else d.sessions;
      }),
)

unfoldable pub update_found :
    String
    → String
    → UserPatch
    → Actor
    → PbxDatabase
    → Option UserRecord
    → Result (UserRecord × PbxDatabase)
unfolding write_user active_admins
update_found now id patch actor d none = err no_user
update_found now id patch actor d (some u) =
    let new = patched now patch u in
    unless (is_actor actor.id id && new.disabled) user_safety (
      unless (is_active_admin u && not (is_active_admin new) && leb (active_admins d.users) 1)
        user_safety (ok (write_user now id patch new actor d)))

unfoldable pub update_user :
    String → String → UserPatch → Actor → PbxDatabase → Result (UserRecord × PbxDatabase)
unfolding update_found user_by_id
update_user now id patch actor d = update_found now id patch actor d (user_by_id id d)
