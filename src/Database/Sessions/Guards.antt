-- ===== src/Database/Sessions/Guards.antt =====
-- Who is answered with a session.
use essentials_calls.Base.{
  ℕ, ◌<◌, String, ◌≡◌, ◌≢◌, refl, sym, ap, ◌∙◌, true, false, not, ◌&&◌, Option, none, some, List,
  [], ◌∷◌, ltb, ltb→lt, ◌==◌, ==_iff, inl, inr, Bool-cases, arith, find_sound,
}
use mathlib.Core.List.{Memᴰ}
use essentials_calls.Base.{mem_of_mem-filter}
use essentials_calls.Database.Store.{Actor, UserRecord, SessionRow, PbxDatabase, ok, audit}
use essentials_calls.Database.Users.{
  UserPatch, find_user, replace_user, patched, update_user, user_by_id, write_user,
}
use essentials_calls.Database.Sessions.{
  SessionRecord, SessionUser, map_user, find_session, drop_expired, answer, query_session,
  session_result, session,
}
use essentials_calls.Database.Invariant.Admins.{updated, find_user-id}

-- The session that a row answers with: an account that is not disabled has opened it, it is not
-- expired, and the hash of the password is left out.
pub record IsAnswer (now : ℕ) (us : List UserRecord) (s : SessionRow) (r : SessionRecord)
    : Type 0 where
  pub user : UserRecord
  pub found : find_user s.user_id us ≡ some user
  pub enabled : user.disabled ≡ false
  pub unexpired : now < s.expires_at
  pub token : r.token_hash ≡ s.token_hash
  pub csrf : r.csrf_token ≡ s.csrf_token
  pub shown : r.user ≡ map_user user

answered :
    (now : ℕ) (us : List UserRecord) (s : SessionRow) (o : Option UserRecord) (r : SessionRecord)
    → find_user s.user_id us ≡ o
    → answer now s o ≡ some r
    → IsAnswer now us s r
unfolding answer
answered now us s none r e h = cc h
answered now us s (some u) r e h = elim (Bool-cases (ltb now s.expires_at && not u.disabled)) [
  | inr off ↦ cc (rw off at h)
  | inl on ↦
      let q = some_injective _ _ (rw on at h) in
      record {
        user = u;
        found = e;
        enabled = ground arith;
        unexpired = ltb→lt now s.expires_at (ground arith);
        token = ap (λ (x : SessionRecord). x.token_hash) (sym q);
        csrf = ap (λ (x : SessionRecord). x.csrf_token) (sym q);
        shown = ap (λ (x : SessionRecord). x.user) (sym q);
      }
]
  where
    some_injective : (a b : SessionRecord) → some a ≡ some b → a ≡ b
    some_injective a b e = cc

pub session_result-fst :
    (now : ℕ) (token : String) (d : PbxDatabase) (r : Option SessionRecord)
    → (session_result now token d r).0 ≡ r
unfolding session_result
session_result-fst now token d none = refl
session_result-fst now token d (some r) = refl

queried :
    (now : ℕ) (us : List UserRecord) (o : Option SessionRow) (r : SessionRecord)
    → query_session now us o ≡ some r
    → (s : SessionRow) × (o ≡ some s) × IsAnswer now us s r
unfolding query_session
queried now us none r h = cc h
queried now us (some s) r h = (s, refl, answered now us s (find_user s.user_id us) r refl h)

-- A token is answered with a session only where the table has an unexpired row for that token,
-- which an account opened that is not disabled now.
pub session_sound :
    (token : String) (now : ℕ) (d : PbxDatabase) (r : SessionRecord)
    → (session token now d).0 ≡ some r
    → (s : SessionRow) × Memᴰ s d.sessions × (s.token_hash ≡ token) × IsAnswer now d.users s r
unfolding session drop_expired find_session
session_sound token now d r h =
    let kept = drop_expired now d.sessions in
    let (s, found, a) =
      queried now d.users (find_session token kept) r
        (sym (session_result-fst now token _ _) ∙ h) in
    let (there, same) = find_sound (λ (x : SessionRow). x.token_hash == token) kept found in
    let (stands, _) =
      mem_of_mem-filter (λ (x : SessionRow). ltb now x.expires_at) d.sessions there in
    (s, stands, (==_iff s.token_hash token).0 same, a)

find-replaced :
    (id : String) (new u : UserRecord) (us : List UserRecord)
    → new.id ≡ id
    → find_user id us ≡ some u
    → find_user id (replace_user id new us) ≡ some new
unfolding find_user replace_user
find-replaced id new u [] e h = cc h
find-replaced id new u (v ∷ us) e h =
    ground (arith, find-replaced id new u us e, ==_iff v.id id, ==_iff new.id id)

-- Once an account is disabled, no token is answered with it any more, at whatever time.
pub disabled_user_is_out :
    (clock id : String) (patch : UserPatch) (actor : Actor) (d : PbxDatabase)
    (out : UserRecord × PbxDatabase) (token : String) (now : ℕ) (r : SessionRecord)
    → update_user clock id patch actor d ≡ ok out
    → out.0.disabled ≡ true
    → (session token now out.1).0 ≡ some r
    → r.user.id ≢ id
unfolding update_user user_by_id write_user audit
disabled_user_is_out clock id patch actor d out token now r h off answer_is same =
    let (u, found, _, _, e) = updated clock id patch actor d (user_by_id id d) out h in
    let (s, _, _, a) = session_sound token now out.1 r answer_is in
    let new = patched clock patch u in
    let users : out.1.users ≡ replace_user id new d.users =
      ap (λ (o : UserRecord × PbxDatabase). o.1.users) (sym e) in
    let is_new : new ≡ out.0 = ap (λ (o : UserRecord × PbxDatabase). o.0) e in
    let owner : s.user_id ≡ id =
      sym (find_user-id s.user_id out.1.users a.user a.found)
      ∙ sym (ap (λ (x : SessionUser). x.id) a.shown)
      ∙ same in
    let there : find_user id out.1.users ≡ some new =
      ap (find_user id) users
      ∙ find-replaced id new u d.users (find_user-id id d.users u found) found in
    let it : some a.user ≡ some new =
      sym a.found ∙ ap (λ k. find_user k out.1.users) owner ∙ there in
    cc (
      ap (λ (x : UserRecord). x.disabled) (some_injective _ _ it),
      ap (λ (x : UserRecord). x.disabled) is_new,
      off,
      a.enabled,
    )
  where
    some_injective : (a b : UserRecord) → some a ≡ some b → a ≡ b
    some_injective a b e = cc
