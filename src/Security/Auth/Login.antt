-- ===== src/Security/Auth/Login.antt =====
-- What a login proves, and what it opens.
use essentials_calls.Base.{
  ℕ, ◌+◌, ◌<◌, String, ◌≡◌, refl, sym, ap, ◌∙◌, subst, Bool, true, false, not, ◌&&◌, Option, none,
  some, List, [], ◌∷◌, find, ltb, lt→ltb, ◌==◌, ==_refl, ==_iff, inl, inr, Bool-cases,
  if◌then◌else◌, arith,
}
use essentials_calls.Base.Entries.{is_some}
use essentials_calls.Database.Store.{
  UserRecord, SessionRow, PbxDatabase, Result, ok, err, unless_ok, ok_injective, audit,
}
use essentials_calls.Database.Users.{find_user, user_by_id, user_by_username}
use essentials_calls.Database.Sessions.{
  map_user, create_session, session, find_session, drop_expired, query_session, answer,
}
use essentials_calls.Database.Logins.{login_rate, clear_login_failures}
use essentials_calls.Database.Sessions.Guards.{session_result-fst}
use essentials_calls.Database.Invariant.Admins.{AreDistinct}
use essentials_calls.Security.Auth.{
  session_ms, Response, too_many, logged_in, Credentials, valid_username, checked_password,
  is_short, text_or_empty, attempt_key, refuse, opened, accept, decide, login,
}

-- The account of a name is the account of its id, where ids are distinct.
found_by_id :
    (p : UserRecord → Bool) (us : List UserRecord) (u : UserRecord)
    → AreDistinct us
    → find p us ≡ some u
    → find_user u.id us ≡ some u
unfolding find_user
found_by_id p [] u d h = cc h
found_by_id p (v ∷ us) u (fresh, d) h = elim (Bool-cases (p v)) [
  | inl e ↦
      let same : v ≡ u = some_injective _ _ (rw e at h) in
      subst (λ (x : UserRecord). find_user x.id (v ∷ us) ≡ some x) same (rw (==_refl v.id) refl)
  | inr e ↦
      let rest = found_by_id p us u d (rw e at h) in
      elim (Bool-cases (v.id == u.id)) [
        | inl same ↦ cc (subst (λ k. find_user k us ≡ none) ((==_iff v.id u.id).0 same) fresh, rest)
        | inr other ↦ rw other rest
      ]
]
  where
    some_injective : (a b : UserRecord) → some a ≡ some b → a ≡ b
    some_injective a b e = cc

abbrev pub is_logged_in : Response → Bool
is_logged_in (logged_in token user csrf expires) = true
is_logged_in _ = false

abbrev opened_row : String → String → String → ℕ → ℕ → SessionRow
opened_row token id csrf created expires = record {
  token_hash = token;
  user_id = id;
  csrf_token = csrf;
  created_at = created;
  last_seen_at = created;
  expires_at = expires;
}

created_row :
    (id token csrf : String) (created expires : ℕ) (d d' : PbxDatabase)
    → create_session id token csrf created expires d ≡ ok d'
    → (d'.sessions ≡ opened_row token id csrf created expires ∷ d.sessions) × (d'.users ≡ d.users)
unfolding create_session
created_row id token csrf created expires d d' h =
    let (_, h₁) = unless_ok (not (is_some (user_by_id id d))) _ _ d' h in
    let (_, h₂) = unless_ok (is_some (find_session token d.sessions)) _ _ d' h₁ in
    let e = ok_injective _ _ h₂ in
    (ap (λ (x : PbxDatabase). x.sessions) (sym e), ap (λ (x : PbxDatabase). x.users) (sym e))

-- A token whose row stands first, and whose user is enabled, is answered.
answers :
    (token : String) (t : ℕ) (row : SessionRow) (rest : List SessionRow) (u : UserRecord)
    (d : PbxDatabase)
    → d.sessions ≡ row ∷ rest
    → row.token_hash ≡ token
    → t < row.expires_at
    → find_user row.user_id d.users ≡ some u
    → u.disabled ≡ false
    → (session token t d).0
      ≡ some (record {
        token_hash = row.token_hash;
        csrf_token = row.csrf_token;
        expires_at = row.expires_at;
        user = map_user u;
      })
unfolding session drop_expired find_session query_session answer
answers token t row rest u d stands same early found enabled =
    let live : ltb t row.expires_at ≡ true = lt→ltb t row.expires_at early in
    let hit : (row.token_hash == token) ≡ true = (==_iff row.token_hash token).1 same in
    session_result-fst t token _ _
    ∙ ap
        (λ (ss : List SessionRow). query_session t d.users (find_session token (drop_expired t ss)))
        stands
    ∙ rw (live, hit, found, live, enabled) refl

-- A login that was let in.
pub record IsLetIn (verify : String → String → Bool) (c : Credentials) (d : PbxDatabase)
    (u : UserRecord) : Type 0 where
  pub known : user_by_username (valid_username c) d ≡ some u
  pub enabled : u.disabled ≡ false
  pub password : verify (text_or_empty c.password) u.password_hash ≡ true

module _ (token_hash : String → String) (verify : String → String → Bool)
    (token csrf clock : String) (now : ℕ) where
  -- The later requests of a login are answered with its account.
  abbrev pub Answered : UserRecord → PbxDatabase → Type 0
  Answered u d =
      (t : ℕ)
      → t < now + session_ms
      → (session (token_hash token) t d).0
        ≡ some (record {
          token_hash = token_hash token;
          csrf_token = csrf;
          expires_at = now + session_ms;
          user = map_user u;
        })

  opened-Answered :
      (c : Credentials) (u : UserRecord) (d : PbxDatabase) (r : Result PbxDatabase)
      → create_session u.id (token_hash token) csrf now (now + session_ms) d ≡ r
      → find_user u.id d.users ≡ some u
      → u.disabled ≡ false
      → is_logged_in (opened token_hash verify token csrf clock now c u d r).0 ≡ true
      → Answered u (opened token_hash verify token csrf clock now c u d r).1
  unfolding opened audit
  opened-Answered c u d (err e) made found enabled h t early = cc h
  opened-Answered c u d (ok d') made found enabled h t early =
      let (rows, users) =
        created_row u.id (token_hash token) csrf now (now + session_ms) d d' made in
      answers (token_hash token) t (opened_row (token_hash token) u.id csrf now (now + session_ms))
        d.sessions u _ rows refl early (ap (find_user u.id) users ∙ found) enabled

  accept-Answered :
      (c : Credentials) (u : UserRecord) (d : PbxDatabase)
      → find_user u.id d.users ≡ some u
      → u.disabled ≡ false
      → is_logged_in (accept token_hash verify token csrf clock now c u d).0 ≡ true
      → Answered u (accept token_hash verify token csrf clock now c u d).1
  unfolding accept clear_login_failures
  accept-Answered c u d found enabled h =
      opened-Answered c u
        (clear_login_failures (attempt_key token_hash verify token csrf clock now c) d) _ refl found
        enabled h

  abbrev taken : Credentials → UserRecord → PbxDatabase → Response × PbxDatabase
  taken c u d = accept token_hash verify token csrf clock now c u d

  abbrev refused : Credentials → UserRecord → PbxDatabase → Response × PbxDatabase
  refused c u d = refuse token_hash verify token csrf clock now c (some u) d

  -- The condition of the handler.
  abbrev passes : Credentials → UserRecord → Bool
  passes c u = not u.disabled && is_short c && verify (checked_password c) u.password_hash

  whole_password :
      (c : Credentials) (hash : String)
      → is_short c ≡ true
      → verify (checked_password c) hash ≡ true
      → verify (text_or_empty c.password) hash ≡ true
  unfolding checked_password
  whole_password c hash short k =
      ap (λ (b : Bool). verify (if b then text_or_empty c.password else "") hash) (sym short) ∙ k

  let_in :
      (c : Credentials) (d : PbxDatabase) (u : UserRecord)
      → user_by_username (valid_username c) d ≡ some u
      → passes c u ≡ true
      → IsLetIn verify c d u
  let_in c d u e on = record {
    known = e;
    enabled = ground arith;
    password = whole_password c u.password_hash (ground arith) (ground arith);
  }

  refused_response :
      (c : Credentials) (u : UserRecord) (d : PbxDatabase) → is_logged_in (refused c u d).0 ≡ false
  unfolding refuse
  refused_response c u d = refl

  decided :
      (c : Credentials) (d : PbxDatabase) (found : Option UserRecord)
      → user_by_username (valid_username c) d ≡ found
      → AreDistinct d.users
      → is_logged_in (decide token_hash verify token csrf clock now c d found).0 ≡ true
      → (u : UserRecord) × IsLetIn verify c d u
        × Answered u (decide token_hash verify token csrf clock now c d found).1
  unfolding decide refuse user_by_username
  decided c d none e distinct h = cc h
  decided c d (some u) e distinct h =
      let choice = λ (b : Bool). if b then taken c u d else refused c u d in
      elim (Bool-cases (passes c u)) [
        | inr off ↦ cc (ap (λ (b : Bool). is_logged_in (choice b).0) off, h, refused_response c u d)
        | inl on ↦
            let entered = let_in c d u e on in
            let is_taken : choice (passes c u) ≡ taken c u d = ap choice on in
            (
              u,
              entered,
              subst (λ (o : Response × PbxDatabase). Answered u o.1) (sym is_taken)
                  (accept-Answered c u d (found_by_id _ d.users u distinct e) entered.enabled
                    (ap (λ (o : Response × PbxDatabase). is_logged_in o.0) (sym is_taken) ∙ h)),
            )
      ]

  -- Where a login lets somebody in, the name is that of an account that is not disabled, the
  -- password passed the check against its hash, the address and the name were not blocked; and until
  -- eight hours later the token is answered with this account. The accounts are to have distinct
  -- ids.
  pub login-Answered :
      (c : Credentials) (d : PbxDatabase)
      → AreDistinct d.users
      → is_logged_in (login token_hash verify token csrf clock now c d).0 ≡ true
      → ((login_rate (attempt_key token_hash verify token csrf clock now c) now d).blocked ≡ false)
        × (u : UserRecord) × IsLetIn verify c d u
        × Answered u (login token_hash verify token csrf clock now c d).1
  unfolding login
  login-Answered c d distinct h =
      let rate = login_rate (attempt_key token_hash verify token csrf clock now c) now d in
      let out =
        decide token_hash verify token csrf clock now c d (user_by_username (valid_username c) d) in
      elim (Bool-cases rate.blocked) [
        | inl on ↦ cc (
          ap
              (λ (b : Bool).
                is_logged_in (if b then (too_many rate.retry_after_seconds, d) else out).0)
              on,
          h,
        )
        | inr off ↦
            let same : (if rate.blocked then (too_many rate.retry_after_seconds, d) else out)
                ≡ out =
              ap (λ (b : Bool). if b then (too_many rate.retry_after_seconds, d) else out) off in
            let (u, in_, answered) =
              decided c d (user_by_username (valid_username c) d) refl distinct
                (ap (λ (o : Response × PbxDatabase). is_logged_in o.0) (sym same) ∙ h) in
            (
              off,
              u,
              in_,
              subst (λ (o : Response × PbxDatabase). Answered u o.1) (sym same) answered,
            )
      ]
