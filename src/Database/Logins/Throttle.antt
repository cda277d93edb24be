-- ===== src/Database/Logins/Throttle.antt =====
-- When a name is blocked: from the fifth failure on that falls into one window.
use essentials_calls.Base.{
  ℕ, suc, ◌+◌, ◌-◌, ◌≤◌, String, ◌≡◌, refl, ap, ◌∙◌, false, ◌&&◌, Option, none, some, List, [], ◌∷◌,
  length, ltb, leb, All, arith, if◌then◌else◌,
}
use essentials_calls.Base.Entries.{lookup, lookup-set}
use essentials_calls.Database.Store.{Attempt, PbxDatabase}
use essentials_calls.Database.Logins.{
  window_ms, blocked_until_of, login_rate, starts_window, next_attempt, record_login_failure,
}

-- The failures of a key, one after another.
unfoldable pub fail_all : String → List ℕ → PbxDatabase → PbxDatabase
fail_all key [] d = d
fail_all key (t ∷ ts) d = fail_all key ts (record_login_failure key t d)

-- The time of the last failure.
abbrev pub last_time : ℕ → List ℕ → ℕ
last_time t [] = t
last_time t (u ∷ ts) = last_time u ts

abbrev attempt_of : ℕ → ℕ → ℕ → Attempt
attempt_of start failures at = record {
  window_start = start;
  failures = failures;
  blocked_until = if leb 5 failures then at + window_ms else 0;
}

first_attempt : (t : ℕ) → next_attempt t none ≡ attempt_of t 1 t
unfolding next_attempt starts_window
first_attempt t = refl

-- A failure in a window that is open counts on.
next_in_window :
    (start n at t : ℕ)
    → t ≤ start + window_ms
    → next_attempt t (some (attempt_of start n at)) ≡ attempt_of start (suc n) t
unfolding next_attempt starts_window
next_in_window start n at t h =
    let open_window : ltb window_ms (t - start) ≡ false = ground arith in rw open_window refl

counted :
    (key : String) (start n at : ℕ) (ts : List ℕ) (d : PbxDatabase)
    → All (λ t. t ≤ start + window_ms) ts
    → lookup key d.login_attempts ≡ some (attempt_of start n at)
    → lookup key (fail_all key ts d).login_attempts
      ≡ some (attempt_of start (length ts + n) (last_time at ts))
unfolding fail_all record_login_failure
counted key start n at [] d h e = e ∙ ap (λ k. some (attempt_of start k at)) (omega arith)
counted key start n at (t ∷ ts) d (h, hs) e =
    let next : next_attempt t (lookup key d.login_attempts) ≡ attempt_of start (suc n) t =
      ap (next_attempt t) e ∙ next_in_window start n at t h in
    counted key start (suc n) t ts (record_login_failure key t d) hs (
      lookup-set key (next_attempt t (lookup key d.login_attempts)) d.login_attempts ∙ ap some next)
    ∙ ap (λ k. some (attempt_of start k (last_time t ts))) (plus (length ts) n)
  where
    plus : (a b : ℕ) → a + suc b ≡ suc a + b
    plus a b = omega arith

-- After failures of a key that had none, all of them in the window of 15 minutes that the first
-- one opens, the key is blocked exactly where there were five of them or more, until 15 minutes
-- after the last.
pub login_rate-fail_all :
    (key : String) (t now : ℕ) (ts : List ℕ) (d : PbxDatabase)
    → lookup key d.login_attempts ≡ none
    → All (λ u. u ≤ t + window_ms) ts
    → (login_rate key now (fail_all key (t ∷ ts) d)).blocked
      ≡ (leb 5 (length (t ∷ ts)) && ltb now (last_time t ts + window_ms))
unfolding fail_all record_login_failure login_rate
login_rate-fail_all key t now ts d fresh h =
    let first : lookup key (record_login_failure key t d).login_attempts ≡ some (attempt_of t 1 t) =
      lookup-set key (next_attempt t (lookup key d.login_attempts)) d.login_attempts
      ∙ ap some (ap (next_attempt t) fresh ∙ first_attempt t) in
    let all = counted key t 1 t ts (record_login_failure key t d) h first in
    ap (λ (o : Option Attempt). ltb now (blocked_until_of o)) all
    ∙ blocked now (length ts) (last_time t ts)
  where
    blocked :
        (now n at : ℕ)
        → ltb now (if leb 5 (n + 1) then at + window_ms else 0)
          ≡ (leb 5 (suc n) && ltb now (at + window_ms))
    blocked now n at = ground arith
