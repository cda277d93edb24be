-- ===== src/Database/Logins.antt =====
-- The throttle of failed logins, by a digest of the address and the name. Times are milliseconds.
pub mod Throttle
use essentials_calls.Base.{
  ℕ, suc, ◌+◌, ◌-◌, ◌*◌, ◌/◌, String, Bool, true, false, not, ◌||◌, Option, none, some, List, [],
  ◌∷◌, ltb, leb, ◌==◌, if◌then◌else◌,
}
use essentials_calls.Base.Entries.{Entries, lookup, set}
use essentials_calls.Database.Store.{Attempt, PbxDatabase}

abbrev pub window_ms : ℕ
window_ms = 900000

pub record LoginRate : Type 0 where
  pub blocked : Bool
  pub retry_after_seconds : ℕ

abbrev pub blocked_until_of : Option Attempt → ℕ
blocked_until_of none = 0
blocked_until_of (some a) = a.blocked_until

-- `Math.ceil(ms / 1000)`, of no less than 0.
abbrev pub seconds : ℕ → ℕ
seconds ms = (ms + 999) / 1000

unfoldable pub login_rate : String → ℕ → PbxDatabase → LoginRate
login_rate key now d =
    let until = blocked_until_of (lookup key d.login_attempts) in
    record { blocked = ltb now until; retry_after_seconds = seconds (until - now) }

-- The window of the last failure is over, or the failure is the first.
unfoldable pub starts_window : ℕ → Option Attempt → Bool
starts_window now none = true
starts_window now (some a) = ltb window_ms (now - a.window_start)

abbrev pub next_failures : Option Attempt → ℕ
next_failures none = 1
next_failures (some a) = suc a.failures

abbrev pub window_of : ℕ → Option Attempt → ℕ
window_of now none = now
window_of now (some a) = a.window_start

unfoldable pub next_attempt : ℕ → Option Attempt → Attempt
unfolding starts_window
next_attempt now previous =
    let failures = if starts_window now previous then 1 else next_failures previous in
    record {
      window_start = if starts_window now previous then now else window_of now previous;
      failures = failures;
      blocked_until = if leb 5 failures then now + window_ms else 0;
    }

unfoldable pub record_login_failure : String → ℕ → PbxDatabase → PbxDatabase
unfolding next_attempt
record_login_failure key now d = record d {
  login_attempts = set key (next_attempt now (lookup key d.login_attempts)) d.login_attempts;
}

unfoldable pub remove : {A : Type 0} → String → Entries A → Entries A
remove key [] = []
remove key ((k, a) ∷ rest) = let kept = remove key rest in if k == key then kept else (k, a) ∷ kept

unfoldable pub clear_login_failures : String → PbxDatabase → PbxDatabase
unfolding remove
clear_login_failures key d = record d { login_attempts = remove key d.login_attempts }
