-- ===== src/Auth/Throttle.antt =====
-- interfaces/http/security/redis-auth-security.store.ts, the two scripts of
-- infrastructure/redis/scripts.ts that it calls, and the guards of
-- interfaces/http/routes/auth/login.route.ts. A key of Redis is a hash with the time at which it
-- expires; `clock` is Redis's own time, `now_ms` the caller's. The scripts write all three fields
-- of a hash at once, so a hash that exists has them.
pub mod Lockout
pub mod Window
pub mod Logins
use mathlib.Core.Bool.{Bool}
use wildfire.Base.{
  ℕ, ◌+◌, ◌-◌, ◌*◌, ◌/◌, String, ◌==◌, true, false, not, Option, none, some, ltb, leb, max, or_else,
  if◌then◌else◌, Result, ok, err, Error, validation, not_found, forbidden, invalid_credentials,
  fault,
}
use wildfire.Redis.{Keys, put, live}
use wildfire.Schedule.{◌+++◌}

pub record Attempts : Type 0 where
  pub first_attempt_at_ms : ℕ
  pub attempt_count : ℕ
  pub locked_until_ms : Option ℕ
  pub expires_at : ℕ

pub record SecurityStore : Type 0 where
  pub login_attempts : Keys Attempts
  pub endpoint_attempts : Keys Attempts

abbrev pub if_live : ℕ → Option Attempts → Option Attempts
if_live clock hash = live (λ h. h.expires_at) clock hash

abbrev pub ceil_seconds : ℕ → ℕ
ceil_seconds ms = (ms + 999) / 1000

abbrev pub sanitize_ttl_ms : ℕ → ℕ
sanitize_ttl_ms value = max 1000 value

pub record LoginLimits : Type 0 where
  pub window_seconds : ℕ
  pub lockout_threshold : ℕ
  pub lockout_seconds : ℕ

abbrev pub locked_until : Option Attempts → Option ℕ
locked_until none = none
locked_until (some h) = h.locked_until_ms

-- Whether a login is allowed, and after how many seconds to retry where it is not.
unfoldable pub check_login_allowed : String → ℕ → ℕ → SecurityStore → Bool × Option ℕ
check_login_allowed key clock now_ms st =
    elim (locked_until (if_live clock (st.login_attempts key))) [
      | none ↦ (true, none)
      | some until ↦
          if leb until now_ms
          then (true, none)
          else (false, some (max 1 (ceil_seconds (until - now_ms))))
    ]

-- The first attempt of the window, the attempts before this one, and the lock, as the script
-- starts: a window that is over starts again.
unfoldable pub window_start : ℕ → ℕ → Option Attempts → ℕ × ℕ × Option ℕ
window_start now_ms window_ms none = (now_ms, 0, none)
window_start now_ms window_ms (some h) =
    if ltb window_ms (now_ms - h.first_attempt_at_ms)
    then (now_ms, 0, none)
    else (h.first_attempt_at_ms, h.attempt_count, h.locked_until_ms)

unfoldable pub failure_hash : LoginLimits → ℕ → ℕ → Option Attempts → Attempts
failure_hash limits clock now_ms hash =
    let window_ms = limits.window_seconds * 1000 in
    let lockout_ms = limits.lockout_seconds * 1000 in
    let (first, count, locked) = window_start now_ms window_ms hash in
    record {
      first_attempt_at_ms = first;
      attempt_count = count + 1;
      locked_until_ms =
          if leb limits.lockout_threshold (count + 1) then some (now_ms + lockout_ms) else locked;
      expires_at = clock + sanitize_ttl_ms (max window_ms lockout_ms * 2);
    }

unfoldable pub register_login_failure : LoginLimits → String → ℕ → ℕ → SecurityStore → SecurityStore
register_login_failure limits key clock now_ms st = record st {
  login_attempts =
      put key (some (failure_hash limits clock now_ms (if_live clock (st.login_attempts key))))
        st.login_attempts;
}

unfoldable pub clear_login_failures : String → SecurityStore → SecurityStore
clear_login_failures key st = record st { login_attempts = put key none st.login_attempts }

unfoldable pub endpoint_hash : ℕ → ℕ → ℕ → Option Attempts → Attempts
endpoint_hash window_seconds clock now_ms hash =
    let window_ms = window_seconds * 1000 in
    let (first, count, _) = window_start now_ms window_ms hash in
    record {
      first_attempt_at_ms = first;
      attempt_count = count + 1;
      locked_until_ms = none;
      expires_at = clock + sanitize_ttl_ms (window_ms * 2);
    }

pub record Stats : Type 0 where
  pub allowed : Bool
  pub limit : ℕ
  pub remaining : ℕ
  pub retry_after_seconds : ℕ
  pub reset_epoch_seconds : ℕ

abbrev stats_of : ℕ → ℕ → ℕ → Attempts → Stats
stats_of window_seconds max_attempts now_ms h =
    let reset = h.first_attempt_at_ms + window_seconds * 1000 in
    record {
      allowed = leb h.attempt_count max_attempts;
      limit = max_attempts;
      remaining = max_attempts - h.attempt_count;
      retry_after_seconds = max 1 (ceil_seconds (reset - now_ms));
      reset_epoch_seconds = ceil_seconds reset;
    }

unfoldable pub consume_endpoint_attempt_with_stats :
    String → ℕ → ℕ → ℕ → ℕ → SecurityStore → Stats × SecurityStore
consume_endpoint_attempt_with_stats key window_seconds max_attempts clock now_ms st =
    let h = endpoint_hash window_seconds clock now_ms (if_live clock (st.endpoint_attempts key)) in
    (
      stats_of window_seconds max_attempts now_ms h,
      record st { endpoint_attempts = put key (some h) st.endpoint_attempts },
    )

unfoldable pub consume_endpoint_attempt :
    String → ℕ → ℕ → ℕ → ℕ → SecurityStore → Bool × SecurityStore
consume_endpoint_attempt key window_seconds max_attempts clock now_ms st =
    let (stats, st') =
      consume_endpoint_attempt_with_stats key window_seconds max_attempts clock now_ms st in
    (stats.allowed, st')

-- What the route sends: 429 with a message, or what the use case gave.
pub data LoginAnswer (A : Type 0) : Type 0 where
  too_many_requests : String → LoginAnswer A
  answered : Result A → LoginAnswer A

abbrev after_authentication :
    {A : Type 0} → LoginLimits → String → ℕ → ℕ → Result A → SecurityStore → SecurityStore
after_authentication limits key clock now_ms (ok a) st = clear_login_failures key st
after_authentication limits key clock now_ms (err (invalid_credentials m)) st =
    register_login_failure limits key clock now_ms st
after_authentication limits key clock now_ms (err e) st = st

-- `outcome` is what the use case would give; `username` is trimmed and in lower case.
unfoldable pub handle_login :
    {A : Type 0}
    → LoginLimits
    → ℕ
    → ℕ
    → ℕ
    → String
    → String
    → Result A
    → SecurityStore
    → LoginAnswer A × SecurityStore
handle_login limits max_attempts clock now_ms username ip outcome st =
    let key = username +++ "|" +++ ip in
    if not (check_login_allowed key clock now_ms st).0
    then (too_many_requests "Too many failed login attempts. Try again later.", st)
    else (let (by_username, st1) =
          consume_endpoint_attempt ("login-username|" +++ username) limits.window_seconds 10 clock
            now_ms st in
        if not by_username
        then (too_many_requests "Too many login attempts for this account. Try again later.", st1)
        else (let (by_ip, st2) =
              consume_endpoint_attempt ("login-window|" +++ ip) limits.window_seconds max_attempts
                clock now_ms st1 in
            if not by_ip
            then (too_many_requests "Too many login requests. Try again later.", st2)
            else (answered outcome, after_authentication limits key clock now_ms outcome st2)))
