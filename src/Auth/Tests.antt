-- ===== src/Auth/Tests.antt =====
-- Runs of the theorems on tokens, sessions and limits.
use wildfire.Base.{
  some-injective, none≢some, ◌+◌, ◌*◌, ◌≤◌, ◌<◌, ◌≡◌, inl, refl, true, false, not, ◌&&◌, String,
  ◌==◌, none, some, List, [], ◌∷◌, ltb, leb, filter, arith, ok, err, guard, or_throw, ◌>>=◌, trim,
  differs, min,
}
use wildfire.Schedule.{◌+++◌}
use wildfire.Auth.Tokens.{split_dot, build_refresh_token_value, parse_refresh_token_value}
use wildfire.Auth.Sessions.{AuthSession}
use wildfire.Auth.Refresh.{admitted_user, refresh_read, refresh_session}
use wildfire.Auth.Rotating.{
  AuthUser, RefreshDeps, RefreshInput, RefreshResult, Moment, AuthState, presented, in_grace,
  now_ms, refresh_expires_at, denied,
}
use wildfire.Auth.Refresh.Families.{
  refresh_session-rotates, refresh_session-revokes, refresh_session-replay, refresh_read-raced,
}
use wildfire.Auth.Throttle.{
  SecurityStore, LoginLimits, check_login_allowed, handle_login, too_many_requests,
}
use wildfire.Auth.Throttle.Lockout.{
  fail_all, check_login_allowed_after_failures, handle_login_locked,
}
use wildfire.Auth.Throttle.Window.{count_allowed, count_allowed_in_window}
use wildfire.Auth.Throttle.Logins.{Login, count_authenticated, logins_bound}

-- The hash is a text in front: no two secrets have the same.
abbrev deps : RefreshDeps
deps = record {
  hash = λ s. "h" +++ s;
  issue_token = λ c. c.user.id;
  token_ttl = 900;
  refresh_token_ttl = some 3600;
  grace_window = 10;
  issuer = none;
  authorization = none;
  has_cache = false;
}

abbrev user : AuthUser
user = record {
  id = "u1";
  username = "ann";
  email = none;
  name = "Ann";
  timezone = none;
  avatar_key = none;
  invited_at = none;
  is_active = true;
  banned_at = none;
  last_seen_at = none;
}

abbrev session : AuthSession
session = record {
  id = "s1";
  user_id = "u1";
  family_id = "f1";
  current_jti = "ha";
  previous_jti = none;
  previous_jti_expires_at = none;
  expires_at = 2000000;
}

abbrev state : AuthState
state = record { sessions = session ∷ []; users = user ∷ []; cache = [] }

-- By the token's secret, which the hash is of.
abbrev with_secret : String → RefreshInput
with_secret s = record {
  refresh_token = some ("s1." +++ s);
  current_session_id = none;
  current_jti = none;
  skip_rotation = false;
}

abbrev at : Moment
at = record { issued_at = 1000; wall = 1000000; secret = "b" }

abbrev soon : Moment
soon = record { issued_at = 1005; wall = 1005000; secret = "c" }

abbrev after : AuthState
after = record {
  sessions = (refresh_session deps (with_secret "a") at state).1.sessions;
  users = user ∷ [];
  cache = [];
}

refresh_session-rotates_example :
    (r : RefreshResult) × ((refresh_session deps (with_secret "a") at state).0 ≡ ok r)
    × (r.refresh_token ≡ some (build_refresh_token_value "s1" "b", refresh_expires_at deps at))
    × ((refresh_session deps (with_secret "a") at state).1.sessions
        ≡ record session {
          current_jti = "hb";
          previous_jti = some "ha";
          previous_jti_expires_at = some (at.issued_at * 1000 + 10 * 1000);
          expires_at = refresh_expires_at deps at * 1000;
        }
          ∷ [])
unfolding presented parse_refresh_token_value split_dot trim admitted_user or_throw guard ◌>>=◌
refresh_session-rotates_example =
    refresh_session-rotates deps (with_secret "a") at state session refl refl (omega arith)
      {u = user} refl refl

refresh_session-revokes_example :
    ((refresh_session deps (with_secret "z") at state).0 ≡ err denied)
    × ((refresh_session deps (with_secret "z") at state).1.sessions
        ≡ filter (λ x. not (x.family_id == "f1")) (session ∷ []))
unfolding presented parse_refresh_token_value split_dot trim in_grace
refresh_session-revokes_example =
    refresh_session-revokes deps (with_secret "z") at state session refl refl (omega arith)
      (some "hz") refl (λ e. differs "hz" "ha" refl (some-injective e))
      (λ old end e p h. absurd (none≢some p))

refresh_session-replay_example :
    (now_ms soon < now_ms at + 10 * 1000
      → (r : RefreshResult) × ((refresh_session deps (with_secret "a") soon after).0 ≡ ok r)
        × (r.refresh_token ≡ none)
        × ((refresh_session deps (with_secret "a") soon after).1.sessions ≡ after.sessions))
    × (now_ms at + 10 * 1000 ≤ now_ms soon
        → ((refresh_session deps (with_secret "a") soon after).0 ≡ err denied)
          × ((refresh_session deps (with_secret "a") soon after).1.sessions
              ≡ filter (λ x. not (x.family_id == "f1")) after.sessions))
unfolding presented parse_refresh_token_value split_dot trim admitted_user or_throw guard ◌>>=◌
refresh_session-replay_example =
    refresh_session-replay deps (with_secret "a") (with_secret "a") at soon state after session
      {u = user} {u' = user} refl refl refl (omega arith) refl refl refl refl
      (differs "ha" "hb" refl) (omega arith) refl

abbrev after_first : AuthState
after_first = record {
  sessions = (refresh_read deps (with_secret "a") at (some "ha") session state).1.sessions;
  users = user ∷ [];
  cache = [];
}

refresh_read-raced_example :
    (r : RefreshResult) × ((refresh_read deps
        (with_secret "a")
        soon
        (some "ha")
        session
        after_first).0
      ≡ ok r)
    × (r.refresh_token ≡ none)
    × ((refresh_read deps (with_secret "a") soon (some "ha") session after_first).1.sessions
        ≡ after_first.sessions)
unfolding admitted_user or_throw guard ◌>>=◌
refresh_read-raced_example =
    refresh_read-raced deps (with_secret "a") (with_secret "a") at soon state after_first session
      {u = user} refl refl refl refl (differs "ha" "hb" refl) (omega arith) (omega arith) refl

abbrev limits : LoginLimits
limits = record { window_seconds = 60; lockout_threshold = 2; lockout_seconds = 30 }

abbrev nobody : SecurityStore
nobody = record { login_attempts = λ _. none; endpoint_attempts = λ _. none }

check_login_allowed_after_failures_example :
    (check_login_allowed "ann|ip" 3000 3000 (fail_all limits "ann|ip" (1000 ∷ 2000 ∷ []) nobody)).0
    ≡ not (leb 2 2 && ltb 3000 (2000 + 30 * 1000))
check_login_allowed_after_failures_example =
    check_login_allowed_after_failures limits "ann|ip" 1000 (2000 ∷ []) 3000 nobody refl
      (omega arith, omega arith, tt) (omega arith)

handle_login_locked_example :
    handle_login limits 5 3000 3000 "ann" "ip"
      (ok user)
      (fail_all limits "ann|ip" (1000 ∷ 2000 ∷ []) nobody)
    ≡ (
      too_many_requests "Too many failed login attempts. Try again later.",
      fail_all limits "ann|ip" (1000 ∷ 2000 ∷ []) nobody,
    )
handle_login_locked_example =
    handle_login_locked limits 5 "ann" "ip" (ok user) 1000 (2000 ∷ []) 3000 nobody refl
      (omega arith, omega arith, tt) (omega arith) (omega arith) (omega arith)

count_allowed_in_window_example : count_allowed "k" 60 2 (1000 ∷ 1500 ∷ 2000 ∷ []) nobody ≡ min 2 3
count_allowed_in_window_example =
    count_allowed_in_window "k" 60 2 1000 (1500 ∷ 2000 ∷ []) nobody (inl refl)
      (omega arith, omega arith, (omega arith, omega arith, tt))

-- The right password from two addresses, and a wrong one between.
abbrev logins : List (Login AuthUser)
logins =
    record { ip = "ip"; at = 1000; outcome = ok user }
    ∷ record { ip = "ip"; at = 1500; outcome = err denied }
    ∷ record { ip = "other"; at = 2000; outcome = ok user }
    ∷ []

logins_bound_example : count_authenticated limits 5 "ann" logins nobody ≤ 10
logins_bound_example =
    logins_bound limits 5 "ann" 1000 logins nobody refl
      (omega arith, omega arith, (omega arith, omega arith, (omega arith, omega arith, tt)))
