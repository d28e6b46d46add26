-- ===== src/Auth/Throttle/Lockout.antt =====
-- A series of failed logins against the lock that it leads to.
use wildfire.Base.{
  ℕ, ◌+◌, ◌*◌, ◌≤◌, ◌<◌, ◌≡◌, refl, ap, ◌∙◌, false, not, ◌&&◌, String, eq_refl, none, some, List,
  [], ◌∷◌, suc, max, length, ltb, leb, arith, if◌then◌else◌, Result,
}
use wildfire.Schedule.{◌+++◌}
use wildfire.Auth.Throttle.{
  Attempts, SecurityStore, LoginLimits, if_live, check_login_allowed, window_start, failure_hash,
  register_login_failure, sanitize_ttl_ms, handle_login, too_many_requests,
}

-- Failures one after the other, by a clock that Redis and the server share.
abbrev pub fail_all : LoginLimits → String → List ℕ → SecurityStore → SecurityStore
fail_all limits key [] st = st
fail_all limits key (t ∷ ts) st = fail_all limits key ts (register_login_failure limits key t t st)

-- Times in order, none later than `until`.
abbrev pub InOrder : ℕ → ℕ → List ℕ → Type 0
InOrder from until [] = Unit
InOrder from until (t ∷ ts) = (from ≤ t) × (t ≤ until) × InOrder t until ts

abbrev pub last_of : ℕ → List ℕ → ℕ
last_of t [] = t
last_of t (u ∷ ts) = last_of u ts

-- The hash after a number of failures in one window.
abbrev pub failures : LoginLimits → ℕ → ℕ → ℕ → Attempts
failures limits first count last = record {
  first_attempt_at_ms = first;
  attempt_count = count;
  locked_until_ms =
      if leb limits.lockout_threshold count
      then some (last + limits.lockout_seconds * 1000)
      else none;
  expires_at =
      last
      + sanitize_ttl_ms (max (limits.window_seconds * 1000) (limits.lockout_seconds * 1000) * 2);
}

-- One more failure in the window.
failure_hash-again :
    (limits : LoginLimits) (first count last t : ℕ)
    → first ≤ last
    → last ≤ t
    → t ≤ first + limits.window_seconds * 1000
    → failure_hash limits t t (if_live t (some (failures limits first count last)))
      ≡ failures limits first (suc count) t
unfolding failure_hash window_start
failure_hash-again limits first count last t a b c = ground arith

fail_all-failures :
    (limits : LoginLimits) (key : String) (first count last : ℕ) (ts : List ℕ) (st : SecurityStore)
    → first ≤ last
    → st.login_attempts key ≡ some (failures limits first count last)
    → InOrder last (first + limits.window_seconds * 1000) ts
    → (fail_all limits key ts st).login_attempts key
      ≡ some (failures limits first (count + length ts) (last_of last ts))
unfolding register_login_failure
fail_all-failures limits key first count last [] st a h o =
    rw h (ap (λ n. some (failures limits first n last)) (omega arith))
fail_all-failures limits key first count last (t ∷ ts) st a h o =
    fail_all-failures limits key first (suc count) t ts (register_login_failure limits key t t st)
      (omega arith) step o.2
    ∙ ap (λ n. some (failures limits first n (last_of t ts))) (omega arith)
  where
    step :
        (register_login_failure limits key t t st).login_attempts key
        ≡ some (failures limits first (suc count) t)
    step = rw (eq_refl key, h) (ap some (failure_hash-again limits first count last t a o.0 o.1))

failure_hash-first :
    (limits : LoginLimits) (t : ℕ) → failure_hash limits t t none ≡ failures limits t 1 t
unfolding failure_hash window_start
failure_hash-first limits t = refl

first_failure :
    (limits : LoginLimits) (key : String) (t : ℕ) (st : SecurityStore)
    → if_live t (st.login_attempts key) ≡ none
    → (register_login_failure limits key t t st).login_attempts key ≡ some (failures limits t 1 t)
unfolding register_login_failure
first_failure limits key t st h = rw (eq_refl key, h) (ap some (failure_hash-first limits t))

check-failures :
    (limits : LoginLimits) (key : String) (first count last c : ℕ) (st : SecurityStore)
    → last ≤ c
    → st.login_attempts key ≡ some (failures limits first count last)
    → (check_login_allowed key c c st).0
      ≡ not (leb limits.lockout_threshold count && ltb c (last + limits.lockout_seconds * 1000))
unfolding check_login_allowed
check-failures limits key first count last c st a h = rw (h, check_login_allowed) (ground arith)

-- After failures in one window, the first of which found no earlier ones, a login is refused
-- exactly while there were as many as the threshold says and the lock of the last one lasts.
pub check_login_allowed_after_failures :
    (limits : LoginLimits) (key : String) (t : ℕ) (ts : List ℕ) (c : ℕ) (st : SecurityStore)
    → if_live t (st.login_attempts key) ≡ none
    → InOrder t (t + limits.window_seconds * 1000) ts
    → last_of t ts ≤ c
    → (check_login_allowed key c c (fail_all limits key (t ∷ ts) st)).0
      ≡ not (
          leb limits.lockout_threshold (suc (length ts))
          && ltb c (last_of t ts + limits.lockout_seconds * 1000))
check_login_allowed_after_failures limits key t ts c st fresh o late =
    check-failures limits key t (suc (length ts)) (last_of t ts) c _ late (
      fail_all-failures limits key t 1 t ts (register_login_failure limits key t t st) (omega arith)
        (first_failure limits key t st fresh) o
      ∙ ap (λ n. some (failures limits t n (last_of t ts))) (omega arith))

refused :
    {A : Type 0} (limits : LoginLimits) (max_attempts c : ℕ) (username ip : String)
    (outcome : Result A) (st : SecurityStore)
    → (check_login_allowed (username +++ "|" +++ ip) c c st).0 ≡ false
    → handle_login limits max_attempts c c username ip outcome st
      ≡ (too_many_requests "Too many failed login attempts. Try again later.", st)
unfolding handle_login
refused limits max_attempts c username ip outcome st h = rw h refl

-- As many failures of one name and address as the threshold says lock the login: until the lock
-- ends, right credentials are refused like wrong ones, and no counter moves.
pub handle_login_locked :
    {A : Type 0} (limits : LoginLimits) (max_attempts : ℕ) (username ip : String)
    (outcome : Result A) (t : ℕ) (ts : List ℕ) (c : ℕ) (st : SecurityStore)
    → if_live t (st.login_attempts (username +++ "|" +++ ip)) ≡ none
    → InOrder t (t + limits.window_seconds * 1000) ts
    → limits.lockout_threshold ≤ suc (length ts)
    → last_of t ts ≤ c
    → c < last_of t ts + limits.lockout_seconds * 1000
    → handle_login limits max_attempts c c username ip outcome
        (fail_all limits (username +++ "|" +++ ip) (t ∷ ts) st)
      ≡ (
        too_many_requests "Too many failed login attempts. Try again later.",
        fail_all limits (username +++ "|" +++ ip) (t ∷ ts) st,
      )
handle_login_locked limits max_attempts username ip outcome t ts c st fresh o enough late early =
    refused limits max_attempts c username ip outcome _ (
      check_login_allowed_after_failures limits (username +++ "|" +++ ip) t ts c st fresh o late
      ∙ ground arith)
