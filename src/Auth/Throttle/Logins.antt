-- ===== src/Auth/Throttle/Logins.antt =====
-- A series of logins of one name at login.route.ts, from any address, against the limit that the
-- route sets for a name.
use text.Mathlib.TextLemmas.{cons-append, append_assoc, append_cancel_left, head-eq_of_cons-eq}
use Prim.Native.Char.{Char, code}
use wildfire.Base.{
  ℕ, ◌+◌, ◌-◌, ◌*◌, ◌≤◌, ◌≡◌, ◌≢◌, refl, ap, sym, ◌∙◌, ◌⊎◌, inl, inr, false, not, String, ◌==◌,
  eq_iff, none, some, List, [], ◌∷◌, suc, arith, if◌then◌else◌, Bool-cases, Result, ok, err, Error,
  invalid_credentials,
}
use wildfire.Schedule.{◌+++◌}
use wildfire.Auth.Throttle.{
  SecurityStore, LoginLimits, LoginAnswer, too_many_requests, answered, check_login_allowed,
  consume_endpoint_attempt, consume_endpoint_attempt_with_stats, handle_login, after_authentication,
  register_login_failure, clear_login_failures,
}
use wildfire.Auth.Throttle.Window.{attempts, endpoint_hash-again, endpoint_hash-first, consume-hash}

-- The address, the time, and what the use case would give.
pub record Login (A : Type 0) : Type 0 where
  pub ip : String
  pub at : ℕ
  pub outcome : Result A

abbrev reached : {A : Type 0} → LoginAnswer A → ℕ
reached (too_many_requests m) = 0
reached (answered r) = 1

-- How many of the logins come to the use case.
abbrev pub count_authenticated :
    {A : Type 0} → LoginLimits → ℕ → String → List (Login A) → SecurityStore → ℕ
count_authenticated limits max_attempts username [] st = 0
count_authenticated limits max_attempts username (l ∷ ls) st =
    let (answer, st') = handle_login limits max_attempts l.at l.at username l.ip l.outcome st in
    reached answer + count_authenticated limits max_attempts username ls st'

-- In order from a time, and none later than another.
abbrev pub InWindow : {A : Type 0} → ℕ → ℕ → List (Login A) → Type 0
InWindow from until [] = Unit
InWindow from until (l ∷ ls) = (from ≤ l.at) × (l.at ≤ until) × InWindow l.at until ls

keys_differ : (ip username : String) → ("login-window|" +++ ip) ≢ ("login-username|" +++ username)
keys_differ ip username e =
    let tails : ("window|" +++ ip) ≡ ("username|" +++ username) =
      append_cancel_left "login-" ("window|" +++ ip) ("username|" +++ username) (
        sym (append_assoc "login-" "window|" ip)
        ∙ e
        ∙ append_assoc "login-" "username|" username) in
    let heads : Path Char "w" "u" =
      head-eq_of_cons-eq
        (sym (cons-append "w" "indow|" ip) ∙ tails ∙ cons-append "u" "sername|" username) in
    let numbers : Path ℕ 119 117 = ap code heads in omega arith

abbrev by_username : String → String
by_username username = "login-username|" +++ username

consume-other :
    (k key : String) (window max_attempts t : ℕ) (st : SecurityStore)
    → (k == key) ≡ false
    → (consume_endpoint_attempt key window max_attempts t t st).1.endpoint_attempts k
      ≡ st.endpoint_attempts k
unfolding consume_endpoint_attempt consume_endpoint_attempt_with_stats
consume-other k key window max_attempts t st e = rw e refl

after_authentication-endpoints :
    {A : Type 0} (limits : LoginLimits) (key : String) (t : ℕ) (outcome : Result A)
    (st : SecurityStore)
    → (after_authentication limits key t t outcome st).endpoint_attempts ≡ st.endpoint_attempts
unfolding register_login_failure clear_login_failures
after_authentication-endpoints limits key t (ok a) st = refl
after_authentication-endpoints limits key t (err (invalid_credentials m)) st = refl
after_authentication-endpoints limits key t (err (Error.validation m)) st = refl
after_authentication-endpoints limits key t (err (Error.not_found m)) st = refl
after_authentication-endpoints limits key t (err (Error.forbidden m)) st = refl
after_authentication-endpoints limits key t (err (Error.fault m)) st = refl
after_authentication-endpoints limits key t (err (Error.window_too_short n)) st = refl
after_authentication-endpoints limits key t (err (Error.schedule_conflict l)) st = refl
after_authentication-endpoints limits key t (err (Error.playlist_in_use l)) st = refl

-- A login is refused by the lock and counts nowhere, or it is counted once under its name and
-- comes to the use case only if that count allows it.
handle_login-counted :
    {A : Type 0} (limits : LoginLimits) (max_attempts t : ℕ) (username ip : String)
    (outcome : Result A) (st : SecurityStore)
    → ((handle_login limits max_attempts t t username ip outcome st).1.endpoint_attempts
            (by_username username)
          ≡ st.endpoint_attempts (by_username username))
        × (reached (handle_login limits max_attempts t t username ip outcome st).0 ≡ 0)
      ⊎ ((handle_login limits max_attempts t t username ip outcome st).1.endpoint_attempts
            (by_username username)
          ≡ (consume_endpoint_attempt
                (by_username username)
                limits.window_seconds
                10
                t
                t
                st).1.endpoint_attempts
              (by_username username))
        × (reached (handle_login limits max_attempts t t username ip outcome st).0 ≤ (
            if (consume_endpoint_attempt (by_username username) limits.window_seconds 10 t t st).0
            then 1
            else 0))
unfolding handle_login
handle_login-counted {A} limits max_attempts t username ip outcome st =
    elim (Bool-cases (check_login_allowed (username +++ "|" +++ ip) t t st).0) [
      | inr e ↦ rw e (inl (refl, refl))
      | inl e ↦
          rw e
            (elim (Bool-cases
              (consume_endpoint_attempt (by_username username) limits.window_seconds 10 t t st).0) [
                | inr f ↦ rw f (inr (refl, omega arith))
                | inl f ↦ rw f (
                    inr (
                      counted
                        (consume_endpoint_attempt (by_username username) limits.window_seconds 10 t
                          t st).1))
              ])
    ]
  where
    last_step : SecurityStore → LoginAnswer A × SecurityStore
    last_step st1 =
        let (allowed, st2) =
          consume_endpoint_attempt ("login-window|" +++ ip) limits.window_seconds max_attempts t t
            st1 in
        if not allowed
        then (too_many_requests "Too many login requests. Try again later.", st2)
        else (
          answered outcome,
          after_authentication limits (username +++ "|" +++ ip) t t outcome st2,
        )

    counted :
        (st1 : SecurityStore)
        → ((last_step st1).1.endpoint_attempts (by_username username)
            ≡ st1.endpoint_attempts (by_username username))
          × (reached (last_step st1).0 ≤ 1)
    counted st1 =
        let other =
          consume-other (by_username username) ("login-window|" +++ ip) limits.window_seconds
            max_attempts t st1 distinct in
        elim (Bool-cases
          (consume_endpoint_attempt ("login-window|" +++ ip) limits.window_seconds max_attempts t t
            st1).0) [
              | inr e ↦ rw e (other, omega arith)
              | inl e ↦ rw e (
                ap (λ f. f (by_username username))
                      (after_authentication-endpoints limits (username +++ "|" +++ ip) t outcome
                        (consume_endpoint_attempt ("login-window|" +++ ip) limits.window_seconds
                          max_attempts t t st1).1)
                    ∙ other,
                omega arith,
              )
            ]
      where
        distinct : (by_username username == ("login-window|" +++ ip)) ≡ false
        distinct = elim (Bool-cases (by_username username == ("login-window|" +++ ip))) [
          | inl e ↦ absurd (
              keys_differ ip username
                (sym ((eq_iff (by_username username) ("login-window|" +++ ip)).0 e)))
          | inr e ↦ e
        ]

InWindow-weaken :
    {A : Type 0} (from from' until until' : ℕ) (ls : List (Login A))
    → from' ≤ from
    → until ≤ until'
    → InWindow from until ls
    → InWindow from' until' ls
InWindow-weaken from from' until until' [] a b h = tt
InWindow-weaken from from' until until' (l ∷ ls) a b h = (
  omega (arith, h.0),
  omega (arith, h.1),
  InWindow-weaken l.at l.at until until' ls (omega arith) b h.2,
)

module _ {A : Type 0} (limits : LoginLimits) (max_attempts : ℕ) (username : String) where
  counted_bound :
      (first count last : ℕ) (ls : List (Login A)) (st : SecurityStore)
      → first ≤ last
      → st.endpoint_attempts (by_username username)
        ≡ some (attempts limits.window_seconds first count last)
      → InWindow last (first + limits.window_seconds * 1000) ls
      → count_authenticated limits max_attempts username ls st ≤ 10 - count
  counted_bound first count last [] st a h w = omega arith
  counted_bound first count last (l ∷ ls) st a h w =
      let st' = (handle_login limits max_attempts l.at l.at username l.ip l.outcome st).1 in
      elim (handle_login-counted limits max_attempts l.at username l.ip l.outcome st) [
        | inl (same, none_reached) ↦
            let rest =
              counted_bound first count last ls st' a (same ∙ h)
                (InWindow-weaken l.at last _ _ ls w.0 (omega arith) w.2) in
            omega (arith, none_reached, rest)
        | inr (same, most) ↦
            let (allowed, hash) =
              consume-hash (by_username username) limits.window_seconds 10 l.at st
                (attempts limits.window_seconds first (suc count) l.at)
                (rw h
                  (endpoint_hash-again limits.window_seconds first count last l.at a w.0 w.1)) in
            let rest =
              counted_bound first (suc count) l.at ls st' (omega (arith, w.0)) (same ∙ hash) w.2 in
            let most' = rw allowed at most in ground (arith, most', rest)
      ]

  bound_from :
      (start from : ℕ) (ls : List (Login A)) (st : SecurityStore)
      → start ≤ from
      → st.endpoint_attempts (by_username username) ≡ none
      → InWindow from (start + limits.window_seconds * 1000) ls
      → count_authenticated limits max_attempts username ls st ≤ 10
  bound_from start from [] st a h w = omega arith
  bound_from start from (l ∷ ls) st a h w =
      let st' = (handle_login limits max_attempts l.at l.at username l.ip l.outcome st).1 in
      elim (handle_login-counted limits max_attempts l.at username l.ip l.outcome st) [
        | inl (same, none_reached) ↦
            let rest = bound_from start l.at ls st' (omega (arith, w.0)) (same ∙ h) w.2 in
            omega (arith, none_reached, rest)
        | inr (same, most) ↦
            let (allowed, hash) =
              consume-hash (by_username username) limits.window_seconds 10 l.at st
                (attempts limits.window_seconds l.at 1 l.at)
                (rw h (endpoint_hash-first limits.window_seconds l.at none (inl refl))) in
            let rest = counted_bound l.at 1 l.at ls st' (omega arith) (same ∙ hash) (
              InWindow-weaken l.at l.at (start + limits.window_seconds * 1000) _ ls (omega arith)
                (omega (arith, w.0)) w.2) in
            let most' = rw allowed at most in omega (arith, most', rest)
      ]

  -- Of the logins of one name in a window at whose start the name has no hash, from whatever
  -- addresses and whatever their outcomes, at most ten come to the use case.
  pub logins_bound :
      (start : ℕ) (ls : List (Login A)) (st : SecurityStore)
      → st.endpoint_attempts (by_username username) ≡ none
      → InWindow start (start + limits.window_seconds * 1000) ls
      → count_authenticated limits max_attempts username ls st ≤ 10
  logins_bound start ls st h w = bound_from start start ls st (omega arith) h w
