-- ===== src/Auth/Refresh.antt =====
-- application/use-cases/auth/refresh-session.use-case.ts
pub mod Replay
pub mod Families
use mathlib.Core.Bool.{Bool}
use wildfire.Base.{
  ℕ, ◌+◌, ◌*◌, ◌-◌, String, ◌==◌, true, false, not, ◌&&◌, ◌||◌, Option, none, some, List, [], ◌∷◌,
  map, find, ltb, or_else, truthy, if◌then◌else◌, Result, ok, err, invalid_credentials, Error,
  ◌>>=◌, ◌>>◌, guard, or_throw,
}
use wildfire.Auth.Tokens.{build_refresh_token_value, parse_refresh_token_value}
use wildfire.Auth.Sessions.{
  AuthSession, Rotation, find_by_session_id, update_current_jti_optimistic, revoke_by_family_id,
}
use wildfire.Auth.Rotating.{
  denied, presented, now_ms, refresh_expires_at, rotate, AuthUser, Identity, RefreshDeps,
  RefreshInput, Moment, AuthState, RefreshResult,
}

abbrev require_no_ban : Option String → Result (Unit {0})
require_no_ban none = ok tt
require_no_ban (some _) =
    err (invalid_credentials "Your account has been suspended. Please contact your administrator.")

unfoldable pub admitted_user : String → List AuthUser → Result AuthUser
admitted_user id users = do
  user ← or_throw (find (λ u. u.id == id) users) denied
  guard user.is_active (
      invalid_credentials
        "Your account is currently deactivated. Please contact your administrator.")
  require_no_ban user.banned_at
  ok user

-- At most one write in five minutes.
unfoldable pub touch_last_seen : ℕ → AuthUser → List AuthUser → AuthUser × List AuthUser
touch_last_seen now user users =
    if ltb (300000 + or_else user.last_seen_at 0) now
    then (let seen : AuthUser = record user { last_seen_at = some now } in
        (
          seen,
          map (λ u. if u.id == user.id then record u { last_seen_at = some now } else u) users,
        ))
    else (user, users)

abbrev cached : Bool → String → List (String × Identity) → Option (String × Identity)
cached has_cache id cache = if has_cache then find (λ e. e.0 == id) cache else none

unfoldable pub identity_of :
    RefreshDeps → String → List (String × Identity) → Identity × List (String × Identity)
identity_of deps id cache = elim deps.authorization [
  | none ↦ (record { is_admin = false; permissions = [] }, cache)
  | some lookup ↦ elim (cached deps.has_cache id cache) [
    | some entry ↦ (entry.1, cache)
    | none ↦ (lookup id, if deps.has_cache then (id, lookup id) ∷ cache else cache)
  ]
]

-- What follows the branches on the hash.
unfoldable pub answer :
    RefreshDeps
    → RefreshInput
    → Moment
    → AuthSession
    → Bool
    → AuthState
    → Result RefreshResult × AuthState
answer deps input at s grace_hit st = elim (admitted_user s.user_id st.users) [
  | err e ↦ (err e, st)
  | ok found ↦
      let (user, users) = touch_last_seen (now_ms at) found st.users in
      let (identity, cache) = identity_of deps user.id st.cache in
      let expires_at = at.issued_at + deps.token_ttl in
      (
        ok (record {
          access_token = deps.issue_token (record {
            user = user;
            identity = identity;
            issued_at = at.issued_at;
            expires_at = expires_at;
            issuer = deps.issuer;
          });
          expires_at = expires_at;
          user = user;
          identity = identity;
          refresh_token =
              if grace_hit || input.skip_rotation
              then none
              else some (build_refresh_token_value s.id at.secret, refresh_expires_at deps at);
        }),
        record st { users = users; cache = cache },
      )
]

unfoldable pub after_rotation :
    RefreshDeps
    → RefreshInput
    → Moment
    → AuthSession
    → AuthState
    → Result Bool × List AuthSession
    → Result RefreshResult × AuthState
after_rotation deps input at s st (err e, sessions) = (err e, record st { sessions = sessions })
after_rotation deps input at s st (ok grace_hit, sessions) =
    answer deps input at s grace_hit (record st { sessions = sessions })

-- The rest of the call once the session has been read; the state may have moved on since.
unfoldable pub refresh_read :
    RefreshDeps
    → RefreshInput
    → Moment
    → Option String
    → AuthSession
    → AuthState
    → Result RefreshResult × AuthState
refresh_read deps input at jti s st =
    after_rotation deps input at s st (rotate deps input at jti s st.sessions)

abbrev pub read_session :
    RefreshDeps → RefreshInput → Moment → AuthState → Result (Option String × AuthSession)
read_session deps input at st = do
  named ← presented deps input
  session ← or_throw (find_by_session_id named.0 at.wall st.sessions) denied
  ok (named.1, session)

unfoldable pub refresh_session :
    RefreshDeps → RefreshInput → Moment → AuthState → Result RefreshResult × AuthState
refresh_session deps input at st = elim (read_session deps input at st) [
  | err e ↦ (err e, st)
  | ok (jti, s) ↦ refresh_read deps input at jti s st
]
