-- ===== src/Auth/Rotating.antt =====
-- application/use-cases/auth/refresh-session.use-case.ts, from the session that is presented to the branches on its secret.
use mathlib.Core.Bool.{Bool}
use wildfire.Base.{
  ℕ, ◌+◌, ◌*◌, String, ◌==◌, true, false, ◌&&◌, Option, none, some, List, ltb, or_else, truthy,
  if◌then◌else◌, Result, ok, err, invalid_credentials, Error,
}
use wildfire.Auth.Tokens.{parse_refresh_token_value}
use wildfire.Auth.Sessions.{
  AuthSession, Rotation, find_by_session_id, update_current_jti_optimistic, revoke_by_family_id,
}

pub record AuthUser : Type 0 where
  pub id : String
  pub username : String
  pub email : Option String
  pub name : String
  pub timezone : Option String
  pub avatar_key : Option String
  pub invited_at : Option String
  pub is_active : Bool
  pub banned_at : Option String
  pub last_seen_at : Option ℕ

pub record Identity : Type 0 where
  pub is_admin : Bool
  pub permissions : List String

-- What the access token says, for the issuer to sign.
pub record Claims : Type 0 where
  pub user : AuthUser
  pub identity : Identity
  pub issued_at : ℕ
  pub expires_at : ℕ
  pub issuer : Option String

-- How the use case is wired: the hash, the signing of tokens, the settings, and what the optional
-- authorization repository answers of a user, with or without a cache before it.
pub record RefreshDeps : Type 0 where
  pub hash : String → String
  pub issue_token : Claims → String
  pub token_ttl : ℕ
  pub refresh_token_ttl : Option ℕ
  pub grace_window : ℕ
  pub issuer : Option String
  pub authorization : Option (String → Identity)
  pub has_cache : Bool

pub record RefreshInput : Type 0 where
  pub refresh_token : Option String
  pub current_session_id : Option String
  pub current_jti : Option String
  pub skip_rotation : Bool

-- `clock.nowSeconds()`, the wall clock in milliseconds at the reads, and a random secret.
pub record Moment : Type 0 where
  pub issued_at : ℕ
  pub wall : ℕ
  pub secret : String

pub record AuthState : Type 0 where
  pub sessions : List AuthSession
  pub users : List AuthUser
  pub cache : List (String × Identity)

pub record RefreshResult : Type 0 where
  pub access_token : String
  pub expires_at : ℕ
  pub user : AuthUser
  pub identity : Identity
  pub refresh_token : Option (String × ℕ)

abbrev pub denied : Error
denied = invalid_credentials "Invalid credentials"

abbrev from_token : (String → String) → Option (String × String) → Result (String × Option String)
from_token hash none = err denied
from_token hash (some (id, secret)) = ok (id, some (hash secret))

-- The session that the call names, and the hash that it presents.
unfoldable pub presented : RefreshDeps → RefreshInput → Result (String × Option String)
presented deps input = elim input.refresh_token [
  | some token ↦ from_token deps.hash (parse_refresh_token_value token)
  | none ↦ elim (truthy input.current_session_id) [
    | none ↦ err denied
    | some id ↦ ok (id, input.current_jti)
  ]
]

-- `===` with a hash that is there: undefined and null differ.
abbrev pub is_jti : Option String → Option String → Bool
is_jti (some a) (some b) = a == b
is_jti _ _ = false

abbrev pub before_expiry : ℕ → Option ℕ → Bool
before_expiry now none = false
before_expiry now (some at) = ltb now at

unfoldable pub in_grace : Option String → ℕ → AuthSession → Bool
in_grace jti now s = is_jti jti s.previous_jti && before_expiry now s.previous_jti_expires_at

abbrev pub now_ms : Moment → ℕ
now_ms at = at.issued_at * 1000

abbrev pub refresh_expires_at : RefreshDeps → Moment → ℕ
refresh_expires_at deps at = at.issued_at + or_else deps.refresh_token_ttl deps.token_ttl

abbrev pub rotation : RefreshDeps → Moment → AuthSession → Rotation
rotation deps at s = record {
  new_jti = deps.hash at.secret;
  previous_jti = s.current_jti;
  previous_jti_expires_at = now_ms at + deps.grace_window * 1000;
  new_expires_at = refresh_expires_at deps at * 1000;
}

abbrev lost_race : Option String → ℕ → Option AuthSession → Result Bool
lost_race jti now none = err denied
lost_race jti now (some s) = if in_grace jti now s then ok true else err denied

-- The current secret is replaced, unless another request has replaced it since it was read.
unfoldable pub rotate_current :
    RefreshDeps
    → Moment
    → Option String
    → AuthSession
    → List AuthSession
    → Result Bool × List AuthSession
rotate_current deps at jti s sessions =
    let (updated, sessions') =
      update_current_jti_optimistic s.id s.current_jti (rotation deps at s) sessions in
    if updated
    then (ok false, sessions')
    else (lost_race jti (now_ms at) (find_by_session_id s.id at.wall sessions'), sessions')

-- The branches on the presented hash, for a session that was read before: whether it was a hit in
-- the grace window.
unfoldable pub rotate :
    RefreshDeps
    → RefreshInput
    → Moment
    → Option String
    → AuthSession
    → List AuthSession
    → Result Bool × List AuthSession
rotate deps input at jti s sessions =
    if input.skip_rotation
    then (
      if in_grace jti (now_ms at) s
          then ok true
          else if is_jti jti (some s.current_jti)
          then ok false
          else err denied,
      sessions,
    )
    else if is_jti jti (some s.current_jti)
    then rotate_current deps at jti s sessions
    else if in_grace jti (now_ms at) s
    then (ok true, sessions)
    else (err denied, (revoke_by_family_id s.family_id sessions).1)
