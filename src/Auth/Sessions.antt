-- ===== src/Auth/Sessions.antt =====
-- infrastructure/db/repositories/auth-session.repo.ts: the sessions' table. A `Date` is a number of
-- milliseconds; `now` is the wall clock at the statement.
use mathlib.Core.Bool.{Bool}
use wildfire.Base.{
  ℕ, String, ◌==◌, not, ◌&&◌, Option, none, some, List, ◌∷◌, map, filter, find, any, ltb, length,
  if◌then◌else◌, ◌-◌,
}

pub record AuthSession : Type 0 where
  pub id : String
  pub user_id : String
  pub family_id : String
  pub current_jti : String
  pub previous_jti : Option String
  pub previous_jti_expires_at : Option ℕ
  pub expires_at : ℕ

abbrev pub Sessions : Type 0
Sessions = List AuthSession

unfoldable pub create_session : String → String → ℕ → String → String → Sessions → Sessions
create_session id user_id expires_at family_id jti st =
    record {
      id = id;
      user_id = user_id;
      family_id = family_id;
      current_jti = jti;
      previous_jti = none;
      previous_jti_expires_at = none;
      expires_at = expires_at;
    }
    ∷ st

unfoldable pub extend_expiry : String → ℕ → Sessions → Sessions
extend_expiry id expires_at st =
    map (λ s. if s.id == id then record s { expires_at = expires_at } else s) st

unfoldable pub revoke_by_id : String → Sessions → Sessions
revoke_by_id id st = filter (λ s. not (s.id == id)) st

unfoldable pub revoke_all_for_user : String → Sessions → Sessions
revoke_all_for_user user_id st = filter (λ s. not (s.user_id == user_id)) st

unfoldable pub is_session_active : String → ℕ → Sessions → Bool
is_session_active id now st = any (λ s. s.id == id && ltb now s.expires_at) st

unfoldable pub is_owned_by_user : String → String → ℕ → Sessions → Bool
is_owned_by_user id user_id now st =
    any (λ s. s.id == id && s.user_id == user_id && ltb now s.expires_at) st

unfoldable pub find_by_session_id : String → ℕ → Sessions → Option AuthSession
find_by_session_id id now st = find (λ s. s.id == id && ltb now s.expires_at) st

-- The new secret's hash, the old one with the end of its grace, and the new expiry.
pub record Rotation : Type 0 where
  pub new_jti : String
  pub previous_jti : String
  pub previous_jti_expires_at : ℕ
  pub new_expires_at : ℕ

abbrev pub rotated : Rotation → AuthSession → AuthSession
rotated r s = record s {
  current_jti = r.new_jti;
  previous_jti = some r.previous_jti;
  previous_jti_expires_at = some r.previous_jti_expires_at;
  expires_at = r.new_expires_at;
}

-- The conditional `UPDATE`: whether it matched a row.
unfoldable pub update_current_jti_optimistic :
    String → String → Rotation → Sessions → Bool × Sessions
update_current_jti_optimistic id expected r st = (
  any (λ s. s.id == id && s.current_jti == expected) st,
  map (λ s. if s.id == id && s.current_jti == expected then rotated r s else s) st,
)

-- The number of rows that were deleted is for the log.
unfoldable pub revoke_by_family_id : String → Sessions → ℕ × Sessions
revoke_by_family_id family_id st =
    let kept = filter (λ s. not (s.family_id == family_id)) st in (length st - length kept, kept)
