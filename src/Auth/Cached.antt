-- ===== src/Auth/Cached.antt =====
-- infrastructure/db/repositories/cached-auth-session.repo.ts: the sessions' table behind a cache in
-- Redis. A command to Redis may fail: whether one of a kind goes through is an argument. The time is
-- Redis's and that of the statement.
pub mod Rows
pub mod News
pub mod Stale
pub mod Bounded
pub mod Coherence
pub mod Revocation
mod Tests
use wildfire.Base.{
  ℕ, ◌+◌, ◌*◌, String, ◌==◌, Bool, true, false, Option, none, some, if◌then◌else◌, ltb,
}
use wildfire.Redis.{Keys, put, live}
use wildfire.Auth.Sessions.{
  AuthSession, Sessions, Rotation, rotated, create_session, extend_expiry, revoke_by_id,
  revoke_all_for_user, find_by_session_id, update_current_jti_optimistic, revoke_by_family_id,
}

abbrev pub session_ttl_seconds : ℕ
session_ttl_seconds = 60

abbrev pub null_ttl_seconds : ℕ
null_ttl_seconds = 5

-- `none` is the sentinel for a session that is not there.
pub record Entry : Type 0 where
  pub session : Option AuthSession
  pub expires_at : ℕ

pub record CachedSessions : Type 0 where
  pub sessions : Sessions
  pub cache : Keys Entry

abbrev ttl_ms : Option AuthSession → ℕ
ttl_ms none = null_ttl_seconds * 1000
ttl_ms (some _) = session_ttl_seconds * 1000

abbrev pub entry_at : ℕ → Option AuthSession → Entry
entry_at t session = record { session = session; expires_at = t + ttl_ms session }

unfoldable pub delete_key : Bool → String → CachedSessions → CachedSessions
delete_key reached id st = if reached then record st { cache = put id none st.cache } else st

unfoldable pub cached_create :
    String → String → ℕ → String → String → CachedSessions → CachedSessions
cached_create id user_id expires_at family_id jti st = record st {
  sessions = create_session id user_id expires_at family_id jti st.sessions;
}

unfoldable pub cached_extend_expiry : Bool → String → ℕ → CachedSessions → CachedSessions
cached_extend_expiry reached id expires_at st =
    delete_key reached id (record st { sessions = extend_expiry id expires_at st.sessions })

unfoldable pub cached_revoke_by_id : Bool → String → CachedSessions → CachedSessions
cached_revoke_by_id reached id st =
    delete_key reached id (record st { sessions = revoke_by_id id st.sessions })

unfoldable pub cached_revoke_all_for_user : String → CachedSessions → CachedSessions
cached_revoke_all_for_user user_id st = record st {
  sessions = revoke_all_for_user user_id st.sessions;
}

unfoldable pub cached_revoke_by_family_id : String → CachedSessions → ℕ × CachedSessions
cached_revoke_by_family_id family_id st =
    let (count, sessions) = revoke_by_family_id family_id st.sessions in
    (count, record st { sessions = sessions })

-- What the cache answers: `none` where it has no entry or is not reached.
abbrev pub hit : Bool → Option Entry → Option (Option AuthSession)
hit false e = none
hit true none = none
hit true (some e) = some e.session

unfoldable pub cached_find :
    Bool → Bool → String → ℕ → CachedSessions → Option AuthSession × CachedSessions
cached_find read written id t st =
    let session = find_by_session_id id t st.sessions in
    let missed : Option AuthSession × CachedSessions = (
      session,
      if written then record st { cache = put id (some (entry_at t session)) st.cache } else st,
    ) in
    elim (hit read (live (λ e. e.expires_at) t (st.cache id))) [
      | none ↦ missed
      | some session' ↦ (session', st)
    ]

-- The row with the rotation's values, as the rotation was reported to have succeeded.
unfoldable pub cache_session : Bool → Bool → String → ℕ → Rotation → CachedSessions → CachedSessions
unfolding delete_key
cache_session written reached id t r st = elim (find_by_session_id id t st.sessions) [
  | none ↦ delete_key reached id st
  | some full ↦
      if written
      then record st { cache = put id (some (entry_at t (some (rotated r full)))) st.cache }
      else delete_key reached id st
]

unfoldable pub cached_update_current_jti :
    Bool → Bool → String → String → ℕ → Rotation → CachedSessions → Bool × CachedSessions
cached_update_current_jti written reached id expected t r st =
    let (result, sessions) = update_current_jti_optimistic id expected r st.sessions in
    let st' = record st { sessions = sessions } in
    (result, if result then cache_session written reached id t r st' else delete_key reached id st')
