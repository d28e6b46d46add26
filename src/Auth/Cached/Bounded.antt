-- ===== src/Auth/Cached/Bounded.antt =====
-- Runs of calls on the cached repository, whatever Redis does, and where the cache's entries are from.
use wildfire.Base.{
  ℕ, ◌+◌, ◌*◌, ◌≤◌, ◌≡◌, ap, ◌⊎◌, inl, inr, String, Bool, Option, none, some, arith,
}
use wildfire.Auth.Sessions.{AuthSession, Rotation, find_by_session_id}
use wildfire.Auth.Cached.{
  CachedSessions, Entry, entry_at, cached_create, cached_extend_expiry, cached_revoke_by_id,
  cached_revoke_all_for_user, cached_revoke_by_family_id, cached_find, cached_update_current_jti,
}
use wildfire.Auth.Cached.Rows.{row, UniqueSessions}

-- A call of the repository at the time `now`; each command to Redis goes through or fails. The ids
-- of the table are a primary key.
pub data Call (now : ℕ) (st : CachedSessions) : CachedSessions → Type 0 where
  created :
      (id user family jti : String) (expires_at : ℕ)
      → row id st.sessions ≡ none
      → Call now st (cached_create id user expires_at family jti st)
  extended :
      (reached : Bool) (id : String) (expires_at : ℕ)
      → Call now st (cached_extend_expiry reached id expires_at st)
  revoked : (reached : Bool) (id : String) → Call now st (cached_revoke_by_id reached id st)
  revoked_user : (user : String) → Call now st (cached_revoke_all_for_user user st)
  revoked_family : (family : String) → Call now st (cached_revoke_by_family_id family st).1
  updated :
      (written reached : Bool) (id expected : String) (r : Rotation)
      → Call now st (cached_update_current_jti written reached id expected now r st).1
  found : (read written : Bool) (id : String) → Call now st (cached_find read written id now st).1

-- Calls from a time to another.
pub data Run (start : ℕ) (st : CachedSessions) : ℕ → CachedSessions → Type 0 where
  here : Run start st start st
  waits : {t t' : ℕ} {u : CachedSessions} → Run start st t u → t ≤ t' → Run start st t' u
  calls : {t : ℕ} {u v : CachedSessions} → Run start st t u → Call t u v → Run start st t v

module _ (start : ℕ) (st : CachedSessions) where
  -- What an entry of the id says, the table said at a moment of the run.
  pub record IsFrom (t : ℕ) (u : CachedSessions) (id : String) (e : Entry) : Type 0 where
    pub at : ℕ
    pub then_was : CachedSessions
    pub until_then : Run start st at then_was
    pub since_then : Run at then_was t u
    pub says : e.session ≡ find_by_session_id id at then_was.sessions
    pub short : e.expires_at ≤ at + 60 * 1000

  pub record IsBounded (t : ℕ) (u : CachedSessions) : Type 0 where
    pub unique : UniqueSessions u.sessions
    pub entries : (id : String) (e : Entry) → u.cache id ≡ some e → IsFrom t u id e

  IsFrom-calls :
      {t : ℕ} {u v : CachedSessions} (id : String) (e : Entry)
      → Call t u v
      → IsFrom t u id e
      → IsFrom t v id e
  IsFrom-calls id e c f = record {
    at = f.at;
    then_was = f.then_was;
    until_then = f.until_then;
    since_then = calls f.since_then c;
    says = f.says;
    short = f.short;
  }

  pub IsBounded-waits : (t t' : ℕ) (u : CachedSessions) → t ≤ t' → IsBounded t u → IsBounded t' u
  IsBounded-waits t t' u later b = record {
    unique = b.unique;
    entries = λ id e held.
        let f = b.entries id e held in
        record {
          at = f.at;
          then_was = f.then_was;
          until_then = f.until_then;
          since_then = waits f.since_then later;
          says = f.says;
          short = f.short;
        };
  }

  -- After a call each entry is an old one, or says what the table says after the call.
  pub IsBounded-calls :
      (t : ℕ) (u v : CachedSessions)
      → Run start st t u
      → IsBounded t u
      → Call t u v
      → UniqueSessions v.sessions
      → ((id : String) (e : Entry)
          → v.cache id ≡ some e
          → (u.cache id ≡ some e) ⊎ (e ≡ entry_at t (find_by_session_id id t v.sessions)))
      → IsBounded t v
  IsBounded-calls t u v r b c unique news = record {
    unique = unique;
    entries = λ id e held. elim (news id e held) [
      | inl old ↦ IsFrom-calls id e c (b.entries id e old)
      | inr new ↦ record {
        at = t;
        then_was = v;
        until_then = calls r c;
        since_then = here;
        says = ap (λ x. x.session) new;
        short = fresh (find_by_session_id id t v.sessions) e new;
      }
    ];
  }
    where
      fresh : (s : Option AuthSession) (e : Entry) → e ≡ entry_at t s → e.expires_at ≤ t + 60 * 1000
      fresh none e is = omega (arith, ap (λ x. x.expires_at) is)
      fresh (some s) e is = omega (arith, ap (λ x. x.expires_at) is)
