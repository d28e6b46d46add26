-- ===== src/Auth/Cached/Tests.antt =====
-- Runs of the theorems on the cached sessions.
use wildfire.Base.{ℕ, ◌+◌, ◌*◌, ◌<◌, ◌⊎◌, ◌≡◌, refl, true, none, some, [], ◌∷◌, arith, none≢some}
use wildfire.Auth.Sessions.{AuthSession, find_by_session_id}
use wildfire.Auth.Cached.{CachedSessions, cached_find, cached_revoke_by_family_id}
use wildfire.Auth.Cached.Rows.{alive}
use wildfire.Auth.Cached.Coherence
use wildfire.Auth.Cached.Coherence.{IsCoherent, Reach-cached_find}
use wildfire.Auth.Cached.Bounded.{Run, Call}
use wildfire.Auth.Cached.Stale.{Run-cached_find}
use wildfire.Auth.Cached.Revocation.{revoked_family-found}

abbrev session : AuthSession
session = record {
  id = "s1";
  user_id = "u1";
  family_id = "f1";
  current_jti = "ha";
  previous_jti = none;
  previous_jti_expires_at = none;
  expires_at = 2000000;
}

abbrev cold : CachedSessions
cold = record { sessions = session ∷ []; cache = λ _. none }

-- The session was read at 1000.
abbrev warm : CachedSessions
warm = (cached_find true true "s1" 1000 cold).1

cold-IsCoherent : IsCoherent 0 cold
cold-IsCoherent = record { unique = (refl, tt); agrees = λ id e h. absurd (none≢some h) }

Reach-cached_find_example :
    alive 5000 (cached_find true true "s1" 5000 warm).0 ≡ find_by_session_id "s1" 5000 warm.sessions
Reach-cached_find_example =
    Reach-cached_find true true "s1" 5000 cold-IsCoherent
      (Coherence.Reach.next Coherence.Reach.here (omega arith)
        (Coherence.Step.found true true "s1"))
      (omega arith)

-- The family of the cached session was revoked at 2000, and it is read again at 5000.
Run-cached_find_example :
    ((cached_find true true "s1" 5000 (cached_revoke_by_family_id "f1" warm).1).0
      ≡ find_by_session_id "s1" 5000 (cached_revoke_by_family_id "f1" warm).1.sessions)
    ⊎ ((at : ℕ) × (v : CachedSessions) × Run 0 cold at v
        × Run at v 5000 (cached_revoke_by_family_id "f1" warm).1
        × (5000 < at + 60 * 1000)
        × ((cached_find true true "s1" 5000 (cached_revoke_by_family_id "f1" warm).1).0
            ≡ find_by_session_id "s1" at v.sessions))
Run-cached_find_example =
    Run-cached_find true true "s1" (refl, tt) (λ k. refl)
      (Run.waits
        (Run.calls
          (Run.waits {t' = 2000}
            (Run.calls (Run.waits {t' = 1000} Run.here (omega arith)) (Call.found true true "s1"))
            (omega arith))
          (Call.revoked_family "f1"))
        (omega arith))

revoked_family-found_example :
    ((cached_find true true "s1" 60999 (cached_revoke_by_family_id "f1" warm).1).0 ≡ some session)
    × (find_by_session_id "s1" 60999 (cached_revoke_by_family_id "f1" warm).1.sessions ≡ none)
unfolding find_by_session_id
revoked_family-found_example =
    revoked_family-found "s1" 1000 60999 true true cold {s = session} (refl, tt) refl refl
      (omega arith)
