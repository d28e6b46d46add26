-- ===== src/Auth/Refresh/Replay.antt =====
-- What becomes of sessions when their secrets are rotated, replayed and raced.
use wildfire.Base.{
  some-injective, ℕ, ◌<◌, ◌≡◌, refl, ap, inl, inr, Bool, true, false, not, ◌&&◌, ◌||◌, String, ◌==◌,
  eq_refl, Option, none, some, List, [], ◌∷◌, map, filter, find, any, arith, ltb, ok, err, or_throw,
  ◌>>=◌, Bool-cases, Result-cases, if◌then◌else◌,
}
use wildfire.Auth.Tokens.{build_refresh_token_value}
use wildfire.Auth.Sessions.{
  AuthSession, Rotation, rotated, find_by_session_id, update_current_jti_optimistic,
  revoke_by_family_id,
}
use wildfire.Auth.Refresh.{admitted_user, answer, after_rotation, refresh_read, refresh_session}
use wildfire.Auth.Rotating.{
  AuthUser, RefreshDeps, RefreshInput, RefreshResult, Moment, AuthState, presented, is_jti,
  in_grace, now_ms, rotation, refresh_expires_at, rotate_current, rotate, denied,
}

-- The row of an id.
abbrev pub HasSession : AuthSession → List AuthSession → Type 0
HasSession s sessions = find (λ x. x.id == s.id) sessions ≡ some s

pub find-live :
    (s : AuthSession) (wall : ℕ) (sessions : List AuthSession)
    → HasSession s sessions
    → wall < s.expires_at
    → find_by_session_id s.id wall sessions ≡ some s
unfolding find_by_session_id
find-live s wall [] h live = h
find-live s wall (x ∷ xs) h live = elim (Bool-cases (x.id == s.id)) [
  | inl e ↦ rw e (found (rw e at h))
  | inr e ↦ rw e (find-live s wall xs (rw e at h) live)
]
  where
    found :
        some x ≡ some s
        → (if ltb wall x.expires_at
            then some x
            else find (λ y. y.id == s.id && ltb wall y.expires_at) xs)
          ≡ some s
    found e = rw (some-injective e) (ground arith)

has-matching :
    (s : AuthSession) (sessions : List AuthSession)
    → HasSession s sessions
    → any (λ x. x.id == s.id && x.current_jti == s.current_jti) sessions ≡ true
has-matching s [] h = cc
has-matching s (x ∷ xs) h = elim (Bool-cases (x.id == s.id)) [
  | inl e ↦ rw (some-injective (rw e at h)) (rw (eq_refl s.id, eq_refl s.current_jti) refl)
  | inr e ↦ rw e (has-matching s xs (rw e at h))
]

-- The rows after a rotation of `s`.
abbrev pub rows_after : Rotation → AuthSession → List AuthSession → List AuthSession
rows_after r s sessions =
    map (λ x. if x.id == s.id && x.current_jti == s.current_jti then rotated r x else x) sessions

pub HasSession-rotated :
    (r : Rotation) (s : AuthSession) (sessions : List AuthSession)
    → HasSession s sessions
    → HasSession (rotated r s) (rows_after r s sessions)
HasSession-rotated r s [] h = absurd (cc)
HasSession-rotated r s (x ∷ xs) h = elim (Bool-cases (x.id == s.id)) [
  | inl e ↦
      rw (some-injective (rw e at h))
        (rw (eq_refl s.id, eq_refl s.current_jti) (rw (eq_refl s.id) refl))
  | inr e ↦ rw e (rw e (HasSession-rotated r s xs (rw e at h)))
]

-- No row has the old secret any more.
no-matching :
    (r : Rotation) (s : AuthSession)
    → (r.new_jti == s.current_jti) ≡ false
    → (sessions : List AuthSession)
    → any (λ x. x.id == s.id && x.current_jti == s.current_jti) (rows_after r s sessions) ≡ false
no-matching r s n [] = refl
no-matching r s n (x ∷ xs) = elim (Bool-cases (x.id == s.id && x.current_jti == s.current_jti)) [
  | inl e ↦ rw e (ground (arith, no-matching r s n xs))
  | inr e ↦ rw e (rw e (no-matching r s n xs))
]

rows_after-again :
    (r' r : Rotation) (s : AuthSession)
    → (r.new_jti == s.current_jti) ≡ false
    → (sessions : List AuthSession)
    → rows_after r' s (rows_after r s sessions) ≡ rows_after r s sessions
rows_after-again r' r s n [] = refl
rows_after-again r' r s n (x ∷ xs) =
    elim (Bool-cases (x.id == s.id && x.current_jti == s.current_jti)) [
      | inl e ↦ rw e (kept (rows_after-again r' r s n xs) e)
      | inr e ↦ rw e (rw e (ap (λ l. x ∷ l) (rows_after-again r' r s n xs)))
    ]
  where
    kept :
        rows_after r' s (rows_after r s xs) ≡ rows_after r s xs
        → (x.id == s.id && x.current_jti == s.current_jti) ≡ true
        → rows_after r' s (rotated r x ∷ rows_after r s xs) ≡ rotated r x ∷ rows_after r s xs
    kept again e = elim (Bool-cases (x.id == s.id)) [
      | inl f ↦ rw (f, n) (ap (λ l. rotated r x ∷ l) again)
      | inr f ↦ rw f (ap (λ l. rotated r x ∷ l) again)
    ]

pub in_grace-rotated :
    (now : ℕ) (r : Rotation) (s : AuthSession)
    → r.previous_jti ≡ s.current_jti
    → now < r.previous_jti_expires_at
    → in_grace (some s.current_jti) now (rotated r s) ≡ true
unfolding in_grace
in_grace-rotated now r s p g = rw (p, eq_refl s.current_jti) (ground arith)

module _ (deps : RefreshDeps) (input : RefreshInput) (at : Moment) where
  -- The current secret of a session that is still there is replaced.
  pub rotate-rotates :
      (s : AuthSession) (sessions : List AuthSession)
      → input.skip_rotation ≡ false
      → HasSession s sessions
      → rotate deps input at (some s.current_jti) s sessions
        ≡ (ok false, rows_after (rotation deps at s) s sessions)
  unfolding rotate rotate_current update_current_jti_optimistic
  rotate-rotates s sessions skip h =
      rw (skip, eq_refl s.current_jti) (rw (has-matching s sessions h) refl)

  pub rotate-grace :
      (jti : String) (s : AuthSession) (sessions : List AuthSession)
      → input.skip_rotation ≡ false
      → (jti == s.current_jti) ≡ false
      → in_grace (some jti) (now_ms at) s ≡ true
      → rotate deps input at (some jti) s sessions ≡ (ok true, sessions)
  unfolding rotate
  rotate-grace jti s sessions skip n g = rw (skip, n, g) refl

  pub rotate-revokes :
      (jti : Option String) (s : AuthSession) (sessions : List AuthSession)
      → input.skip_rotation ≡ false
      → is_jti jti (some s.current_jti) ≡ false
      → in_grace jti (now_ms at) s ≡ false
      → rotate deps input at jti s sessions
        ≡ (err denied, filter (λ x. not (x.family_id == s.family_id)) sessions)
  unfolding rotate revoke_by_family_id
  rotate-revokes jti s sessions skip n g = rw (skip, n, g) refl

  -- The current secret was replaced after the session was read: the grace window decides.
  pub rotate-raced :
      (r : Rotation) (s : AuthSession) (sessions : List AuthSession)
      → input.skip_rotation ≡ false
      → HasSession s sessions
      → r.previous_jti ≡ s.current_jti
      → (r.new_jti == s.current_jti) ≡ false
      → now_ms at < r.previous_jti_expires_at
      → at.wall < r.new_expires_at
      → rotate deps input at (some s.current_jti) s (rows_after r s sessions)
        ≡ (ok true, rows_after r s sessions)
  unfolding rotate rotate_current update_current_jti_optimistic
  rotate-raced r s sessions skip h p n g live =
      rw (skip, eq_refl s.current_jti)
        (rw (no-matching r s n sessions, rows_after-again (rotation deps at s) r s n sessions)
          (rw
            (find-live (rotated r s) at.wall (rows_after r s sessions)
              (HasSession-rotated r s sessions h) live)
            (rw (in_grace-rotated (now_ms at) r s p g) refl)))

  pub answer-sessions :
      (s : AuthSession) (grace : Bool) (st : AuthState)
      → (answer deps input at s grace st).1.sessions ≡ st.sessions
  unfolding answer
  answer-sessions s grace st = elim (Result-cases (admitted_user s.user_id st.users)) [
    | inl (e, q) ↦ rw (q, answer) refl
    | inr (u, q) ↦ rw (q, answer) refl
  ]

  -- Where the user is admitted there is an answer, with a new refresh token exactly after a rotation.
  pub answer-ok :
      (s : AuthSession) (grace : Bool) (st : AuthState) {u : AuthUser}
      → admitted_user s.user_id st.users ≡ ok u
      → (r : RefreshResult) × ((answer deps input at s grace st).0 ≡ ok r)
        × (r.refresh_token ≡ (
            if grace || input.skip_rotation
            then none
            else some (build_refresh_token_value s.id at.secret, refresh_expires_at deps at)))
  unfolding answer
  answer-ok s grace st q = rw (q, answer) (_, refl, refl)

  -- What a call does once it has found the session that it names.
  pub refresh_session-read :
      (st : AuthState) (id : String) (jti : Option String) {s : AuthSession}
      → presented deps input ≡ ok (id, jti)
      → find_by_session_id id at.wall st.sessions ≡ some s
      → refresh_session deps input at st
        ≡ after_rotation deps input at s st (rotate deps input at jti s st.sessions)
  unfolding refresh_session refresh_read ◌>>=◌ or_throw
  refresh_session-read st id jti p f = rw (p, refresh_session) (rw f refl)
