-- ===== src/Auth/Refresh/Families.antt =====
-- Sessions and their families over several calls of the refresh.
use wildfire.Base.{
  ℕ, ◌&&◌, map, or_else, Bool-cases, ◌+◌, ◌*◌, ◌≤◌, ◌<◌, ◌≡◌, ◌≢◌, refl, ap, sym, ◌∙◌, subst, inl,
  inr, Bool, true, false, not, ◌||◌, String, ◌==◌, eq_iff, Option, none, some, List, filter, arith,
  some-injective, Result, ok, err, Error, Result-cases, if◌then◌else◌,
}
use wildfire.Auth.Tokens.{build_refresh_token_value}
use wildfire.Auth.Sessions.{AuthSession, rotated}
use wildfire.Auth.Refresh.{
  admitted_user, after_rotation, refresh_read, refresh_session, read_session,
}
use wildfire.Auth.Rotating.{
  AuthUser, RefreshDeps, RefreshInput, RefreshResult, Moment, AuthState, presented, is_jti,
  in_grace, now_ms, rotation, refresh_expires_at, rotate, denied, before_expiry,
}
use wildfire.Auth.Refresh.Replay.{
  HasSession, rows_after, find-live, HasSession-rotated, rotate-rotates, rotate-grace,
  rotate-revokes, rotate-raced, answer-sessions, answer-ok, refresh_session-read, in_grace-rotated,
}

-- A call that has found its session, and whose branches on the hash gave a result and rows.
after-ok :
    (deps : RefreshDeps) (input : RefreshInput) (at : Moment) (s : AuthSession) (st : AuthState)
    (m : Result Bool × List AuthSession) (grace : Bool) (rows : List AuthSession) {u : AuthUser}
    → input.skip_rotation ≡ false
    → m ≡ (ok grace, rows)
    → admitted_user s.user_id st.users ≡ ok u
    → (r : RefreshResult) × ((after_rotation deps input at s st m).0 ≡ ok r)
      × (r.refresh_token ≡ (
          if grace
          then none
          else some (build_refresh_token_value s.id at.secret, refresh_expires_at deps at)))
      × ((after_rotation deps input at s st m).1.sessions ≡ rows)
unfolding after_rotation
after-ok deps input at s st m grace rows rotating e q =
    let (r, answered, token) = answer-ok deps input at s grace (record st { sessions = rows }) q in
    (
      r,
      rw e answered,
      token ∙ no_skip grace input.skip_rotation rotating _,
      rw e (answer-sessions deps input at s grace (record st { sessions = rows })),
    )
  where
    no_skip :
        {A : Type 0} (grace skip : Bool)
        → skip ≡ false
        → (token : A)
        → (if grace || skip then none else some token) ≡ (if grace then none else some token)
    no_skip grace skip e token = ground arith

after-err :
    (deps : RefreshDeps) (input : RefreshInput) (at : Moment) (s : AuthSession) (st : AuthState)
    (m : Result Bool × List AuthSession) (e : Error) (rows : List AuthSession)
    → m ≡ (err e, rows)
    → ((after_rotation deps input at s st m).0 ≡ err e)
      × ((after_rotation deps input at s st m).1.sessions ≡ rows)
unfolding after_rotation
after-err deps input at s st m e rows h = rw h (refl, refl)

after-sessions :
    (deps : RefreshDeps) (input : RefreshInput) (at : Moment) (s : AuthSession) (st : AuthState)
    (m : Result Bool × List AuthSession)
    → (after_rotation deps input at s st m).1.sessions ≡ m.1
unfolding after_rotation
after-sessions deps input at s st (err e, rows) = refl
after-sessions deps input at s st (ok grace, rows) =
    answer-sessions deps input at s grace (record st { sessions = rows })

rotate-skip :
    (deps : RefreshDeps) (input : RefreshInput) (at : Moment) (jti : Option String)
    (s : AuthSession) (rows : List AuthSession)
    → input.skip_rotation ≡ true
    → (rotate deps input at jti s rows).1 ≡ rows
unfolding rotate
rotate-skip deps input at jti s rows skip = rw skip refl

other_jti :
    (jti : Option String) (current : String)
    → jti ≢ some current
    → is_jti jti (some current) ≡ false
other_jti none current n = refl
other_jti (some a) current n = elim (Bool-cases (a == current)) [
  | inl e ↦ absurd (n (ap (λ x. some x) ((eq_iff a current).0 e)))
  | inr e ↦ e
]

grace_over :
    (jti : Option String) (now : ℕ) (s : AuthSession)
    → ((old : String) (end : ℕ)
        → jti ≡ some old
        → s.previous_jti ≡ some old
        → s.previous_jti_expires_at ≡ some end
        → end ≤ now)
    → in_grace jti now s ≡ false
unfolding in_grace
grace_over jti now s h = go jti s.previous_jti s.previous_jti_expires_at h
  where
    go :
        (jti previous : Option String) (until : Option ℕ)
        → ((old : String) (end : ℕ)
            → jti ≡ some old
            → previous ≡ some old
            → until ≡ some end
            → end ≤ now)
        → (is_jti jti previous && before_expiry now until) ≡ false
    go none previous until h = refl
    go (some a) none until h = refl
    go (some a) (some b) none h = ground arith
    go (some a) (some b) (some end) h = elim (Bool-cases (a == b)) [
      | inl e ↦
          let late = h b end (ap (λ x. some x) ((eq_iff a b).0 e)) refl refl in
          rw e (ground (arith, late))
      | inr e ↦ rw e refl
    ]

module _ (deps : RefreshDeps) (input : RefreshInput) (at : Moment) (st : AuthState)
    (s : AuthSession) (rotating : input.skip_rotation ≡ false) (known : HasSession s st.sessions)
    (live : at.wall < s.expires_at) where
  -- The current secret is exchanged for a new one, where the session lives and its user is
  -- admitted. The rows that still have the secret then hold the hash of the new one, the old hash
  -- until the grace window ends, and the new end of the session; the other rows are as they were.
  pub refresh_session-rotates :
      {u : AuthUser}
      → presented deps input ≡ ok (s.id, some s.current_jti)
      → admitted_user s.user_id st.users ≡ ok u
      → (r : RefreshResult) × ((refresh_session deps input at st).0 ≡ ok r)
        × (r.refresh_token
            ≡ some (build_refresh_token_value s.id at.secret, refresh_expires_at deps at))
        × ((refresh_session deps input at st).1.sessions
            ≡ map
                (λ x.
                  if x.id == s.id && x.current_jti == s.current_jti
                  then record x {
                    current_jti = deps.hash at.secret;
                    previous_jti = some s.current_jti;
                    previous_jti_expires_at = some (at.issued_at * 1000 + deps.grace_window * 1000);
                    expires_at =
                        (at.issued_at + or_else deps.refresh_token_ttl deps.token_ttl) * 1000;
                  }
                  else x)
                st.sessions)
  refresh_session-rotates p q =
      rw
        (refresh_session-read deps input at st s.id (some s.current_jti) p
          (find-live s at.wall st.sessions known live))
        (after-ok deps input at s st _ false _ rotating
          (rotate-rotates deps input at s st.sessions rotating known) q)

  -- A secret that is not the current one, and that is not the previous one or is so no more since
  -- its grace window has ended, is denied: it ends the whole family, and no other session.
  pub refresh_session-revokes :
      (jti : Option String)
      → presented deps input ≡ ok (s.id, jti)
      → jti ≢ some s.current_jti
      → ((old : String) (end : ℕ)
          → jti ≡ some old
          → s.previous_jti ≡ some old
          → s.previous_jti_expires_at ≡ some end
          → end ≤ at.issued_at * 1000)
      → ((refresh_session deps input at st).0 ≡ err denied)
        × ((refresh_session deps input at st).1.sessions
            ≡ filter (λ x. not (x.family_id == s.family_id)) st.sessions)
  refresh_session-revokes jti p n g =
      rw
        (refresh_session-read deps input at st s.id jti p
          (find-live s at.wall st.sessions known live))
        (after-err deps input at s st _ denied _ (
          rotate-revokes deps input at jti s st.sessions rotating (other_jti jti s.current_jti n)
            (grace_over jti (now_ms at) s g)))

-- No call of the read-only refresh writes to the sessions.
refresh_session-skip :
    (deps : RefreshDeps) (input : RefreshInput) (at : Moment) (st : AuthState)
    → input.skip_rotation ≡ true
    → (refresh_session deps input at st).1.sessions ≡ st.sessions
unfolding refresh_session refresh_read
refresh_session-skip deps input at st skip = elim (Result-cases (read_session deps input at st)) [
  | inl (e, h) ↦ rw (h, refresh_session) refl
  | inr ((jti, s), h) ↦
      rw (h, refresh_session)
        (after-sessions deps input at s st (rotate deps input at jti s st.sessions)
          ∙ rotate-skip deps input at jti s st.sessions skip)
]

-- After a rotation the new secret is good for the next one.
refresh_session-chain :
    (deps : RefreshDeps) (input next : RefreshInput) (at later : Moment) (st st' : AuthState)
    (s : AuthSession) {u u' : AuthUser}
    → input.skip_rotation ≡ false
    → next.skip_rotation ≡ false
    → HasSession s st.sessions
    → at.wall < s.expires_at
    → presented deps input ≡ ok (s.id, some s.current_jti)
    → admitted_user s.user_id st.users ≡ ok u
    → st'.sessions ≡ (refresh_session deps input at st).1.sessions
    → presented deps next ≡ ok (s.id, some (deps.hash at.secret))
    → later.wall < refresh_expires_at deps at * 1000
    → admitted_user s.user_id st'.users ≡ ok u'
    → (r : RefreshResult) × ((refresh_session deps next later st').0 ≡ ok r)
      × (r.refresh_token
          ≡ some (build_refresh_token_value s.id later.secret, refresh_expires_at deps later))
refresh_session-chain deps input next at later st st' s skip skip' known live p q same p' live' q' =
    let (_, _, _, rows) = refresh_session-rotates deps input at st s skip known live p q in
    let (r, answered, token, _) =
      refresh_session-rotates deps next later st' (rotated (rotation deps at s) s) skip'
        (subst (λ l. HasSession (rotated (rotation deps at s) s) l) (sym (same ∙ rows))
          (HasSession-rotated (rotation deps at s) s st.sessions known))
        live' p' q' in
    (r, answered, token)

-- The old secret, presented again after a rotation: while its grace window lasts it is answered
-- without a new refresh token, and nothing is revoked; afterwards the family is revoked.
pub refresh_session-replay :
    (deps : RefreshDeps) (input again : RefreshInput) (at later : Moment) (st st' : AuthState)
    (s : AuthSession) {u u' : AuthUser}
    → input.skip_rotation ≡ false
    → again.skip_rotation ≡ false
    → HasSession s st.sessions
    → at.wall < s.expires_at
    → presented deps input ≡ ok (s.id, some s.current_jti)
    → admitted_user s.user_id st.users ≡ ok u
    → st'.sessions ≡ (refresh_session deps input at st).1.sessions
    → presented deps again ≡ ok (s.id, some s.current_jti)
    → s.current_jti ≢ deps.hash at.secret
    → later.wall < refresh_expires_at deps at * 1000
    → admitted_user s.user_id st'.users ≡ ok u'
    → (now_ms later < now_ms at + deps.grace_window * 1000
        → (r : RefreshResult) × ((refresh_session deps again later st').0 ≡ ok r)
          × (r.refresh_token ≡ none)
          × ((refresh_session deps again later st').1.sessions ≡ st'.sessions))
      × (now_ms at + deps.grace_window * 1000 ≤ now_ms later
          → ((refresh_session deps again later st').0 ≡ err denied)
            × ((refresh_session deps again later st').1.sessions
                ≡ filter (λ x. not (x.family_id == s.family_id)) st'.sessions))
refresh_session-replay deps input again at later st st' s skip skip' known live p q same p' fresh
      live' q' =
    let (_, _, _, rows) = refresh_session-rotates deps input at st s skip known live p q in
    let next = rotated (rotation deps at s) s in
    let known' : HasSession next st'.sessions =
      subst (λ l. HasSession next l) (sym (same ∙ rows))
        (HasSession-rotated (rotation deps at s) s st.sessions known) in
    let old : (s.current_jti == deps.hash at.secret) ≡ false =
      ground (arith, eq_iff s.current_jti (deps.hash at.secret)) in
    (
      (λ soon.
          rw
            (refresh_session-read deps again later st' s.id (some s.current_jti) p'
              (find-live next later.wall st'.sessions known' live'))
            (after-ok deps again later next st' _ true st'.sessions skip'
              (rotate-grace deps again later s.current_jti next st'.sessions skip' old
                (in_grace-rotated (now_ms later) (rotation deps at s) s refl soon))
              q')),
      (λ late.
          refresh_session-revokes deps again later st' next skip' known' live' (some s.current_jti)
            p' (λ e. fresh (some-injective e))
            (λ _ end _ _ h. omega (arith, some-injective h, late))),
    )

-- Two requests that both read a session before either wrote: the one that comes second, within the
-- grace window, is answered without a new refresh token, and leaves the sessions as the first did.
pub refresh_read-raced :
    (deps : RefreshDeps) (first second : RefreshInput) (at at' : Moment) (st st' : AuthState)
    (s : AuthSession) {u : AuthUser}
    → first.skip_rotation ≡ false
    → second.skip_rotation ≡ false
    → HasSession s st.sessions
    → st'.sessions ≡ (refresh_read deps first at (some s.current_jti) s st).1.sessions
    → s.current_jti ≢ deps.hash at.secret
    → now_ms at' < now_ms at + deps.grace_window * 1000
    → at'.wall < refresh_expires_at deps at * 1000
    → admitted_user s.user_id st'.users ≡ ok u
    → (r : RefreshResult) × ((refresh_read deps second at' (some s.current_jti) s st').0 ≡ ok r)
      × (r.refresh_token ≡ none)
      × ((refresh_read deps second at' (some s.current_jti) s st').1.sessions ≡ st'.sessions)
unfolding refresh_read
refresh_read-raced deps first second at at' st st' s skip skip' known same fresh soon live q =
    let r = rotation deps at s in
    let rows : st'.sessions ≡ rows_after r s st.sessions =
      same
      ∙ after-sessions deps first at s st (rotate deps first at (some s.current_jti) s st.sessions)
      ∙ ap (λ (m : Result Bool × List AuthSession). m.1)
          (rotate-rotates deps first at s st.sessions skip known) in
    let raced : rotate deps second at' (some s.current_jti) s st'.sessions
        ≡ (ok true, st'.sessions) =
      rw rows (
        rotate-raced deps second at' r s st.sessions skip' known refl
          (ground (arith, eq_iff (deps.hash at.secret) s.current_jti)) soon live) in
    after-ok deps second at' s st' _ true st'.sessions skip' raced q
