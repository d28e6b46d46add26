-- ===== src/Auth/Cached/News.antt =====
-- What a call of the cached repository leaves in the cache: old entries, or what the table says.
use wildfire.Base.{
  ℕ, ◌≡◌, refl, ap, sym, subst, ◌∙◌, ◌⊎◌, inl, inr, String, ◌==◌, Bool, true, false, ◌&&◌, Option,
  some, map, any, arith, if◌then◌else◌, eq_iff, Bool-cases, Option-cases, some-injective, none≢some,
}
use wildfire.Redis.{put, live}
use wildfire.Auth.Sessions.{
  AuthSession, Sessions, Rotation, rotated, create_session, extend_expiry, revoke_by_id,
  revoke_all_for_user, revoke_by_family_id, find_by_session_id, update_current_jti_optimistic,
}
use wildfire.Auth.Cached.{
  CachedSessions, Entry, entry_at, hit, delete_key, cached_create, cached_extend_expiry,
  cached_revoke_by_id, cached_revoke_all_for_user, cached_revoke_by_family_id, cached_find,
  cache_session, cached_update_current_jti,
}
use wildfire.Auth.Cached.Rows.{
  row, alive, UniqueSessions, find_by_session_id-row, UniqueSessions-filter, UniqueSessions-map,
  row-rotated, alive-some,
}
use wildfire.Auth.Cached.Bounded.{
  Call, created, extended, revoked, revoked_user, revoked_family, updated, found,
}

-- The entries after a key was deleted are old ones.
delete_key-old :
    (reached : Bool) (id : String) (u : CachedSessions) (k : String) (e : Entry)
    → (delete_key reached id u).cache k ≡ some e
    → u.cache k ≡ some e
unfolding delete_key
delete_key-old false id u k e held = held
delete_key-old true id u k e held = elim (Bool-cases (k == id)) [
  | inl h ↦ absurd (none≢some (rw h at held))
  | inr h ↦ rw h at held
]

delete_key-sessions :
    (reached : Bool) (id : String) (u : CachedSessions)
    → (delete_key reached id u).sessions ≡ u.sessions
unfolding delete_key
delete_key-sessions true id u = refl
delete_key-sessions false id u = refl

put-news :
    (id k : String) (e new : Entry) (cache : String → Option Entry)
    → put id (some new) cache k ≡ some e
    → (cache k ≡ some e) ⊎ ((k ≡ id) × (e ≡ new))
put-news id k e new cache held = elim (Bool-cases (k == id)) [
  | inl h ↦ inr ((eq_iff k id).0 h, sym (some-injective (rw h at held)))
  | inr h ↦ inl (rw h at held)
]

-- What a call leaves in the cache is old, or what the table says after the call.
abbrev pub News : ℕ → CachedSessions → CachedSessions → Type 0
News t u v =
    (k : String) (e : Entry)
    → v.cache k ≡ some e
    → (u.cache k ≡ some e) ⊎ (e ≡ entry_at t (find_by_session_id k t v.sessions))

found-News :
    (read written : Bool) (id : String) (t : ℕ) (u : CachedSessions)
    → ((cached_find read written id t u).1.sessions ≡ u.sessions)
      × News t u (cached_find read written id t u).1
unfolding cached_find
found-News read written id t u =
    elim (Option-cases (hit read (live (λ e. e.expires_at) t (u.cache id)))) [
      | inr (answer, h) ↦ rw (h, cached_find) (refl, λ k e held. inl held)
      | inl h ↦
          rw (h, cached_find)
            (elim (Bool-cases written) [
              | inr w ↦ rw w (refl, λ k e held. inl held)
              | inl w ↦ rw w (
                refl,
                (λ k e held.
                    elim (put-news id k e (entry_at t (find_by_session_id id t u.sessions)) u.cache
                      held) [
                        | inl old ↦ inl old
                        | inr (same, new) ↦ inr (
                            new
                            ∙ ap (λ x. entry_at t (find_by_session_id x t u.sessions)) (sym same))
                      ]),
              )
            ])
    ]

-- A rotation that matched leaves the rotated row in the cache, or no new entry.
cache_session-news :
    (written reached : Bool) (id expected : String) (t : ℕ) (r : Rotation) (u : CachedSessions)
    (sessions : Sessions)
    → UniqueSessions u.sessions
    → UniqueSessions sessions
    → sessions
      ≡ map (λ s. if s.id == id && s.current_jti == expected then rotated r s else s) u.sessions
    → any (λ s. s.id == id && s.current_jti == expected) u.sessions ≡ true
    → ((cache_session written reached id t r (record u { sessions = sessions })).sessions
        ≡ sessions)
      × ((k : String) (e : Entry)
          → (cache_session written reached id t r (record u { sessions = sessions })).cache k
            ≡ some e
          → (u.cache k ≡ some e) ⊎ (e ≡ entry_at t (find_by_session_id k t sessions)))
unfolding cache_session
cache_session-news written reached id expected t r u sessions before unique is matched =
    let v : CachedSessions = record u { sessions = sessions } in
    let deleted : ((delete_key reached id v).sessions ≡ sessions)
        × ((k : String) (e : Entry)
            → (delete_key reached id v).cache k ≡ some e
            → (u.cache k ≡ some e) ⊎ (e ≡ entry_at t (find_by_session_id k t sessions))) =
      (
        delete_key-sessions reached id v,
        (λ k e held. inl (delete_key-old reached id v k e held)),
      ) in
    elim (Option-cases (find_by_session_id id t sessions)) [
      | inl h ↦ rw (h, cache_session) deleted
      | inr (full, h) ↦
          rw (h, cache_session)
            (elim (Bool-cases written) [
              | inr w ↦ rw w deleted
              | inl w ↦ rw w (
                refl,
                (λ k e held.
                    elim (put-news id k e (entry_at t (some (rotated r full))) u.cache held) [
                      | inl old ↦ inl old
                      | inr (same, new) ↦ inr (
                          new
                          ∙ ap (λ x. entry_at t x)
                              (again full h
                                ∙ sym h
                                ∙ ap (λ x. find_by_session_id x t sessions) (sym same)))
                    ]),
              )
            ])
    ]
  where
    again :
        (full : AuthSession)
        → find_by_session_id id t sessions ≡ some full
        → some (rotated r full) ≡ some full
    again full h =
        let (s, held) = row-rotated id expected r u.sessions before matched in
        let alive_row : alive t (some (rotated r s)) ≡ some full =
          ap (alive t) (sym held ∙ ap (row id) (sym is))
          ∙ sym (find_by_session_id-row id t sessions unique)
          ∙ h in
        let its = alive-some t (rotated r s) alive_row in
        ap (λ x. some (rotated r x)) (sym its) ∙ ap (λ x. some x) its

updated-News :
    (written reached : Bool) (id expected : String) (t : ℕ) (r : Rotation) (u : CachedSessions)
    → UniqueSessions u.sessions
    → UniqueSessions (cached_update_current_jti written reached id expected t r u).1.sessions
      × News t u (cached_update_current_jti written reached id expected t r u).1
unfolding cached_update_current_jti update_current_jti_optimistic
updated-News written reached id expected t r u before =
    let f : AuthSession → AuthSession =
      λ s. if s.id == id && s.current_jti == expected then rotated r s else s in
    let after = UniqueSessions-map f u.sessions (λ s. ground arith) before in
    let v : CachedSessions = record u { sessions = map f u.sessions } in
    elim (Bool-cases (any (λ s. s.id == id && s.current_jti == expected) u.sessions)) [
      | inl h ↦
          let (same, news) =
            cache_session-news written reached id expected t r u (map f u.sessions) before after
              refl h in
          rw h (
            subst (λ l. UniqueSessions l) (sym same) after,
            λ k e held.
                subst (λ l. (u.cache k ≡ some e) ⊎ (e ≡ entry_at t (find_by_session_id k t l)))
                  (sym same) (news k e held),
          )
      | inr h ↦ rw h (
        subst (λ l. UniqueSessions l) (sym (delete_key-sessions reached id v)) after,
        (λ k e held. inl (delete_key-old reached id v k e held)),
      )
    ]

pub call-News :
    {t : ℕ} {u v : CachedSessions}
    → Call t u v
    → UniqueSessions u.sessions
    → UniqueSessions v.sessions × News t u v
unfolding cached_create create_session cached_extend_expiry extend_expiry cached_revoke_by_id
    revoke_by_id cached_revoke_all_for_user revoke_all_for_user cached_revoke_by_family_id
    revoke_by_family_id
call-News (created id user family jti expires_at fresh) unique =
    ((fresh, unique), λ k e held. inl held)
call-News {u} (extended reached id expires_at) unique =
    let v : CachedSessions = record u { sessions = extend_expiry id expires_at u.sessions } in
    (
      subst (λ l. UniqueSessions l) (sym (delete_key-sessions reached id v))
          (UniqueSessions-map (λ s. if s.id == id then record s { expires_at = expires_at } else s)
            u.sessions (λ s. ground arith) unique),
      (λ k e held. inl (delete_key-old reached id v k e held)),
    )
call-News {u} (revoked reached id) unique =
    let v : CachedSessions = record u { sessions = revoke_by_id id u.sessions } in
    (
      subst (λ l. UniqueSessions l) (sym (delete_key-sessions reached id v))
          (UniqueSessions-filter _ u.sessions unique),
      (λ k e held. inl (delete_key-old reached id v k e held)),
    )
call-News {u} (revoked_user user) unique =
    (UniqueSessions-filter _ u.sessions unique, λ k e held. inl held)
call-News {u} (revoked_family family) unique =
    (UniqueSessions-filter _ u.sessions unique, λ k e held. inl held)
call-News {t} {u} (updated written reached id expected r) unique =
    updated-News written reached id expected t r u unique
call-News {t} {u} (found read written id) unique =
    let (same, news) = found-News read written id t u in
    (subst (λ l. UniqueSessions l) (sym same) unique, news)
