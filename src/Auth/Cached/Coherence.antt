-- ===== src/Auth/Cached/Coherence.antt =====
-- As long as every `DEL` goes through and no session of a cached id is created, the cached
-- repository answers as the table does, but for the revocations of a user's or a family's sessions.
use wildfire.Base.{
  ℕ, ◌≤◌, ◌≡◌, refl, ap, sym, ◌∙◌, inl, inr, String, ◌==◌, Bool, true, false, not, ◌&&◌, Option,
  none, some, map, filter, any, ltb, arith, if◌then◌else◌, eq_iff, Bool-cases, Option-cases,
  some-injective, none≢some, ltb→lt, ◌<◌,
}
use wildfire.Redis.{put, live}
use wildfire.Auth.Sessions.{
  AuthSession, Sessions, Rotation, rotated, create_session, extend_expiry, revoke_by_id,
  find_by_session_id, update_current_jti_optimistic,
}
use wildfire.Auth.Cached.{
  CachedSessions, Entry, entry_at, hit, delete_key, cached_create, cached_extend_expiry,
  cached_revoke_by_id, cached_find, cache_session, cached_update_current_jti,
}
use wildfire.Auth.Cached.Rows.{
  row, alive, UniqueSessions, alive_later, find_by_session_id-row, row-map_other, row-filter_kept,
  UniqueSessions-filter, UniqueSessions-map, row-rotated, alive-some,
}

-- From `now` on, every entry, while its session lives, says what the table says.
pub record IsCoherent (now : ℕ) (st : CachedSessions) : Type 0 where
  pub unique : UniqueSessions st.sessions
  pub agrees :
      (id : String) (e : Entry)
      → st.cache id ≡ some e
      → (t : ℕ) → now ≤ t
      → alive t e.session ≡ alive t (row id st.sessions)

-- A call at the time `now`; `DEL` goes through, other commands may fail. A new session's id is fresh.
pub data Step (now : ℕ) (st : CachedSessions) : CachedSessions → Type 0 where
  created :
      (id user family jti : String) (expires_at : ℕ)
      → row id st.sessions ≡ none
      → st.cache id ≡ none
      → Step now st (cached_create id user expires_at family jti st)
  extended :
      (id : String) (expires_at : ℕ) → Step now st (cached_extend_expiry true id expires_at st)
  revoked : (id : String) → Step now st (cached_revoke_by_id true id st)
  updated :
      (written : Bool) (id expected : String) (r : Rotation)
      → Step now st (cached_update_current_jti written true id expected now r st).1
  found : (read written : Bool) (id : String) → Step now st (cached_find read written id now st).1

-- Calls at times that do not fall.
pub data Reach (start : ℕ) (st : CachedSessions) : ℕ → CachedSessions → Type 0 where
  here : Reach start st start st
  next :
      {t t' : ℕ} {u v : CachedSessions}
      → Reach start st t u
      → t ≤ t'
      → Step t' u v
      → Reach start st t' v

module _ (now : ℕ) (st : CachedSessions) (inv : IsCoherent now st) where
  -- One key is written, and only the row of that id may have changed.
  put-IsCoherent :
      (id : String) (value : Option Entry) (sessions : Sessions)
      → UniqueSessions sessions
      → ((other : String) → (other == id) ≡ false → row other sessions ≡ row other st.sessions)
      → ((e : Entry)
          → value ≡ some e
          → (t : ℕ) → now ≤ t
          → alive t e.session ≡ alive t (row id sessions))
      → IsCoherent now (record { sessions = sessions; cache = put id value st.cache })
  put-IsCoherent id value sessions u same says = record {
    unique = u;
    agrees = λ k e held t later. elim (Bool-cases (k == id)) [
      | inl h ↦
          let mine : value ≡ some e = rw h at held in rw ((eq_iff k id).0 h) (says e mine t later)
      | inr h ↦
          let old : st.cache k ≡ some e = rw h at held in rw (same k h) (inv.agrees k e old t later)
    ];
  }

  forgotten :
      (id : String) (sessions : Sessions)
      → UniqueSessions sessions
      → ((other : String) → (other == id) ≡ false → row other sessions ≡ row other st.sessions)
      → IsCoherent now (record { sessions = sessions; cache = put id none st.cache })
  forgotten id sessions u same =
      put-IsCoherent id none sessions u same (λ e h. absurd (none≢some h))

  created-IsCoherent :
      (id user family jti : String) (expires_at : ℕ)
      → row id st.sessions ≡ none
      → st.cache id ≡ none
      → IsCoherent now (cached_create id user expires_at family jti st)
  unfolding cached_create create_session
  created-IsCoherent id user family jti expires_at no_row no_entry = record {
    unique = (no_row, inv.unique);
    agrees = λ k e held t later. elim (Bool-cases (id == k)) [
      | inl h ↦
          let none_there : st.cache k ≡ none = rw ((eq_iff id k).0 h) at no_entry in
          absurd (none≢some (sym none_there ∙ held))
      | inr h ↦ rw h (inv.agrees k e held t later)
    ];
  }

  extended-IsCoherent :
      (id : String) (expires_at : ℕ) → IsCoherent now (cached_extend_expiry true id expires_at st)
  unfolding cached_extend_expiry extend_expiry delete_key
  extended-IsCoherent id expires_at =
      let f : AuthSession → AuthSession =
        λ s. if s.id == id then record s { expires_at = expires_at } else s in
      let keeps : (s : AuthSession) → (f s).id ≡ s.id = λ s. ground arith in
      forgotten id (map f st.sessions) (UniqueSessions-map f st.sessions keeps inv.unique)
        (λ other h. row-map_other other id f st.sessions keeps (λ s e. rw e refl) h)

  revoked-IsCoherent : (id : String) → IsCoherent now (cached_revoke_by_id true id st)
  unfolding cached_revoke_by_id revoke_by_id delete_key
  revoked-IsCoherent id =
      forgotten id (filter (λ s. not (s.id == id)) st.sessions)
        (UniqueSessions-filter _ st.sessions inv.unique)
        (λ other h.
          row-filter_kept other (λ s. not (s.id == id)) st.sessions (λ s e. rw (e, h) refl))

  found-IsCoherent :
      (read written : Bool) (id : String) → IsCoherent now (cached_find read written id now st).1
  unfolding cached_find
  found-IsCoherent read written id =
      elim (Option-cases (hit read (live (λ e. e.expires_at) now (st.cache id)))) [
        | inr (answer, h) ↦ rw (h, cached_find) inv
        | inl h ↦
            rw (h, cached_find)
              (elim (Bool-cases written) [
                | inr w ↦ rw w inv
                | inl w ↦ rw w (
                    put-IsCoherent id (some (entry_at now (find_by_session_id id now st.sessions)))
                      st.sessions inv.unique (λ other _. refl)
                      (λ e held t later.
                        ap (λ x. alive t x.session) (sym (some-injective held))
                        ∙ ap (alive t) (find_by_session_id-row id now st.sessions inv.unique)
                        ∙ alive_later now t (row id st.sessions) later))
              ])
      ]

  rotation-IsCoherent :
      (written : Bool) (id expected : String) (r : Rotation)
      → any (λ s. s.id == id && s.current_jti == expected) st.sessions ≡ true
      → (sessions : Sessions)
      → sessions
        ≡ map (λ s. if s.id == id && s.current_jti == expected then rotated r s else s) st.sessions
      → UniqueSessions sessions
      → ((other : String) → (other == id) ≡ false → row other sessions ≡ row other st.sessions)
      → IsCoherent now (cache_session written true id now r (record st { sessions = sessions }))
  unfolding cache_session delete_key
  rotation-IsCoherent written id expected r hit_row sessions is u same =
      let (s, is_row) = row-rotated id expected r st.sessions inv.unique hit_row in
      let now_row : row id sessions ≡ some (rotated r s) = rw is is_row in
      elim (Option-cases (find_by_session_id id now sessions)) [
        | inl h ↦ rw (h, cache_session) (forgotten id sessions u same)
        | inr (full, h) ↦
            rw (h, cache_session)
              (elim (Bool-cases written) [
                | inr w ↦ rw w (forgotten id sessions u same)
                | inl w ↦ rw w (
                    put-IsCoherent id (some (entry_at now (some (rotated r full)))) sessions u same
                      (λ e held t later.
                        let read : alive now (some (rotated r s)) ≡ some full =
                          ap (alive now) (sym now_row)
                          ∙ sym (find_by_session_id-row id now sessions u)
                          ∙ h in
                        ap (λ x. alive t x.session) (sym (some-injective held))
                        ∙ ap (λ x. alive t (some (rotated r x)))
                            (sym (alive-some now (rotated r s) read))
                        ∙ ap (alive t) (sym now_row)))
              ])
      ]

  updated-IsCoherent :
      (written : Bool) (id expected : String) (r : Rotation)
      → IsCoherent now (cached_update_current_jti written true id expected now r st).1
  unfolding cached_update_current_jti update_current_jti_optimistic delete_key
  updated-IsCoherent written id expected r =
      let f : AuthSession → AuthSession =
        λ s. if s.id == id && s.current_jti == expected then rotated r s else s in
      let keeps : (s : AuthSession) → (f s).id ≡ s.id = λ s. ground arith in
      let u = UniqueSessions-map f st.sessions keeps inv.unique in
      let same : (other : String)
          → (other == id) ≡ false
          → row other (map f st.sessions) ≡ row other st.sessions =
        λ other h. row-map_other other id f st.sessions keeps (λ s e. rw e refl) h in
      elim (Bool-cases (any (λ s. s.id == id && s.current_jti == expected) st.sessions)) [
        | inr h ↦ rw h (forgotten id (map f st.sessions) u same)
        | inl h ↦ rw h (rotation-IsCoherent written id expected r h (map f st.sessions) refl u same)
      ]

Step-IsCoherent :
    {now : ℕ} {st st' : CachedSessions} → Step now st st' → IsCoherent now st → IsCoherent now st'
Step-IsCoherent {now} {st} (created id user family jti expires_at p q) inv =
    created-IsCoherent now st inv id user family jti expires_at p q
Step-IsCoherent {now} {st} (extended id expires_at) inv =
    extended-IsCoherent now st inv id expires_at
Step-IsCoherent {now} {st} (revoked id) inv = revoked-IsCoherent now st inv id
Step-IsCoherent {now} {st} (updated written id expected r) inv =
    updated-IsCoherent now st inv written id expected r
Step-IsCoherent {now} {st} (found read written id) inv = found-IsCoherent now st inv read written id

later-IsCoherent : (t t' : ℕ) (st : CachedSessions) → t ≤ t' → IsCoherent t st → IsCoherent t' st
later-IsCoherent t t' st h inv = record {
  unique = inv.unique;
  agrees = λ id e held u later. inv.agrees id e held u (omega (arith, h, later));
}

Reach-IsCoherent :
    {start : ℕ} {st : CachedSessions} {t : ℕ} {u : CachedSessions}
    → Reach start st t u
    → IsCoherent start st
    → IsCoherent t u
Reach-IsCoherent here inv = inv
Reach-IsCoherent (next {t} {t'} {u} r h s) inv =
    Step-IsCoherent s (later-IsCoherent t t' u h (Reach-IsCoherent r inv))

pub hit-entry :
    (read : Bool) (t : ℕ) (c : Option Entry) {answer : Option AuthSession}
    → hit read (live (λ e. e.expires_at) t c) ≡ some answer
    → (e : Entry) × (c ≡ some e) × (e.session ≡ answer) × (t < e.expires_at)
hit-entry false t c h = absurd (none≢some h)
hit-entry true t none h = absurd (none≢some h)
hit-entry true t (some e) h = elim (Bool-cases (ltb t e.expires_at)) [
  | inl lives ↦ (e, refl, some-injective (rw lives at h), ltb→lt t e.expires_at lives)
  | inr over ↦ absurd (none≢some (rw over at h))
]

-- From a coherent state on, after any creations of sessions whose ids have neither row nor entry,
-- and any extensions, revocations by id, rotations and reads whose `DEL` goes through: a session
-- that the cached repository finds is, while it has not expired, the one that the table holds, and
-- what it does not find the table does not hold, whether Redis answers the read or not.
pub Reach-cached_find :
    {start : ℕ} {st : CachedSessions} {t : ℕ} {u : CachedSessions} (read written : Bool)
    (id : String) (t' : ℕ)
    → IsCoherent start st
    → Reach start st t u
    → t ≤ t'
    → alive t' (cached_find read written id t' u).0 ≡ find_by_session_id id t' u.sessions
unfolding cached_find
Reach-cached_find {t} {u} read written id t' inv r later =
    let now = later-IsCoherent t t' u later (Reach-IsCoherent r inv) in
    let in_table = find_by_session_id-row id t' u.sessions now.unique in
    elim (Option-cases (hit read (live (λ e. e.expires_at) t' (u.cache id)))) [
      | inl h ↦
          rw (h, cached_find) (rw in_table (alive_later t' t' (row id u.sessions) (omega arith)))
      | inr (answer, h) ↦
          let (e, held, same, _) = hit-entry read t' (u.cache id) h in
          rw (h, cached_find)
            (ap (alive t') (sym same) ∙ now.agrees id e held t' (omega arith) ∙ sym in_table)
    ]
