-- ===== src/Auth/Cached/Revocation.antt =====
-- The revocation of a family's sessions does not reach the cache, which goes on answering.
use wildfire.Base.{
  ℕ, ◌+◌, ◌*◌, ◌<◌, ◌≡◌, refl, ap, sym, ◌∙◌, inl, inr, String, ◌==◌, Bool, true, false, not, Option,
  none, some, [], ◌∷◌, filter, arith, eq_iff, eq_refl, Bool-cases, some-injective, none≢some,
}
use wildfire.Redis.{put, live}
use wildfire.Auth.Sessions.{AuthSession, Sessions, revoke_by_family_id, find_by_session_id}
use wildfire.Auth.Cached.{CachedSessions, Entry, entry_at, cached_find, cached_revoke_by_family_id}
use wildfire.Auth.Cached.Rows.{
  row, alive, UniqueSessions, find_by_session_id-row, row-none_find, row-filter-none, alive-some,
}

family_dropped :
    (id : String) (family : String) (xs : Sessions) {s : AuthSession}
    → UniqueSessions xs
    → row id xs ≡ some s
    → s.family_id ≡ family
    → row id (filter (λ s. not (s.family_id == family)) xs) ≡ none
family_dropped id family [] u e f = refl
family_dropped id family (x ∷ xs) {s} u e f = elim (Bool-cases (x.id == id)) [
  | inl same ↦
      let gone : row id xs ≡ none = rw (sym ((eq_iff x.id id).0 same)) u.0 in
      let is_s : x ≡ s = some-injective (rw same at e) in
      let its : (x.family_id == family) ≡ true =
        ap (λ y. y.family_id == family) is_s ∙ (eq_iff s.family_id family).1 f in
      rw its (row-filter-none id (λ s. not (s.family_id == family)) xs gone)
  | inr other ↦
      let rest = family_dropped id family xs {s = s} u.1 (rw other at e) f in
      elim (Bool-cases (x.family_id == family)) [ inl h ↦ rw h rest | inr h ↦ rw h (rw other rest) ]
]

missed_state :
    (id : String) (t : ℕ) (read : Bool) (st : CachedSessions) {s : AuthSession}
    → live (λ e. e.expires_at) t (st.cache id) ≡ none
    → find_by_session_id id t st.sessions ≡ some s
    → (cached_find read true id t st).1
      ≡ record st { cache = put id (some (entry_at t (some s))) st.cache }
unfolding cached_find
missed_state id t true st nothing present = rw (nothing, cached_find) (rw present refl)
missed_state id t false st nothing present = rw present refl

live_hit :
    (id : String) (t : ℕ) (written : Bool) (st : CachedSessions) (e : Entry)
    → st.cache id ≡ some e
    → t < e.expires_at
    → (cached_find true written id t st).0 ≡ e.session
unfolding cached_find
live_hit id t written st e held lives =
    let alive_entry : live (λ e. e.expires_at) t (some e) ≡ some e = ground arith in
    rw (held, cached_find) (rw (alive_entry, cached_find) refl)

alive-row : (t : ℕ) (o : Option AuthSession) {s : AuthSession} → alive t o ≡ some s → o ≡ some s
alive-row t none e = absurd (none≢some e)
alive-row t (some x) e = ap (λ y. some y) (alive-some t x e)

-- A session that was read into the cache at `t0` and whose family is revoked after that is found
-- for sixty seconds from `t0` on, where Redis answers, though the table has no such session.
pub revoked_family-found :
    (id : String) (t0 t : ℕ) (read written : Bool) (st : CachedSessions) {s : AuthSession}
    → UniqueSessions st.sessions
    → live (λ e. e.expires_at) t0 (st.cache id) ≡ none
    → find_by_session_id id t0 st.sessions ≡ some s
    → t < t0 + 60 * 1000
    → ((cached_find true written id t
          (cached_revoke_by_family_id s.family_id (cached_find read true id t0 st).1).1).0
        ≡ some s)
      × (find_by_session_id id t
            (cached_revoke_by_family_id s.family_id (cached_find read true id t0 st).1).1.sessions
          ≡ none)
unfolding cached_revoke_by_family_id revoke_by_family_id
revoked_family-found id t0 t read written st {s} unique nothing present early =
    let cached = missed_state id t0 read st nothing present in
    let held =
      alive-row t0 (row id st.sessions)
        (sym (find_by_session_id-row id t0 st.sessions unique) ∙ present) in
    rw cached (
      live_hit id t written
          (record {
            sessions = filter (λ x. not (x.family_id == s.family_id)) st.sessions;
            cache = put id (some (entry_at t0 (some s))) st.cache;
          })
          (entry_at t0 (some s)) (rw (eq_refl id) refl) early,
      row-none_find id t _ (family_dropped id s.family_id st.sessions {s = s} unique held refl),
    )
