-- ===== src/Auth/Cached/Stale.antt =====
-- Answers of the cached repository are less than sixty seconds old, whatever Redis does.
use wildfire.Base.{
  ℕ, ◌+◌, ◌*◌, ◌<◌, ◌≡◌, refl, sym, ◌∙◌, ◌⊎◌, inl, inr, String, Bool, none, arith, Option-cases,
  none≢some,
}
use wildfire.Redis.{live}
use wildfire.Auth.Sessions.{find_by_session_id}
use wildfire.Auth.Cached.{CachedSessions, hit, cached_find}
use wildfire.Auth.Cached.Rows.{UniqueSessions}
use wildfire.Auth.Cached.Coherence.{hit-entry}
use wildfire.Auth.Cached.Bounded.{
  Run, IsBounded, IsBounded-waits, IsBounded-calls, here, waits, calls,
}
use wildfire.Auth.Cached.News.{call-News}

Run-IsBounded :
    {start : ℕ} {st : CachedSessions} {t : ℕ} {u : CachedSessions}
    → UniqueSessions st.sessions
    → ((id : String) → st.cache id ≡ none)
    → Run start st t u
    → IsBounded start st t u
Run-IsBounded unique empty here = record {
  unique = unique;
  entries = λ id e held. absurd (none≢some (sym (empty id) ∙ held));
}
Run-IsBounded {start} {st} unique empty (waits {t} {t'} {u} r later) =
    IsBounded-waits start st t t' u later (Run-IsBounded unique empty r)
Run-IsBounded {start} {st} unique empty (calls {t} {u} {v} r c) =
    let b = Run-IsBounded unique empty r in
    let (after, news) = call-News c b.unique in IsBounded-calls start st t u v r b c after news

-- Whatever calls are made from an empty cache on, and whichever commands to Redis fail: what the
-- cached repository finds is what the table says, or what it said at a moment of the run less than
-- sixty seconds ago.
pub Run-cached_find :
    {start : ℕ} {st : CachedSessions} {t : ℕ} {u : CachedSessions} (read written : Bool)
    (id : String)
    → UniqueSessions st.sessions
    → ((k : String) → st.cache k ≡ none)
    → Run start st t u
    → ((cached_find read written id t u).0 ≡ find_by_session_id id t u.sessions)
      ⊎ ((at : ℕ) × (v : CachedSessions) × Run start st at v
          × Run at v t u
          × (t < at + 60 * 1000)
          × ((cached_find read written id t u).0 ≡ find_by_session_id id at v.sessions))
unfolding cached_find
Run-cached_find {t} {u} read written id unique empty r =
    let b = Run-IsBounded unique empty r in
    elim (Option-cases (hit read (live (λ e. e.expires_at) t (u.cache id)))) [
      | inl h ↦ inl (rw (h, cached_find) refl)
      | inr (answer, h) ↦
          let (e, held, same, lives) = hit-entry read t (u.cache id) h in
          let f = b.entries id e held in
          inr (
            f.at,
            f.then_was,
            f.until_then,
            f.since_then,
            omega (arith, lives, f.short),
            rw (h, cached_find) (sym same ∙ f.says),
          )
    ]
