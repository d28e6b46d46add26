-- ===== src/Auth/Throttle/Window.antt =====
-- A series of requests to an endpoint against its limit.
use wildfire.Base.{
  ℕ, ◌+◌, ◌-◌, ◌*◌, ◌≤◌, ◌<◌, ◌≡◌, refl, ap, ◌⊎◌, inl, inr, String, eq_refl, Option, none, some,
  List, [], ◌∷◌, suc, min, length, leb, arith, if◌then◌else◌,
}
use wildfire.Auth.Throttle.{
  Attempts, SecurityStore, if_live, window_start, endpoint_hash, sanitize_ttl_ms,
  consume_endpoint_attempt_with_stats, consume_endpoint_attempt,
}
use wildfire.Auth.Throttle.Lockout.{InOrder}

-- How many of the requests are let through.
abbrev pub count_allowed : String → ℕ → ℕ → List ℕ → SecurityStore → ℕ
count_allowed key window max_attempts [] st = 0
count_allowed key window max_attempts (t ∷ ts) st =
    let (allowed, st') = consume_endpoint_attempt key window max_attempts t t st in
    (if allowed then 1 else 0) + count_allowed key window max_attempts ts st'

abbrev pub attempts : ℕ → ℕ → ℕ → ℕ → Attempts
attempts window first count last = record {
  first_attempt_at_ms = first;
  attempt_count = count;
  locked_until_ms = none;
  expires_at = last + sanitize_ttl_ms (window * 1000 * 2);
}

pub endpoint_hash-again :
    (window first count last t : ℕ)
    → first ≤ last
    → last ≤ t
    → t ≤ first + window * 1000
    → endpoint_hash window t t (if_live t (some (attempts window first count last)))
      ≡ attempts window first (suc count) t
unfolding endpoint_hash window_start
endpoint_hash-again window first count last t a b c = ground arith

-- A key without a hash, or with one whose window is over.
pub endpoint_hash-first :
    (window t : ℕ) (h : Option Attempts)
    → (h ≡ none) ⊎ ((a : Attempts) × (h ≡ some a) × (a.first_attempt_at_ms + window * 1000 < t))
    → endpoint_hash window t t h ≡ attempts window t 1 t
unfolding endpoint_hash window_start
endpoint_hash-first window t none e = refl
endpoint_hash-first window t (some h) (inl e) = absurd (cc)
endpoint_hash-first window t (some h) (inr (a, e, over)) =
    let started : h.first_attempt_at_ms ≡ a.first_attempt_at_ms =
      ap (λ o. elim o [ none ↦ 0 | some b ↦ b.first_attempt_at_ms ]) e in
    ground arith

pub consume-hash :
    (key : String) (window max_attempts t : ℕ) (st : SecurityStore) (h : Attempts)
    → endpoint_hash window t t (if_live t (st.endpoint_attempts key)) ≡ h
    → ((consume_endpoint_attempt key window max_attempts t t st).0
        ≡ leb h.attempt_count max_attempts)
      × ((consume_endpoint_attempt key window max_attempts t t st).1.endpoint_attempts key ≡ some h)
unfolding consume_endpoint_attempt consume_endpoint_attempt_with_stats
consume-hash key window max_attempts t st h e = rw e (refl, rw (eq_refl key) refl)

count_allowed-attempts :
    (key : String) (window max_attempts first count last : ℕ) (ts : List ℕ) (st : SecurityStore)
    → first ≤ last
    → st.endpoint_attempts key ≡ some (attempts window first count last)
    → InOrder last (first + window * 1000) ts
    → count_allowed key window max_attempts ts st ≡ min (max_attempts - count) (length ts)
count_allowed-attempts key window m first count last [] st a h o = ground arith
count_allowed-attempts key window m first count last (t ∷ ts) st a h o =
    let (answer, hash) =
      consume-hash key window m t st (attempts window first (suc count) t)
        (rw h (endpoint_hash-again window first count last t a o.0 o.1)) in
    let rest =
      count_allowed-attempts key window m first (suc count) t ts
        (consume_endpoint_attempt key window m t t st).1 (omega arith) hash o.2 in
    rw (answer, rest) (ground arith)

-- In a window that starts with its first request, where no hash of the key is live or the window
-- of that hash is over, exactly as many requests pass as the limit says, or all where fewer are made.
pub count_allowed_in_window :
    (key : String) (window max_attempts t : ℕ) (ts : List ℕ) (st : SecurityStore)
    → (if_live t (st.endpoint_attempts key) ≡ none)
      ⊎ ((a : Attempts) × (if_live t (st.endpoint_attempts key) ≡ some a)
          × (a.first_attempt_at_ms + window * 1000 < t))
    → InOrder t (t + window * 1000) ts
    → count_allowed key window max_attempts (t ∷ ts) st ≡ min max_attempts (suc (length ts))
count_allowed_in_window key window m t ts st fresh o =
    let (answer, hash) =
      consume-hash key window m t st (attempts window t 1 t)
        (endpoint_hash-first window t (if_live t (st.endpoint_attempts key)) fresh) in
    let rest =
      count_allowed-attempts key window m t 1 t ts (consume_endpoint_attempt key window m t t st).1
        (omega arith) hash o in
    rw (answer, rest) (ground arith)
