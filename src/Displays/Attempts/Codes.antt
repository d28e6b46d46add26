-- ===== src/Displays/Attempts/Codes.antt =====
-- What a code is good for, and until when.
use wildfire.Base.{
  none≢some, ℕ, ◌+◌, ◌≡◌, ◌≢◌, ◌<◌, refl, ap, ◌⊎◌, inl, inr, true, false, String, eq_refl, none,
  some, arith, Option-cases, leb, ltb,
}
use wildfire.Displays.Attempts.{
  Attempt, Pointer, AttemptStore, AttemptCode, is_closed, attempt_at, code_at, replace_open,
  new_attempt, put_attempt, create_or_replace_open_attempt, consume_from, consume_code_hash,
  code_expiry, get_attempt_ttl_ms,
}
use wildfire.Displays.Attempts.Index.{differ}
use wildfire.Displays.Attempts.Invariant.{IsCode}

-- Without an index entry a code gives nothing.
pub no_entry :
    (h : String) (now clock : ℕ) (st : AttemptStore)
    → st.codes h ≡ none
    → (consume_code_hash h now clock st).0 ≡ none
unfolding consume_code_hash
no_entry h now clock st e = rw (e, consume_code_hash) refl

consume_from-codes :
    (h id : String) (now clock : ℕ) (a : Attempt) (st : AttemptStore) {r : String × String}
    → (consume_from h id now clock a st).0 ≡ some r
    → (consume_from h id now clock a st).1.codes h ≡ none
unfolding consume_from
consume_from-codes h id now clock a st e = ground (arith, eq_refl h)

-- A code is good once: whenever it is consumed again, it gives nothing.
pub consume_code_hash-once :
    (h : String) (now clock now' clock' : ℕ) (st : AttemptStore) {r : String × String}
    → (consume_code_hash h now clock st).0 ≡ some r
    → (consume_code_hash h now' clock' (consume_code_hash h now clock st).1).0 ≡ none
unfolding consume_code_hash
consume_code_hash-once h now clock now' clock' st {r} e =
    no_entry h now' clock' (consume_code_hash h now clock st).1
      (gone (Option-cases (code_at h clock st)))
  where
    gone :
        (code_at h clock st ≡ none) ⊎ ((p : Pointer) × (code_at h clock st ≡ some p))
        → (consume_code_hash h now clock st).1.codes h ≡ none
    gone (inl c) = absurd (none≢some (rw (c, consume_code_hash) at e))
    gone (inr (p, c)) =
        rw (c, consume_code_hash)
          (elim (Option-cases (attempt_at p.attempt_id clock st)) [
            | inl q ↦ rw q (rw (eq_refl h) refl)
            | inr (a, q) ↦ rw q (
                consume_from-codes h p.attempt_id now clock a st
                  (rw q at (rw (c, consume_code_hash) at e)))
          ])

-- The code of an attempt that holds it is good until it expires.
pub good_code :
    (id owner : String) (code : AttemptCode) (now clock now' clock' : ℕ) (a : Attempt)
    (st : AttemptStore)
    → IsCode code
    → id ≢ ""
    → a.owner_id ≢ ""
    → is_closed a ≡ false
    → a.active_code_hash ≡ code.code_hash
    → a.active_pairing_code_id ≡ code.pairing_code_id
    → a.active_code_expires_at_ms ≡ some code.expires_at_ms
    → clock' < code_expiry code.expires_at_ms
    → clock' < a.expires_at
    → now' < code.expires_at_ms
    → (consume_code_hash code.code_hash now' clock' (put_attempt id id owner code clock a st)).0
      ≡ some (id, code.pairing_code_id)
unfolding consume_code_hash consume_from
good_code id owner code now clock now' clock' a st c n o unclosed h p t b1 b2 b3 =
    let lt1 : ltb clock' (code_expiry code.expires_at_ms) ≡ true = ground arith in
    let lt2 : ltb clock' a.expires_at ≡ true = ground arith in
    let lt3 : leb code.expires_at_ms now' ≡ false = ground arith in
    rw (eq_refl code.code_hash, consume_code_hash)
      (rw lt1 (
        rw (eq_refl id) (
          rw lt2 (
            rw (differ a.owner_id "" o, unclosed)
              (rw (h, p)
                (rw (differ code.code_hash "" c.0, differ code.pairing_code_id "" c.1)
                  (rw t (
                    rw h (
                      rw (eq_refl code.code_hash, lt3, differ id "" n)
                        (ap (λ c. some (id, c)) p))))))))))

-- The code of a new attempt gives that attempt and its pairing code until it expires.
pub create_or_replace_open_attempt-consume :
    (id owner : String) (code : AttemptCode) (now clock now' clock' : ℕ) (st : AttemptStore)
    → IsCode code
    → id ≢ ""
    → owner ≢ ""
    → clock' < code_expiry code.expires_at_ms
    → clock' < clock + get_attempt_ttl_ms now code.expires_at_ms
    → now' < code.expires_at_ms
    → (consume_code_hash code.code_hash now' clock'
        (create_or_replace_open_attempt id owner code now clock st).1).0
      ≡ some (id, code.pairing_code_id)
unfolding create_or_replace_open_attempt
create_or_replace_open_attempt-consume id owner code now clock now' clock' st c n o b1 b2 b3 =
    good_code id owner code now clock now' clock' (new_attempt id owner code now clock)
      (replace_open owner now clock st).1 c n o refl refl refl refl b1 b2 b3
