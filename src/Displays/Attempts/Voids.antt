-- ===== src/Displays/Attempts/Voids.antt =====
-- When a code is good no longer.
use wildfire.Base.{
  ℕ, ◌+◌, ◌≡◌, ◌≢◌, ◌<◌, refl, ap, ◌∙◌, true, false, String, ◌==◌, eq_refl, none, some,
}
use wildfire.Redis.{put}
use wildfire.Displays.Attempts.{
  Attempt, Pointer, AttemptStore, AttemptCode, has_code, is_closed, drop_code, close_hash,
  attempt_at, open_at, replace_open, put_attempt, create_or_replace_open_attempt, with_code,
  rotate_code, close_attempt, consume_code_hash, code_expiry, get_attempt_ttl_ms, non_empty,
  dropped_code,
}
use wildfire.Displays.Attempts.Index.{differ}
use wildfire.Displays.Attempts.Invariant.{IsCode}
use wildfire.Displays.Attempts.Codes.{no_entry, good_code}

drop_code-codes :
    (a : Attempt) (st : AttemptStore)
    → has_code a ≡ true
    → (drop_code a st).codes a.active_code_hash ≡ none
drop_code-codes a st has = rw has (rw (eq_refl a.active_code_hash) refl)

replace_open-codes :
    (owner : String) (now clock : ℕ) (st : AttemptStore) (p : Pointer) (a : Attempt)
    → open_at owner clock st ≡ some p
    → attempt_at p.attempt_id clock st ≡ some a
    → p.attempt_id ≢ ""
    → a.owner_id ≢ ""
    → has_code a ≡ true
    → (replace_open owner now clock st).1.codes a.active_code_hash ≡ none
unfolding replace_open
replace_open-codes owner now clock st p a e f n o has =
    rw (e, replace_open)
      (rw (differ p.attempt_id "" n)
        (rw f (rw (differ a.owner_id "" o) (drop_code-codes a st has))))

-- A new attempt voids the code of the attempt that its owner had open: whenever that code is
-- consumed from then on, it gives nothing.
pub create_or_replace_open_attempt-voids :
    (id owner : String) (code : AttemptCode) (now clock now' clock' : ℕ) (st : AttemptStore)
    (p : Pointer) (a : Attempt)
    → open_at owner clock st ≡ some p
    → attempt_at p.attempt_id clock st ≡ some a
    → p.attempt_id ≢ ""
    → a.owner_id ≢ ""
    → has_code a ≡ true
    → a.active_code_hash ≢ code.code_hash
    → (consume_code_hash a.active_code_hash now' clock'
        (create_or_replace_open_attempt id owner code now clock st).1).0
      ≡ none
unfolding create_or_replace_open_attempt
create_or_replace_open_attempt-voids id owner code now clock now' clock' st p a e f n o has other =
    no_entry a.active_code_hash now' clock' _ (
      rw (differ a.active_code_hash code.code_hash other)
        (replace_open-codes owner now clock st p a e f n o has))

dropped_code-has : (a : Attempt) → has_code a ≡ true → dropped_code a ≡ a.active_pairing_code_id
dropped_code-has a has = rw has refl

rotate_code-open :
    (id owner : String) (code : AttemptCode) (now clock : ℕ) (st : AttemptStore) (a : Attempt)
    → attempt_at id clock st ≡ some a
    → a.id ≡ id
    → id ≢ ""
    → a.owner_id ≡ owner
    → is_closed a ≡ false
    → has_code a ≡ true
    → rotate_code id owner code now clock st ≡ (
      some (non_empty a.active_pairing_code_id),
      put_attempt id id owner code clock (with_code code now clock a) (drop_code a st),
    )
unfolding rotate_code
rotate_code-open id owner code now clock st a e own n by unclosed has =
    let named : (a.id == "") ≡ false = rw own (differ id "" n) in
    let owned : (a.owner_id == owner) ≡ true = rw by (eq_refl owner) in
    rw (e, rotate_code)
      (rw (named, owned, unclosed)
        (ap
            (λ c. (
              some (non_empty c),
              put_attempt id a.id owner code clock (with_code code now clock a) (drop_code a st),
            ))
            (dropped_code-has a has)
          ∙ ap
              (λ k. (
                some (non_empty a.active_pairing_code_id),
                put_attempt id k owner code clock (with_code code now clock a) (drop_code a st),
              ))
              own))

close_attempt-open :
    (id owner : String) (now clock : ℕ) (st : AttemptStore) (a : Attempt)
    → attempt_at id clock st ≡ some a
    → a.owner_id ≡ owner
    → is_closed a ≡ false
    → has_code a ≡ true
    → close_attempt id owner now clock st ≡ (
      some (non_empty a.active_pairing_code_id),
      (record (close_hash id now clock a st) {
        open_attempts = put owner none (close_hash id now clock a st).open_attempts;
      }),
    )
unfolding close_attempt
close_attempt-open id owner now clock st a e by unclosed has =
    let owned : (a.owner_id == owner) ≡ true = rw by (eq_refl owner) in
    rw (e, close_attempt)
      (rw (owned, unclosed)
        (ap
          (λ c. (
            some (non_empty c),
            (record (close_hash id now clock a st) {
              open_attempts = put owner none (close_hash id now clock a st).open_attempts;
            }),
          ))
          (dropped_code-has a has)))

-- Rotating the code of an owner's open attempt voids the old code and reports its
-- pairing code, and the new code is good until it expires.
pub rotate_code-exchanges :
    (id owner : String) (code : AttemptCode) (now clock now' clock' : ℕ) (st : AttemptStore)
    (a : Attempt)
    → attempt_at id clock st ≡ some a
    → a.id ≡ id
    → id ≢ ""
    → a.owner_id ≡ owner
    → owner ≢ ""
    → is_closed a ≡ false
    → has_code a ≡ true
    → IsCode code
    → a.active_code_hash ≢ code.code_hash
    → ((rotate_code id owner code now clock st).0 ≡ some (non_empty a.active_pairing_code_id))
      × ((consume_code_hash a.active_code_hash now' clock'
            (rotate_code id owner code now clock st).1).0
          ≡ none)
      × (clock' < code_expiry code.expires_at_ms
          → clock' < clock + get_attempt_ttl_ms now code.expires_at_ms
          → now' < code.expires_at_ms
          → (consume_code_hash code.code_hash now' clock'
              (rotate_code id owner code now clock st).1).0
            ≡ some (id, code.pairing_code_id))
rotate_code-exchanges id owner code now clock now' clock' st a e own n by o unclosed has c other =
    let after = put_attempt id id owner code clock (with_code code now clock a) (drop_code a st) in
    let done : rotate_code id owner code now clock st
        ≡ (some (non_empty a.active_pairing_code_id), after) =
      rotate_code-open id owner code now clock st a e own n by unclosed has in
    rw done (
      refl,
      no_entry a.active_code_hash now' clock' after
          (rw (differ a.active_code_hash code.code_hash other) (drop_code-codes a st has)),
      (λ b1 b2 b3.
          good_code id owner code now clock now' clock' (with_code code now clock a)
            (drop_code a st) c n (rw by o) unclosed refl refl refl b1 b2 b3),
    )

-- Closing an open attempt voids its code.
close_attempt-voids :
    (id owner : String) (now clock now' clock' : ℕ) (st : AttemptStore) (a : Attempt)
    → attempt_at id clock st ≡ some a
    → a.owner_id ≡ owner
    → is_closed a ≡ false
    → has_code a ≡ true
    → ((close_attempt id owner now clock st).0 ≡ some (non_empty a.active_pairing_code_id))
      × ((consume_code_hash a.active_code_hash now' clock'
            (close_attempt id owner now clock st).1).0
          ≡ none)
close_attempt-voids id owner now clock now' clock' st a e by unclosed has =
    let after : AttemptStore = record (close_hash id now clock a st) {
      open_attempts = put owner none (close_hash id now clock a st).open_attempts;
    } in
    let done : close_attempt id owner now clock st
        ≡ (some (non_empty a.active_pairing_code_id), after) =
      close_attempt-open id owner now clock st a e by unclosed has in
    rw done (refl, no_entry a.active_code_hash now' clock' after (drop_code-codes a st has))
