-- ===== src/Displays/Attempts/Invariant.antt =====
-- What holds of the attempts' keys between two calls of the store.
use wildfire.Base.{
  ℕ, ◌≡◌, ◌≢◌, refl, sym, subst, inl, inr, true, false, not, ◌&&◌, ◌||◌, String, ◌==◌, eq_iff, none,
  some, arith, Bool-cases, Option-cases, leb,
}
use wildfire.Displays.Attempts.{
  Attempt, AttemptStore, AttemptCode, has_code, is_closed, drop_code, attempt_at, code_at,
  replace_open, new_attempt, put_attempt, create_or_replace_open_attempt, with_code, rotate_code,
  close_attempt, without_code, use_code, forget_code, consume_from, consume_code_hash,
}
use wildfire.Displays.Attempts.Index.{
  Unindexed, differ, forget_code-IsIndexed, put-IsIndexed, fresh-Unindexed, drop_code-Unindexed,
  drop_code-IsIndexed, live-some, put_attempt-IsIndexed, replace_open-IsIndexed,
}
use wildfire.Displays.Attempts.Sound.{
  put-IsKeyed, drop_code-attempts, IsKeyed-same, close_hash-IsSound, replace_open-IsKeyed,
  replace_open-fresh, IsSound,
}

-- A code that has a text, with its pairing code.
abbrev pub IsCode : AttemptCode → Type 0
IsCode code = (code.code_hash ≢ "") × (code.pairing_code_id ≢ "")

has_code-IsCode : (h p : String) → h ≢ "" → p ≢ "" → (not (h == "") && not (p == "")) ≡ true
has_code-IsCode h p a b = rw (differ h "" a, differ p "" b) refl

-- Creating an attempt under a fresh id keeps the keys sound.
pub create_or_replace_open_attempt-IsSound :
    (id owner : String) (code : AttemptCode) (now clock : ℕ) (st : AttemptStore)
    → IsSound st
    → st.attempts id ≡ none
    → IsCode code
    → IsSound (create_or_replace_open_attempt id owner code now clock st).1
unfolding create_or_replace_open_attempt
create_or_replace_open_attempt-IsSound id owner code now clock st inv fresh good =
    let st' = (replace_open owner now clock st).1 in
    let indexed' = replace_open-IsIndexed owner now clock st inv.indexed in
    let a = new_attempt id owner code now clock in
    record {
      indexed =
          put_attempt-IsIndexed id owner code clock a st' indexed'
            (fresh-Unindexed id st' indexed' (replace_open-fresh id owner now clock st fresh))
            (refl, refl, has_code-IsCode code.code_hash code.pairing_code_id good.0 good.1);
      keyed = put-IsKeyed id a st' (replace_open-IsKeyed owner now clock st inv) refl;
    }

-- Rotating a code keeps the keys sound, whatever attempt and owner it is asked for.
pub rotate_code-IsSound :
    (id owner : String) (code : AttemptCode) (now clock : ℕ) (st : AttemptStore)
    → IsSound st
    → IsCode code
    → IsSound (rotate_code id owner code now clock st).1
unfolding rotate_code
rotate_code-IsSound id owner code now clock st inv good =
    elim (Option-cases (attempt_at id clock st)) [
      | inl e ↦ rw (e, rotate_code) inv
      | inr (a, e) ↦
          rw (e, rotate_code)
            (elim (Bool-cases (a.id == "" || not (a.owner_id == owner) || is_closed a)) [
              | inl f ↦ rw f inv
              | inr f ↦ rw f (
                  rotated a (live-some (λ x. x.expires_at) clock (st.attempts id) e) (ground arith))
            ])
    ]
  where
    rotated :
        (a : Attempt)
        → st.attempts id ≡ some a
        → is_closed a ≡ false
        → IsSound
            (put_attempt id a.id owner code clock (with_code code now clock a) (drop_code a st))
    rotated a at unclosed =
        subst
          (λ k.
            IsSound
              (put_attempt id k owner code clock (with_code code now clock a) (drop_code a st)))
          (sym (inv.keyed id a at))
          (record {
            indexed =
                put_attempt-IsIndexed id owner code clock (with_code code now clock a)
                  (drop_code a st) (drop_code-IsIndexed a st inv.indexed)
                  (drop_code-Unindexed id a st inv.indexed at)
                  (
                    unclosed,
                    refl,
                    has_code-IsCode code.code_hash code.pairing_code_id good.0 good.1,
                  );
            keyed =
                put-IsKeyed id (with_code code now clock a) (drop_code a st)
                  (IsKeyed-same st (drop_code a st) (drop_code-attempts a st) inv.keyed)
                  (inv.keyed id a at);
          })

-- Closing an attempt keeps the keys sound.
pub close_attempt-IsSound :
    (id owner : String) (now clock : ℕ) (st : AttemptStore)
    → IsSound st
    → IsSound (close_attempt id owner now clock st).1
unfolding close_attempt
close_attempt-IsSound id owner now clock st inv = elim (Option-cases (attempt_at id clock st)) [
  | inl e ↦ rw (e, close_attempt) inv
  | inr (a, e) ↦
      rw (e, close_attempt)
        (elim (Bool-cases (a.owner_id == owner)) [
          | inr f ↦ rw f inv
          | inl f ↦ rw f (elim (Bool-cases (is_closed a)) [
            | inl g ↦ rw g inv
            | inr g ↦
                let sound =
                  close_hash-IsSound id now clock a st inv
                    (live-some (λ x. x.expires_at) clock (st.attempts id) e) in
                rw g (record { indexed = sound.indexed; keyed = sound.keyed })
          ])
        ])
]

-- Using a code up keeps the keys sound.
consume_from-IsSound :
    (h id : String) (now clock : ℕ) (a : Attempt) (st : AttemptStore)
    → IsSound st
    → st.attempts id ≡ some a
    → IsSound (consume_from h id now clock a st).1
unfolding consume_from
consume_from-IsSound h id now clock a st inv at =
    elim (Bool-cases (a.owner_id == "" || is_closed a || not (has_code a))) [
      | inl e ↦ rw e forgotten
      | inr e ↦ rw e (elim (Option-cases a.active_code_expires_at_ms) [
        | inl f ↦ rw f forgotten
        | inr (until, f) ↦ rw f (elim (Bool-cases (a.active_code_hash == h)) [
          | inr g ↦ rw g inv
          | inl g ↦ rw g (elim (Bool-cases (leb until now)) [
            | inl k ↦ rw k (used (ground arith) ((eq_iff a.active_code_hash h).0 g))
            | inr k ↦ rw k (used (ground arith) ((eq_iff a.active_code_hash h).0 g))
          ])
        ])
      ])
    ]
  where
    forgotten : IsSound (forget_code h st)
    forgotten = record { indexed = forget_code-IsIndexed h st inv.indexed; keyed = inv.keyed }

    used : has_code a ≡ true → a.active_code_hash ≡ h → IsSound (use_code h id clock a st)
    used has same =
        let dropped : drop_code a st ≡ forget_code h st = rw has (rw same refl) in
        record {
          indexed =
              put-IsIndexed id (without_code clock a) (forget_code h st)
                (forget_code-IsIndexed h st inv.indexed)
                (subst (λ s. Unindexed id s) dropped (drop_code-Unindexed id a st inv.indexed at));
          keyed =
              put-IsKeyed id (without_code clock a) (forget_code h st) inv.keyed
                (inv.keyed id a at);
        }

-- Consuming a code keeps the keys sound, on every branch.
pub consume_code_hash-IsSound :
    (h : String) (now clock : ℕ) (st : AttemptStore)
    → IsSound st
    → IsSound (consume_code_hash h now clock st).1
unfolding consume_code_hash
consume_code_hash-IsSound h now clock st inv = elim (Option-cases (code_at h clock st)) [
  | inl e ↦ rw (e, consume_code_hash) inv
  | inr (p, e) ↦
      rw (e, consume_code_hash)
        (elim (Option-cases (attempt_at p.attempt_id clock st)) [
          | inl f ↦
              rw f (record { indexed = forget_code-IsIndexed h st inv.indexed; keyed = inv.keyed })
          | inr (a, f) ↦ rw f (
              consume_from-IsSound h p.attempt_id now clock a st inv
                (live-some (λ x. x.expires_at) clock (st.attempts p.attempt_id) f))
        ])
]
