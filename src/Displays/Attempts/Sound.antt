-- ===== src/Displays/Attempts/Sound.antt =====
-- When the keys are sound, and what keeps them so.
use wildfire.Base.{
  none≢some, some-injective, ℕ, ◌≡◌, ap, sym, ◌∙◌, inl, inr, String, ◌==◌, eq_iff, none, some,
  arith, Bool-cases, Option-cases,
}
use wildfire.Redis.{put}
use wildfire.Displays.Attempts.{
  Attempt, AttemptStore, drop_code, close_hash, closed, attempt_at, open_at, replace_open,
}
use wildfire.Displays.Attempts.Index.{IsIndexed, differ, close_hash-IsIndexed, live-some}

abbrev IsKeyed : AttemptStore → Type 0
IsKeyed st = (id : String) (a : Attempt) → st.attempts id ≡ some a → a.id ≡ id

-- Each code of the index names an open attempt whose active code it is, with a pairing code; each
-- attempt is kept under its own id.
pub record IsSound (st : AttemptStore) : Type 0 where
  pub indexed : IsIndexed st
  pub keyed : IsKeyed st

pub put-IsKeyed :
    (key : String) (a : Attempt) (st : AttemptStore)
    → IsKeyed st
    → a.id ≡ key
    → IsKeyed (record st { attempts = put key (some a) st.attempts })
put-IsKeyed key a st inv own id b e = elim (Bool-cases (id == key)) [
  | inl f ↦ sym (ap (λ x. x.id) (some-injective (rw f at e))) ∙ own ∙ sym ((eq_iff id key).0 f)
  | inr f ↦ inv id b (rw f at e)
]

pub drop_code-attempts : (a : Attempt) (st : AttemptStore) → (drop_code a st).attempts ≡ st.attempts
drop_code-attempts a st = ground arith

pub IsKeyed-same : (st st' : AttemptStore) → st'.attempts ≡ st.attempts → IsKeyed st → IsKeyed st'
IsKeyed-same st st' same inv id a e = inv id a (sym (ap (λ f. f id) same) ∙ e)

pub close_hash-IsSound :
    (id : String) (now clock : ℕ) (a : Attempt) (st : AttemptStore)
    → IsSound st
    → st.attempts id ≡ some a
    → IsSound (close_hash id now clock a st)
close_hash-IsSound id now clock a st inv at = record {
  indexed = close_hash-IsIndexed id now clock a st inv.indexed at;
  keyed =
      put-IsKeyed id (closed now clock a) (drop_code a st)
        (IsKeyed-same st (drop_code a st) (drop_code-attempts a st) inv.keyed) (inv.keyed id a at);
}

pub replace_open-IsKeyed :
    (owner : String) (now clock : ℕ) (st : AttemptStore)
    → IsSound st
    → IsKeyed (replace_open owner now clock st).1
unfolding replace_open
replace_open-IsKeyed owner now clock st inv = elim (Option-cases (open_at owner clock st)) [
  | inl e ↦ rw (e, replace_open) inv.keyed
  | inr (p, e) ↦
      rw (e, replace_open)
        (elim (Bool-cases (p.attempt_id == "")) [
          | inl f ↦ rw f inv.keyed
          | inr f ↦ rw f (elim (Option-cases (attempt_at p.attempt_id clock st)) [
            | inl g ↦ rw g inv.keyed
            | inr (a, g) ↦ rw g (elim (Bool-cases (a.owner_id == "")) [
              | inl h ↦ rw h inv.keyed
              | inr h ↦
                  rw h
                    (close_hash-IsSound p.attempt_id now clock a st inv
                      (live-some (λ x. x.expires_at) clock (st.attempts p.attempt_id) g)).keyed
            ])
          ])
        ])
]

pub replace_open-fresh :
    (id owner : String) (now clock : ℕ) (st : AttemptStore)
    → st.attempts id ≡ none
    → (replace_open owner now clock st).1.attempts id ≡ none
unfolding replace_open
replace_open-fresh id owner now clock st fresh = elim (Option-cases (open_at owner clock st)) [
  | inl e ↦ rw (e, replace_open) fresh
  | inr (p, e) ↦
      rw (e, replace_open)
        (elim (Bool-cases (p.attempt_id == "")) [
          | inl f ↦ rw f fresh
          | inr f ↦ rw f (elim (Option-cases (attempt_at p.attempt_id clock st)) [
            | inl g ↦ rw g fresh
            | inr (a, g) ↦ rw g (elim (Bool-cases (a.owner_id == "")) [
              | inl h ↦ rw h fresh
              | inr h ↦
                  let there = live-some (λ x. x.expires_at) clock (st.attempts p.attempt_id) g in
                  rw
                    (
                      h,
                      differ id p.attempt_id
                          (λ same. none≢some (sym fresh ∙ ap st.attempts same ∙ there)),
                    )
                    (ap (λ f. f id) (drop_code-attempts a st) ∙ fresh)
            ])
          ])
        ])
]
