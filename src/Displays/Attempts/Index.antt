-- ===== src/Displays/Attempts/Index.antt =====
-- The index of codes: each entry names an open attempt whose active code it is.
use wildfire.Base.{
  some-injective, none≢some, ℕ, ◌≡◌, refl, ap, sym, ◌∙◌, subst, inl, inr, true, false, String, ◌==◌,
  eq_iff, eq_refl, Option, none, some, arith, Bool-cases, Option-cases, ltb,
}
use wildfire.Redis.{put, live}
use wildfire.Displays.Attempts.{
  Attempt, Pointer, AttemptStore, AttemptCode, has_code, is_closed, drop_code, close_hash, closed,
  attempt_at, open_at, replace_open, put_attempt, forget_code, code_expiry,
}

-- What an entry of the index says of the attempt that it names.
abbrev pub IsActiveCode : String → Attempt → Type 0
IsActiveCode h a = (is_closed a ≡ false) × (a.active_code_hash ≡ h) × (has_code a ≡ true)

abbrev pub IsIndexed : AttemptStore → Type 0
IsIndexed st =
    (h : String) (p : Pointer)
    → st.codes h ≡ some p
    → (a : Attempt) × (st.attempts p.attempt_id ≡ some a) × IsActiveCode h a

-- No code names the attempt.
abbrev pub Unindexed : String → AttemptStore → Type 0
Unindexed id st = (h : String) (p : Pointer) → st.codes h ≡ some p → (p.attempt_id == id) ≡ false

pub differ : (a b : String) → ¬ (a ≡ b) → (a == b) ≡ false
differ a b n = elim (Bool-cases (a == b)) [ inl e ↦ absurd (n ((eq_iff a b).0 e)) | inr e ↦ e ]

-- An entry that names a known attempt says it of that attempt.
named-IsActiveCode :
    (st : AttemptStore) (id h : String) (p : Pointer) (a : Attempt)
    → IsIndexed st
    → st.attempts id ≡ some a
    → st.codes h ≡ some p
    → p.attempt_id ≡ id
    → IsActiveCode h a
named-IsActiveCode st id h p a inv at e same =
    let (b, at', active) = inv h p e in
    subst (IsActiveCode h) (some-injective (sym at' ∙ ap st.attempts same ∙ at)) active

pub forget_code-IsIndexed :
    (h : String) (st : AttemptStore) → IsIndexed st → IsIndexed (forget_code h st)
forget_code-IsIndexed h st inv k p e = elim (Bool-cases (k == h)) [
  | inl f ↦ absurd (none≢some (rw f at e))
  | inr f ↦ inv k p (rw f at e)
]

-- An attempt that no code names may change.
pub put-IsIndexed :
    (id : String) (a : Attempt) (st : AttemptStore)
    → IsIndexed st
    → Unindexed id st
    → IsIndexed (record st { attempts = put id (some a) st.attempts })
put-IsIndexed id a st inv u h p e = rw (u h p e) (inv h p e)

-- A code may be made to name an open attempt whose code it is.
point-IsIndexed :
    (h : String) (p : Pointer) (a : Attempt) (st : AttemptStore)
    → IsIndexed st
    → st.attempts p.attempt_id ≡ some a
    → IsActiveCode h a
    → IsIndexed (record st { codes = put h (some p) st.codes })
point-IsIndexed h p a st inv at active k q e = elim (Bool-cases (k == h)) [
  | inl f ↦
      rw (sym (some-injective (rw f at e)))
        (a, at, (active.0, active.1 ∙ sym ((eq_iff k h).0 f), active.2))
  | inr f ↦ inv k q (rw f at e)
]

-- A new attempt is named by no code yet.
pub fresh-Unindexed :
    (id : String) (st : AttemptStore) → IsIndexed st → st.attempts id ≡ none → Unindexed id st
fresh-Unindexed id st inv fresh h p e =
    differ p.attempt_id id
      (λ same. none≢some (sym fresh ∙ ap st.attempts (sym same) ∙ (inv h p e).1))

pub drop_code-Unindexed :
    (id : String) (a : Attempt) (st : AttemptStore)
    → IsIndexed st
    → st.attempts id ≡ some a
    → Unindexed id (drop_code a st)
drop_code-Unindexed id a st inv at h p e = elim (Bool-cases (has_code a)) [
  | inl f ↦ elim (Bool-cases (h == a.active_code_hash)) [
    | inl g ↦ absurd (none≢some (rw g at (rw f at e)))
    | inr g ↦ differ p.attempt_id id (λ same.
        let (_, named, _) = named-IsActiveCode st id h p a inv at (rw g at (rw f at e)) same in
        absurd (ground (arith, eq_iff h a.active_code_hash)))
  ]
  | inr f ↦ differ p.attempt_id id (λ same.
      let (_, _, active) = named-IsActiveCode st id h p a inv at (rw f at e) same in absurd (cc))
]

pub drop_code-IsIndexed :
    (a : Attempt) (st : AttemptStore) → IsIndexed st → IsIndexed (drop_code a st)
drop_code-IsIndexed a st inv = elim (Bool-cases (has_code a)) [
  | inl f ↦ rw f (forget_code-IsIndexed a.active_code_hash st inv)
  | inr f ↦ rw f inv
]

pub close_hash-IsIndexed :
    (id : String) (now clock : ℕ) (a : Attempt) (st : AttemptStore)
    → IsIndexed st
    → st.attempts id ≡ some a
    → IsIndexed (close_hash id now clock a st)
close_hash-IsIndexed id now clock a st inv at =
    put-IsIndexed id (closed now clock a) (drop_code a st) (drop_code-IsIndexed a st inv)
      (drop_code-Unindexed id a st inv at)

pub live-some :
    {A : Type 0} (expires_at : A → ℕ) (clock : ℕ) (o : Option A) {a : A}
    → live expires_at clock o ≡ some a
    → o ≡ some a
live-some expires_at clock none e = e
live-some expires_at clock (some b) {a} e = elim (Bool-cases (ltb clock (expires_at b))) [
  | inl f ↦ rw f at e
  | inr f ↦ absurd (none≢some (rw f at e))
]

-- Putting an attempt with its new code, where no code names it before.
pub put_attempt-IsIndexed :
    (key owner : String) (code : AttemptCode) (clock : ℕ) (a : Attempt) (st : AttemptStore)
    → IsIndexed st
    → Unindexed key st
    → IsActiveCode code.code_hash a
    → IsIndexed (put_attempt key key owner code clock a st)
put_attempt-IsIndexed key owner code clock a st inv u active =
    point-IsIndexed code.code_hash
      (record { attempt_id = key; expires_at = code_expiry code.expires_at_ms }) a
      (record st { attempts = put key (some a) st.attempts }) (put-IsIndexed key a st inv u)
      (rw (eq_refl key) refl) active

pub replace_open-IsIndexed :
    (owner : String) (now clock : ℕ) (st : AttemptStore)
    → IsIndexed st
    → IsIndexed (replace_open owner now clock st).1
unfolding replace_open
replace_open-IsIndexed owner now clock st inv = elim (Option-cases (open_at owner clock st)) [
  | inl e ↦ rw (e, replace_open) inv
  | inr (p, e) ↦
      rw (e, replace_open)
        (elim (Bool-cases (p.attempt_id == "")) [
          | inl f ↦ rw f inv
          | inr f ↦ rw f (elim (Option-cases (attempt_at p.attempt_id clock st)) [
            | inl g ↦ rw g inv
            | inr (a, g) ↦ rw g (elim (Bool-cases (a.owner_id == "")) [
              | inl h ↦ rw h inv
              | inr h ↦ rw h (
                  close_hash-IsIndexed p.attempt_id now clock a st inv
                    (live-some (λ x. x.expires_at) clock (st.attempts p.attempt_id) g))
            ])
          ])
        ])
]
