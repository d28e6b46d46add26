-- ===== src/Auth/Tokens.antt =====
-- application/auth/refresh-token.ts: the text of a refresh token.
use Prim.Native.Char.{code}
use mathlib.Core.Option
use wildfire.Base.{
  none≢some, sym, ◌≡◌, refl, ap, String, ◌==◌, false, ◌||◌, Option, none, some, if◌then◌else◌, eqb,
  trim, Bool-cases, inl, inr, ◌∙◌,
}
use text.Mathlib.TextLemmas.{nil-append, cons-append, append_assoc}
use wildfire.Schedule.{◌+++◌}

unfoldable pub build_refresh_token_value : String → String → String
build_refresh_token_value session_id secret = session_id +++ "." +++ secret

-- What stands before and after the first dot, if there is one.
unfoldable pub split_dot : String → Option (String × String)
split_dot String.[] = none
split_dot (String.◌∷◌ c s) =
    let rest = split_dot s in
    if eqb (code c) b'.'
    then some ("", s)
    else Option.map (λ (p : String × String). (String.◌∷◌ c p.0, p.1)) rest

abbrev trimmed_parts : String → String → Option (String × String)
trimmed_parts id secret = if id == "" || secret == "" then none else some (id, secret)

-- The dot may be neither the first character nor the last.
unfoldable pub parse_refresh_token_value : String → Option (String × String)
parse_refresh_token_value value = elim (split_dot value) [
  | none ↦ none
  | some (before, after) ↦
      if before == "" || after == "" then none else trimmed_parts (trim before) (trim after)
]

dot-append : (s : String) → ("." +++ s) ≡ String.◌∷◌ "." s
dot-append s = cons-append "." "" s ∙ ap (λ t. String.◌∷◌ "." t) (nil-append s)

map-none {ℓ κ} :
    {A : Type ℓ} {B : Type κ} (f : A → B) {o : Option A} → Option.map f o ≡ none → o ≡ none
map-none f {o = none} h = refl
map-none f {o = some a} h = absurd (none≢some (sym h))

split_dot-append :
    (id secret : String)
    → split_dot id ≡ none
    → split_dot (id +++ ("." +++ secret)) ≡ some (id, secret)
unfolding split_dot
split_dot-append String.[] secret h =
    ap split_dot (nil-append ("." +++ secret)) ∙ ap split_dot (dot-append secret)
split_dot-append (String.◌∷◌ c s) secret h = elim (Bool-cases (eqb (code c) b'.')) [
  | inl e ↦ absurd (none≢some (sym (rw e at h)))
  | inr e ↦
      ap split_dot (cons-append c s ("." +++ secret))
      ∙ rw e (rw (split_dot-append s secret (map-none _ (rw e at h))) refl)
]

-- A token is read back as it was built, where the session's id has no dot, and neither part is
-- empty or has white space around it.
parse_refresh_token_value-build :
    (id secret : String)
    → split_dot id ≡ none
    → trim id ≡ id
    → trim secret ≡ secret
    → (id == "") ≡ false
    → (secret == "") ≡ false
    → parse_refresh_token_value (build_refresh_token_value id secret) ≡ some (id, secret)
unfolding parse_refresh_token_value build_refresh_token_value
parse_refresh_token_value-build id secret d t t' n n' =
    rw (append_assoc id "." secret, split_dot-append id secret d, parse_refresh_token_value)
      (rw (n, n') (rw (t, t') (rw (n, n') refl)))
