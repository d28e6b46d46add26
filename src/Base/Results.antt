-- ===== src/Base/Results.antt =====
-- Exceptions as values. The constructors are the error classes of application/errors, with the
-- message as their argument; an error with computed details has a constructor of its own.
use Prim.Native.Nat.{ℕ}
use Prim.Native.String.{String}
use mathlib.Core.Path.{◌≡◌, refl, ap}
use mathlib.Core.Logic.{◌⊎◌, inl, inr}
use mathlib.Core.Bool.{Bool, true, false}
use mathlib.Core.Option.{Option, none, some}
use mathlib.Core.List.{List, [], ◌∷◌}

pub data Error : Type 0 where
  validation not_found forbidden invalid_credentials fault : String → Error
  -- "Schedule window is too short. Required minimum is N seconds."
  window_too_short : ℕ → Error
  -- The ids in the details of a ScheduleConflictError.
  schedule_conflict : List String → Error
  -- The displays that the message of a PlaylistInUseError is about.
  playlist_in_use : List String → Error

pub data Result {ℓ} (A : Type ℓ) : Type ℓ where
  ok : A → Result A
  err : Error → Result A

-- `if (!value) throw e`.
unfoldable pub or_throw {ℓ} : {A : Type ℓ} → Option A → Error → Result A
or_throw none thrown = err thrown
or_throw (some value) thrown = ok value

-- `if (!test) throw e`.
unfoldable pub guard : Bool → Error → Result (Unit {0})
guard false thrown = err thrown
guard true _ = ok tt

-- `for (const x of xs) check(x)`: the first that throws ends it.
unfoldable pub check_each {ℓ} : {A : Type ℓ} → (A → Result (Unit {0})) → List A → Result (Unit {0})
check_each check [] = ok tt
check_each check (x ∷ xs) = elim (check x) [ err e ↦ err e | ok _ ↦ check_each check xs ]

infixl 5 ◌>>=◌ ◌>>◌
unfoldable pub ◌>>=◌ {ℓ κ} :
    {Value : Type ℓ} {Next : Type κ} → Result Value → (Value → Result Next) → Result Next
err thrown >>= next = err thrown
ok value >>= next = next value

abbrev pub ◌>>◌ {κ} : {Next : Type κ} → Result (Unit {0}) → Result Next → Result Next
checked >> next = checked >>= λ _. next

pub >>=-eq-ok {ℓ κ} :
    {Value : Type ℓ} {Next : Type κ} (m : Result Value) (next : Value → Result Next) {end : Next}
    → (m >>= next) ≡ ok end
    → (value : Value) × (m ≡ ok value) × (next value ≡ ok end)
unfolding ◌>>=◌
>>=-eq-ok (err thrown) next e = cc
>>=-eq-ok (ok value) next e = (value, refl, e)

pub guard-eq-ok : (b : Bool) (e : Error) {u : Unit {0}} → guard b e ≡ ok u → b ≡ true
unfolding guard
guard-eq-ok true e h = refl
guard-eq-ok false e h = cc

pub or_throw-eq-ok {ℓ} :
    {A : Type ℓ} (o : Option A) (e : Error) {a : A} → or_throw o e ≡ ok a → o ≡ some a
unfolding or_throw
or_throw-eq-ok none e h = cc
or_throw-eq-ok (some a) e h = cc

pub ok-injective {ℓ} : {A : Type ℓ} {a b : A} → ok a ≡ ok b → a ≡ b
ok-injective {a} e = ap (λ r. elim r [ err _ ↦ a | ok x ↦ x ]) e

pub Result-cases {ℓ} :
    {A : Type ℓ} (r : Result A) → ((e : Error) × (r ≡ err e)) ⊎ ((a : A) × (r ≡ ok a))
Result-cases (ok a) = inr (a, refl)
Result-cases (err e) = inl (e, refl)
