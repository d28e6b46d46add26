-- ===== src/Base/Order.antt =====
-- The order of strings by code units: what is not less is transitive.
use Prim.Native.Nat.{ℕ}
use mathlib.Core.Path.{◌≡◌}
use mathlib.Core.Logic.{◌⊎◌}
use mathlib.Core.Bool.{true}
use mathlib.Core.List.{List, [], ◌∷◌}
use Prim.Native.String.{String}
use native.Mathlib.Omega.{arith}
use wildfire.Base.Text.{units, units_lt, str_le}

-- What lies between two ordered texts is behind the first or before the second.
pub units_lt_cotrans :
    (xs ys zs : List ℕ) → units_lt xs zs ≡ true → (units_lt xs ys ≡ true) ⊎ (units_lt ys zs ≡ true)
unfolding units_lt
units_lt_cotrans [] [] [] h = ground arith
units_lt_cotrans [] [] (z ∷ zs) h = ground arith
units_lt_cotrans [] (y ∷ ys) zs h = ground arith
units_lt_cotrans (x ∷ xs) ys [] h = ground arith
units_lt_cotrans (x ∷ xs) [] (z ∷ zs) h = ground arith
units_lt_cotrans (x ∷ xs) (y ∷ ys) (z ∷ zs) h = ground (arith, units_lt_cotrans xs ys zs)

pub str_le_trans : (a b c : String) → str_le a b ≡ true → str_le b c ≡ true → str_le a c ≡ true
str_le_trans a b c p q = ground (arith, units_lt_cotrans (units c) (units b) (units a))
