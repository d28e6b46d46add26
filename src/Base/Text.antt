-- ===== src/Base/Text.antt =====
-- JavaScript strings. A text is a native `String`; where the program looks inside one, or orders
-- two, it works on the UTF-16 code units.
use Prim.Native.Nat.{ℕ, ◌+◌, ◌-◌, ◌*◌, ◌/◌, ◌%◌}
use Prim.Native.Char.{code}
use Prim.Native.String.{String}
use mathlib.Core.Bool.{Bool, true, false, not, ◌&&◌, ◌||◌}
use mathlib.Core.Option
use mathlib.Core.Option.{Option, none, some}
use mathlib.Core.List.{List, [], ◌∷◌, ◌++◌}
use text.Mathlib.Text.{◌==◌}
use text.Mathlib.TextEquality.{eq_iff}
use mathlib.Core.Path.{◌≡◌}
use mathlib.Core.Logic.{◌≢◌}
use native.Mathlib.Omega.{arith}
use wildfire.Base.Tests.{ltb, leb, eqb, if◌then◌else◌}
use wildfire.Base.Int.{ℤ, pos, ◌-ℤ◌}
use wildfire.Base.Lists.{any, filter}

-- A code point beyond the first plane is a pair of surrogates.
code_units : ℕ → List ℕ
code_units c =
    if ltb c 0x10000
    then c ∷ []
    else (0xD800 + (c - 0x10000) / 0x400) ∷ (0xDC00 + (c - 0x10000) % 0x400) ∷ []

unfoldable pub units : String → List ℕ
unfolding code_units
units String.[] = []
units (String.◌∷◌ c s) = code_units (code c) ++ units s

-- `<` and `<=` on strings compare code units, the first difference decides.
unfoldable pub units_lt : List ℕ → List ℕ → Bool
units_lt [] [] = false
units_lt [] (_ ∷ _) = true
units_lt (_ ∷ _) [] = false
units_lt (x ∷ xs) (y ∷ ys) = ltb x y || eqb x y && units_lt xs ys

abbrev pub str_lt : String → String → Bool
str_lt a b = units_lt (units a) (units b)

abbrev pub str_le : String → String → Bool
str_le a b = not (str_lt b a)

-- `!s` holds of null, undefined and "": what is left is a text with a character.
abbrev pub truthy : Option String → Option String
truthy none = none
truthy (some s) = if s == "" then none else some s

abbrev pub or_else {ℓ} : {A : Type ℓ} → Option A → A → A
or_else none d = d
or_else (some a) d = a

-- `===` on `string | null`.
abbrev pub opt_eq : Option String → Option String → Bool
opt_eq none none = true
opt_eq none (some _) = false
opt_eq (some _) none = false
opt_eq (some a) (some b) = a == b

-- `\d` of a regular expression.
abbrev pub is_digit : ℕ → Bool
is_digit c = leb b'0' c && leb c b'9'

-- The white space that `trim` and `parseInt` skip.
unfoldable pub is_white : ℕ → Bool
is_white c =
    leb 9 c && leb c 13
    || eqb c 32
    || eqb c 0xA0
    || eqb c 0x1680
    || leb 0x2000 c && leb c 0x200A
    || eqb c 0x2028
    || eqb c 0x2029
    || eqb c 0x202F
    || eqb c 0x205F
    || eqb c 0x3000
    || eqb c 0xFEFF

unfoldable pub skip_white : List ℕ → List ℕ
unfolding is_white
skip_white [] = []
skip_white (c ∷ cs) = if is_white c then skip_white cs else c ∷ cs

-- `split(sep)` for a separator of one unit: never empty.
unfoldable pub split_at : ℕ → List ℕ → List ℕ × List (List ℕ)
split_at sep [] = ([], [])
split_at sep (c ∷ cs) =
    let (cur, rest) = split_at sep cs in if eqb c sep then ([], cur ∷ rest) else (c ∷ cur, rest)

-- The digits that a text begins with, `none` if there is none (NaN).
digits_from : Bool → ℕ → List ℕ → Option ℕ
digits_from seen n [] = if seen then some n else none
digits_from seen n (c ∷ cs) =
    let more = digits_from true (n * 10 + (c - b'0')) cs in
    if is_digit c then more else if seen then some n else none

sign_and_digits : List ℕ → Option ℤ
unfolding digits_from
sign_and_digits [] = none
sign_and_digits (c ∷ cs) =
    if eqb c b'-'
    then Option.map (λ n. pos 0 -ℤ pos n) (digits_from false 0 cs)
    else Option.map pos (digits_from false 0 (if eqb c b'+' then cs else c ∷ cs))

-- `Number.parseInt(s, 10)`, with exact integers where JavaScript rounds beyond 2 ^ 53.
unfoldable pub parse_int : List ℕ → Option ℤ
unfolding sign_and_digits skip_white ◌-ℤ◌
parse_int s = sign_and_digits (skip_white s)

trim_start : String → String
unfolding is_white
trim_start String.[] = ""
trim_start (String.◌∷◌ c s) = if is_white (code c) then trim_start s else String.◌∷◌ c s

trim_end : String → String
unfolding is_white
trim_end String.[] = ""
trim_end (String.◌∷◌ c s) =
    let rest = trim_end s in if rest == "" && is_white (code c) then "" else String.◌∷◌ c rest

-- Every white space is one code unit, so `trim` can go by characters.
unfoldable pub trim : String → String
unfolding trim_start trim_end
trim s = trim_end (trim_start s)

-- What the test tells apart is apart.
pub differs : (a b : String) → (a == b) ≡ false → a ≢ b
differs a b e same = absurd (ground (arith, eq_iff a b))

-- `new Set(ids).has(id)`
abbrev pub includes : List String → String → Bool
includes ids id = any (λ x. x == id) ids

abbrev pub has_duplicates : List String → Bool
has_duplicates [] = false
has_duplicates (x ∷ xs) = includes xs x || has_duplicates xs

-- `Array.from(new Set(ids))`: each text once, where it stands first.
unfoldable pub distinct : List String → List String
distinct [] = []
distinct (x ∷ xs) = x ∷ filter (λ y. not (y == x)) (distinct xs)
