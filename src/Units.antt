-- ===== src/Units.antt =====
-- src/mpp/_units.py: amounts in decimals, as whole numbers of base units.
pub mod Exact
pub mod Examples
use Prim.Native.Nat.{◌*◌, ◌/◌, ◌%◌, ◌^◌}
use pympp.Prelude.{
  ℕ, zero, suc, ◌+◌, ◌-◌, Bool, true, false, not, ◌&&◌, Option, none, some, List, [], ◌∷◌, ltb, leb,
  ◌==◌, if◌then◌else◌, length,
}
use pympp.Prelude.Int.{ℤ, pos, negsuc}
use pympp.Prelude.Result.{Result, ok, raise, raise_if, ◌>>=◌, ◌>>◌}
use pympp.Headers.{Text, strip}

-- A `Decimal`, as `as_tuple` gives it: its sign, its digits and its exponent; an infinity or a NaN has none.
pub data Decimal : Type 0 where
  finite : Bool → List ℕ → ℤ → Decimal
  non_finite : Decimal

-- The `ValueError`s
pub data UnitsError : Type 0 where
  required : UnitsError
  invalid : UnitsError
  not_finite : UnitsError
  negative : UnitsError
  too_many_digits : UnitsError
  fractional : UnitsError

abbrev pub max_digits : ℕ
max_digits = 78

-- `int("".join(map(str, digits)))`, behind the digits read before
unfoldable pub coefficient_from : ℕ → List ℕ → ℕ
coefficient_from n [] = n
coefficient_from n (d ∷ ds) = coefficient_from (n * 10 + d) ds

unfoldable pub coefficient : List ℕ → ℕ
unfolding coefficient_from
coefficient ds = coefficient_from 0 ds

-- `a + b`, of an exponent and a number of decimals
unfoldable pub add_ℤ : ℤ → ℕ → ℤ
add_ℤ (pos a) b = pos (a + b)
add_ℤ (negsuc a) b = if ltb a b then pos (b - suc a) else negsuc (a - b)

-- `divmod(coefficient, power)`, without a fraction
unfoldable pub divided : ℕ → ℕ → Result UnitsError ℕ
divided n power = if n % power == 0 then ok (n / power) else raise fractional

-- The amount of a coefficient, its number of digits and a shift
unfoldable pub scaled : ℕ → ℕ → ℤ → Result UnitsError ℕ
unfolding divided
scaled n digits (pos shift) =
    if ltb max_digits (digits + shift) then raise too_many_digits else ok (n * 10 ^ shift)
scaled n digits (negsuc shift) =
    if ltb digits (suc shift) then raise fractional else divided n (10 ^ suc shift)

-- What follows the decimal's tuple in `parse_units`
unfoldable pub units_of : List ℕ → ℤ → ℕ → Result UnitsError ℕ
unfolding scaled coefficient add_ℤ
units_of digits exponent decimals =
    if coefficient digits == 0
    then ok 0
    else scaled (coefficient digits) (length digits) (add_ℤ exponent decimals)

abbrev pub checked : Option Decimal → Result UnitsError (List ℕ × ℤ)
checked none = raise invalid
checked (some non_finite) = raise not_finite
checked (some (finite sign digits exponent)) =
    if sign && not (coefficient digits == 0) then raise negative else ok (digits, exponent)

-- `_parse_decimal`, where `decimal` is the constructor `Decimal`
unfoldable pub parse_decimal : (Text → Option Decimal) → Text → Result UnitsError (List ℕ × ℤ)
unfolding strip coefficient
parse_decimal decimal value = elim (strip value) [
  | [] ↦ raise required
  | c ∷ s ↦ checked (decimal (c ∷ s))
]

unfoldable pub parse_units : (Text → Option Decimal) → Text → ℕ → Result UnitsError ℕ
unfolding parse_decimal units_of
parse_units decimal value decimals =
    parse_decimal decimal value >>= λ parsed. units_of (parsed.0) (parsed.1) decimals
