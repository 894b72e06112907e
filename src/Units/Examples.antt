-- ===== src/Units/Examples.antt =====
-- Amounts converted at concrete inputs.
use Prim.Native.Nat.{◌^◌}
use pympp.Prelude.{ℕ, zero, suc, List, ◌≡◌, refl, false, Option, none, some, [], ◌∷◌, if◌then◌else◌}
use pympp.Prelude.Int.{negsuc}
use pympp.Prelude.Result.{ok}
use pympp.Headers.{Text, codes, text_eq}
use pympp.Units.{Decimal, finite, units_of, coefficient, add_ℤ}

-- `Decimal("1.50")`, and nothing else
abbrev one_and_a_half : Text → Option Decimal
one_and_a_half s =
    if text_eq s (codes "1.50") then some (finite false (1 ∷ 5 ∷ 0 ∷ []) (negsuc 1)) else none

abbrev zeros : ℕ → List ℕ
zeros zero = []
zeros (suc n) = 0 ∷ zeros n

-- The digits of "1", 79 zeros and ".0" have the exponent -1: the amount, of 80 digits, is converted.
converted_past_bound : units_of (1 ∷ zeros 80) (negsuc 0) 0 ≡ ok (10 ^ 79)
unfolding units_of coefficient add_ℤ
converted_past_bound = refl
