-- ===== src/Units/Exact.antt =====
-- An amount is converted when the token has enough decimals for it, and then exactly.
use Prim.Native.Nat.{◌*◌, ◌^◌}
use pympp.Prelude.{ℕ, suc, ◌+◌, ◌≤◌, ◌≡◌}
use pympp.Prelude.Int.{ℤ, pos, negsuc}
use pympp.Prelude.Result.{Result}
use pympp.Units.{max_digits}

-- `n` is the coefficient, shifted by this many digits.
abbrev pub IsShifted : ℕ → ℤ → ℕ → Type 0
IsShifted c (pos shift) n = n ≡ c * 10 ^ shift
IsShifted c (negsuc shift) n = n * 10 ^ suc shift ≡ c

-- A shifted number has no more digits than a 256-bit number.
abbrev pub Fits : ℕ → ℤ → Type 0
Fits digits (pos shift) = digits + shift ≤ max_digits
Fits digits (negsuc shift) = Unit
