-- ===== src/Prelude/Int.antt =====
-- Python's integers where a difference may fall below 0.
use Prim.Native.Nat.{ℕ, ◌-◌, ◌+◌}
use mathlib.Core.Path.{◌≡◌}
use mathlib.Core.Bool.{Bool, false}
use native.Mathlib.Omega.{arith}
use pympp.Prelude.Tests.{leb, if◌then◌else◌}

-- `negsuc n` is -(n + 1).
pub data ℤ : Type 0 where
  pos : ℕ → ℤ
  negsuc : ℕ → ℤ

-- a - b
unfoldable pub sub_ℕ : ℕ → ℕ → ℤ
sub_ℕ a b = if leb b a then pos (a - b) else negsuc (b - a - 1)

-- n ≤ a
unfoldable pub at_least : ℕ → ℤ → Bool
at_least n (pos m) = leb n m
at_least n (negsuc m) = false

-- n ≤ a - b, with no difference taken
pub at_least-sub_ℕ : (n a b : ℕ) → at_least n (sub_ℕ a b) ≡ leb (b + n) a
unfolding at_least sub_ℕ
at_least-sub_ℕ n a b = ground arith
