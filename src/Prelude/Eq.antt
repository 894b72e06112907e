-- ===== src/Prelude/Eq.antt =====
-- Python's `==` on stored values, as an instance argument.
use mathlib.Core.Path.{◌≡◌, refl}
use mathlib.Core.Logic.{◌↔◌}
use mathlib.Core.Bool.{Bool, true, false}
use mathlib.Core.Option.{Option, none, some}
use Prim.Native.Nat.{ℕ}
use native.Mathlib.Omega.{arith}
use pympp.Prelude.Tests.{◌==◌}

pub record Eq {ℓ} (A : Type ℓ) : Type ℓ where
  pub beq : A → A → Bool
  pub beq_iff : (a b : A) → (beq a b ≡ true) ↔ (a ≡ b)

module _ {ℓ} {A : Type ℓ} ⦃e : Eq A⦄ where
  -- `a == b` where either may be `None`
  abbrev pub same : Option A → Option A → Bool
  same none none = true
  same none (some b) = false
  same (some a) none = false
  same (some a) (some b) = e.beq a b

  pub same_iff : (a b : Option A) → (same a b ≡ true) ↔ (a ≡ b)
  same_iff none none = (λ h. refl, λ h. refl)
  same_iff none (some b) = (λ h. cc, λ h. cc)
  same_iff (some a) none = (λ h. cc, λ h. cc)
  same_iff (some a) (some b) =
      (λ h. cc ((e.beq_iff a b).0 h), λ h. (e.beq_iff a b).1 (ground arith))

pub nat_beq_iff : (a b : ℕ) → ((a == b) ≡ true) ↔ (a ≡ b)
nat_beq_iff a b = ground arith

instance abbrev pub nat_eq : Eq ℕ
nat_eq = record { beq = ◌==◌; beq_iff = nat_beq_iff }
