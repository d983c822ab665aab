-- ===== src/Base/Int.antt =====
-- Signed integers as the source uses them: tests, and sums and differences of `int`.
use Prim.Native.Nat.{ℕ, zero, suc, ◌+◌, ◌-◌, ◌≤◌}
use mathlib.Core.Path.{◌≡◌, ap, ◌∙◌}
use mathlib.Core.Logic.{◌↔◌}
use mathlib.Core.Bool.{Bool, true, false}
use native.Mathlib.Omega.{arith}
use cs.Base.Tests.{◌==◌, leb, if◌then◌else◌}
use cs.Base.Outcome.{Outcome, ok, fault, int_max}

-- `negsuc n` is -(n + 1).
pub data ℤ : Type 0 where
  pos : ℕ → ℤ
  negsuc : ℕ → ℤ

abbrev pub eq_ℤ : ℤ → ℤ → Bool
eq_ℤ (pos a) (pos b) = a == b
eq_ℤ (negsuc a) (negsuc b) = a == b
eq_ℤ _ _ = false

-- `a < 1`
abbrev pub below_one : ℤ → Bool
below_one (pos zero) = true
below_one (pos (suc n)) = false
below_one (negsuc n) = true

pub eq_ℤ_iff : (a b : ℤ) → (eq_ℤ a b ≡ true) ↔ (a ≡ b)
eq_ℤ_iff (pos a) (pos b) = ground arith
eq_ℤ_iff (pos a) (negsuc b) = ground arith
eq_ℤ_iff (negsuc a) (pos b) = ground arith
eq_ℤ_iff (negsuc a) (negsuc b) = ground arith

pub eq_ℤ_refl : (a : ℤ) → eq_ℤ a a ≡ true
eq_ℤ_refl (pos a) = ground arith
eq_ℤ_refl (negsuc a) = ground arith

pub eq_ℤ_comm : (a b : ℤ) → eq_ℤ a b ≡ eq_ℤ b a
eq_ℤ_comm (pos a) (pos b) = ground arith
eq_ℤ_comm (pos a) (negsuc b) = ground arith
eq_ℤ_comm (negsuc a) (pos b) = ground arith
eq_ℤ_comm (negsuc a) (negsuc b) = ground arith

-- `a - b` for numbers that are not negative
abbrev pub difference : ℕ → ℕ → ℤ
difference a zero = pos a
difference zero (suc b) = negsuc b
difference (suc a) (suc b) = difference a b

infixl 20 ◌+ℤ◌ ◌-ℤ◌
abbrev pub ◌+ℤ◌ : ℤ → ℤ → ℤ
pos a +ℤ pos b = pos (a + b)
pos a +ℤ negsuc b = difference a (suc b)
negsuc a +ℤ pos b = difference b (suc a)
negsuc a +ℤ negsuc b = negsuc (suc (a + b))

abbrev pub neg : ℤ → ℤ
neg (pos zero) = pos zero
neg (pos (suc a)) = negsuc a
neg (negsuc a) = pos (suc a)

abbrev pub ◌-ℤ◌ : ℤ → ℤ → ℤ
a -ℤ b = a +ℤ neg b

-- A result of `int` arithmetic: an overflow is undefined.
abbrev pub to_int : ℤ → Outcome ℤ
to_int (pos a) = if leb a int_max then ok (pos a) else fault
to_int (negsuc a) = if leb a int_max then ok (negsuc a) else fault

difference_lem : (a b : ℕ) → b ≤ a → difference a b ≡ pos (a - b)
difference_lem a zero h = ap pos (omega arith)
difference_lem zero (suc b) h = absurd (omega (arith, h))
difference_lem (suc a) (suc b) h = difference_lem a b (omega (arith, h)) ∙ ap pos (omega arith)

pub sub_lem : (a b : ℕ) → b ≤ a → pos a -ℤ pos b ≡ pos (a - b)
sub_lem a zero h = ap pos (omega arith)
sub_lem a (suc b) h = difference_lem a (suc b) h
