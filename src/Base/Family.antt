-- ===== src/Base/Family.antt =====
-- Families indexed by a number (threads, processes): update at one index, and sums of a weight over
-- the first `n` members.
use Prim.Native.Nat.{ℕ, zero, suc, ◌+◌, ◌≤◌, ◌<◌}
use mathlib.Core.Path.{◌≡◌, refl, fun_ext}
use mathlib.Core.Logic.{inl, inr}
use native.Mathlib.Omega.{arith}
use cs.Base.Tests.{◌==◌, if◌then◌else◌, Bool-cases}

abbrev pub update {ℓ} : {A : Type ℓ} → (ℕ → A) → ℕ → A → ℕ → A
update f i a j = if i == j then a else f j

module _ {ℓ} {T : Type ℓ} (weigh : T → ℕ) where
  -- The weight of the first `n` members.
  pub total : ℕ → (ℕ → T) → ℕ
  total zero at = 0
  total (suc k) at = weigh (at k) + total k at

  pub total-cong :
      (k : ℕ) (at at' : ℕ → T)
      → ((j : ℕ) → j < k → weigh (at j) ≡ weigh (at' j))
      → total k at ≡ total k at'
  unfolding total
  total-cong zero at at' same = refl
  total-cong (suc k) at at' same =
      omega (arith, same k (omega arith), total-cong k at at' (λ j below. same j (omega arith)))

  -- A member that is replaced takes its weight with it.
  pub total-update :
      (k : ℕ) (at : ℕ → T) (j : ℕ) (t : T)
      → j < k
      → weigh (at j) + total k (update at j t) ≡ weigh t + total k at
  unfolding total
  total-update zero at j t below = absurd (omega arith)
  total-update (suc k) at j t below = elim (Bool-cases (j == k)) [
    | inl last ↦ ground (arith, total-cong k (update at j t) at (λ x lt. ground arith))
    | inr before ↦ ground (arith, total-update k at j t (ground arith))
  ]

  pub total_bounded : (k : ℕ) (at : ℕ → T) → ((t : T) → weigh t ≤ 1) → total k at ≤ k
  unfolding total
  total_bounded zero at light = omega arith
  total_bounded (suc k) at light = omega (arith, total_bounded k at light, light (at k))

  pub total_weightless : (k : ℕ) (at : ℕ → T) → ((j : ℕ) → weigh (at j) ≡ 0) → total k at ≡ 0
  unfolding total
  total_weightless zero at none_weighs = refl
  total_weightless (suc k) at none_weighs =
      omega (arith, total_weightless k at none_weighs, none_weighs k)

  -- Each of the first members weighs no more than all.
  pub weigh-le_total : (k : ℕ) (at : ℕ → T) (j : ℕ) → j < k → weigh (at j) ≤ total k at
  unfolding total
  weigh-le_total zero at j below = absurd (omega arith)
  weigh-le_total (suc k) at j below = elim (Bool-cases (j == k)) [
    | inl last ↦ ground arith
    | inr before ↦ ground (arith, weigh-le_total k at j (ground arith))
  ]

-- The last of two writes at one index is the one that counts.
pub update-update {ℓ} :
    {A : Type ℓ} (f : ℕ → A) (i : ℕ) (a b : A) → update (update f i a) i b ≡ update f i b
update-update f i a b = fun_ext λ j. ground arith
