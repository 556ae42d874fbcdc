-- ===== src/Common/Below.antt =====
-- Facts about all numbers below a bound, by evaluation.
use Prim.Native.Nat.{ℕ, zero, suc, ◌<◌}
use mathlib.Core.Path.{◌≡◌}
use mathlib.Core.Logic.{inl, inr}
use mathlib.Core.Bool.{Bool, true, false}
use native.Mathlib.Omega.{arith}
use duke_operatingsystems.Common.Tests.{Bool-cases, if◌then◌else◌}

unfoldable pub true_below : (ℕ → Bool) → ℕ → Bool
true_below test zero = true
true_below test (suc bound) =
    let smaller = true_below test bound in if smaller then test bound else false

pub true_below_at :
    (test : ℕ → Bool) (i bound : ℕ) → i < bound → true_below test bound ≡ true → test i ≡ true
unfolding true_below
true_below_at test i zero below checked = absurd (omega arith)
true_below_at test i (suc bound) below checked = elim (Bool-cases (true_below test bound)) [
  | inl smaller ↦ ground (arith, true_below_at test i bound)
  | inr failed ↦ absurd (ground (arith, failed, checked))
]
