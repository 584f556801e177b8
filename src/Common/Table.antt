-- ===== src/Common/Table.antt =====
-- A statement about small numbers, checked at each of them by evaluation.
use Prim.Native.Nat.{ℕ, zero, suc, ◌<◌}
use mathlib.Core.Path.{◌≡◌}
use mathlib.Core.Bool.{Bool, true, ◌&&◌}
use native.Mathlib.Omega.{arith}

module _ (test : ℕ → Bool) where
  unfoldable pub all_below : ℕ → Bool
  all_below zero = true
  all_below (suc bound) = all_below bound && test bound

  pub all_below_sound : (bound i : ℕ) → i < bound → all_below bound ≡ true → test i ≡ true
  unfolding all_below
  all_below_sound zero i below checked = absurd (omega arith)
  all_below_sound (suc bound) i below checked = ground (arith, all_below_sound bound i)
