-- ===== src/Common/Arith.antt =====
-- Products, and division that rounds down.
use Prim.Native.Nat.{ℕ, ◌+◌, ◌*◌, ◌/◌, ◌≤◌, ◌<◌}
use native.Mathlib.Omega.{arith}
use native.Mathlib.Decide.{dec_le}

pub mul_mono : (a b c : ℕ) → a ≤ b → a * c ≤ b * c
mul_mono a b c h = grind arith

pub mul-le-mul : (a b c d : ℕ) → a ≤ b → c ≤ d → a * c ≤ b * d
mul-le-mul a b c d h k = omega (arith, mul_mono a b c h, mul_mono c d b k)

pub mul_cancel : (a b c : ℕ) → 0 < c → a * c ≤ b * c → a ≤ b
mul_cancel a b c h k = elim (dec_le a b) [
  | yes p ↦ p
  | no n ↦ absurd (omega (arith, mul_mono (b + 1) a c (omega arith)))
]

pub div-mul-le : (a b : ℕ) → a / b * b ≤ a
div-mul-le a b = grind arith

pub lt-div-mul : (a b : ℕ) → 0 < b → a < (a / b + 1) * b
lt-div-mul a b h = grind arith

pub le-div : (q a b : ℕ) → 0 < b → q * b ≤ a → q ≤ a / b
le-div q a b h k = elim (dec_le q (a / b)) [
  | yes p ↦ p
  | no n ↦ absurd (omega (arith, lt-div-mul a b h, mul_mono (a / b + 1) q b (omega arith)))
]

pub div-le : (q a b : ℕ) → 0 < b → a < (q + 1) * b → a / b ≤ q
div-le q a b h k = elim (dec_le (a / b) q) [
  | yes p ↦ p
  | no n ↦ absurd (omega (arith, div-mul-le a b, mul_mono (q + 1) (a / b) b (omega arith)))
]

pub div_mono : (a b c : ℕ) → a ≤ b → a / c ≤ b / c
div_mono a b c h = grind arith

-- Rounding down twice, over a common denominator, loses less than two units.
module _ (q w num den f : ℕ) where
  pub floor_twice_le : q * den ≤ num * 10000 → w * 10000 ≤ q * f → w * den ≤ num * f
  floor_twice_le h k =
      omega (arith, mul_mono (q * den) (num * 10000) f h, mul_mono (w * 10000) (q * f) den k)

  pub floor_twice_lt :
      0 < den
      → f ≤ 10000
      → num * 10000 < (q + 1) * den
      → q * f < (w + 1) * 10000
      → num * f < (w + 2) * den
  floor_twice_lt pos_den hf h k = omega (
    arith,
    mul_mono (num * 10000) ((q + 1) * den) f (omega arith),
    mul_mono (q * f + 1) ((w + 1) * 10000) den (omega arith),
    mul_mono f 10000 den hf,
  )
