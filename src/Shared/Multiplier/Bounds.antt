-- ===== src/Shared/Multiplier/Bounds.antt =====
-- What the multiplier is worth: the loop, the two roundings, the house edge.
use playkaboom.Common.{
  ℕ, zero, suc, ◌+◌, ◌-◌, ◌*◌, ◌/◌, ◌≤◌, ◌<◌, ◌≡◌, refl, arith, ok, leb, true, Bool, ◌&&◌, ltb,
  ◌||◌,
}
use playkaboom.Common.Int.{pos, -ℤ_pos, *ℤ_pos, quot_pos, +ℤ_pos}
use playkaboom.Common.Table.{all_below, all_below_sound}
use playkaboom.Common.Arith.{
  mul_mono, div-mul-le, lt-div-mul, div_mono, floor_twice_le, floor_twice_lt,
}
use native.Mathlib.Nat.{one-mul}
use playkaboom.Shared.Multiplier.{mult_loop, raw_bps, calc_multiplier_bps}

-- n (n - 1) … (n - k + 1), the number of ways to draw k of n tiles in order.
unfoldable pub falling : ℕ → ℕ → ℕ
falling n zero = 1
falling n (suc k) = n * falling (n - 1) k

mult_loop-falling :
    (k i m num den : ℕ)
    → m + i + k ≤ 16
    → mult_loop k i m num den ≡ (num * falling (16 - i) k, den * falling (16 - m - i) k)
unfolding mult_loop falling
mult_loop-falling zero i m num den h = ground arith
mult_loop-falling (suc k) i m num den h =
    ground
      (arith, mult_loop-falling k (i + 1) m (num * (16 - i)) (den * (16 - m - i)) (omega arith))

calc_eq :
    (r m e : ℕ)
    → m + r ≤ 16
    → 1 ≤ r
    → e ≤ 10000
    → calc_multiplier_bps (pos r) (pos m) (pos e) ≡ ok (pos (raw_bps r m * (10000 - e) / 10000))
unfolding calc_multiplier_bps
calc_eq r m e h hr he = ground (
  arith,
  +ℤ_pos m r,
  -ℤ_pos 10000 e,
  *ℤ_pos (raw_bps r m) (10000 - e),
  quot_pos (raw_bps r m * (10000 - e)) 10000,
)

falling_pos : (n k : ℕ) → k ≤ n → 0 < falling n k
unfolding falling
falling_pos n zero h = omega arith
falling_pos n (suc k) h = grind (arith, falling_pos (n - 1) k (omega arith))

raw_eq : (r m : ℕ) → m + r ≤ 16 → raw_bps r m ≡ falling 16 r * 10000 / falling (16 - m) r
unfolding raw_bps
raw_eq r m h =
    rw (mult_loop-falling r 0 m 1 1 (omega arith))
      (ground (arith, one-mul (falling 16 r), one-mul (falling (16 - m) r)))

-- With house edge `e`, in basis points, `calcMultiplierBps` of `r` safe reveals on a board of `m`
-- mines returns a multiple of the bet whose expected value, over the draws of `r` of the 16 tiles
-- in order, is at most 1 - e, and misses that by less than two basis points of the multiplier.
pub calc_multiplier_fair :
    (r m e : ℕ)
    → 1 ≤ r
    → m + r ≤ 16
    → e ≤ 10000
    → (v : ℕ) × (calc_multiplier_bps (pos r) (pos m) (pos e) ≡ ok (pos v))
      × (v * falling (16 - m) r ≤ falling 16 r * (10000 - e))
      × (falling 16 r * (10000 - e) < (v + 2) * falling (16 - m) r)
calc_multiplier_fair r m e hr h he =
    let num = falling 16 r in
    let den = falling (16 - m) r in
    let q = num * 10000 / den in
    let w = q * (10000 - e) / 10000 in
    let den_pos : 0 < den = falling_pos (16 - m) r (omega arith) in
    (
      w,
      rw (← raw_eq r m h) (calc_eq r m e h hr he),
      floor_twice_le q w num den (10000 - e) (div-mul-le (num * 10000) den)
          (div-mul-le (q * (10000 - e)) 10000),
      floor_twice_lt q w num den (10000 - e) den_pos (omega arith)
          (lt-div-mul (num * 10000) den den_pos) (lt-div-mul (q * (10000 - e)) 10000 (omega arith)),
    )

-- The number of safe reveals, or of mines, that follows another on the board.
steps_up : ℕ → ℕ → Bool
steps_up r m =
    (ltb 16 (m + r + 1) || leb (raw_bps r m) (raw_bps (r + 1) m))
    && (ltb 16 (m + r + 1) || leb (raw_bps r m) (raw_bps r (m + 1)))

steps_up_table : all_below (λ r. all_below (steps_up r) 16) 16 ≡ true
unfolding all_below steps_up raw_bps
steps_up_table = refl

steps_up_lem :
    (r m : ℕ)
    → m + r + 1 ≤ 16
    → (raw_bps r m ≤ raw_bps (r + 1) m) × (raw_bps r m ≤ raw_bps r (m + 1))
unfolding steps_up
steps_up_lem r m h =
    let row = all_below_sound (λ r. all_below (steps_up r) 16) 16 r (omega arith) steps_up_table in
    let here = all_below_sound (steps_up r) 16 m (omega arith) row in ground arith

scale_mono : (a b f : ℕ) → a ≤ b → a * f / 10000 ≤ b * f / 10000
scale_mono a b f h = div_mono (a * f) (b * f) 10000 (mul_mono a b f h)

-- From the first safe reveal on, one more safe reveal never lowers the multiplier, and nor does one
-- more mine on the board, while both boards have room for the reveals and the house edge is at most
-- the whole.
pub calc_multiplier_mono :
    (r m e : ℕ)
    → 1 ≤ r
    → m + r + 1 ≤ 16
    → e ≤ 10000
    → (v : ℕ) × (v₁ : ℕ) × (v₂ : ℕ) × (calc_multiplier_bps (pos r) (pos m) (pos e) ≡ ok (pos v))
      × (calc_multiplier_bps (pos (r + 1)) (pos m) (pos e) ≡ ok (pos v₁))
      × (calc_multiplier_bps (pos r) (pos (m + 1)) (pos e) ≡ ok (pos v₂))
      × (v ≤ v₁)
      × (v ≤ v₂)
calc_multiplier_mono r m e hr h he =
    let (more_reveals, more_mines) = steps_up_lem r m h in
    (
      _,
      _,
      _,
      calc_eq r m e (omega arith) hr he,
      calc_eq (r + 1) m e (omega arith) (omega arith) he,
      calc_eq r (m + 1) e (omega arith) hr he,
      scale_mono (raw_bps r m) (raw_bps (r + 1) m) (10000 - e) more_reveals,
      scale_mono (raw_bps r m) (raw_bps r (m + 1)) (10000 - e) more_mines,
    )
