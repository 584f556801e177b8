-- ===== src/Tests/Multiplier.antt =====
-- The multiplier of a small board.
use playkaboom.Common.{ℕ, ◌+◌, ◌*◌, ◌≤◌, ◌<◌, ◌≡◌, arith, ok}
use playkaboom.Common.Int.{pos}
use playkaboom.Shared.Multiplier.{calc_multiplier_bps}
use playkaboom.Shared.Multiplier.Bounds.{falling, calc_multiplier_fair, calc_multiplier_mono}

calc_multiplier_fair_example :
    (v : ℕ) × (calc_multiplier_bps (pos 2) (pos 3) (pos 200) ≡ ok (pos v))
    × (v * falling 13 2 ≤ falling 16 2 * 9800)
    × (falling 16 2 * 9800 < (v + 2) * falling 13 2)
calc_multiplier_fair_example =
    calc_multiplier_fair 2 3 200 (omega arith) (omega arith) (omega arith)

calc_multiplier_mono_example :
    (v : ℕ) × (v₁ : ℕ) × (v₂ : ℕ) × (calc_multiplier_bps (pos 2) (pos 3) (pos 200) ≡ ok (pos v))
    × (calc_multiplier_bps (pos 3) (pos 3) (pos 200) ≡ ok (pos v₁))
    × (calc_multiplier_bps (pos 2) (pos 4) (pos 200) ≡ ok (pos v₂))
    × (v ≤ v₁)
    × (v ≤ v₂)
calc_multiplier_mono_example =
    calc_multiplier_mono 2 3 200 (omega arith) (omega arith) (omega arith)
