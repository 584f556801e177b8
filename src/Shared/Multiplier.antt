-- ===== src/Shared/Multiplier.antt =====
-- packages/shared/src/multiplier.ts
pub mod Bounds
use playkaboom.Common.{
  ℕ, zero, suc, ◌+◌, ◌-◌, ◌*◌, ◌/◌, ◌||◌, Result, ok, err, range_error, leb, if◌then◌else◌,
}
use playkaboom.Common.Int.{ℤ, pos, pos_part, ◌+ℤ◌, ◌-ℤ◌, ◌*ℤ◌, quot, ltb_ℤ}

abbrev pub grid_size : ℕ
grid_size = 16

abbrev pub min_mines : ℕ
min_mines = 1

abbrev pub max_mines : ℕ
max_mines = 15

abbrev pub bps : ℕ
bps = 10000

-- The loop: `k` rounds are left, `i` is the round's number.
unfoldable pub mult_loop : ℕ → ℕ → ℕ → ℕ → ℕ → ℕ × ℕ
mult_loop zero i mines num den = (num, den)
mult_loop (suc k) i mines num den =
    let tiles_remaining = grid_size - i in
    let safe_remaining = grid_size - mines - i in
    let rest = mult_loop k (i + 1) mines (num * tiles_remaining) (den * safe_remaining) in
    if leb safe_remaining 0 then (num, den) else rest

unfoldable pub raw_bps : ℕ → ℕ → ℕ
unfolding mult_loop
raw_bps safe_reveals mines = let (num, den) = mult_loop safe_reveals 0 mines 1 1 in num * bps / den

-- `calcMultiplierBps`; the three arguments are integers of any sign.
unfoldable pub calc_multiplier_bps : ℤ → ℤ → ℤ → Result ℤ
calc_multiplier_bps safe_reveals mine_count house_edge_bps =
    if ltb_ℤ safe_reveals (pos 0)
      || ltb_ℤ mine_count (pos 0)
      || ltb_ℤ (pos grid_size) (mine_count +ℤ safe_reveals)
    then err (range_error "invalid (safeReveals, mineCount)")
    else if leb (pos_part safe_reveals) 0
    then ok (pos bps)
    else ok (
        quot
          (pos (raw_bps (pos_part safe_reveals) (pos_part mine_count))
            *ℤ (pos bps -ℤ house_edge_bps))
          bps)
