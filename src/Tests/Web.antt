-- ===== src/Tests/Web.antt =====
-- A vault with liquidity providers.
use playkaboom.Common.{ℕ, ◌+◌, ◌-◌, ◌*◌, ◌/◌, ◌≤◌, ◌<◌, ◌≡◌, ◌↔◌, refl, arith, true, some, ok}
use playkaboom.Common.Int.{pos, ◌≤ℤ◌, ◌+ℤ◌, ◌*ℤ◌, quot}
use playkaboom.Shared.Multiplier.{calc_multiplier_bps}
use playkaboom.Web.VaultMath.{
  health_bps, unit_value_e18, units_to_lamports, lamports_to_units, deposit_unit_value_e18,
  max_deposit_lamports, effective_max_user_position_lamports, div_bigint,
}
use playkaboom.Web.VaultMath.Laws.{deposit_withdraw, deposit_unit_value_lem}
use playkaboom.Web.VaultMath.Floor.{max_deposit_iff}
use playkaboom.Web.Capacity.{CapacityResult, compute_capacity, capacity_health, vault_limits}
use playkaboom.Web.Capacity.Laws.{capacity_health_lem, capacity_covers}
use playkaboom.Web.Capacity.Solvent.{capacity_solvent}
use playkaboom.Web.Capacity.Limits.{vault_limits_best}
use playkaboom.Tests.Accounts.{vault, v2}

deposit_withdraw_example :
    (u : ℕ) × (w : ℕ) × (v : ℕ) × (v₁ : ℕ) × (lamports_to_units (pos 1000) (pos 21) (pos 13)
      ≡ pos u)
    × (units_to_lamports (pos u) (pos 1021) (pos (13 + u)) ≡ pos w)
    × (unit_value_e18 (pos 21) (pos 13) ≡ pos v)
    × (unit_value_e18 (pos 1021) (pos (13 + u)) ≡ pos v₁)
    × (w ≤ 1000)
    × (v ≤ v₁)
deposit_withdraw_example = deposit_withdraw 1000 21 13 (omega arith) (omega arith)

deposit_unit_value_lem_example :
    deposit_unit_value_e18 (record {
      amount_lamports = pos 1000;
      units_minted = lamports_to_units (pos 1000) (pos 21) (pos 13);
      total_units_after = pos 13 +ℤ lamports_to_units (pos 1000) (pos 21) (pos 13);
      vault_assets_after = pos 21 +ℤ pos 1000;
    })
    ≡ unit_value_e18 (pos 21) (pos 13)
deposit_unit_value_lem_example = deposit_unit_value_lem 1000 21 13

-- A vault of 20 SOL, 10 ^ 10 units and a deposit of 1 SOL.
max_deposit_iff_example : (pos 1000000000 ≤ℤ max_deposit_lamports v2 (pos 20000000000) 8000) ↔ (
    (pos 1000000000 ≤ℤ effective_max_user_position_lamports v2 (pos 20000000000) 8000)
    × (3000 * (4000000000 + (10000000000 - 1000000000 - 4000000000 - 0 + 500000000))
        ≤ 4000000000 * 10000))
unfolding lamports_to_units div_bigint ◌*ℤ◌ quot
max_deposit_iff_example =
    max_deposit_iff v2 (omega arith) (omega arith) 1000000000 20000000000 500000000 8000
      (omega arith) (omega arith) (omega arith) refl (omega arith)

capacity_health_lem_example :
    capacity_health (some v2) 20000000000 ≡ health_bps v2 (pos 20000000000)
capacity_health_lem_example = capacity_health_lem v2 20000000000

capacity_covers_example :
    (c : CapacityResult) × (mult : ℕ) × (compute_capacity 20001000000
        (some vault)
        (some v2)
        1000000
        (pos 3)
        1000000
        true
      ≡ ok c)
    × (calc_multiplier_bps (pos 13) (pos 3) (pos 200) ≡ ok (pos mult))
    × ((x : ℕ) → x ≤ c.max_bet_lamports → x * mult / 10000 ≤ c.max_payout_lamports)
capacity_covers_example =
    capacity_covers 20001000000 vault (some v2) 1000000 1000000 true 3 (omega arith) (omega arith)
      (omega arith)

capacity_solvent_example :
    (c : CapacityResult) × (compute_capacity 20001000000
        (some vault)
        (some v2)
        1000000
        (pos 3)
        1000000
        true
      ≡ ok c)
    × (c.max_payout_lamports
        ≤ 20001000000 - 1000000 - (2000000000 + 500000000 * (20001000000 - 1000000) / 10000000000))
capacity_solvent_example =
    capacity_solvent 20001000000 vault v2 1000000 1000000 true 3 (omega arith) (omega arith)
      (omega arith) (omega arith)

vault_limits_best_example :
    (bet : ℕ) × (payout : ℕ) × (vault_limits 20001000000 (some vault) (some v2) 1000000 true
      ≡ ok (bet, payout))
    × ((m : ℕ) (c : CapacityResult)
        → 1 ≤ m
        → m < 16
        → compute_capacity 20001000000 (some vault) (some v2) 0 (pos m) 1000000 true ≡ ok c
        → (c.max_bet_lamports ≤ bet) × (c.max_payout_lamports ≤ payout))
vault_limits_best_example = vault_limits_best 20001000000 vault (some v2) 1000000 true (omega arith)
