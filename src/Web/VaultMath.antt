-- ===== src/Web/VaultMath.antt =====
-- apps/web/src/server/vault-math.ts
pub mod Laws
pub mod Floor
use playkaboom.Common.{
  ℕ, suc, ◌+◌, ◌-◌, ◌*◌, ◌/◌, ◌^◌, Bool, ltb, leb, ◌==◌, ◌||◌, ◌&&◌, if◌then◌else◌, min,
}
use playkaboom.Common.Int.{ℤ, pos, negsuc, pos_part, ◌+ℤ◌, ◌-ℤ◌, ◌*ℤ◌, quot, ltb_ℤ, leb_ℤ}
use playkaboom.Sdk.Accounts.{VaultV2StateAccount, LpPositionAccount}

abbrev pub bps : ℕ
bps = 10000

abbrev pub scale : ℕ
scale = 1000000000000000000

-- `a / b` on bigints; it throws where b is 0, which each caller has excluded.
unfoldable pub div_bigint : ℤ → ℤ → ℤ
div_bigint a (pos d) = quot a d
div_bigint a (negsuc d) = pos 0 -ℤ quot a (suc d)

abbrev is_zero : ℤ → Bool
is_zero (pos n) = n == 0
is_zero (negsuc n) = Bool.false

module _ {K : Type 0} where
  unfoldable pub health_bps : VaultV2StateAccount K → ℤ → ℕ
  health_bps v2 (negsuc n) = 0
  health_bps v2 (pos assets) =
      let pending_value =
        if v2.total_units == 0 then 0 else v2.total_pending_units * assets / v2.total_units in
      let obligations = v2.total_outstanding_max_payout + pending_value in
      let free = if ltb obligations assets then assets - obligations else 0 in
      let h = free * bps / assets in if leb assets 0 then 0 else if ltb bps h then bps else h

-- The value of one unit, times 10 ^ 18.
unfoldable pub unit_value_e18 : ℤ → ℤ → ℤ
unit_value_e18 assets total =
    if is_zero total then pos 0 else div_bigint (assets *ℤ pos scale) total

unfoldable pub units_to_lamports : ℤ → ℤ → ℤ → ℤ
units_to_lamports units assets total =
    if is_zero total || is_zero units then pos 0 else div_bigint (units *ℤ assets) total

unfoldable pub lamports_to_units : ℤ → ℤ → ℤ → ℤ
lamports_to_units amount assets_pre total_pre =
    if is_zero total_pre
    then amount
    else if leb_ℤ assets_pre (pos 0)
    then pos 0
    else div_bigint (amount *ℤ total_pre) assets_pre

abbrev pub position_cap_disabled_sentinel : ℕ
position_cap_disabled_sentinel = 2 ^ 60

module _ {K : Type 0} where
  unfoldable pub effective_max_user_position_lamports : VaultV2StateAccount K → ℤ → ℕ → ℤ
  effective_max_user_position_lamports v2 assets health =
      if v2.max_user_position_bps == 0
      then pos position_cap_disabled_sentinel
      else quot (quot (assets *ℤ pos v2.max_user_position_bps) bps *ℤ pos health) bps

  -- The units that are neither the seed nor the house's.
  unfoldable pub user_units : VaultV2StateAccount K → ℤ
  user_units v2 =
      pos v2.total_units -ℤ pos v2.seed_units -ℤ pos v2.house_units -ℤ pos v2.house_pending_units

  -- `room`: the most units that one deposit may mint.
  unfoldable pub floor_room : VaultV2StateAccount K → ℤ
  floor_room v2 =
      quot (pos v2.house_units *ℤ (pos bps -ℤ pos v2.min_house_share_bps)) v2.min_house_share_bps
      -ℤ user_units v2

  unfoldable pub by_floor : VaultV2StateAccount K → ℤ → ℤ
  by_floor v2 assets =
      let room = floor_room v2 in
      if leb_ℤ room (pos 0)
      then pos 0
      else if v2.total_units == 0
      then room
      else if leb_ℤ assets (pos 0)
      then pos 0
      else quot ((room +ℤ pos 1) *ℤ assets -ℤ pos 1) v2.total_units

  unfoldable pub max_deposit_lamports : VaultV2StateAccount K → ℤ → ℕ → ℤ
  max_deposit_lamports v2 assets health =
      let cap = effective_max_user_position_lamports v2 assets health in
      let floor_cap = by_floor v2 assets in
      let most = if ltb 0 v2.min_house_share_bps && ltb_ℤ floor_cap cap then floor_cap else cap in
      if ltb_ℤ most (pos v2.min_lp_deposit) then pos 0 else most

-- The fields of an `LpDeposited` event that the price of the deposit is read from.
pub record DepositEvent : Type 0 where
  pub amount_lamports : ℤ
  pub units_minted : ℤ
  pub total_units_after : ℤ
  pub vault_assets_after : ℤ

unfoldable pub deposit_unit_value_e18 : DepositEvent → ℤ
deposit_unit_value_e18 ev =
    let total_pre = ev.total_units_after -ℤ ev.units_minted in
    if is_zero total_pre
    then pos scale
    else unit_value_e18 (ev.vault_assets_after -ℤ ev.amount_lamports) total_pre

-- A position's summary; the source writes each number as decimal text.
pub record LpPositionSummary : Type 0 where
  pub units : ℕ
  pub pending_units : ℕ
  pub total_units : ℕ
  pub current_value_lamports : ℤ
  pub pending_unlock_slot : ℕ

module _ {K : Type 0} where
  unfoldable pub lp_position_summary :
      LpPositionAccount K → VaultV2StateAccount K → ℤ → LpPositionSummary
  lp_position_summary p v2 assets =
      let total = p.units + p.pending_units in
      record {
        units = p.units;
        pending_units = p.pending_units;
        total_units = total;
        current_value_lamports = units_to_lamports (pos total) assets (pos v2.total_units);
        pending_unlock_slot = p.pending_unlock_slot;
      }
