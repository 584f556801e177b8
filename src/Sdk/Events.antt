-- ===== src/Sdk/Events.antt =====
-- packages/sdk/src/events.ts: the program's events and their decoders.
pub mod Decode
pub mod Layout
pub mod RoundTrip
pub mod Logs
use playkaboom.Common.{ℕ, Bool, String}
use playkaboom.Sdk.Buffer.{Bytes}

-- The members of the union `KaboomEvent`, with their fields in the order of the source.
pub data KaboomEvent (K : Type 0) : Type 0 where
  stats_updated :
      (player : K)
      (games_played games_won total_wagered total_payouts biggest_win current_streak slot : ℕ)
      → KaboomEvent K
  game_settled :
      (player game : K) (mine_count mine_layout : ℕ) (salt commitment : Bytes) (verified : Bool)
      (slot : ℕ)
      → KaboomEvent K
  game_won : (player game : K) (bet payout multiplier_bps safe_reveals slot : ℕ) → KaboomEvent K
  game_lost : (player game : K) (bet tile_index safe_reveals slot : ℕ) → KaboomEvent K
  referrer_set : (player referrer : K) (slot : ℕ) → KaboomEvent K
  referral_accrued : (referrer player : K) (amount tier slot : ℕ) → KaboomEvent K
  referral_tier_changed : (referrer : K) (new_tier slot : ℕ) → KaboomEvent K
  referral_claimed : (referrer : K) (amount slot : ℕ) → KaboomEvent K
  v2_initialized : (vault : K) (seed_units house_units total_units slot : ℕ) → KaboomEvent K
  lp_deposited :
      (user : K) (amount_lamports units_minted total_units_after vault_assets_after slot : ℕ)
      → KaboomEvent K
  lp_withdraw_requested : (user : K) (units unlock_slot slot : ℕ) → KaboomEvent K
  lp_withdraw_cancelled : (user : K) (units_returned slot : ℕ) → KaboomEvent K
  lp_withdraw_completed :
      (user : K) (units_burned amount_lamports total_units_after vault_assets_after slot : ℕ)
      → KaboomEvent K
  lp_position_closed : (user : K) (slot : ℕ) → KaboomEvent K
  house_deposited : (amount_lamports units_minted total_units_after slot : ℕ) → KaboomEvent K
  house_withdraw_requested : (units unlock_slot slot : ℕ) → KaboomEvent K
  house_withdraw_cancelled : (units_returned slot : ℕ) → KaboomEvent K
  house_withdraw_completed : (units_burned amount_lamports slot : ℕ) → KaboomEvent K
  vault_unit_value_updated :
      (vault : K) (vault_assets total_units health_bps slot : ℕ) → KaboomEvent K

-- The keys of the registry `EVENTS`.
pub data EventKind : Type 0 where
  stats_updated_kind : EventKind
  game_settled_kind : EventKind
  game_won_kind : EventKind
  game_lost_kind : EventKind
  referrer_set_kind : EventKind
  referral_accrued_kind : EventKind
  referral_tier_changed_kind : EventKind
  referral_claimed_kind : EventKind
  v2_initialized_kind : EventKind
  lp_deposited_kind : EventKind
  lp_withdraw_requested_kind : EventKind
  lp_withdraw_cancelled_kind : EventKind
  lp_withdraw_completed_kind : EventKind
  lp_position_closed_kind : EventKind
  house_deposited_kind : EventKind
  house_withdraw_requested_kind : EventKind
  house_withdraw_cancelled_kind : EventKind
  house_withdraw_completed_kind : EventKind
  vault_unit_value_updated_kind : EventKind

abbrev pub kind_name : EventKind → String
kind_name stats_updated_kind = "StatsUpdated"
kind_name game_settled_kind = "GameSettled"
kind_name game_won_kind = "GameWon"
kind_name game_lost_kind = "GameLost"
kind_name referrer_set_kind = "ReferrerSet"
kind_name referral_accrued_kind = "ReferralAccrued"
kind_name referral_tier_changed_kind = "ReferralTierChanged"
kind_name referral_claimed_kind = "ReferralClaimed"
kind_name v2_initialized_kind = "V2Initialized"
kind_name lp_deposited_kind = "LpDeposited"
kind_name lp_withdraw_requested_kind = "LpWithdrawRequested"
kind_name lp_withdraw_cancelled_kind = "LpWithdrawCancelled"
kind_name lp_withdraw_completed_kind = "LpWithdrawCompleted"
kind_name lp_position_closed_kind = "LpPositionClosed"
kind_name house_deposited_kind = "HouseDeposited"
kind_name house_withdraw_requested_kind = "HouseWithdrawRequested"
kind_name house_withdraw_cancelled_kind = "HouseWithdrawCancelled"
kind_name house_withdraw_completed_kind = "HouseWithdrawCompleted"
kind_name vault_unit_value_updated_kind = "VaultUnitValueUpdated"
