-- ===== src/Sdk/Events/Layout.antt =====
-- How the program lays its events out: an independent description, and the ranges of the fields.
use playkaboom.Common.{◌≡◌, [], ◌∷◌, length}
use playkaboom.Sdk.Buffer.{Bytes, le_bytes, u128_bytes}
use playkaboom.Sdk.Web3.{Web3}
use playkaboom.Sdk.Accounts.Layout.{layout, bool_bytes, IsU8, IsU16, IsU32, IsU64, IsU128}
use playkaboom.Sdk.Events.{
  KaboomEvent, stats_updated, game_settled, game_won, game_lost, referrer_set, referral_accrued,
  referral_tier_changed, referral_claimed, v2_initialized, lp_deposited, lp_withdraw_requested,
  lp_withdraw_cancelled, lp_withdraw_completed, lp_position_closed, house_deposited,
  house_withdraw_requested, house_withdraw_cancelled, house_withdraw_completed,
  vault_unit_value_updated, EventKind, stats_updated_kind, game_settled_kind, game_won_kind,
  game_lost_kind, referrer_set_kind, referral_accrued_kind, referral_tier_changed_kind,
  referral_claimed_kind, v2_initialized_kind, lp_deposited_kind, lp_withdraw_requested_kind,
  lp_withdraw_cancelled_kind, lp_withdraw_completed_kind, lp_position_closed_kind,
  house_deposited_kind, house_withdraw_requested_kind, house_withdraw_cancelled_kind,
  house_withdraw_completed_kind, vault_unit_value_updated_kind,
}

module _ {K : Type 0} where
  abbrev pub kind_of : KaboomEvent K → EventKind
  kind_of (stats_updated _ _ _ _ _ _ _ _) = stats_updated_kind
  kind_of (game_settled _ _ _ _ _ _ _ _) = game_settled_kind
  kind_of (game_won _ _ _ _ _ _ _) = game_won_kind
  kind_of (game_lost _ _ _ _ _ _) = game_lost_kind
  kind_of (referrer_set _ _ _) = referrer_set_kind
  kind_of (referral_accrued _ _ _ _ _) = referral_accrued_kind
  kind_of (referral_tier_changed _ _ _) = referral_tier_changed_kind
  kind_of (referral_claimed _ _ _) = referral_claimed_kind
  kind_of (v2_initialized _ _ _ _ _) = v2_initialized_kind
  kind_of (lp_deposited _ _ _ _ _ _) = lp_deposited_kind
  kind_of (lp_withdraw_requested _ _ _ _) = lp_withdraw_requested_kind
  kind_of (lp_withdraw_cancelled _ _ _) = lp_withdraw_cancelled_kind
  kind_of (lp_withdraw_completed _ _ _ _ _ _) = lp_withdraw_completed_kind
  kind_of (lp_position_closed _ _) = lp_position_closed_kind
  kind_of (house_deposited _ _ _ _) = house_deposited_kind
  kind_of (house_withdraw_requested _ _ _) = house_withdraw_requested_kind
  kind_of (house_withdraw_cancelled _ _) = house_withdraw_cancelled_kind
  kind_of (house_withdraw_completed _ _ _) = house_withdraw_completed_kind
  kind_of (vault_unit_value_updated _ _ _ _ _) = vault_unit_value_updated_kind

  -- The numbers in their ranges, the byte strings at their lengths.
  abbrev pub Fits : KaboomEvent K → Type 0
  Fits
        (stats_updated _ games_played games_won total_wagered total_payouts biggest_win
          current_streak slot) =
      IsU64 games_played
      × IsU64 games_won
      × IsU64 total_wagered
      × IsU64 total_payouts
      × IsU64 biggest_win
      × IsU32 current_streak
      × IsU64 slot
  Fits (game_settled _ _ mine_count mine_layout salt commitment _ slot) =
      IsU8 mine_count
      × IsU16 mine_layout
      × (length salt ≡ 32)
      × (length commitment ≡ 32)
      × IsU64 slot
  Fits (game_won _ _ bet payout multiplier_bps safe_reveals slot) =
      IsU64 bet × IsU64 payout × IsU64 multiplier_bps × IsU8 safe_reveals × IsU64 slot
  Fits (game_lost _ _ bet tile_index safe_reveals slot) =
      IsU64 bet × IsU8 tile_index × IsU8 safe_reveals × IsU64 slot
  Fits (referrer_set _ _ slot) = IsU64 slot
  Fits (referral_accrued _ _ amount tier slot) = IsU64 amount × IsU8 tier × IsU64 slot
  Fits (referral_tier_changed _ new_tier slot) = IsU8 new_tier × IsU64 slot
  Fits (referral_claimed _ amount slot) = IsU64 amount × IsU64 slot
  Fits (v2_initialized _ seed_units house_units total_units slot) =
      IsU128 seed_units × IsU128 house_units × IsU128 total_units × IsU64 slot
  Fits (lp_deposited _ amount_lamports units_minted total_units_after vault_assets_after slot) =
      IsU64 amount_lamports
      × IsU128 units_minted
      × IsU128 total_units_after
      × IsU64 vault_assets_after
      × IsU64 slot
  Fits (lp_withdraw_requested _ units unlock_slot slot) =
      IsU128 units × IsU64 unlock_slot × IsU64 slot
  Fits (lp_withdraw_cancelled _ units_returned slot) = IsU128 units_returned × IsU64 slot
  Fits
        (lp_withdraw_completed _ units_burned amount_lamports total_units_after vault_assets_after
          slot) =
      IsU128 units_burned
      × IsU64 amount_lamports
      × IsU128 total_units_after
      × IsU64 vault_assets_after
      × IsU64 slot
  Fits (lp_position_closed _ slot) = IsU64 slot
  Fits (house_deposited amount_lamports units_minted total_units_after slot) =
      IsU64 amount_lamports × IsU128 units_minted × IsU128 total_units_after × IsU64 slot
  Fits (house_withdraw_requested units unlock_slot slot) =
      IsU128 units × IsU64 unlock_slot × IsU64 slot
  Fits (house_withdraw_cancelled units_returned slot) = IsU128 units_returned × IsU64 slot
  Fits (house_withdraw_completed units_burned amount_lamports slot) =
      IsU128 units_burned × IsU64 amount_lamports × IsU64 slot
  Fits (vault_unit_value_updated _ vault_assets total_units health_bps slot) =
      IsU64 vault_assets × IsU128 total_units × IsU16 health_bps × IsU64 slot

module _ (w : Web3) where
  open w use {PublicKey, to_bytes}

  abbrev pub event_layout : KaboomEvent PublicKey → Bytes
  event_layout
        (stats_updated player games_played games_won total_wagered total_payouts biggest_win
          current_streak slot) =
      layout (
        to_bytes player
        ∷ le_bytes 8 games_played
        ∷ le_bytes 8 games_won
        ∷ le_bytes 8 total_wagered
        ∷ le_bytes 8 total_payouts
        ∷ le_bytes 8 biggest_win
        ∷ le_bytes 4 current_streak
        ∷ le_bytes 8 slot
        ∷ [])
  event_layout (game_settled player game mine_count mine_layout salt commitment verified slot) =
      layout (
        to_bytes player
        ∷ to_bytes game
        ∷ le_bytes 1 mine_count
        ∷ le_bytes 2 mine_layout
        ∷ salt
        ∷ commitment
        ∷ bool_bytes verified
        ∷ le_bytes 8 slot
        ∷ [])
  event_layout (game_won player game bet payout multiplier_bps safe_reveals slot) = layout (
      to_bytes player
      ∷ to_bytes game
      ∷ le_bytes 8 bet
      ∷ le_bytes 8 payout
      ∷ le_bytes 8 multiplier_bps
      ∷ le_bytes 1 safe_reveals
      ∷ le_bytes 8 slot
      ∷ [])
  event_layout (game_lost player game bet tile_index safe_reveals slot) = layout (
      to_bytes player
      ∷ to_bytes game
      ∷ le_bytes 8 bet
      ∷ le_bytes 1 tile_index
      ∷ le_bytes 1 safe_reveals
      ∷ le_bytes 8 slot
      ∷ [])
  event_layout (referrer_set player referrer slot) =
      layout (to_bytes player ∷ to_bytes referrer ∷ le_bytes 8 slot ∷ [])
  event_layout (referral_accrued referrer player amount tier slot) = layout (
      to_bytes referrer
      ∷ to_bytes player
      ∷ le_bytes 8 amount
      ∷ le_bytes 1 tier
      ∷ le_bytes 8 slot
      ∷ [])
  event_layout (referral_tier_changed referrer new_tier slot) =
      layout (to_bytes referrer ∷ le_bytes 1 new_tier ∷ le_bytes 8 slot ∷ [])
  event_layout (referral_claimed referrer amount slot) =
      layout (to_bytes referrer ∷ le_bytes 8 amount ∷ le_bytes 8 slot ∷ [])
  event_layout (v2_initialized vault seed_units house_units total_units slot) = layout (
      to_bytes vault
      ∷ u128_bytes seed_units
      ∷ u128_bytes house_units
      ∷ u128_bytes total_units
      ∷ le_bytes 8 slot
      ∷ [])
  event_layout
        (lp_deposited user amount_lamports units_minted total_units_after vault_assets_after slot) =
      layout (
        to_bytes user
        ∷ le_bytes 8 amount_lamports
        ∷ u128_bytes units_minted
        ∷ u128_bytes total_units_after
        ∷ le_bytes 8 vault_assets_after
        ∷ le_bytes 8 slot
        ∷ [])
  event_layout (lp_withdraw_requested user units unlock_slot slot) =
      layout (to_bytes user ∷ u128_bytes units ∷ le_bytes 8 unlock_slot ∷ le_bytes 8 slot ∷ [])
  event_layout (lp_withdraw_cancelled user units_returned slot) =
      layout (to_bytes user ∷ u128_bytes units_returned ∷ le_bytes 8 slot ∷ [])
  event_layout
        (lp_withdraw_completed user units_burned amount_lamports total_units_after
          vault_assets_after slot) =
      layout (
        to_bytes user
        ∷ u128_bytes units_burned
        ∷ le_bytes 8 amount_lamports
        ∷ u128_bytes total_units_after
        ∷ le_bytes 8 vault_assets_after
        ∷ le_bytes 8 slot
        ∷ [])
  event_layout (lp_position_closed user slot) = layout (to_bytes user ∷ le_bytes 8 slot ∷ [])
  event_layout (house_deposited amount_lamports units_minted total_units_after slot) = layout (
      le_bytes 8 amount_lamports
      ∷ u128_bytes units_minted
      ∷ u128_bytes total_units_after
      ∷ le_bytes 8 slot
      ∷ [])
  event_layout (house_withdraw_requested units unlock_slot slot) =
      layout (u128_bytes units ∷ le_bytes 8 unlock_slot ∷ le_bytes 8 slot ∷ [])
  event_layout (house_withdraw_cancelled units_returned slot) =
      layout (u128_bytes units_returned ∷ le_bytes 8 slot ∷ [])
  event_layout (house_withdraw_completed units_burned amount_lamports slot) =
      layout (u128_bytes units_burned ∷ le_bytes 8 amount_lamports ∷ le_bytes 8 slot ∷ [])
  event_layout (vault_unit_value_updated vault vault_assets total_units health_bps slot) = layout (
      to_bytes vault
      ∷ le_bytes 8 vault_assets
      ∷ u128_bytes total_units
      ∷ le_bytes 2 health_bps
      ∷ le_bytes 8 slot
      ∷ [])
