-- ===== src/Sdk/Accounts/Layout.antt =====
-- How the program lays the accounts out: an independent description, field by field, of the bytes
-- behind the discriminator, and the ranges of the fields.
use playkaboom.Common.{
  ℕ, ◌<◌, ◌^◌, Bool, false, Option, none, some, List, [], ◌∷◌, ◌++◌, if◌then◌else◌, ◌≡◌, ◌≤◌, ◌-◌,
  length, replicate, map,
}
use playkaboom.Common.Int.{ℤ, pos, negsuc, pos_part, neg_part}
use playkaboom.Sdk.Buffer.{Bytes, le_bytes, u128_bytes}
use playkaboom.Sdk.Web3.{Web3}
use mathlib.Core.Option.{get_or}
use playkaboom.Sdk.Accounts.Decode.{max_allowlist, all_zero}
use playkaboom.Sdk.Accounts.{
  GameStatus, playing, won, lost, expired, VaultAccount, GameSessionAccount, PlayerStatsAccount,
  ReferralAccountData, VaultV2StateAccount, LpPositionAccount,
}

abbrev pub IsU8 : ℕ → Type 0
IsU8 v = v < 2 ^ 8

abbrev pub IsU16 : ℕ → Type 0
IsU16 v = v < 2 ^ 16

abbrev pub IsU32 : ℕ → Type 0
IsU32 v = v < 2 ^ 32

abbrev pub IsU64 : ℕ → Type 0
IsU64 v = v < 2 ^ 64

abbrev pub IsU128 : ℕ → Type 0
IsU128 v = v < 2 ^ 128

-- The fields' bytes, one after the other.
abbrev pub layout : List Bytes → Bytes
layout [] = []
layout (b ∷ bs) = b ++ layout bs

abbrev pub bool_bytes : Bool → Bytes
bool_bytes b = le_bytes 1 (if b then 1 else 0)

-- The two's complement of an i64.
abbrev pub IsI64 : ℤ → Type 0
IsI64 v = (pos_part v < 2 ^ 63) × (neg_part v ≤ 2 ^ 63)

unfoldable pub word64 : ℤ → ℕ
word64 (pos n) = n
word64 (negsuc n) = 2 ^ 64 - n - 1

unfoldable pub status_byte : GameStatus → ℕ
status_byte playing = 0
status_byte won = 1
status_byte lost = 2
status_byte expired = 3

pub record FitsVault (w : Web3) (a : VaultAccount w.PublicKey) (spare : List w.PublicKey)
    : Type 0 where
  pub bump : IsU8 a.bump
  pub house_edge_bps : IsU16 a.house_edge_bps
  pub max_bet_bps : IsU16 a.max_bet_bps
  pub max_payout_bps : IsU16 a.max_payout_bps
  pub treasury_split_bps : IsU16 a.treasury_split_bps
  pub total_games : IsU64 a.total_games
  pub total_wagered : IsU64 a.total_wagered
  pub total_payouts : IsU64 a.total_payouts
  pub version : IsU8 a.version
  pub allowlist_count : length a.withdraw_allowlist ≡ a.allowlist_count
  pub allowlist_slots : length (a.withdraw_allowlist ++ spare) ≡ max_allowlist
  pub pending_owner : (k : w.PublicKey) → a.pending_owner ≡ some k → all_zero (w.to_bytes k) ≡ false

pub record FitsVaultV2State {K : Type 0} (a : VaultV2StateAccount K) : Type 0 where
  pub bump : IsU8 a.bump
  pub total_outstanding_max_payout : IsU64 a.total_outstanding_max_payout
  pub total_units : IsU128 a.total_units
  pub house_units : IsU128 a.house_units
  pub house_pending_units : IsU128 a.house_pending_units
  pub house_pending_unlock_slot : IsU64 a.house_pending_unlock_slot
  pub seed_units : IsU128 a.seed_units
  pub total_pending_units : IsU128 a.total_pending_units
  pub min_house_share_bps : IsU16 a.min_house_share_bps
  pub max_user_position_bps : IsU16 a.max_user_position_bps
  pub min_health_bps : IsU16 a.min_health_bps
  pub withdraw_cooldown_slots : IsU64 a.withdraw_cooldown_slots
  pub min_lp_deposit : IsU64 a.min_lp_deposit
  pub vrf_max_payout_bps : IsU16 a.vrf_max_payout_bps

pub record FitsLpPosition {K : Type 0} (a : LpPositionAccount K) : Type 0 where
  pub units : IsU128 a.units
  pub pending_units : IsU128 a.pending_units
  pub pending_unlock_slot : IsU64 a.pending_unlock_slot
  pub created_slot : IsU64 a.created_slot
  pub bump : IsU8 a.bump

pub record FitsGameSession {K : Type 0} (a : GameSessionAccount K) : Type 0 where
  pub bump : IsU8 a.bump
  pub bet : IsU64 a.bet
  pub mine_count : IsU8 a.mine_count
  pub commitment : length a.commitment ≡ 32
  pub revealed_mask : IsU16 a.revealed_mask
  pub revealed_safe_mask : IsU16 a.revealed_safe_mask
  pub safe_reveals : IsU8 a.safe_reveals
  pub multiplier_bps : IsU64 a.multiplier_bps
  pub start_slot : IsU64 a.start_slot
  pub created_at : IsI64 a.created_at
  pub mine_layout : IsU16 a.mine_layout
  pub salt : length a.salt ≡ 32
  pub version : IsU8 a.version
  pub max_payout : IsU64 a.max_payout

pub record FitsPlayerStats {K : Type 0} (a : PlayerStatsAccount K) : Type 0 where
  pub bump : IsU8 a.bump
  pub version : IsU8 a.version
  pub games_played : IsU64 a.games_played
  pub games_won : IsU64 a.games_won
  pub total_wagered : IsU64 a.total_wagered
  pub total_payouts : IsU64 a.total_payouts
  pub biggest_win : IsU64 a.biggest_win
  pub biggest_multiplier_bps : IsU64 a.biggest_multiplier_bps
  pub current_streak : IsU32 a.current_streak
  pub best_streak : IsU32 a.best_streak
  pub last_played : IsI64 a.last_played

pub record FitsReferralAccount {K : Type 0} (a : ReferralAccountData K) : Type 0 where
  pub bump : IsU8 a.bump
  pub version : IsU8 a.version
  pub tier : IsU8 a.tier
  pub accrued_lamports : IsU64 a.accrued_lamports
  pub total_earned : IsU64 a.total_earned
  pub referred_count : IsU32 a.referred_count
  pub referred_volume : IsU64 a.referred_volume

module _ (w : Web3) where
  open w use {PublicKey, to_bytes}

  -- A tag, and 32 bytes that hold the key where there is one.
  abbrev pub option_bytes : Option PublicKey → Bytes
  option_bytes none = layout (le_bytes 1 0 ∷ replicate 32 0 ∷ [])
  option_bytes (some k) = layout (le_bytes 1 1 ∷ to_bytes k ∷ [])

  abbrev pub vault_v2_state_layout : VaultV2StateAccount PublicKey → Bytes
  vault_v2_state_layout a = layout (
      le_bytes 1 a.bump
      ∷ le_bytes 8 a.total_outstanding_max_payout
      ∷ u128_bytes a.total_units
      ∷ u128_bytes a.house_units
      ∷ u128_bytes a.house_pending_units
      ∷ le_bytes 8 a.house_pending_unlock_slot
      ∷ u128_bytes a.seed_units
      ∷ u128_bytes a.total_pending_units
      ∷ le_bytes 2 a.min_house_share_bps
      ∷ le_bytes 2 a.max_user_position_bps
      ∷ le_bytes 2 a.min_health_bps
      ∷ le_bytes 8 a.withdraw_cooldown_slots
      ∷ le_bytes 8 a.min_lp_deposit
      ∷ bool_bytes a.vrf_mode_enabled
      ∷ to_bytes a.vrf_validator
      ∷ le_bytes 2 a.vrf_max_payout_bps
      ∷ [])

  abbrev pub lp_position_layout : LpPositionAccount PublicKey → Bytes
  lp_position_layout a = layout (
      to_bytes a.user
      ∷ u128_bytes a.units
      ∷ u128_bytes a.pending_units
      ∷ le_bytes 8 a.pending_unlock_slot
      ∷ le_bytes 8 a.created_slot
      ∷ le_bytes 1 a.bump
      ∷ [])

  abbrev pub game_session_layout : GameSessionAccount PublicKey → Bytes
  game_session_layout a = layout (
      to_bytes a.player
      ∷ le_bytes 1 a.bump
      ∷ le_bytes 1 (status_byte a.status)
      ∷ le_bytes 8 a.bet
      ∷ le_bytes 1 a.mine_count
      ∷ a.commitment
      ∷ le_bytes 2 a.revealed_mask
      ∷ le_bytes 2 a.revealed_safe_mask
      ∷ le_bytes 1 a.safe_reveals
      ∷ le_bytes 8 a.multiplier_bps
      ∷ le_bytes 8 a.start_slot
      ∷ le_bytes 8 (word64 a.created_at)
      ∷ bool_bytes a.settled
      ∷ le_bytes 2 a.mine_layout
      ∷ a.salt
      ∷ le_bytes 1 a.version
      ∷ le_bytes 8 a.max_payout
      ∷ [])

  abbrev pub player_stats_layout : PlayerStatsAccount PublicKey → Bytes
  player_stats_layout a = layout (
      to_bytes a.player
      ∷ le_bytes 1 a.bump
      ∷ le_bytes 1 a.version
      ∷ le_bytes 8 a.games_played
      ∷ le_bytes 8 a.games_won
      ∷ le_bytes 8 a.total_wagered
      ∷ le_bytes 8 a.total_payouts
      ∷ le_bytes 8 a.biggest_win
      ∷ le_bytes 8 a.biggest_multiplier_bps
      ∷ le_bytes 4 a.current_streak
      ∷ le_bytes 4 a.best_streak
      ∷ le_bytes 8 (word64 a.last_played)
      ∷ option_bytes a.referrer
      ∷ [])

  abbrev pub referral_account_layout : ReferralAccountData PublicKey → Bytes
  referral_account_layout a = layout (
      to_bytes a.referrer
      ∷ le_bytes 1 a.bump
      ∷ le_bytes 1 a.version
      ∷ le_bytes 1 a.tier
      ∷ le_bytes 8 a.accrued_lamports
      ∷ le_bytes 8 a.total_earned
      ∷ le_bytes 4 a.referred_count
      ∷ le_bytes 8 a.referred_volume
      ∷ [])

  -- Eight allowlist slots, the counted ones first; 32 zeros where no owner is pending.
  abbrev pub vault_layout : VaultAccount PublicKey → List PublicKey → Bytes
  vault_layout a spare = layout (
      to_bytes a.owner
      ∷ to_bytes a.house_authority
      ∷ to_bytes a.treasury
      ∷ le_bytes 1 a.bump
      ∷ le_bytes 2 a.house_edge_bps
      ∷ le_bytes 2 a.max_bet_bps
      ∷ le_bytes 2 a.max_payout_bps
      ∷ le_bytes 2 a.treasury_split_bps
      ∷ le_bytes 8 a.total_games
      ∷ le_bytes 8 a.total_wagered
      ∷ le_bytes 8 a.total_payouts
      ∷ bool_bytes a.paused
      ∷ le_bytes 1 a.version
      ∷ le_bytes 1 a.allowlist_count
      ∷ layout (map to_bytes (a.withdraw_allowlist ++ spare))
      ∷ to_bytes (get_or a.pending_owner w.default_key)
      ∷ [])
