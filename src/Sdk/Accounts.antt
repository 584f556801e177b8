-- ===== src/Sdk/Accounts.antt =====
-- packages/sdk/src/accounts.ts: the on-chain accounts and their decoders.
pub mod Decode
pub mod Layout
pub mod RoundTrip
use playkaboom.Common.{ℕ, Bool, Option, List}
use playkaboom.Common.Int.{ℤ}
use playkaboom.Sdk.Buffer.{Bytes}

pub data GameStatus : Type 0 where
  playing won lost expired : GameStatus

pub record VaultAccount (K : Type 0) : Type 0 where
  pub owner : K
  pub house_authority : K
  pub treasury : K
  pub bump : ℕ
  pub house_edge_bps : ℕ
  pub max_bet_bps : ℕ
  pub max_payout_bps : ℕ
  pub treasury_split_bps : ℕ
  pub total_games : ℕ
  pub total_wagered : ℕ
  pub total_payouts : ℕ
  pub paused : Bool
  pub version : ℕ
  pub allowlist_count : ℕ
  pub withdraw_allowlist : List K
  pub pending_owner : Option K

pub record GameSessionAccount (K : Type 0) : Type 0 where
  pub player : K
  pub bump : ℕ
  pub status : GameStatus
  pub bet : ℕ
  pub mine_count : ℕ
  pub commitment : Bytes
  pub revealed_mask : ℕ
  pub revealed_safe_mask : ℕ
  pub safe_reveals : ℕ
  pub multiplier_bps : ℕ
  pub start_slot : ℕ
  pub created_at : ℤ
  pub settled : Bool
  pub mine_layout : ℕ
  pub salt : Bytes
  pub version : ℕ
  pub max_payout : ℕ

pub record PlayerStatsAccount (K : Type 0) : Type 0 where
  pub player : K
  pub bump : ℕ
  pub version : ℕ
  pub games_played : ℕ
  pub games_won : ℕ
  pub total_wagered : ℕ
  pub total_payouts : ℕ
  pub biggest_win : ℕ
  pub biggest_multiplier_bps : ℕ
  pub current_streak : ℕ
  pub best_streak : ℕ
  pub last_played : ℤ
  pub referrer : Option K

pub record ReferralAccountData (K : Type 0) : Type 0 where
  pub referrer : K
  pub bump : ℕ
  pub version : ℕ
  pub tier : ℕ
  pub accrued_lamports : ℕ
  pub total_earned : ℕ
  pub referred_count : ℕ
  pub referred_volume : ℕ

pub record VaultV2StateAccount (K : Type 0) : Type 0 where
  pub bump : ℕ
  pub total_outstanding_max_payout : ℕ
  pub total_units : ℕ
  pub house_units : ℕ
  pub house_pending_units : ℕ
  pub house_pending_unlock_slot : ℕ
  pub seed_units : ℕ
  pub total_pending_units : ℕ
  pub min_house_share_bps : ℕ
  pub max_user_position_bps : ℕ
  pub min_health_bps : ℕ
  pub withdraw_cooldown_slots : ℕ
  pub min_lp_deposit : ℕ
  pub vrf_mode_enabled : Bool
  pub vrf_validator : K
  pub vrf_max_payout_bps : ℕ

pub record LpPositionAccount (K : Type 0) : Type 0 where
  pub user : K
  pub units : ℕ
  pub pending_units : ℕ
  pub pending_unlock_slot : ℕ
  pub created_slot : ℕ
  pub bump : ℕ
