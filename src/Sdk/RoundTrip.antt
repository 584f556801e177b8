-- ===== src/Sdk/RoundTrip.antt =====
-- Every account of the program, through the decoder of accounts.ts or vrf.ts that is for it.
use playkaboom.Common.{◌≡◌, List, ◌++◌, ok}
use playkaboom.Sdk.Buffer.{Bytes}
use playkaboom.Sdk.Web3.{Web3, IsWeb3}
use playkaboom.Sdk.Discriminator.{account_discriminator}
use playkaboom.Sdk.Accounts.{
  VaultAccount, GameSessionAccount, PlayerStatsAccount, ReferralAccountData, VaultV2StateAccount,
  LpPositionAccount,
}
use playkaboom.Sdk.Accounts.Decode.{
  decode_vault, decode_vault_v2_state, decode_lp_position, decode_game_session, decode_player_stats,
  decode_referral_account,
}
use playkaboom.Sdk.Accounts.Layout.{
  FitsVault, FitsVaultV2State, FitsLpPosition, FitsGameSession, FitsPlayerStats,
  FitsReferralAccount, vault_layout, vault_v2_state_layout, lp_position_layout, game_session_layout,
  player_stats_layout, referral_account_layout,
}
use playkaboom.Sdk.Accounts.RoundTrip.{
  decode_vault_v2_state-layout, decode_lp_position-layout, decode_game_session-layout,
  decode_player_stats-layout, decode_referral_account-layout,
}
use playkaboom.Sdk.Accounts.RoundTrip.Vault.{decode_vault-layout}
use playkaboom.Sdk.Vrf.{VrfClaimAccount, VrfGameAccount, decode_vrf_claim, decode_vrf_game}
use playkaboom.Sdk.Vrf.RoundTrip.{
  FitsVrfClaim, FitsVrfGame, vrf_claim_layout, vrf_game_layout, decode_vrf_claim-layout,
  decode_vrf_game-layout,
}

-- An account, and for a vault what fills the unused slots of its allowlist
pub data Account (K : Type 0) : Type 0 where
  vault : VaultAccount K → (spare : List K) → Account K
  vault_v2_state : VaultV2StateAccount K → Account K
  lp_position : LpPositionAccount K → Account K
  game_session : GameSessionAccount K → Account K
  player_stats : PlayerStatsAccount K → Account K
  referral_account : ReferralAccountData K → Account K
  vrf_claim : VrfClaimAccount K → Account K
  vrf_game : VrfGameAccount K → Account K

module _ (w : Web3) where
  open w use {PublicKey}

  -- The account's numbers and lists fit their fields.
  abbrev pub Fits : Account PublicKey → Type 0
  Fits (vault a spare) = FitsVault w a spare
  Fits (vault_v2_state a) = FitsVaultV2State a
  Fits (lp_position a) = FitsLpPosition a
  Fits (game_session a) = FitsGameSession a
  Fits (player_stats a) = FitsPlayerStats a
  Fits (referral_account a) = FitsReferralAccount a
  Fits (vrf_claim a) = FitsVrfClaim a
  Fits (vrf_game a) = FitsVrfGame a

  -- The decoder returns the account from its discriminator and its fields, whatever follows them.
  abbrev pub IsReadBack : Account PublicKey → Bytes → Type 0
  IsReadBack (vault a spare) rest =
      decode_vault w (account_discriminator w "Vault" ++ (vault_layout w a spare ++ rest)) ≡ ok a
  IsReadBack (vault_v2_state a) rest =
      decode_vault_v2_state w
        (account_discriminator w "VaultV2State" ++ (vault_v2_state_layout w a ++ rest))
      ≡ ok a
  IsReadBack (lp_position a) rest =
      decode_lp_position w
        (account_discriminator w "LpPosition" ++ (lp_position_layout w a ++ rest))
      ≡ ok a
  IsReadBack (game_session a) rest =
      decode_game_session w
        (account_discriminator w "GameSession" ++ (game_session_layout w a ++ rest))
      ≡ ok a
  IsReadBack (player_stats a) rest =
      decode_player_stats w
        (account_discriminator w "PlayerStats" ++ (player_stats_layout w a ++ rest))
      ≡ ok a
  IsReadBack (referral_account a) rest =
      decode_referral_account w
        (account_discriminator w "ReferralAccount" ++ (referral_account_layout w a ++ rest))
      ≡ ok a
  IsReadBack (vrf_claim a) rest =
      decode_vrf_claim w (account_discriminator w "VrfClaim" ++ (vrf_claim_layout w a ++ rest))
      ≡ ok a
  IsReadBack (vrf_game a) rest =
      decode_vrf_game w (account_discriminator w "VrfGame" ++ (vrf_game_layout w a ++ rest)) ≡ ok a

-- Each of the eight account decoders returns the account whose fields, which fit, stand in the
-- program's layout behind the account's discriminator, whatever bytes follow.
pub account-IsReadBack :
    {w : Web3} (h : IsWeb3 w) (a : Account w.PublicKey) (rest : Bytes)
    → Fits w a
    → IsReadBack w a rest
account-IsReadBack h (vault a spare) rest f = decode_vault-layout h a spare rest f
account-IsReadBack h (vault_v2_state a) rest f = decode_vault_v2_state-layout h a rest f
account-IsReadBack h (lp_position a) rest f = decode_lp_position-layout h a rest f
account-IsReadBack h (game_session a) rest f = decode_game_session-layout h a rest f
account-IsReadBack h (player_stats a) rest f = decode_player_stats-layout h a rest f
account-IsReadBack h (referral_account a) rest f = decode_referral_account-layout h a rest f
account-IsReadBack h (vrf_claim a) rest f = decode_vrf_claim-layout h a rest f
account-IsReadBack h (vrf_game a) rest f = decode_vrf_game-layout h a rest f
