-- ===== src/Sdk/Accounts/Decode.antt =====
-- The decoders of accounts.ts.
use playkaboom.Common.{
  ℕ, zero, suc, Bool, true, ◌&&◌, none, some, List, [], ◌∷◌, Result, err, thrown, String, take,
  drop, ◌==◌, if◌then◌else◌,
}
use playkaboom.Sdk.Buffer.{Bytes, subarray, bytes_eq}
use playkaboom.Sdk.Web3.{Web3}
use playkaboom.Sdk.Discriminator.{account_discriminator}
use playkaboom.Sdk.Reader.{
  Read, pure, ◌>>=◌, run, u8, u16, u32, u64, i64, u128, bytes, bool_eq_one, pk, option_pk,
}
use playkaboom.Sdk.Accounts.{
  GameStatus, playing, won, lost, expired, VaultAccount, GameSessionAccount, PlayerStatsAccount,
  ReferralAccountData, VaultV2StateAccount, LpPositionAccount,
}

abbrev pub max_allowlist : ℕ
max_allowlist = 8

-- `GAME_STATUS[byte] ?? "Playing"`
unfoldable pub game_status : ℕ → GameStatus
game_status zero = playing
game_status (suc zero) = won
game_status (suc (suc zero)) = lost
game_status (suc (suc (suc zero))) = expired
game_status _ = playing

-- `bytes.every((b) => b === 0)`
unfoldable pub all_zero : Bytes → Bool
all_zero [] = true
all_zero (b ∷ bs) = b == 0 && all_zero bs

-- `for (let i = 0; i < n; i++) list.push(read())`
unfoldable pub read_list {ℓ} : {A : Type ℓ} → ℕ → Read A → Read (List A)
read_list zero m = pure []
read_list (suc n) m = do a ← m; rest ← read_list n m; pure (a ∷ rest)

module _ (w : Web3) where
  open w use {PublicKey, to_bytes}

  -- The test that every decoder begins with, and the reader behind the discriminator.
  unfoldable pub decode_as {ℓ} : {A : Type ℓ} → String → String → Read A → Bytes → Result A
  decode_as name message body content =
      if bytes_eq (subarray 0 8 content) (account_discriminator w name)
      then run body (record { content = drop 8 content; offset = 0 })
      else err (thrown message)

  -- `decodeVault`: eight allowlist slots, of which the first `allowlistCount` are returned; an
  -- all-zero pending owner is `null`.
  unfoldable pub vault_body : Read (VaultAccount PublicKey)
  vault_body = do
    owner ← pk w
    house_authority ← pk w
    treasury ← pk w
    bump ← u8
    house_edge_bps ← u16
    max_bet_bps ← u16
    max_payout_bps ← u16
    treasury_split_bps ← u16
    total_games ← u64
    total_wagered ← u64
    total_payouts ← u64
    paused ← bool_eq_one
    version ← u8
    allowlist_count ← u8
    allowlist ← read_list max_allowlist (pk w)
    pending_owner_raw ← pk w
    pure (record {
      owner = owner;
      house_authority = house_authority;
      treasury = treasury;
      bump = bump;
      house_edge_bps = house_edge_bps;
      max_bet_bps = max_bet_bps;
      max_payout_bps = max_payout_bps;
      treasury_split_bps = treasury_split_bps;
      total_games = total_games;
      total_wagered = total_wagered;
      total_payouts = total_payouts;
      paused = paused;
      version = version;
      allowlist_count = allowlist_count;
      withdraw_allowlist = take allowlist_count allowlist;
      pending_owner =
          if all_zero (to_bytes pending_owner_raw) then none else some pending_owner_raw;
    })

  unfoldable pub decode_vault : Bytes → Result (VaultAccount PublicKey)
  unfolding vault_body
  decode_vault = decode_as "Vault" "not a Vault account" vault_body

  unfoldable pub vault_v2_state_body : Read (VaultV2StateAccount PublicKey)
  vault_v2_state_body = do
    bump ← u8
    total_outstanding_max_payout ← u64
    total_units ← u128
    house_units ← u128
    house_pending_units ← u128
    house_pending_unlock_slot ← u64
    seed_units ← u128
    total_pending_units ← u128
    min_house_share_bps ← u16
    max_user_position_bps ← u16
    min_health_bps ← u16
    withdraw_cooldown_slots ← u64
    min_lp_deposit ← u64
    vrf_mode_enabled ← bool_eq_one
    vrf_validator ← pk w
    vrf_max_payout_bps ← u16
    pure (record {
      bump = bump;
      total_outstanding_max_payout = total_outstanding_max_payout;
      total_units = total_units;
      house_units = house_units;
      house_pending_units = house_pending_units;
      house_pending_unlock_slot = house_pending_unlock_slot;
      seed_units = seed_units;
      total_pending_units = total_pending_units;
      min_house_share_bps = min_house_share_bps;
      max_user_position_bps = max_user_position_bps;
      min_health_bps = min_health_bps;
      withdraw_cooldown_slots = withdraw_cooldown_slots;
      min_lp_deposit = min_lp_deposit;
      vrf_mode_enabled = vrf_mode_enabled;
      vrf_validator = vrf_validator;
      vrf_max_payout_bps = vrf_max_payout_bps;
    })

  unfoldable pub decode_vault_v2_state : Bytes → Result (VaultV2StateAccount PublicKey)
  unfolding vault_v2_state_body
  decode_vault_v2_state = decode_as "VaultV2State" "not a VaultV2State account" vault_v2_state_body

  unfoldable pub lp_position_body : Read (LpPositionAccount PublicKey)
  lp_position_body = do
    user ← pk w
    units ← u128
    pending_units ← u128
    pending_unlock_slot ← u64
    created_slot ← u64
    bump ← u8
    pure (record {
      user = user;
      units = units;
      pending_units = pending_units;
      pending_unlock_slot = pending_unlock_slot;
      created_slot = created_slot;
      bump = bump;
    })

  unfoldable pub decode_lp_position : Bytes → Result (LpPositionAccount PublicKey)
  unfolding lp_position_body
  decode_lp_position = decode_as "LpPosition" "not an LpPosition account" lp_position_body

  unfoldable pub game_session_body : Read (GameSessionAccount PublicKey)
  game_session_body = do
    player ← pk w
    bump ← u8
    status_byte ← u8
    bet ← u64
    mine_count ← u8
    commitment ← bytes 32
    revealed_mask ← u16
    revealed_safe_mask ← u16
    safe_reveals ← u8
    multiplier_bps ← u64
    start_slot ← u64
    created_at ← i64
    settled ← bool_eq_one
    mine_layout ← u16
    salt ← bytes 32
    version ← u8
    max_payout ← u64
    pure (record {
      player = player;
      bump = bump;
      status = game_status status_byte;
      bet = bet;
      mine_count = mine_count;
      commitment = commitment;
      revealed_mask = revealed_mask;
      revealed_safe_mask = revealed_safe_mask;
      safe_reveals = safe_reveals;
      multiplier_bps = multiplier_bps;
      start_slot = start_slot;
      created_at = created_at;
      settled = settled;
      mine_layout = mine_layout;
      salt = salt;
      version = version;
      max_payout = max_payout;
    })

  unfoldable pub decode_game_session : Bytes → Result (GameSessionAccount PublicKey)
  unfolding game_session_body
  decode_game_session = decode_as "GameSession" "not a GameSession account" game_session_body

  unfoldable pub player_stats_body : Read (PlayerStatsAccount PublicKey)
  player_stats_body = do
    player ← pk w
    bump ← u8
    version ← u8
    games_played ← u64
    games_won ← u64
    total_wagered ← u64
    total_payouts ← u64
    biggest_win ← u64
    biggest_multiplier_bps ← u64
    current_streak ← u32
    best_streak ← u32
    last_played ← i64
    referrer ← option_pk w
    pure (record {
      player = player;
      bump = bump;
      version = version;
      games_played = games_played;
      games_won = games_won;
      total_wagered = total_wagered;
      total_payouts = total_payouts;
      biggest_win = biggest_win;
      biggest_multiplier_bps = biggest_multiplier_bps;
      current_streak = current_streak;
      best_streak = best_streak;
      last_played = last_played;
      referrer = referrer;
    })

  unfoldable pub decode_player_stats : Bytes → Result (PlayerStatsAccount PublicKey)
  unfolding player_stats_body
  decode_player_stats = decode_as "PlayerStats" "not a PlayerStats account" player_stats_body

  unfoldable pub referral_account_body : Read (ReferralAccountData PublicKey)
  referral_account_body = do
    referrer ← pk w
    bump ← u8
    version ← u8
    tier ← u8
    accrued_lamports ← u64
    total_earned ← u64
    referred_count ← u32
    referred_volume ← u64
    pure (record {
      referrer = referrer;
      bump = bump;
      version = version;
      tier = tier;
      accrued_lamports = accrued_lamports;
      total_earned = total_earned;
      referred_count = referred_count;
      referred_volume = referred_volume;
    })

  unfoldable pub decode_referral_account : Bytes → Result (ReferralAccountData PublicKey)
  unfolding referral_account_body
  decode_referral_account =
      decode_as "ReferralAccount" "not a ReferralAccount account" referral_account_body
