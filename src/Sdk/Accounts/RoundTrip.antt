-- ===== src/Sdk/Accounts/RoundTrip.antt =====
-- The decoders of accounts.ts over the layout of each account.
pub mod Vault
use playkaboom.Common.{
  ℕ, ◌<◌, ◌^◌, ◌≡◌, refl, ap, arith, Bool, true, false, Option, none, some, List, [], ◌∷◌, ◌++◌,
  if◌then◌else◌, Result, ok, err, thrown, String, ◌↔◌, ◌∙◌, zero, suc, take, map, length,
  length-append, take-append_length, Option-cases, inl, inr,
}
use mathlib.Core.Option.{get_or}
use playkaboom.Common.Int.{ℤ, pos, negsuc}
use playkaboom.Sdk.Buffer.{Bytes, alloc, le_bytes, u128_bytes, bytes_eq, subarray}
use playkaboom.Sdk.Buffer.Laws.{bytes_eq_refl, take-append, drop-append}
use playkaboom.Sdk.Web3.{Web3, IsWeb3}
use playkaboom.Sdk.Discriminator.{account_discriminator, length-account_discriminator}
use playkaboom.Sdk.Reader.{Reader, Read, run, i64, signed64, option_pk, pk}
use playkaboom.Sdk.Reader.Reads.{
  Reads, run-Reads, Reads-bind, Reads-map, Reads-pure, Reads-uint, Reads-u128, Reads-i64,
  Reads-bytes, Reads-bool_eq_one, Reads-pk, Reads-option_pk-some, Reads-option_pk-none,
}
use playkaboom.Sdk.Accounts.{
  GameStatus, playing, won, lost, expired, VaultAccount, GameSessionAccount, PlayerStatsAccount,
  ReferralAccountData, VaultV2StateAccount, LpPositionAccount,
}
use playkaboom.Sdk.Accounts.Decode.{
  game_status, all_zero, read_list, decode_as, vault_body, decode_vault, vault_v2_state_body,
  decode_vault_v2_state, lp_position_body, decode_lp_position, game_session_body,
  decode_game_session, player_stats_body, decode_player_stats, referral_account_body,
  decode_referral_account,
}
use playkaboom.Sdk.Accounts.Layout.{
  layout, FitsVault, vault_layout, IsI64, word64, status_byte, option_bytes, FitsVaultV2State,
  vault_v2_state_layout, FitsLpPosition, lp_position_layout, FitsGameSession, game_session_layout,
  FitsPlayerStats, player_stats_layout, FitsReferralAccount, referral_account_layout,
}

module _ {w : Web3} (h : IsWeb3 w) where
  open w use {PublicKey}

  -- A decoder reads what stands behind its own discriminator.
  pub decode_as_lem {ℓ} :
      {A : Type ℓ} (name message : String) (body : Read A) {bs : Bytes} {a : A} (rest : Bytes)
      → Reads body bs a
      → decode_as w name message body (account_discriminator w name ++ (bs ++ rest)) ≡ ok a
  unfolding decode_as
  decode_as_lem name message body {bs} rest r =
      let disc = account_discriminator w name in
      let eight = length-account_discriminator h name in
      rw
        (
          take-append 8 disc (bs ++ rest) eight,
          bytes_eq_refl disc,
          drop-append 8 disc (bs ++ rest) eight,
        )
        (run-Reads body rest r)

game_status-status_byte : (s : GameStatus) → game_status (status_byte s) ≡ s
unfolding game_status status_byte
game_status-status_byte playing = refl
game_status-status_byte won = refl
game_status-status_byte lost = refl
game_status-status_byte expired = refl

status_byte-lt : (s : GameStatus) → status_byte s < 256
unfolding status_byte
status_byte-lt s = ground arith

signed64-word64 : (v : ℤ) → IsI64 v → signed64 (word64 v) ≡ v
unfolding word64
signed64-word64 v f = ground arith

word64-lt : (v : ℤ) → IsI64 v → word64 v < 2 ^ 64
unfolding word64
word64-lt v f = ground arith

Reads-word64 : (v : ℤ) → IsI64 v → Reads i64 (le_bytes 8 (word64 v)) v
Reads-word64 v f =
    let same : signed64 (word64 v) ≡ v = signed64-word64 v f in
    rw same at (Reads-i64 (word64 v) (word64-lt v f))

module _ {w : Web3} (h : IsWeb3 w) where
  open w use {PublicKey}

  Reads-option_bytes : (o : Option PublicKey) → Reads (option_pk w) (option_bytes w o) o
  Reads-option_bytes none = Reads-option_pk-none w h (alloc 32) refl
  Reads-option_bytes (some k) = Reads-option_pk-some w h k 1 (omega arith) (omega arith)

  Reads-vault_v2_state :
      (a : VaultV2StateAccount PublicKey)
      → FitsVaultV2State a
      → Reads (vault_v2_state_body w) (vault_v2_state_layout w a) a
  unfolding vault_v2_state_body
  Reads-vault_v2_state a f = Reads-bind _ _ (Reads-uint 1 a.bump f.bump) (
      Reads-bind _ _ (Reads-uint 8 a.total_outstanding_max_payout f.total_outstanding_max_payout) (
        Reads-bind _ _ (Reads-u128 a.total_units f.total_units) (
          Reads-bind _ _ (Reads-u128 a.house_units f.house_units) (
            Reads-bind _ _ (Reads-u128 a.house_pending_units f.house_pending_units) (
              Reads-bind _ _ (Reads-uint 8 a.house_pending_unlock_slot f.house_pending_unlock_slot)
                (Reads-bind _ _ (Reads-u128 a.seed_units f.seed_units) (
                  Reads-bind _ _ (Reads-u128 a.total_pending_units f.total_pending_units) (
                    Reads-bind _ _ (Reads-uint 2 a.min_house_share_bps f.min_house_share_bps) (
                      Reads-bind _ _ (Reads-uint 2 a.max_user_position_bps f.max_user_position_bps)
                        (Reads-bind _ _ (Reads-uint 2 a.min_health_bps f.min_health_bps) (
                          Reads-bind _ _
                            (Reads-uint 8 a.withdraw_cooldown_slots f.withdraw_cooldown_slots)
                            (Reads-bind _ _ (Reads-uint 8 a.min_lp_deposit f.min_lp_deposit) (
                              Reads-bind _ _ (Reads-bool_eq_one a.vrf_mode_enabled) (
                                Reads-bind _ _ (Reads-pk w h a.vrf_validator) (
                                  Reads-bind _ _
                                    (Reads-uint 2 a.vrf_max_payout_bps f.vrf_max_payout_bps)
                                    (Reads-pure a))))))))))))))))

  -- `decodeVaultV2State` returns the VaultV2State account whose fields, each in its range, stand in the
  -- program's layout behind the discriminator, whatever follows them.
  pub decode_vault_v2_state-layout :
      (a : VaultV2StateAccount PublicKey) (rest : Bytes)
      → FitsVaultV2State a
      → decode_vault_v2_state w
          (account_discriminator w "VaultV2State" ++ (vault_v2_state_layout w a ++ rest))
        ≡ ok a
  unfolding decode_vault_v2_state
  decode_vault_v2_state-layout a rest f = decode_as_lem h _ _ _ rest (Reads-vault_v2_state a f)

  Reads-lp_position :
      (a : LpPositionAccount PublicKey)
      → FitsLpPosition a
      → Reads (lp_position_body w) (lp_position_layout w a) a
  unfolding lp_position_body
  Reads-lp_position a f = Reads-bind _ _ (Reads-pk w h a.user) (
      Reads-bind _ _ (Reads-u128 a.units f.units) (
        Reads-bind _ _ (Reads-u128 a.pending_units f.pending_units) (
          Reads-bind _ _ (Reads-uint 8 a.pending_unlock_slot f.pending_unlock_slot) (
            Reads-bind _ _ (Reads-uint 8 a.created_slot f.created_slot)
              (Reads-bind _ _ (Reads-uint 1 a.bump f.bump) (Reads-pure a))))))

  -- `decodeLpPosition` returns the LpPosition account whose fields, each in its range, stand in the
  -- program's layout behind the discriminator, whatever follows them.
  pub decode_lp_position-layout :
      (a : LpPositionAccount PublicKey) (rest : Bytes)
      → FitsLpPosition a
      → decode_lp_position w
          (account_discriminator w "LpPosition" ++ (lp_position_layout w a ++ rest))
        ≡ ok a
  unfolding decode_lp_position
  decode_lp_position-layout a rest f = decode_as_lem h _ _ _ rest (Reads-lp_position a f)

  Reads-game_session :
      (a : GameSessionAccount PublicKey)
      → FitsGameSession a
      → Reads (game_session_body w) (game_session_layout w a) a
  unfolding game_session_body
  Reads-game_session a f = Reads-bind _ _ (Reads-pk w h a.player) (
      Reads-bind _ _ (Reads-uint 1 a.bump f.bump) (
        Reads-bind _ _ (Reads-uint 1 (status_byte a.status) (status_byte-lt a.status)) (
          Reads-bind _ _ (Reads-uint 8 a.bet f.bet) (
            Reads-bind _ _ (Reads-uint 1 a.mine_count f.mine_count) (
              Reads-bind _ _ (Reads-bytes 32 a.commitment f.commitment) (
                Reads-bind _ _ (Reads-uint 2 a.revealed_mask f.revealed_mask) (
                  Reads-bind _ _ (Reads-uint 2 a.revealed_safe_mask f.revealed_safe_mask) (
                    Reads-bind _ _ (Reads-uint 1 a.safe_reveals f.safe_reveals) (
                      Reads-bind _ _ (Reads-uint 8 a.multiplier_bps f.multiplier_bps) (
                        Reads-bind _ _ (Reads-uint 8 a.start_slot f.start_slot) (
                          Reads-bind _ _ (Reads-word64 a.created_at f.created_at) (
                            Reads-bind _ _ (Reads-bool_eq_one a.settled) (
                              Reads-bind _ _ (Reads-uint 2 a.mine_layout f.mine_layout) (
                                Reads-bind _ _ (Reads-bytes 32 a.salt f.salt) (
                                  Reads-bind _ _ (Reads-uint 1 a.version f.version) (
                                    Reads-bind _ _ (Reads-uint 8 a.max_payout f.max_payout) (
                                      rw (game_status-status_byte a.status)
                                        (Reads-pure a))))))))))))))))))

  -- `decodeGameSession` returns the GameSession account whose fields, each in its range, stand in the
  -- program's layout behind the discriminator, whatever follows them.
  pub decode_game_session-layout :
      (a : GameSessionAccount PublicKey) (rest : Bytes)
      → FitsGameSession a
      → decode_game_session w
          (account_discriminator w "GameSession" ++ (game_session_layout w a ++ rest))
        ≡ ok a
  unfolding decode_game_session
  decode_game_session-layout a rest f = decode_as_lem h _ _ _ rest (Reads-game_session a f)

  Reads-player_stats :
      (a : PlayerStatsAccount PublicKey)
      → FitsPlayerStats a
      → Reads (player_stats_body w) (player_stats_layout w a) a
  unfolding player_stats_body
  Reads-player_stats a f = Reads-bind _ _ (Reads-pk w h a.player) (
      Reads-bind _ _ (Reads-uint 1 a.bump f.bump) (
        Reads-bind _ _ (Reads-uint 1 a.version f.version) (
          Reads-bind _ _ (Reads-uint 8 a.games_played f.games_played) (
            Reads-bind _ _ (Reads-uint 8 a.games_won f.games_won) (
              Reads-bind _ _ (Reads-uint 8 a.total_wagered f.total_wagered) (
                Reads-bind _ _ (Reads-uint 8 a.total_payouts f.total_payouts) (
                  Reads-bind _ _ (Reads-uint 8 a.biggest_win f.biggest_win) (
                    Reads-bind _ _ (Reads-uint 8 a.biggest_multiplier_bps f.biggest_multiplier_bps)
                      (Reads-bind _ _ (Reads-uint 4 a.current_streak f.current_streak) (
                        Reads-bind _ _ (Reads-uint 4 a.best_streak f.best_streak) (
                          Reads-bind _ _ (Reads-word64 a.last_played f.last_played) (
                            Reads-bind _ _ (Reads-option_bytes a.referrer)
                              (Reads-pure a)))))))))))))

  -- `decodePlayerStats` returns the PlayerStats account whose fields, each in its range, stand in the
  -- program's layout behind the discriminator, whatever follows them.
  pub decode_player_stats-layout :
      (a : PlayerStatsAccount PublicKey) (rest : Bytes)
      → FitsPlayerStats a
      → decode_player_stats w
          (account_discriminator w "PlayerStats" ++ (player_stats_layout w a ++ rest))
        ≡ ok a
  unfolding decode_player_stats
  decode_player_stats-layout a rest f = decode_as_lem h _ _ _ rest (Reads-player_stats a f)

  Reads-referral_account :
      (a : ReferralAccountData PublicKey)
      → FitsReferralAccount a
      → Reads (referral_account_body w) (referral_account_layout w a) a
  unfolding referral_account_body
  Reads-referral_account a f = Reads-bind _ _ (Reads-pk w h a.referrer) (
      Reads-bind _ _ (Reads-uint 1 a.bump f.bump) (
        Reads-bind _ _ (Reads-uint 1 a.version f.version) (
          Reads-bind _ _ (Reads-uint 1 a.tier f.tier) (
            Reads-bind _ _ (Reads-uint 8 a.accrued_lamports f.accrued_lamports) (
              Reads-bind _ _ (Reads-uint 8 a.total_earned f.total_earned) (
                Reads-bind _ _ (Reads-uint 4 a.referred_count f.referred_count) (
                  Reads-bind _ _ (Reads-uint 8 a.referred_volume f.referred_volume)
                    (Reads-pure a))))))))

  -- `decodeReferralAccount` returns the ReferralAccount account whose fields, each in its range, stand in the
  -- program's layout behind the discriminator, whatever follows them.
  pub decode_referral_account-layout :
      (a : ReferralAccountData PublicKey) (rest : Bytes)
      → FitsReferralAccount a
      → decode_referral_account w
          (account_discriminator w "ReferralAccount" ++ (referral_account_layout w a ++ rest))
        ≡ ok a
  unfolding decode_referral_account
  decode_referral_account-layout a rest f = decode_as_lem h _ _ _ rest (Reads-referral_account a f)
