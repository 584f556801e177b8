-- ===== src/Sdk/Events/Decode.antt =====
-- The decoders of events.ts, and the registry by which the first eight bytes choose one.
use playkaboom.Common.{
  Option, none, some, List, [], ◌∷◌, Result, ok, err, ltb, length, if◌then◌else◌,
}
use playkaboom.Sdk.Buffer.{Bytes, subarray, bytes_eq}
use playkaboom.Sdk.Web3.{Web3}
use playkaboom.Sdk.Discriminator.{event_discriminator}
use playkaboom.Sdk.Reader.{Read, pure, ◌>>=◌, run, u8, u16, u32, u64, u128, bytes, bool_eq_one, pk}
use playkaboom.Sdk.Events.{
  KaboomEvent, stats_updated, game_settled, game_won, game_lost, referrer_set, referral_accrued,
  referral_tier_changed, referral_claimed, v2_initialized, lp_deposited, lp_withdraw_requested,
  lp_withdraw_cancelled, lp_withdraw_completed, lp_position_closed, house_deposited,
  house_withdraw_requested, house_withdraw_cancelled, house_withdraw_completed,
  vault_unit_value_updated, EventKind, stats_updated_kind, game_settled_kind, game_won_kind,
  game_lost_kind, referrer_set_kind, referral_accrued_kind, referral_tier_changed_kind,
  referral_claimed_kind, v2_initialized_kind, lp_deposited_kind, lp_withdraw_requested_kind,
  lp_withdraw_cancelled_kind, lp_withdraw_completed_kind, lp_position_closed_kind,
  house_deposited_kind, house_withdraw_requested_kind, house_withdraw_cancelled_kind,
  house_withdraw_completed_kind, vault_unit_value_updated_kind, kind_name,
}

-- `Object.values(EVENTS)`
unfoldable pub event_kinds : List EventKind
event_kinds =
    stats_updated_kind ∷ game_settled_kind ∷ game_won_kind ∷ game_lost_kind ∷ referrer_set_kind
    ∷ referral_accrued_kind ∷ referral_tier_changed_kind ∷ referral_claimed_kind
    ∷ v2_initialized_kind ∷ lp_deposited_kind ∷ lp_withdraw_requested_kind
    ∷ lp_withdraw_cancelled_kind ∷ lp_withdraw_completed_kind ∷ lp_position_closed_kind
    ∷ house_deposited_kind ∷ house_withdraw_requested_kind ∷ house_withdraw_cancelled_kind
    ∷ house_withdraw_completed_kind ∷ vault_unit_value_updated_kind ∷ []

module _ (w : Web3) where
  open w use {PublicKey}

  unfoldable pub stats_updated_body : Read (KaboomEvent PublicKey)
  stats_updated_body = do
    player ← pk w
    games_played ← u64
    games_won ← u64
    total_wagered ← u64
    total_payouts ← u64
    biggest_win ← u64
    current_streak ← u32
    slot ← u64
    pure (
        stats_updated player games_played games_won total_wagered total_payouts biggest_win
          current_streak slot)

  unfoldable pub game_settled_body : Read (KaboomEvent PublicKey)
  game_settled_body = do
    player ← pk w
    game ← pk w
    mine_count ← u8
    mine_layout ← u16
    salt ← bytes 32
    commitment ← bytes 32
    verified ← bool_eq_one
    slot ← u64
    pure (game_settled player game mine_count mine_layout salt commitment verified slot)

  unfoldable pub game_won_body : Read (KaboomEvent PublicKey)
  game_won_body = do
    player ← pk w
    game ← pk w
    bet ← u64
    payout ← u64
    multiplier_bps ← u64
    safe_reveals ← u8
    slot ← u64
    pure (game_won player game bet payout multiplier_bps safe_reveals slot)

  unfoldable pub game_lost_body : Read (KaboomEvent PublicKey)
  game_lost_body = do
    player ← pk w
    game ← pk w
    bet ← u64
    tile_index ← u8
    safe_reveals ← u8
    slot ← u64
    pure (game_lost player game bet tile_index safe_reveals slot)

  unfoldable pub referrer_set_body : Read (KaboomEvent PublicKey)
  referrer_set_body = do
    player ← pk w
    referrer ← pk w
    slot ← u64
    pure (referrer_set player referrer slot)

  unfoldable pub referral_accrued_body : Read (KaboomEvent PublicKey)
  referral_accrued_body = do
    referrer ← pk w
    player ← pk w
    amount ← u64
    tier ← u8
    slot ← u64
    pure (referral_accrued referrer player amount tier slot)

  unfoldable pub referral_tier_changed_body : Read (KaboomEvent PublicKey)
  referral_tier_changed_body = do
    referrer ← pk w
    new_tier ← u8
    slot ← u64
    pure (referral_tier_changed referrer new_tier slot)

  unfoldable pub referral_claimed_body : Read (KaboomEvent PublicKey)
  referral_claimed_body = do
    referrer ← pk w
    amount ← u64
    slot ← u64
    pure (referral_claimed referrer amount slot)

  unfoldable pub v2_initialized_body : Read (KaboomEvent PublicKey)
  v2_initialized_body = do
    vault ← pk w
    seed_units ← u128
    house_units ← u128
    total_units ← u128
    slot ← u64
    pure (v2_initialized vault seed_units house_units total_units slot)

  unfoldable pub lp_deposited_body : Read (KaboomEvent PublicKey)
  lp_deposited_body = do
    user ← pk w
    amount_lamports ← u64
    units_minted ← u128
    total_units_after ← u128
    vault_assets_after ← u64
    slot ← u64
    pure (lp_deposited user amount_lamports units_minted total_units_after vault_assets_after slot)

  unfoldable pub lp_withdraw_requested_body : Read (KaboomEvent PublicKey)
  lp_withdraw_requested_body = do
    user ← pk w
    units ← u128
    unlock_slot ← u64
    slot ← u64
    pure (lp_withdraw_requested user units unlock_slot slot)

  unfoldable pub lp_withdraw_cancelled_body : Read (KaboomEvent PublicKey)
  lp_withdraw_cancelled_body = do
    user ← pk w
    units_returned ← u128
    slot ← u64
    pure (lp_withdraw_cancelled user units_returned slot)

  unfoldable pub lp_withdraw_completed_body : Read (KaboomEvent PublicKey)
  lp_withdraw_completed_body = do
    user ← pk w
    units_burned ← u128
    amount_lamports ← u64
    total_units_after ← u128
    vault_assets_after ← u64
    slot ← u64
    pure (
        lp_withdraw_completed user units_burned amount_lamports total_units_after vault_assets_after
          slot)

  unfoldable pub lp_position_closed_body : Read (KaboomEvent PublicKey)
  lp_position_closed_body = do user ← pk w; slot ← u64; pure (lp_position_closed user slot)

  unfoldable pub house_deposited_body : Read (KaboomEvent PublicKey)
  house_deposited_body = do
    amount_lamports ← u64
    units_minted ← u128
    total_units_after ← u128
    slot ← u64
    pure (house_deposited amount_lamports units_minted total_units_after slot)

  unfoldable pub house_withdraw_requested_body : Read (KaboomEvent PublicKey)
  house_withdraw_requested_body = do
    units ← u128
    unlock_slot ← u64
    slot ← u64
    pure (house_withdraw_requested units unlock_slot slot)

  unfoldable pub house_withdraw_cancelled_body : Read (KaboomEvent PublicKey)
  house_withdraw_cancelled_body = do
    units_returned ← u128
    slot ← u64
    pure (house_withdraw_cancelled units_returned slot)

  unfoldable pub house_withdraw_completed_body : Read (KaboomEvent PublicKey)
  house_withdraw_completed_body = do
    units_burned ← u128
    amount_lamports ← u64
    slot ← u64
    pure (house_withdraw_completed units_burned amount_lamports slot)

  unfoldable pub vault_unit_value_updated_body : Read (KaboomEvent PublicKey)
  vault_unit_value_updated_body = do
    vault ← pk w
    vault_assets ← u64
    total_units ← u128
    health_bps ← u16
    slot ← u64
    pure (vault_unit_value_updated vault vault_assets total_units health_bps slot)

  unfoldable pub event_body : EventKind → Read (KaboomEvent PublicKey)
  event_body stats_updated_kind = stats_updated_body
  event_body game_settled_kind = game_settled_body
  event_body game_won_kind = game_won_body
  event_body game_lost_kind = game_lost_body
  event_body referrer_set_kind = referrer_set_body
  event_body referral_accrued_kind = referral_accrued_body
  event_body referral_tier_changed_kind = referral_tier_changed_body
  event_body referral_claimed_kind = referral_claimed_body
  event_body v2_initialized_kind = v2_initialized_body
  event_body lp_deposited_kind = lp_deposited_body
  event_body lp_withdraw_requested_kind = lp_withdraw_requested_body
  event_body lp_withdraw_cancelled_kind = lp_withdraw_cancelled_body
  event_body lp_withdraw_completed_kind = lp_withdraw_completed_body
  event_body lp_position_closed_kind = lp_position_closed_body
  event_body house_deposited_kind = house_deposited_body
  event_body house_withdraw_requested_kind = house_withdraw_requested_body
  event_body house_withdraw_cancelled_kind = house_withdraw_cancelled_body
  event_body house_withdraw_completed_kind = house_withdraw_completed_body
  event_body vault_unit_value_updated_kind = vault_unit_value_updated_body

  -- `def.decode(buf)`: an `EventReader` starts behind the discriminator.
  unfoldable pub decode_event : EventKind → Bytes → Result (KaboomEvent PublicKey)
  decode_event kind buf = run (event_body kind) (record { content = buf; offset = 8 })

  -- The registry's entry whose discriminator is `disc`.
  unfoldable pub find_kind : Bytes → List EventKind → Option EventKind
  find_kind disc [] = none
  find_kind disc (kind ∷ kinds) =
      if bytes_eq disc (event_discriminator w (kind_name kind))
      then some kind
      else find_kind disc kinds

  -- What one payload adds to the events: nothing where it is short, unknown or malformed.
  unfoldable pub payload_events : Bytes → List (KaboomEvent PublicKey)
  payload_events buf =
      if ltb (length buf) 8 then [] else elim (find_kind (subarray 0 8 buf) event_kinds) [
        | none ↦ []
        | some kind ↦ elim (decode_event kind buf) [ ok event ↦ event ∷ [] | err e ↦ [] ]
      ]
