-- ===== src/Sdk/Events/RoundTrip.antt =====
-- The decoders of events.ts over the layout of each event.
use playkaboom.Common.{◌≡◌, ◌++◌, ok}
use playkaboom.Sdk.Buffer.{Bytes}
use playkaboom.Sdk.Buffer.Laws.{drop-append}
use playkaboom.Sdk.Web3.{Web3, IsWeb3}
use playkaboom.Sdk.Discriminator.{event_discriminator, length-event_discriminator}
use playkaboom.Sdk.Reader.{run}
use playkaboom.Sdk.Reader.Reads.{
  Reads, Reads-bind, Reads-pure, Reads-uint, Reads-u128, Reads-bytes, Reads-bool_eq_one, Reads-pk,
}
use playkaboom.Sdk.Events.{
  KaboomEvent, stats_updated, game_settled, game_won, game_lost, referrer_set, referral_accrued,
  referral_tier_changed, referral_claimed, v2_initialized, lp_deposited, lp_withdraw_requested,
  lp_withdraw_cancelled, lp_withdraw_completed, lp_position_closed, house_deposited,
  house_withdraw_requested, house_withdraw_cancelled, house_withdraw_completed,
  vault_unit_value_updated, kind_name,
}
use playkaboom.Sdk.Events.Decode.{
  stats_updated_body, game_settled_body, game_won_body, game_lost_body, referrer_set_body,
  referral_accrued_body, referral_tier_changed_body, referral_claimed_body, v2_initialized_body,
  lp_deposited_body, lp_withdraw_requested_body, lp_withdraw_cancelled_body,
  lp_withdraw_completed_body, lp_position_closed_body, house_deposited_body,
  house_withdraw_requested_body, house_withdraw_cancelled_body, house_withdraw_completed_body,
  vault_unit_value_updated_body, event_body, decode_event,
}
use playkaboom.Sdk.Events.Layout.{kind_of, Fits, event_layout}

module _ {w : Web3} (h : IsWeb3 w) where
  open w use {PublicKey}

  Reads-event :
      (e : KaboomEvent PublicKey) → Fits e → Reads (event_body w (kind_of e)) (event_layout w e) e
  unfolding event_body stats_updated_body game_settled_body game_won_body game_lost_body
      referrer_set_body referral_accrued_body referral_tier_changed_body referral_claimed_body
      v2_initialized_body lp_deposited_body lp_withdraw_requested_body lp_withdraw_cancelled_body
      lp_withdraw_completed_body lp_position_closed_body house_deposited_body
      house_withdraw_requested_body house_withdraw_cancelled_body house_withdraw_completed_body
      vault_unit_value_updated_body
  Reads-event
        (stats_updated player games_played games_won total_wagered total_payouts biggest_win
          current_streak slot)
        (
          f_games_played, f_games_won, f_total_wagered, f_total_payouts, f_biggest_win,
          f_current_streak, f_slot,
        ) =
      Reads-bind _ _ (Reads-pk w h player) (
        Reads-bind _ _ (Reads-uint 8 games_played f_games_played) (
          Reads-bind _ _ (Reads-uint 8 games_won f_games_won) (
            Reads-bind _ _ (Reads-uint 8 total_wagered f_total_wagered) (
              Reads-bind _ _ (Reads-uint 8 total_payouts f_total_payouts) (
                Reads-bind _ _ (Reads-uint 8 biggest_win f_biggest_win) (
                  Reads-bind _ _ (Reads-uint 4 current_streak f_current_streak) (
                    Reads-bind _ _ (Reads-uint 8 slot f_slot) (
                      Reads-pure (
                        stats_updated player games_played games_won total_wagered total_payouts
                          biggest_win current_streak slot)))))))))
  Reads-event (game_settled player game mine_count mine_layout salt commitment verified slot)
        (f_mine_count, f_mine_layout, f_salt, f_commitment, f_slot) =
      Reads-bind _ _ (Reads-pk w h player) (
        Reads-bind _ _ (Reads-pk w h game) (
          Reads-bind _ _ (Reads-uint 1 mine_count f_mine_count) (
            Reads-bind _ _ (Reads-uint 2 mine_layout f_mine_layout) (
              Reads-bind _ _ (Reads-bytes 32 salt f_salt) (
                Reads-bind _ _ (Reads-bytes 32 commitment f_commitment) (
                  Reads-bind _ _ (Reads-bool_eq_one verified) (
                    Reads-bind _ _ (Reads-uint 8 slot f_slot) (
                      Reads-pure (
                        game_settled player game mine_count mine_layout salt commitment verified
                          slot)))))))))
  Reads-event (game_won player game bet payout multiplier_bps safe_reveals slot)
        (f_bet, f_payout, f_multiplier_bps, f_safe_reveals, f_slot) =
      Reads-bind _ _ (Reads-pk w h player) (
        Reads-bind _ _ (Reads-pk w h game) (
          Reads-bind _ _ (Reads-uint 8 bet f_bet) (
            Reads-bind _ _ (Reads-uint 8 payout f_payout) (
              Reads-bind _ _ (Reads-uint 8 multiplier_bps f_multiplier_bps) (
                Reads-bind _ _ (Reads-uint 1 safe_reveals f_safe_reveals) (
                  Reads-bind _ _ (Reads-uint 8 slot f_slot) (
                    Reads-pure
                      (game_won player game bet payout multiplier_bps safe_reveals slot))))))))
  Reads-event (game_lost player game bet tile_index safe_reveals slot)
        (f_bet, f_tile_index, f_safe_reveals, f_slot) =
      Reads-bind _ _ (Reads-pk w h player) (
        Reads-bind _ _ (Reads-pk w h game) (
          Reads-bind _ _ (Reads-uint 8 bet f_bet) (
            Reads-bind _ _ (Reads-uint 1 tile_index f_tile_index) (
              Reads-bind _ _ (Reads-uint 1 safe_reveals f_safe_reveals) (
                Reads-bind _ _ (Reads-uint 8 slot f_slot)
                  (Reads-pure (game_lost player game bet tile_index safe_reveals slot)))))))
  Reads-event (referrer_set player referrer slot) f_slot = Reads-bind _ _ (Reads-pk w h player) (
      Reads-bind _ _ (Reads-pk w h referrer) (
        Reads-bind _ _ (Reads-uint 8 slot f_slot) (Reads-pure (referrer_set player referrer slot))))
  Reads-event (referral_accrued referrer player amount tier slot) (f_amount, f_tier, f_slot) =
      Reads-bind _ _ (Reads-pk w h referrer) (
        Reads-bind _ _ (Reads-pk w h player) (
          Reads-bind _ _ (Reads-uint 8 amount f_amount) (
            Reads-bind _ _ (Reads-uint 1 tier f_tier) (
              Reads-bind _ _ (Reads-uint 8 slot f_slot)
                (Reads-pure (referral_accrued referrer player amount tier slot))))))
  Reads-event (referral_tier_changed referrer new_tier slot) (f_new_tier, f_slot) =
      Reads-bind _ _ (Reads-pk w h referrer) (
        Reads-bind _ _ (Reads-uint 1 new_tier f_new_tier) (
          Reads-bind _ _ (Reads-uint 8 slot f_slot)
            (Reads-pure (referral_tier_changed referrer new_tier slot))))
  Reads-event (referral_claimed referrer amount slot) (f_amount, f_slot) =
      Reads-bind _ _ (Reads-pk w h referrer) (
        Reads-bind _ _ (Reads-uint 8 amount f_amount) (
          Reads-bind _ _ (Reads-uint 8 slot f_slot)
            (Reads-pure (referral_claimed referrer amount slot))))
  Reads-event (v2_initialized vault seed_units house_units total_units slot)
        (f_seed_units, f_house_units, f_total_units, f_slot) =
      Reads-bind _ _ (Reads-pk w h vault) (
        Reads-bind _ _ (Reads-u128 seed_units f_seed_units) (
          Reads-bind _ _ (Reads-u128 house_units f_house_units) (
            Reads-bind _ _ (Reads-u128 total_units f_total_units) (
              Reads-bind _ _ (Reads-uint 8 slot f_slot)
                (Reads-pure (v2_initialized vault seed_units house_units total_units slot))))))
  Reads-event
        (lp_deposited user amount_lamports units_minted total_units_after vault_assets_after slot)
        (f_amount_lamports, f_units_minted, f_total_units_after, f_vault_assets_after, f_slot) =
      Reads-bind _ _ (Reads-pk w h user) (
        Reads-bind _ _ (Reads-uint 8 amount_lamports f_amount_lamports) (
          Reads-bind _ _ (Reads-u128 units_minted f_units_minted) (
            Reads-bind _ _ (Reads-u128 total_units_after f_total_units_after) (
              Reads-bind _ _ (Reads-uint 8 vault_assets_after f_vault_assets_after) (
                Reads-bind _ _ (Reads-uint 8 slot f_slot) (
                  Reads-pure (
                    lp_deposited user amount_lamports units_minted total_units_after
                      vault_assets_after slot)))))))
  Reads-event (lp_withdraw_requested user units unlock_slot slot) (f_units, f_unlock_slot, f_slot) =
      Reads-bind _ _ (Reads-pk w h user) (
        Reads-bind _ _ (Reads-u128 units f_units) (
          Reads-bind _ _ (Reads-uint 8 unlock_slot f_unlock_slot) (
            Reads-bind _ _ (Reads-uint 8 slot f_slot)
              (Reads-pure (lp_withdraw_requested user units unlock_slot slot)))))
  Reads-event (lp_withdraw_cancelled user units_returned slot) (f_units_returned, f_slot) =
      Reads-bind _ _ (Reads-pk w h user) (
        Reads-bind _ _ (Reads-u128 units_returned f_units_returned) (
          Reads-bind _ _ (Reads-uint 8 slot f_slot)
            (Reads-pure (lp_withdraw_cancelled user units_returned slot))))
  Reads-event
        (lp_withdraw_completed user units_burned amount_lamports total_units_after
          vault_assets_after slot)
        (f_units_burned, f_amount_lamports, f_total_units_after, f_vault_assets_after, f_slot) =
      Reads-bind _ _ (Reads-pk w h user) (
        Reads-bind _ _ (Reads-u128 units_burned f_units_burned) (
          Reads-bind _ _ (Reads-uint 8 amount_lamports f_amount_lamports) (
            Reads-bind _ _ (Reads-u128 total_units_after f_total_units_after) (
              Reads-bind _ _ (Reads-uint 8 vault_assets_after f_vault_assets_after) (
                Reads-bind _ _ (Reads-uint 8 slot f_slot) (
                  Reads-pure (
                    lp_withdraw_completed user units_burned amount_lamports total_units_after
                      vault_assets_after slot)))))))
  Reads-event (lp_position_closed user slot) f_slot =
      Reads-bind _ _ (Reads-pk w h user)
        (Reads-bind _ _ (Reads-uint 8 slot f_slot) (Reads-pure (lp_position_closed user slot)))
  Reads-event (house_deposited amount_lamports units_minted total_units_after slot)
        (f_amount_lamports, f_units_minted, f_total_units_after, f_slot) =
      Reads-bind _ _ (Reads-uint 8 amount_lamports f_amount_lamports) (
        Reads-bind _ _ (Reads-u128 units_minted f_units_minted) (
          Reads-bind _ _ (Reads-u128 total_units_after f_total_units_after) (
            Reads-bind _ _ (Reads-uint 8 slot f_slot)
              (Reads-pure (house_deposited amount_lamports units_minted total_units_after slot)))))
  Reads-event (house_withdraw_requested units unlock_slot slot) (f_units, f_unlock_slot, f_slot) =
      Reads-bind _ _ (Reads-u128 units f_units) (
        Reads-bind _ _ (Reads-uint 8 unlock_slot f_unlock_slot) (
          Reads-bind _ _ (Reads-uint 8 slot f_slot)
            (Reads-pure (house_withdraw_requested units unlock_slot slot))))
  Reads-event (house_withdraw_cancelled units_returned slot) (f_units_returned, f_slot) =
      Reads-bind _ _ (Reads-u128 units_returned f_units_returned) (
        Reads-bind _ _ (Reads-uint 8 slot f_slot)
          (Reads-pure (house_withdraw_cancelled units_returned slot)))
  Reads-event (house_withdraw_completed units_burned amount_lamports slot)
        (f_units_burned, f_amount_lamports, f_slot) =
      Reads-bind _ _ (Reads-u128 units_burned f_units_burned) (
        Reads-bind _ _ (Reads-uint 8 amount_lamports f_amount_lamports) (
          Reads-bind _ _ (Reads-uint 8 slot f_slot)
            (Reads-pure (house_withdraw_completed units_burned amount_lamports slot))))
  Reads-event (vault_unit_value_updated vault vault_assets total_units health_bps slot)
        (f_vault_assets, f_total_units, f_health_bps, f_slot) =
      Reads-bind _ _ (Reads-pk w h vault) (
        Reads-bind _ _ (Reads-uint 8 vault_assets f_vault_assets) (
          Reads-bind _ _ (Reads-u128 total_units f_total_units) (
            Reads-bind _ _ (Reads-uint 2 health_bps f_health_bps) (
              Reads-bind _ _ (Reads-uint 8 slot f_slot) (
                Reads-pure
                  (vault_unit_value_updated vault vault_assets total_units health_bps slot))))))

  -- The decoder that the registry has for an event's name returns the event from the event's
  -- discriminator followed by its fields in the program's layout, whatever comes behind them.
  pub decode_event-layout :
      (e : KaboomEvent PublicKey) (rest : Bytes)
      → Fits e
      → decode_event w
          (kind_of e)
          (event_discriminator w (kind_name (kind_of e)) ++ (event_layout w e ++ rest))
        ≡ ok e
  unfolding decode_event run
  decode_event-layout e rest f =
      let disc = event_discriminator w (kind_name (kind_of e)) in
      let eight = length-event_discriminator h (kind_name (kind_of e)) in
      let (_, done, _) =
        (Reads-event e f).at (record { content = disc ++ (event_layout w e ++ rest); offset = 8 })
          rest (drop-append 8 disc (event_layout w e ++ rest) eight) in
      rw (done, run)
