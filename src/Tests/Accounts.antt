-- ===== src/Tests/Accounts.antt =====
-- Accounts as the program lays them out.
use playkaboom.Common.{◌≡◌, refl, arith, true, false, some, List, [], ◌∷◌, ◌++◌, ok, replicate}
use playkaboom.Sdk.Discriminator.{account_discriminator}
use playkaboom.Sdk.Accounts.{VaultAccount, VaultV2StateAccount}
use playkaboom.Sdk.Accounts.Decode.{all_zero, decode_vault}
use playkaboom.Sdk.Accounts.Layout.{vault_layout}
use playkaboom.Sdk.RoundTrip.{Account, account-IsReadBack}
use playkaboom.Sdk.Vrf.{VrfStatus, VrfClaimAccount, VrfGameAccount, VrfRevealRecord}
use playkaboom.Tests.Toy.{Key, zero_key, program_key, player_key, house_key, toy, toy-IsWeb3}

abbrev pub vault : VaultAccount Key
vault = record {
  owner = house_key;
  house_authority = house_key;
  treasury = program_key;
  bump = 254;
  house_edge_bps = 200;
  max_bet_bps = 100;
  max_payout_bps = 1000;
  treasury_split_bps = 2500;
  total_games = 12;
  total_wagered = 5000000000;
  total_payouts = 4800000000;
  paused = false;
  version = 2;
  allowlist_count = 2;
  withdraw_allowlist = player_key ∷ house_key ∷ [];
  pending_owner = some player_key;
}

abbrev spare : List Key
spare = replicate 6 zero_key

some_inj : (k j : Key) → some k ≡ some j → k ≡ j
some_inj k j e = cc

account-IsReadBack_example :
    decode_vault toy (account_discriminator toy "Vault" ++ (vault_layout toy vault spare ++ 9 ∷ []))
    ≡ ok vault
unfolding all_zero
account-IsReadBack_example =
    account-IsReadBack toy-IsWeb3 (Account.vault vault spare) (9 ∷ []) (record {
      bump = omega arith;
      house_edge_bps = omega arith;
      max_bet_bps = omega arith;
      max_payout_bps = omega arith;
      treasury_split_bps = omega arith;
      total_games = omega arith;
      total_wagered = omega arith;
      total_payouts = omega arith;
      version = omega arith;
      allowlist_count = refl;
      allowlist_slots = refl;
      pending_owner = λ k e. rw (← some_inj player_key k e) refl;
    })

abbrev pub v2 : VaultV2StateAccount Key
v2 = record {
  bump = 253;
  total_outstanding_max_payout = 2000000000;
  total_units = 10000000000;
  house_units = 4000000000;
  house_pending_units = 0;
  house_pending_unlock_slot = 0;
  seed_units = 1000000000;
  total_pending_units = 500000000;
  min_house_share_bps = 3000;
  max_user_position_bps = 5000;
  min_health_bps = 2000;
  withdraw_cooldown_slots = 432000;
  min_lp_deposit = 100000000;
  vrf_mode_enabled = true;
  vrf_validator = house_key;
  vrf_max_payout_bps = 100;
}

abbrev pub claim : VrfClaimAccount Key
claim = record {
  player = player_key;
  bet = 1000000;
  reserved = 5000000;
  mine_count = 3;
  house_edge_bps = 200;
  start_slot = 1000;
  settled = false;
  bump = 247;
}

abbrev reveal : VrfRevealRecord
reveal = record { tile = 5; randomness = replicate 32 77 }

abbrev pub game : VrfGameAccount Key
game = record {
  status = VrfStatus.playing;
  player = player_key;
  session_key = house_key;
  bump = 246;
  mine_count = 3;
  house_edge_bps = 200;
  safe_reveals = 1;
  reveal_count = 1;
  pending = true;
  pending_tile = 9;
  revealed_mask = 32;
  mine_mask = 0;
  multiplier_bps = 12061;
  reveals = replicate 16 reveal;
}
