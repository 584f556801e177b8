-- ===== src/Tests/Server.antt =====
-- The server's checks and the page's store, at concrete inputs.
use playkaboom.Common.{
  ℕ, ◌*◌, ◌/◌, ◌≤◌, ◌≡◌, ◌⊎◌, refl, arith, true, false, none, some, List, [], ◌∷◌, ok, codes,
  length,
}
use playkaboom.Common.Int.{pos, ◌-ℤ◌, ◌*ℤ◌, ◌+ℤ◌, quot}
use playkaboom.Sdk.Discriminator.{ix_discriminator}
use playkaboom.Sdk.Buffer.{bytes_eq, le_bytes}
use playkaboom.Shared.Multiplier.{calc_multiplier_bps, raw_bps, mult_loop}
use playkaboom.Web.VerifyVrf.{Outcome, Round, verdict}
use playkaboom.Web.VerifyVrf.Soundness.{verdict_sound, verdict_complete, unread}
use playkaboom.Web.VerifyVrf.Settlement.{
  CompiledInstruction, VrfSettleTx, SettleAccounts, settle_vrf_accounts, settle_loop, settlement_of,
  runs, accounts_at, pick_settle,
}
use playkaboom.Web.VerifyVrf.Settlement.Sole.{IsSole, settle_vrf_accounts-IsSole}
use playkaboom.Web.GameStore.{Action, ResumeSnapshot, run_actions, boot}
use playkaboom.Web.GameStore.Consistent.{IsConsistent, run_actions-IsConsistent}
use playkaboom.Web.Points.{Number, PointsArgs, AwardPointsInput, compute_points, award_points}
use playkaboom.Web.Points.Laws.{compute_points_bounds, award_points_twice}
use playkaboom.Web.RateLimit.{recent}
use playkaboom.Web.RateLimit.Window.{Request, serve, last_time, serve-recent}
use playkaboom.Tests.Toy.{Key, zero_key, program_key, player_key, toy}

abbrev args : PointsArgs
args = record {
  bet_lamports = pos 1000000000;
  edge_bps = pos 200;
  tier_mult_bps = some (Number.ratio (pos 30001) 1);
  streak_mult_bps = some (Number.ratio (pos 11000) 0);
  event_mult_bps = some Number.not_finite;
}

compute_points_bounds_example :
    let (base, total) = compute_points args in (base ≤ total) × (total * 1000 ≤ base * 5625)
compute_points_bounds_example = compute_points_bounds args

abbrev award : AwardPointsInput
award = record {
  player = codes "player";
  source_key = codes "signature";
  source = codes "game_won";
  points = args;
  signer = none;
  notes = none;
}

award_points_twice_example :
    let (ledger₁, _) = award_points false award [] in
    let (ledger₂, result) = award_points false award ledger₁ in
    (ledger₂ ≡ ledger₁) × (result.inserted ≡ false)
award_points_twice_example = award_points_twice award award [] false refl refl

abbrev requests : List Request
requests =
    record { now = 100; key = codes "reveal:a"; cost = 20 }
    ∷ record { now = 200; key = codes "reveal:b"; cost = 1 }
    ∷ record { now = 300; key = codes "reveal:a"; cost = 20 }
    ∷ record { now = 10100; key = codes "reveal:a"; cost = 20 }
    ∷ []

serve-recent_example : length (recent 10100 (serve 30 (codes "reveal:a") requests [] []).1) ≤ 30
unfolding last_time
serve-recent_example =
    serve-recent 30 (codes "reveal:a") requests 10100
      (omega arith, (omega arith, (omega arith, (omega arith, tt)))) (omega arith) (omega arith)

abbrev snapshot : ResumeSnapshot
snapshot = record {
  bet = pos 1000000;
  mine_count = 3;
  revealed_mask = 37;
  revealed_safe_mask = 37;
  multiplier = 18000;
  commitment = "abc";
  game_token = "token";
}

abbrev actions : List Action
actions =
    Action.hydrate_resume snapshot
    ∷ Action.apply_safe_reveal 1 22000 "tx1"
    ∷ Action.set_pending_close true
    ∷ Action.apply_mine_reveal 7 "tx2"
    ∷ Action.reset
    ∷ []

run_actions-IsConsistent_example : IsConsistent (run_actions (boot none) actions)
run_actions-IsConsistent_example =
    run_actions-IsConsistent none actions ((λ i h. h), (tt, (tt, (tt, (tt, tt)))))

-- A win of two safe tiles on three mines, whose state could not be read: it pays 1.5076 times.
abbrev round : Round Key
round = record { bet = 1000000; mine_count = 3; state = none }

two_of_three : calc_multiplier_bps (pos 2) (pos 3) (pos 200) ≡ ok (pos 15076)
unfolding calc_multiplier_bps raw_bps mult_loop ◌*ℤ◌ ◌-ℤ◌ quot ◌+ℤ◌
two_of_three = refl

verdict_complete_example :
    let v =
      verdict 200 false
        (some (unread Key 200 1000000 3 2 15076))
        (pos 1527600)
        (pos 15000)
        (pos 5000) in
    (v.verified ≡ true) × (v.outcome ≡ Outcome.won)
unfolding ◌-ℤ◌
verdict_complete_example =
    verdict_complete Key 200 1000000 3 2 15076 (pos 1527600) (pos 15000) (pos 5000) (omega arith)
      (omega arith) two_of_three (omega arith) refl

round_verified :
    (verdict 200 false (some round) (pos 1527600) (pos 15000) (pos 5000)).verified ≡ true
unfolding ◌-ℤ◌
round_verified =
    (verdict_complete Key 200 1000000 3 2 15076 (pos 1527600) (pos 15000) (pos 5000) (omega arith)
      (omega arith) two_of_three (omega arith) refl).0

verdict_sound_example :
    let v = verdict 200 false (some round) (pos 1527600) (pos 15000) (pos 5000) in
    ((r : ℕ) × (mult : ℕ) × (v.outcome ≡ Outcome.won)
      × (v.safe_reveals ≡ some r)
      × (calc_multiplier_bps (pos r) (pos 3) (pos 200) ≡ ok (pos mult))
      × (pos 1527600 -ℤ pos 15000 -ℤ pos 5000 ≡ pos (1000000 * mult / 10000)))
    ⊎ ((v.outcome ≡ Outcome.lost) × (pos 1527600 -ℤ pos 15000 -ℤ pos 5000 ≡ pos 0))
verdict_sound_example = verdict_sound 200 round (pos 1527600) (pos 15000) (pos 5000) round_verified

abbrev settle_ix : CompiledInstruction
settle_ix = record {
  program_index = 1;
  account_indexes = 0 ∷ 2 ∷ 2 ∷ 2 ∷ 0 ∷ 0 ∷ 2 ∷ 0 ∷ 0 ∷ [];
  ix_data = ix_discriminator toy "settle_vrf";
}

abbrev budget_ix : CompiledInstruction
budget_ix = record { program_index = 0; account_indexes = []; ix_data = 2 ∷ [] }

abbrev tx : VrfSettleTx Key
tx = record {
  meta = some false;
  account_keys = zero_key ∷ program_key ∷ player_key ∷ [];
  compiled_instructions = budget_ix ∷ settle_ix ∷ budget_ix ∷ [];
}

abbrev found : SettleAccounts Key
found = record {
  refund = false;
  player = player_key;
  claim = player_key;
  game = player_key;
  treasury = some player_key;
  referral = none;
}

settle_vrf_accounts-tx : settle_vrf_accounts toy zero_key program_key tx ≡ some found
unfolding settle_vrf_accounts settle_loop settlement_of runs accounts_at pick_settle bytes_eq
    ix_discriminator le_bytes
settle_vrf_accounts-tx = refl

settle_vrf_accounts-IsSole_example :
    (some false ≡ some false)
    × IsSole toy zero_key program_key tx.account_keys found tx.compiled_instructions
settle_vrf_accounts-IsSole_example =
    settle_vrf_accounts-IsSole toy zero_key program_key tx found settle_vrf_accounts-tx
