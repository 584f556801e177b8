-- ===== src/Tests/Cron.antt =====
-- Ticks of the scheduler, and the VRF passes over a claim.
use playkaboom.Common.{
  ℕ, ◌+◌, ◌≡◌, refl, arith, true, false, none, some, List, [], ◌∷◌, ◌++◌, Result, ok, err, codes,
  range_error, ◌&&◌,
}
use playkaboom.Sdk.Buffer.{Bytes}
use playkaboom.Sdk.Discriminator.{account_discriminator}
use playkaboom.Sdk.Vrf.RoundTrip.{vrf_claim_layout, vrf_game_layout}
use playkaboom.Web.Cron.Tick.{
  LockRun, with_advisory_lock, still_locked, CronPass, TickState, run_ticks, last_ok,
}
use playkaboom.Web.Cron.Tick.Lock.{
  calls, connects, is_yes, leaks, takes_lock, with_advisory_lock_lem,
}
use playkaboom.Web.Cron.Tick.Cadence.{Spaced, successes, run_ticks-Spaced}
use playkaboom.Web.Cron.VrfPasses.Activity.{SignatureInfo}
use playkaboom.Web.Cron.VrfPasses.{
  Chain, Pass, run_vrf_passes, read_claims, er_pass, l1_pass, nothing_done,
}
use playkaboom.Sdk.Vrf.{VrfGameAccount}
use playkaboom.Web.Cron.VrfPasses.Sound.{IsSound}
use playkaboom.Web.Cron.VrfPasses.Reasons.{HasReason}
use playkaboom.Web.Cron.VrfPasses.Safe.{run_vrf_passes-IsSound}
use playkaboom.Tests.Accounts.{claim, game}
use playkaboom.Tests.Toy.{Key, house_key, program_key, toy, toy-IsWeb3}

-- The function under the lock fails, and so does the unlock.
abbrev failing : LockRun ℕ
failing = record {
  connected = ok tt;
  locked = ok true;
  taken_unseen = false;
  value = err (range_error "no such key");
  lost_at_unlock = false;
  unlock_fails = true;
  lost_at_release = false;
}

with_advisory_lock_lem_example :
    (calls (with_advisory_lock failing).effects ≡ connects failing && is_yes failing.locked)
    × (still_locked (takes_lock failing) (with_advisory_lock failing).effects
        ≡ connects failing && leaks failing failing.locked)
with_advisory_lock_lem_example = with_advisory_lock_lem failing

-- A query that the pool gave up on, and a server that took the lock
abbrev unseen : LockRun ℕ
unseen = record failing { locked = err (range_error "Query read timeout"); taken_unseen = true }

lock_left : still_locked (takes_lock unseen) (with_advisory_lock unseen).effects ≡ true
unfolding with_advisory_lock takes_lock still_locked
lock_left = refl

-- A world that is its clock
abbrev pass : CronPass ℕ ℕ
pass = record { name = codes "vrf"; every_ms = 60000; run = λ w. (w + 5, ok w) }

abbrev clock : ℕ → ℕ
clock w = w

abbrev held : ℕ → ℕ × Result (Unit {0})
held w = (w + 1, ok tt)

abbrev begin : TickState ℕ
begin = record { world = 0; last_oks = [] }

run_ticks-Spaced_example :
    Spaced 60000 (last_ok [] (codes "vrf")) (
      successes
        (codes "vrf")
        (run_ticks clock held (pass ∷ []) (1000 ∷ 31000 ∷ 61000 ∷ []) begin).1)
run_ticks-Spaced_example =
    run_ticks-Spaced clock held (codes "vrf") 60000 (pass ∷ []) (1000 ∷ 31000 ∷ 61000 ∷ []) begin
      (λ same. omega arith, tt)

abbrev signatures : List SignatureInfo
signatures =
    record { failed = true; block_time = some 1700000900 }
    ∷ record { failed = false; block_time = some 1700000600 }
    ∷ []

abbrev chain : Chain Key
chain = record {
  slot = 2000;
  slot_ms = record { millis = 400; slots = 1 };
  l1_signatures = λ k. ok signatures;
  er_signatures = λ k. ok signatures;
  now_at = λ k. 1700001000000;
  l1_owner = λ k. some program_key;
  er_data = λ k. none;
  settle_sends = λ k. true;
  refund_sends = λ k. true;
  force_sends = λ k. false;
}

abbrev stalled : VrfGameAccount Key
stalled = record game { pending = false }

abbrev claims : List Bytes
claims = (account_discriminator toy "VrfClaim" ++ vrf_claim_layout toy claim) ∷ []

abbrev games : List (Key × Bytes)
games = (house_key, account_discriminator toy "VrfGame" ++ vrf_game_layout toy game) ∷ []

abbrev done : Pass Key
done =
    er_pass toy chain program_key (read_claims toy [] claims)
      (l1_pass toy chain (read_claims toy [] claims) games (nothing_done toy))

ran : run_vrf_passes toy true chain program_key claims games ≡ some done
unfolding run_vrf_passes
ran = refl

run_vrf_passes-IsSound_example :
    (true ≡ true)
    × IsSound toy (HasReason toy chain program_key (read_claims toy [] claims) games) done
run_vrf_passes-IsSound_example =
    run_vrf_passes-IsSound toy toy-IsWeb3 true chain program_key claims games done ran
