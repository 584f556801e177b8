-- ===== src/Web/VerifyVrf.antt =====
-- apps/web/src/server/verify-vrf.ts: whether a settlement's money matched the rules.
pub mod History
pub mod Replay
pub mod Settlement
pub mod Soundness
use playkaboom.Common.{
  ℕ, zero, suc, ◌+◌, ◌-◌, Bool, true, false, not, ◌&&◌, ◌||◌, Option, none, some, List, [], ◌∷◌,
  Result, ok, err, ltb, ◌==◌, if◌then◌else◌, length, get_elem?, is_some,
}
use playkaboom.Common.Int.{ℤ, pos, negsuc, pos_part, ◌+ℤ◌, ◌-ℤ◌, ◌*ℤ◌, quot, ltb_ℤ, leb_ℤ}
use playkaboom.Sdk.Buffer.{Bytes, subarray, bytes_eq}
use playkaboom.Sdk.Web3.{Web3}
use playkaboom.Sdk.Discriminator.{ix_discriminator}
use playkaboom.Sdk.Vrf.{VrfStatus, VrfGameAccount}
use playkaboom.Shared.Multiplier.{calc_multiplier_bps}

pub data Outcome : Type 0 where
  unknown expired won lost : Outcome

-- The result's fields; those of `Option` are missing from some results.
pub record Verdict : Type 0 where
  pub verified : Bool
  pub outcome : Outcome
  pub payout : Option ℤ
  pub multiplier_bps : Option ℤ
  pub safe_reveals : Option ℕ

-- What `vrfRound` finds: the start's bet and mine count, and the replayed state.
pub record Round (K : Type 0) : Type 0 where
  pub bet : ℕ
  pub mine_count : ℕ
  pub state : Option (VrfGameAccount K)

-- `a === b` of two integers
abbrev pub eq_ℤ : ℤ → ℤ → Bool
eq_ℤ a b = leb_ℤ a b && leb_ℤ b a

-- `mult(r)`, -1 where the multiplier throws
unfoldable pub mult_or_minus_one : ℕ → ℕ → ℕ → ℤ
mult_or_minus_one reveals mine_count edge_bps =
    elim (calc_multiplier_bps (pos reveals) (pos mine_count) (pos edge_bps)) [
      | ok m ↦ m
      | err e ↦ negsuc 0
    ]

-- Whether a payout is what `reveals` safe tiles pay.
unfoldable pub pays : ℕ → ℕ → ℕ → ℤ → ℕ → Bool
pays bet mine_count edge_bps payout reveals =
    eq_ℤ (quot (pos bet *ℤ mult_or_minus_one reveals mine_count edge_bps) 10000) payout

-- The first number of reveals, of `k` from `r` on, that pays the payout.
unfoldable pub find_reveals : ℕ → ℕ → (ℕ → Bool) → Option ℕ
find_reveals zero r p = none
find_reveals (suc k) r p = let rest = find_reveals k (suc r) p in if p r then some r else rest

abbrev pub status_is : Bool → VrfStatus → Bool
status_is true VrfStatus.won = true
status_is false VrfStatus.lost = true
status_is _ _ = false

module _ {K : Type 0} where
  unfoldable pub state_reveals : Option (VrfGameAccount K) → Option ℕ
  state_reveals none = none
  state_reveals (some g) = some g.safe_reveals

  -- `stateOk`
  unfoldable pub state_agrees : Option (VrfGameAccount K) → Bool → ℤ → Bool
  state_agrees none is_won mult_bps = true
  state_agrees (some g) is_won mult_bps =
      status_is is_won g.status && (not is_won || eq_ℤ (pos g.multiplier_bps) mult_bps)

  -- `reveals`: those of the state, or for a win without one those that pay.
  unfoldable pub reveals_of : ℕ → Round K → ℤ → Option ℕ
  reveals_of edge_bps round payout = elim (state_reveals round.state) [
    | some r ↦ some r
    | none ↦
        if ltb_ℤ (pos 0) payout
        then find_reveals (16 - round.mine_count) 1
            (pays round.bet round.mine_count edge_bps payout)
        else none
  ]

  unfoldable pub mult_of : ℕ → Round K → Bool → Option ℕ → ℤ
  mult_of edge_bps round is_won none = pos 0
  mult_of edge_bps round is_won (some r) =
      if is_won then mult_or_minus_one r round.mine_count edge_bps else pos 0

  -- `verified` of a settle
  unfoldable pub settle_verified : ℕ → Round K → ℤ → Bool
  settle_verified edge_bps round payout =
      let is_won = ltb_ℤ (pos 0) payout in
      let reveals = reveals_of edge_bps round payout in
      let mult_bps = mult_of edge_bps round is_won reveals in
      state_agrees round.state is_won mult_bps
      && (if is_won
          then is_some reveals
            && ltb_ℤ (pos 0) mult_bps
            && eq_ℤ (quot (pos round.bet *ℤ mult_bps) 10000) payout
          else eq_ℤ payout (pos 0))

  -- The verdict of `verifyVrfSettle`, from what the transaction moved out of the vault and into the
  -- treasury and the referral account.
  unfoldable pub verdict : ℕ → Bool → Option (Round K) → ℤ → ℤ → ℤ → Verdict
  verdict edge_bps refund none paid_out treasury_cut referral_cut = record {
    verified = false;
    outcome = unknown;
    payout = none;
    multiplier_bps = none;
    safe_reveals = none;
  }
  verdict edge_bps true (some round) paid_out treasury_cut referral_cut = record {
    verified = eq_ℤ paid_out (pos round.bet);
    outcome = expired;
    payout = some paid_out;
    multiplier_bps = some (pos 10000);
    safe_reveals = state_reveals round.state;
  }
  verdict edge_bps false (some round) paid_out treasury_cut referral_cut =
      let payout = paid_out -ℤ treasury_cut -ℤ referral_cut in
      let is_won = ltb_ℤ (pos 0) payout in
      let reveals = reveals_of edge_bps round payout in
      let verified = settle_verified edge_bps round payout in
      record {
        verified = verified;
        outcome = if not verified then unknown else if is_won then won else lost;
        payout = some payout;
        multiplier_bps = some (mult_of edge_bps round is_won reveals);
        safe_reveals = reveals;
      }
