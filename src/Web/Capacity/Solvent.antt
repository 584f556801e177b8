-- ===== src/Web/Capacity/Solvent.antt =====
-- What the page offers, against what the vault can spare.
use playkaboom.Common.{
  ℕ, zero, suc, ◌+◌, ◌-◌, ◌*◌, ◌/◌, ◌≤◌, ◌≡◌, inl, inr, arith, Bool, some, ok, ◌==◌, if◌then◌else◌,
}
use playkaboom.Common.Int.{pos}
use playkaboom.Common.Arith.{mul_mono, div-mul-le, div-le}
use playkaboom.Sdk.Accounts.{VaultAccount, VaultV2StateAccount}
use playkaboom.Shared.Multiplier.Bounds.{calc_multiplier_fair}
use playkaboom.Web.Capacity.Laws.{Outcome, compute_cases}
use playkaboom.Web.Capacity.{
  CapacityResult, capacity_health, payout_cap_bps, limits, compute_capacity,
}

cap_within : (cap free a : ℕ) → cap ≤ 10000 → a * (cap * (free * 10000 / a) / 10000) / 10000 ≤ free
cap_within cap free zero h = omega arith
cap_within cap free (suc n) h =
    let a = suc n in
    let share = free * 10000 / a in
    let scaled = cap * share / 10000 in
    let scaled_le : scaled ≤ share =
      div-le share (cap * share) 10000 (omega arith) (omega (arith, mul_mono cap 10000 share h)) in
    div-le free (a * scaled) 10000 (omega arith)
      (omega (arith, mul_mono scaled share a scaled_le, div-mul-le (free * 10000) a))

module _ {K : Type 0} (lamports : ℕ) (vault : VaultAccount K) (v2 : VaultV2StateAccount K)
    (bet rent : ℕ) (vrf_mode : Bool) where
  abbrev available : ℕ
  available = lamports - rent

  -- What the vault owes: the payouts it has reserved and the withdrawals that are pending.
  abbrev owed : ℕ
  owed =
      v2.total_outstanding_max_payout
      + (if v2.total_units == 0 then 0 else v2.total_pending_units * available / v2.total_units)

  health_lem : capacity_health (some v2) available ≡ (available - owed) * 10000 / available
  unfolding capacity_health
  health_lem = ground arith

  cap_le : vault.max_payout_bps ≤ 10000 → payout_cap_bps vault (some v2) vrf_mode ≤ 10000
  unfolding payout_cap_bps
  cap_le h = ground arith

  limits_solvent :
      (mult : ℕ)
      → vault.max_payout_bps ≤ 10000
      → (limits vault
          (some v2)
          available
          (capacity_health (some v2) available)
          vrf_mode
          bet
          mult).max_payout_lamports
        ≤ available - owed
  unfolding limits
  limits_solvent mult h =
      rw health_lem (
        cap_within (payout_cap_bps vault (some v2) vrf_mode) (available - owed) available
          (cap_le h))

  Outcome-solvent :
      (mult : ℕ) (c : CapacityResult)
      → vault.max_payout_bps ≤ 10000
      → Outcome lamports vault (some v2) bet rent vrf_mode mult c
      → c.max_payout_lamports ≤ available - owed
  unfolding Outcome
  Outcome-solvent mult c h (inl (why, e)) = ground arith
  Outcome-solvent mult c h (inr (mult_pos, e)) = rw e (limits_solvent mult h)

  -- Of a board of `m` mines, from 1 to 15, `computeCapacity` returns a payout cap that is at most the
  -- vault's lamports less the rent, the payouts it has reserved and its pending withdrawals, where
  -- the vault has a second-version state, and its house edge and its own cap are at most the whole.
  pub capacity_solvent :
      (m : ℕ)
      → 1 ≤ m
      → m ≤ 15
      → vault.house_edge_bps ≤ 10000
      → vault.max_payout_bps ≤ 10000
      → (c : CapacityResult) × (compute_capacity lamports
            (some vault)
            (some v2)
            bet
            (pos m)
            rent
            vrf_mode
          ≡ ok c)
        × (c.max_payout_lamports ≤ available - owed)
  capacity_solvent m h h₁ he hp =
      let (mult, e, _, _) =
        calc_multiplier_fair (16 - m) m vault.house_edge_bps (omega arith) (omega arith) he in
      let (c, returns, outcome) =
        compute_cases lamports vault (some v2) bet rent vrf_mode m mult (omega arith) e in
      (c, returns, Outcome-solvent mult c hp outcome)
