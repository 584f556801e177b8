-- ===== src/Web/Capacity/Laws.antt =====
-- The largest bet, against the program's payout cap.
use playkaboom.Common.{
  ℕ, zero, suc, ◌+◌, ◌-◌, ◌*◌, ◌/◌, ◌≤◌, ◌<◌, ◌≡◌, ◌⊎◌, inl, inr, refl, ◌↔◌, arith, Bool, true,
  false, Option, some, Result, ok, ltb, if◌then◌else◌,
}
use playkaboom.Common.Int.{pos, -ℤ_pos}
use playkaboom.Common.Arith.{mul_mono, div-mul-le, le-div, div-le}
use playkaboom.Sdk.Accounts.{VaultAccount, VaultV2StateAccount}
use playkaboom.Shared.Multiplier.{calc_multiplier_bps}
use playkaboom.Shared.Multiplier.Bounds.{calc_multiplier_fair}
use playkaboom.Web.VaultMath.{health_bps}
use playkaboom.Web.Capacity.{
  Reason, CapacityResult, nothing, capacity_health, payout_cap_bps, limits, priced,
  compute_capacity,
}
use Reason.{paused, vault_empty, obligations_full}

bet_fits : (x p mult : ℕ) → 0 < mult → (x ≤ p * 10000 / mult) ↔ (x * mult ≤ p * 10000)
bet_fits x p mult h = (
  λ le. omega (arith, mul_mono x (p * 10000 / mult) mult le, div-mul-le (p * 10000) mult),
  λ le. le-div x (p * 10000) mult h le,
)

payout_covers : (x p mult : ℕ) → x * mult ≤ p * 10000 → x * mult / 10000 ≤ p
payout_covers x p mult le = div-le p (x * mult) 10000 (omega arith) (omega arith)

part_le : (free a : ℕ) → free ≤ a → free * 10000 / a ≤ 10000
part_le free zero h = omega arith
part_le free (suc a) h = div-le 10000 (free * 10000) (suc a) (omega arith) (omega arith)

-- An early return, and what is left.
early :
    {A : Type 0} (P : A → Type 0) (b : Bool) (x : A) (r : Result A)
    → P x
    → ((c : A) × (r ≡ ok c) × P c)
    → (c : A) × ((if b then ok x else r) ≡ ok c) × P c
early P true x r p q = (x, refl, p)
early P false x r p q = q

module _ {K : Type 0} where
  -- The page's two computations of the vault's health agree.
  pub capacity_health_lem :
      (v2 : VaultV2StateAccount K) (available : ℕ)
      → capacity_health (some v2) available ≡ health_bps v2 (pos available)
  unfolding capacity_health health_bps
  capacity_health_lem v2 available =
      let pending =
        if ltb 0 v2.total_units then v2.total_pending_units * available / v2.total_units else 0 in
      ground (arith, part_le (available - (v2.total_outstanding_max_payout + pending)) available)

  module _ (lamports : ℕ) (vault : VaultAccount K) (v2 : Option (VaultV2StateAccount K))
      (bet rent : ℕ) (vrf_mode : Bool) where
    abbrev available : ℕ
    available = lamports - rent

    abbrev health : ℕ
    health = capacity_health v2 available

    -- The result is a refusal, or the limits.
    unfoldable pub Outcome : ℕ → CapacityResult → Type 0
    Outcome mult c =
        ((why : Reason) × (c ≡ nothing why))
        ⊎ ((0 < mult) × (c ≡ limits vault v2 available health vrf_mode bet mult))

    priced-Outcome :
        (mult : ℕ) → Outcome mult (priced vault v2 available health vrf_mode bet (pos mult))
    unfolding priced Outcome
    priced-Outcome zero = inl (vault_empty, refl)
    priced-Outcome (suc mult) = inr (omega arith, ground arith)

    refused : (mult : ℕ) (why : Reason) → Outcome mult (nothing why)
    unfolding Outcome
    refused mult why = inl (why, refl)

    pub compute_cases :
        (m mult : ℕ)
        → m ≤ 16
        → calc_multiplier_bps (pos (16 - m)) (pos m) (pos vault.house_edge_bps) ≡ ok (pos mult)
        → (c : CapacityResult) × (compute_capacity lamports
              (some vault)
              v2
              bet
              (pos m)
              rent
              vrf_mode
            ≡ ok c)
          × Outcome mult c
    unfolding compute_capacity
    compute_cases m mult h e =
        rw (-ℤ_pos 16 m h, e)
          (early (Outcome mult) _ _ _ (refused mult paused) (
            early (Outcome mult) _ _ _ (refused mult vault_empty) (
              early (Outcome mult) _ _ _ (refused mult obligations_full) (
                early (Outcome mult) _ _ _ (refused mult vault_empty)
                  (_, refl, priced-Outcome mult)))))

    limits_bet :
        (mult x : ℕ)
        → 0 < mult
        → let c = limits vault v2 available health vrf_mode bet mult in
          (x ≤ c.max_bet_lamports) ↔ (
            (x * mult ≤ c.max_payout_lamports * 10000)
            × (x ≤ available * (vault.max_bet_bps * health / 10000) / 10000))
    unfolding limits
    limits_bet mult x h =
        let max_payout = available * (payout_cap_bps vault v2 vrf_mode * health / 10000) / 10000 in
        ground (arith, bet_fits x max_payout mult h)

    Outcome-covers :
        (mult : ℕ) (c : CapacityResult)
        → Outcome mult c
        → (x : ℕ) → x ≤ c.max_bet_lamports
        → x * mult / 10000 ≤ c.max_payout_lamports
    unfolding Outcome
    Outcome-covers mult c (inl (why, e)) x h =
        let none_fits : x ≡ 0 = ground arith in
        payout_covers x c.max_payout_lamports mult (rw none_fits (omega arith))
    Outcome-covers mult c (inr (mult_pos, e)) x h =
        let fits_limits : x
            ≤ (limits vault v2 available health vrf_mode bet mult).max_bet_lamports =
          rw (← e) h in
        let (up, _) = limits_bet mult x mult_pos in
        payout_covers x c.max_payout_lamports mult (rw e ((up fits_limits).0))

    -- For a house edge of at most the whole, `computeCapacity` of a board of `m` mines, from 1 to 15,
    -- returns, and any bet within the limit it returns can be paid in full from the payout cap it
    -- returns, where the payout is that of the board's last safe tile, rounded down as the program
    -- does.
    pub capacity_covers :
        (m : ℕ)
        → 1 ≤ m
        → m ≤ 15
        → vault.house_edge_bps ≤ 10000
        → (c : CapacityResult) × (mult : ℕ) × (compute_capacity lamports
              (some vault)
              v2
              bet
              (pos m)
              rent
              vrf_mode
            ≡ ok c)
          × (calc_multiplier_bps (pos (16 - m)) (pos m) (pos vault.house_edge_bps) ≡ ok (pos mult))
          × ((x : ℕ) → x ≤ c.max_bet_lamports → x * mult / 10000 ≤ c.max_payout_lamports)
    capacity_covers m h h₁ he =
        let (mult, e, _, _) =
          calc_multiplier_fair (16 - m) m vault.house_edge_bps (omega arith) (omega arith) he in
        let (c, returns, outcome) = compute_cases m mult (omega arith) e in
        (c, mult, returns, e, Outcome-covers mult c outcome)
