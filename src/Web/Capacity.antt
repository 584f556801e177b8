-- ===== src/Web/Capacity.antt =====
-- apps/web/src/lib/vault-capacity.ts. The SOL amounts, which are floats, are in lamports here.
pub mod Laws
pub mod Solvent
pub mod Limits
use playkaboom.Common.{
  ℕ, zero, suc, ◌+◌, ◌-◌, ◌*◌, ◌/◌, min, Bool, true, false, ◌&&◌, Option, none, some, List, [], ◌∷◌,
  ltb, leb, ◌==◌, if◌then◌else◌, Result, ok, err, ◌>>=◌, Error, is_some,
}
use playkaboom.Common.Int.{ℤ, pos, negsuc, pos_part, ◌-ℤ◌, leb_ℤ}
use playkaboom.Sdk.Accounts.{VaultAccount, VaultV2StateAccount}
use playkaboom.Shared.Multiplier.{grid_size, min_mines, max_mines, calc_multiplier_bps}

pub data Reason : Type 0 where
  fits paused vault_empty obligations_full exceeds_cap : Reason

-- `worst_case_payout` is in ten-thousandths of a lamport.
pub record CapacityResult : Type 0 where
  pub max_bet_lamports : ℕ
  pub max_payout_lamports : ℕ
  pub health : ℕ
  pub effective_max_payout_bps : ℕ
  pub worst_case_payout : ℕ
  pub reason : Reason

abbrev pub nothing : Reason → CapacityResult
nothing why = record {
  max_bet_lamports = 0;
  max_payout_lamports = 0;
  health = 0;
  effective_max_payout_bps = 0;
  worst_case_payout = 0;
  reason = why;
}

module _ {K : Type 0} where
  -- The health of the vault; 10000 where it has no second-version state.
  unfoldable pub capacity_health : Option (VaultV2StateAccount K) → ℕ → ℕ
  capacity_health none available = 10000
  capacity_health (some v2) available =
      let pending_value =
        if ltb 0 v2.total_units then v2.total_pending_units * available / v2.total_units else 0 in
      let obligations = v2.total_outstanding_max_payout + pending_value in
      let free = if leb available obligations then 0 else available - obligations in
      free * 10000 / available

  unfoldable pub payout_cap_bps : VaultAccount K → Option (VaultV2StateAccount K) → Bool → ℕ
  payout_cap_bps vault none vrf_mode = vault.max_payout_bps
  payout_cap_bps vault (some v2) vrf_mode =
      if vrf_mode && ltb 0 v2.vrf_max_payout_bps
      then min vault.max_payout_bps v2.vrf_max_payout_bps
      else vault.max_payout_bps

  -- The limits, where the multiplier of the board's last safe tile is known.
  unfoldable pub limits :
      VaultAccount K → Option (VaultV2StateAccount K) → ℕ → ℕ → Bool → ℕ → ℕ → CapacityResult
  limits vault v2 available health vrf_mode bet mult_bps =
      let effective_max_payout_bps = payout_cap_bps vault v2 vrf_mode * health / 10000 in
      let max_payout = available * effective_max_payout_bps / 10000 in
      let effective_max_bet_bps = vault.max_bet_bps * health / 10000 in
      let by_bet_cap = available * effective_max_bet_bps / 10000 in
      let by_payout = max_payout * 10000 / mult_bps in
      let max_bet = if ltb by_bet_cap by_payout then by_bet_cap else by_payout in
      record {
        max_bet_lamports = max_bet;
        max_payout_lamports = max_payout;
        health = health;
        effective_max_payout_bps = effective_max_payout_bps;
        worst_case_payout = bet * mult_bps;
        reason = if ltb max_bet bet then exceeds_cap else fits;
      }

  unfoldable pub priced :
      VaultAccount K → Option (VaultV2StateAccount K) → ℕ → ℕ → Bool → ℕ → ℤ → CapacityResult
  priced vault v2 available health vrf_mode bet mult_bps =
      if leb_ℤ mult_bps (pos 0)
      then nothing vault_empty
      else limits vault v2 available health vrf_mode bet (pos_part mult_bps)

  -- `computeCapacity`: the bet is only compared and multiplied; the mine count may have any sign.
  unfoldable pub compute_capacity :
      ℕ
      → Option (VaultAccount K)
      → Option (VaultV2StateAccount K)
      → ℕ
      → ℤ
      → ℕ
      → Bool
      → Result CapacityResult
  compute_capacity lamports none v2 bet mine_count rent vrf_mode = ok (nothing vault_empty)
  compute_capacity lamports (some vault) v2 bet mine_count rent vrf_mode =
      let available = lamports - rent in
      let health = capacity_health v2 available in
      let safe_reveals = pos grid_size -ℤ mine_count in
      if vault.paused
      then ok (nothing paused)
      else if leb lamports rent
      then ok (nothing vault_empty)
      else if is_some v2 && leb health 0
      then ok (nothing obligations_full)
      else if leb_ℤ safe_reveals (pos 0)
      then ok (nothing vault_empty)
      else calc_multiplier_bps safe_reveals mine_count (pos vault.house_edge_bps) >>= λ mult_bps.
          ok (priced vault v2 available health vrf_mode bet mult_bps)

  -- The loop of `vaultLimits`: `k` mine counts are left, `m` is the next.
  unfoldable pub limits_loop :
      ℕ
      → ℕ
      → ℕ
      → Option (VaultAccount K)
      → Option (VaultV2StateAccount K)
      → ℕ
      → Bool
      → ℕ × ℕ
      → Result (ℕ × ℕ)
  limits_loop zero m lamports vault v2 rent vrf_mode best = ok best
  limits_loop (suc k) m lamports vault v2 rent vrf_mode (bet, payout) =
      compute_capacity lamports vault v2 0 (pos m) rent vrf_mode >>= λ c.
      limits_loop k (suc m) lamports vault v2 rent vrf_mode (
        if ltb bet c.max_bet_lamports then c.max_bet_lamports else bet,
        if ltb payout c.max_payout_lamports then c.max_payout_lamports else payout,
      )

  -- `vaultLimits`, over the mine counts from MIN_MINES to MAX_MINES.
  unfoldable pub vault_limits :
      ℕ → Option (VaultAccount K) → Option (VaultV2StateAccount K) → ℕ → Bool → Result (ℕ × ℕ)
  vault_limits lamports vault v2 rent vrf_mode =
      limits_loop (max_mines + 1 - min_mines) min_mines lamports vault v2 rent vrf_mode (0, 0)
