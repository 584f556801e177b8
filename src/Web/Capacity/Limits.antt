-- ===== src/Web/Capacity/Limits.antt =====
-- The headline limits, over all the mine counts.
use playkaboom.Common.{
  ℕ, zero, suc, ◌+◌, ◌≤◌, ◌<◌, ◌≡◌, refl, arith, Bool, Option, some, Result, ok, ltb, if◌then◌else◌,
}
use playkaboom.Common.Int.{pos}
use playkaboom.Sdk.Accounts.{VaultAccount, VaultV2StateAccount}
use playkaboom.Web.Capacity.{CapacityResult, compute_capacity, limits_loop, vault_limits}
use playkaboom.Web.Capacity.Laws.{capacity_covers}
use native.Mathlib.Decide.{dec_le}

ok_inj : {A : Type 0} (a b : A) → ok a ≡ ok b → a ≡ b
ok_inj a b e = cc

module _ {K : Type 0} (lamports : ℕ) (vault : VaultAccount K) (v2 : Option (VaultV2StateAccount K))
    (rent : ℕ) (vrf_mode : Bool) where
  abbrev at : ℕ → Result CapacityResult
  at m = compute_capacity lamports (some vault) v2 0 (pos m) rent vrf_mode

  -- No mine count from `m` on, of `k`, is offered more than `bet` or has a higher payout cap.
  abbrev IsBest : ℕ → ℕ → ℕ → ℕ → Type 0
  IsBest k m bet payout =
      (n : ℕ) (c : CapacityResult)
      → m ≤ n
      → n < m + k
      → at n ≡ ok c
      → (c.max_bet_lamports ≤ bet) × (c.max_payout_lamports ≤ payout)

  IsBest-suc :
      (k m bet payout : ℕ) (c : CapacityResult)
      → at m ≡ ok c
      → c.max_bet_lamports ≤ bet
      → c.max_payout_lamports ≤ payout
      → IsBest k (suc m) bet payout
      → IsBest (suc k) m bet payout
  IsBest-suc k m bet payout c here hb hp rest n d h h₁ e = elim (dec_le n m) [
    | yes le ↦
        let same : n ≡ m = omega arith in
        let c_d : c ≡ d = ok_inj c d (rw (← here, ← same) e) in rw (← c_d) (hb, hp)
    | no gt ↦ rest n d (omega arith) (omega arith) e
  ]

  limits_loop_lem :
      (k m bet payout : ℕ)
      → vault.house_edge_bps ≤ 10000
      → 1 ≤ m
      → m + k ≤ 16
      → (bet₁ : ℕ) × (payout₁ : ℕ) × (limits_loop k m lamports
            (some vault)
            v2
            rent
            vrf_mode
            (bet, payout)
          ≡ ok (bet₁, payout₁))
        × (bet ≤ bet₁)
        × (payout ≤ payout₁)
        × IsBest k m bet₁ payout₁
  unfolding limits_loop
  limits_loop_lem zero m bet payout he h h₁ =
      (bet, payout, refl, omega arith, omega arith, λ n c le lt. absurd (omega arith))
  limits_loop_lem (suc k) m bet payout he h h₁ =
      let (c, _, here, _, _) =
        capacity_covers lamports vault v2 0 rent vrf_mode m h (omega arith) he in
      let next =
        limits_loop_lem k (suc m) (if ltb bet c.max_bet_lamports then c.max_bet_lamports else bet)
          (if ltb payout c.max_payout_lamports then c.max_payout_lamports else payout) he
          (omega arith) (omega arith) in
      let (bet₁, payout₁, runs, hb, hp, best) = next in
      (
        bet₁,
        payout₁,
        rw here runs,
        ground arith,
        ground arith,
        IsBest-suc k m bet₁ payout₁ c here (ground arith) (ground arith) best,
      )

  -- For a house edge of at most the whole, `vaultLimits` returns, and `computeCapacity` offers no
  -- mine count from 1 to 15 a higher bet or payout cap than it.
  pub vault_limits_best :
      vault.house_edge_bps ≤ 10000
      → (bet : ℕ) × (payout : ℕ) × (vault_limits lamports (some vault) v2 rent vrf_mode
          ≡ ok (bet, payout))
        × ((m : ℕ) (c : CapacityResult)
            → 1 ≤ m
            → m < 16
            → compute_capacity lamports (some vault) v2 0 (pos m) rent vrf_mode ≡ ok c
            → (c.max_bet_lamports ≤ bet) × (c.max_payout_lamports ≤ payout))
  unfolding vault_limits
  vault_limits_best he =
      let (bet, payout, runs, _, _, best) =
        limits_loop_lem 15 1 0 0 he (omega arith) (omega arith) in
      (bet, payout, runs, best)
