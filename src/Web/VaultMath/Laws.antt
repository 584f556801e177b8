-- ===== src/Web/VaultMath/Laws.antt =====
-- Deposits into the vault, and its health.
use playkaboom.Common.{ℕ, ◌+◌, ◌*◌, ◌/◌, ◌≤◌, ◌<◌, ◌≡◌, arith, leb, ◌==◌, if◌then◌else◌}
use playkaboom.Common.Int.{pos, ◌+ℤ◌, +ℤ_pos, -ℤ_pos, *ℤ_pos, quot_pos}
use playkaboom.Common.Arith.{mul_mono, mul_cancel, div-mul-le, le-div, div-le}
use playkaboom.Web.VaultMath.{
  unit_value_e18, units_to_lamports, lamports_to_units, deposit_unit_value_e18, div_bigint, scale,
}

-- The units that a deposit of `amount` mints, as a native number.
unfoldable pub minted : ℕ → ℕ → ℕ → ℕ
minted amount assets total = if total == 0 then amount else amount * total / assets

pub lamports_to_units_lem :
    (amount assets total : ℕ)
    → 0 < assets
    → lamports_to_units (pos amount) (pos assets) (pos total) ≡ pos (minted amount assets total)
unfolding lamports_to_units minted div_bigint
lamports_to_units_lem amount assets total h =
    ground (arith, *ℤ_pos amount total, quot_pos (amount * total) assets)

units_to_lamports_lem :
    (units assets total : ℕ)
    → 0 < total
    → units_to_lamports (pos units) (pos assets) (pos total) ≡ pos (units * assets / total)
unfolding units_to_lamports div_bigint
units_to_lamports_lem units assets total h =
    ground (arith, *ℤ_pos units assets, quot_pos (units * assets) total)

unit_value_e18_lem :
    (assets total : ℕ)
    → 0 < total
    → unit_value_e18 (pos assets) (pos total) ≡ pos (assets * scale / total)
unfolding unit_value_e18 div_bigint
unit_value_e18_lem assets total h =
    ground (arith, *ℤ_pos assets scale, quot_pos (assets * scale) total)

minted_le : (x a t : ℕ) → 0 < t → minted x a t * a ≤ x * t
unfolding minted
minted_le x a t h = ground (arith, div-mul-le (x * t) a)

-- Taking back `u` units that cost `x` lamports.
module _ (x a t u : ℕ) (ht : 0 < t) (le : u * a ≤ x * t) where
  value_le : u * (a + x) / (t + u) ≤ x
  value_le = div-le x (u * (a + x)) (t + u) (omega arith) (omega (arith, le))

  unit_value_le : (s : ℕ) → a * s / t ≤ (a + x) * s / (t + u)
  unit_value_le s =
      let q = a * s / t in
      let below : q * t ≤ a * s = div-mul-le (a * s) t in
      let share : q * u ≤ x * s =
        mul_cancel (q * u) (x * s) t ht
          (omega (arith, mul_mono (q * t) (a * s) u below, mul_mono (u * a) (x * t) s le)) in
      le-div q ((a + x) * s) (t + u) (omega arith) (omega (arith, below, share))

lamports_to_units_pos : (x a t : ℕ) → (u : ℕ) × (lamports_to_units (pos x) (pos a) (pos t) ≡ pos u)
unfolding lamports_to_units div_bigint
lamports_to_units_pos x a t = (
  if t == 0 then x else if leb a 0 then 0 else x * t / a,
  ground (arith, *ℤ_pos x t, quot_pos (x * t) a),
)

deposit_price :
    (x a t u : ℕ)
    → deposit_unit_value_e18 (record {
      amount_lamports = pos x;
      units_minted = pos u;
      total_units_after = pos t +ℤ pos u;
      vault_assets_after = pos a +ℤ pos x;
    })
      ≡ (if t == 0 then pos scale else unit_value_e18 (pos a) (pos t))
unfolding deposit_unit_value_e18
deposit_price x a t u = ground (arith, +ℤ_pos t u, +ℤ_pos a x, -ℤ_pos (t + u) u, -ℤ_pos (a + x) x)

-- A deposit of `x` lamports that is taken back at once returns at most `x`, and the value of a unit
-- does not fall by the deposit, where the vault has assets `a` and units `t` before it; both values
-- and the units minted are numbers that are not negative.
pub deposit_withdraw :
    (x a t : ℕ)
    → 0 < a
    → 0 < t
    → (u : ℕ) × (w : ℕ) × (v : ℕ) × (v₁ : ℕ) × (lamports_to_units (pos x) (pos a) (pos t) ≡ pos u)
      × (units_to_lamports (pos u) (pos (a + x)) (pos (t + u)) ≡ pos w)
      × (unit_value_e18 (pos a) (pos t) ≡ pos v)
      × (unit_value_e18 (pos (a + x)) (pos (t + u)) ≡ pos v₁)
      × (w ≤ x)
      × (v ≤ v₁)
deposit_withdraw x a t ha ht =
    let u = minted x a t in
    let le : u * a ≤ x * t = minted_le x a t ht in
    (
      u,
      u * (a + x) / (t + u),
      a * scale / t,
      (a + x) * scale / (t + u),
      lamports_to_units_lem x a t ha,
      units_to_lamports_lem u (a + x) (t + u) (omega arith),
      unit_value_e18_lem a t ht,
      unit_value_e18_lem (a + x) (t + u) (omega arith),
      value_le x a t u ht le,
      unit_value_le x a t u ht le scale,
    )

-- From the event that a deposit of `x` lamports leaves, the page computes the value of a unit just
-- before the deposit, or one lamport for a unit where the vault had none.
pub deposit_unit_value_lem :
    (x a t : ℕ)
    → deposit_unit_value_e18 (record {
      amount_lamports = pos x;
      units_minted = lamports_to_units (pos x) (pos a) (pos t);
      total_units_after = pos t +ℤ lamports_to_units (pos x) (pos a) (pos t);
      vault_assets_after = pos a +ℤ pos x;
    })
      ≡ (if t == 0 then pos scale else unit_value_e18 (pos a) (pos t))
deposit_unit_value_lem x a t =
    let (u, e) = lamports_to_units_pos x a t in rw e (deposit_price x a t u)
