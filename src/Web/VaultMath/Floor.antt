-- ===== src/Web/VaultMath/Floor.antt =====
-- The largest deposit the page offers, against the program's two limits.
use playkaboom.Common.{
  ℕ, ◌+◌, ◌-◌, ◌*◌, ◌/◌, ◌≤◌, ◌<◌, ◌≡◌, refl, ◌↔◌, arith, ltb, leb, ◌==◌, ◌&&◌, if◌then◌else◌,
}
use playkaboom.Common.Int.{
  pos, ◌+ℤ◌, ◌-ℤ◌, ◌*ℤ◌, quot, ◌≤ℤ◌, +ℤ_pos, -ℤ_pos, *ℤ_pos, quot_pos, leb_ℤ,
}
use playkaboom.Common.Arith.{mul_mono, div-mul-le, lt-div-mul, le-div, div-le}
use playkaboom.Sdk.Accounts.{VaultV2StateAccount}
use playkaboom.Web.VaultMath.{
  lamports_to_units, max_deposit_lamports, effective_max_user_position_lamports, by_floor,
  floor_room, user_units, position_cap_disabled_sentinel,
}
use playkaboom.Web.VaultMath.Laws.{minted, lamports_to_units_lem}
use native.Mathlib.Decide.{dec_le}

-- q ≤ n / d, for products.
le-div_iff : (q n d : ℕ) → 0 < d → (q ≤ n / d) ↔ (q * d ≤ n)
le-div_iff q n d h =
    (λ le. omega (arith, mul_mono q (n / d) d le, div-mul-le n d), λ le. le-div q n d h le)

-- n / d ≤ r, for products.
div-le_iff : (r n d : ℕ) → 0 < d → (n / d ≤ r) ↔ (n + 1 ≤ (r + 1) * d)
div-le_iff r n d h = (
  λ le. omega (arith, mul_mono (n / d + 1) (r + 1) d (omega arith), lt-div-mul n d h),
  λ le. div-le r n d h (omega arith),
)

-- The most lamports whose units, rounded down, are at most `r`.
bound_iff : (x a t r : ℕ) → 0 < a → 0 < t → (x ≤ ((r + 1) * a - 1) / t) ↔ (x * t / a ≤ r)
bound_iff x a t r ha ht =
    let (up, down) = le-div_iff x ((r + 1) * a - 1) t ht in
    let (up₁, down₁) = div-le_iff r (x * t) a ha in
    let some_room : a ≤ (r + 1) * a = omega arith in
    (λ le. down₁ (omega (arith, up le)), λ le. down (omega (arith, up₁ le)))

mul_split : (h b c : ℕ) → b ≤ c → h * (c - b) + h * b ≡ h * c
mul_split h b c le = grind arith

room_sign : (m p : ℕ) → leb_ℤ (pos m -ℤ pos p) (pos 0) ≡ leb m p
unfolding ◌-ℤ◌
room_sign m p = ground arith

quot_room :
    (r a t : ℕ) → 0 < a → quot ((pos r +ℤ pos 1) *ℤ pos a -ℤ pos 1) t ≡ pos (((r + 1) * a - 1) / t)
quot_room r a t h =
    rw (+ℤ_pos r 1, *ℤ_pos (r + 1) a, -ℤ_pos ((r + 1) * a) 1 (omega arith))
      (quot_pos ((r + 1) * a - 1) t)

-- The house's share `h` of all units stays at least `b` in 10000 exactly while the others have at
-- most `h * (10000 - b) / b`.
share_iff :
    (h b others : ℕ)
    → 0 < b
    → b ≤ 10000
    → (others ≤ h * (10000 - b) / b) ↔ (b * (h + others) ≤ h * 10000)
share_iff h b others hb hb₁ =
    let (up, down) = le-div_iff others (h * (10000 - b)) b hb in
    let whole : h * (10000 - b) + h * b ≡ h * 10000 = mul_split h b 10000 hb₁ in
    (λ le. omega (arith, up le), λ le. down (omega arith))

-- The cap as `max_deposit_lamports` chooses it from the floor's and the position's.
unfoldable clamped : ℕ → ℕ → ℕ → ℕ → ℕ
clamped b floor cap least =
    let most = if ltb 0 b && ltb floor cap then floor else cap in if ltb most least then 0 else most

cap_iff :
    (x a t m p : ℕ)
    → 0 < a
    → 0 < x
    → 0 < minted x a t
    → (x ≤ (if leb m p then 0 else if t == 0 then m - p else ((m - p + 1) * a - 1) / t))
      ↔ (p + minted x a t ≤ m)
unfolding minted
cap_iff x a t m p ha hx hu = ground (arith, bound_iff x a t (m - p) ha)

clamped_iff :
    (x b floor cap least : ℕ)
    → 0 < x
    → least ≤ x
    → (x ≤ clamped b floor cap least) ↔ ((x ≤ cap) × (0 < b → x ≤ floor))
unfolding clamped
clamped_iff x b floor cap least hx le = ground arith

position_cap_lem :
    {K : Type 0} (v2 : VaultV2StateAccount K) (a health : ℕ)
    → (c : ℕ) × (effective_max_user_position_lamports v2 (pos a) health ≡ pos c)
unfolding effective_max_user_position_lamports
position_cap_lem v2 a health = (
  if v2.max_user_position_bps == 0
      then position_cap_disabled_sentinel
      else a * v2.max_user_position_bps / 10000 * health / 10000,
  ground (
    arith,
    *ℤ_pos a v2.max_user_position_bps,
    quot_pos (a * v2.max_user_position_bps) 10000,
    *ℤ_pos (a * v2.max_user_position_bps / 10000) health,
    quot_pos (a * v2.max_user_position_bps / 10000 * health) 10000,
  ),
)

module _ {K : Type 0} (v2 : VaultV2StateAccount K) where
  -- The units of the players, as a native number, and the most they may have.
  abbrev players : ℕ
  players = v2.total_units - v2.seed_units - v2.house_units - v2.house_pending_units

  abbrev most_players : ℕ
  most_players = v2.house_units * (10000 - v2.min_house_share_bps) / v2.min_house_share_bps

  abbrev floor_cap : ℕ → ℕ
  floor_cap a =
      if leb most_players players
      then 0
      else if v2.total_units == 0
      then most_players - players
      else ((most_players - players + 1) * a - 1) / v2.total_units

  module _ (parts : v2.seed_units + v2.house_units + v2.house_pending_units ≤ v2.total_units)
      (share : v2.min_house_share_bps ≤ 10000) where
    user_units_lem : user_units v2 ≡ pos players
    unfolding user_units
    user_units_lem = ground (
      arith,
      -ℤ_pos v2.total_units v2.seed_units,
      -ℤ_pos (v2.total_units - v2.seed_units) v2.house_units,
      -ℤ_pos (v2.total_units - v2.seed_units - v2.house_units) v2.house_pending_units,
    )

    floor_room_lem : floor_room v2 ≡ pos most_players -ℤ pos players
    unfolding floor_room
    floor_room_lem =
        rw
          (
            user_units_lem,
            -ℤ_pos 10000 v2.min_house_share_bps share,
            *ℤ_pos v2.house_units (10000 - v2.min_house_share_bps),
            quot_pos (v2.house_units * (10000 - v2.min_house_share_bps)) v2.min_house_share_bps,
          )
          refl

    by_floor_lem : (a : ℕ) → 0 < a → by_floor v2 (pos a) ≡ pos (floor_cap a)
    unfolding by_floor
    by_floor_lem a h =
        rw (floor_room_lem, room_sign most_players players)
          (elim (dec_le most_players players) [
            | yes le ↦ ground arith
            | no gt ↦
                rw
                  (
                    -ℤ_pos most_players players (omega arith),
                    quot_room (most_players - players) a v2.total_units h,
                  )
                  (ground arith)
          ])

    max_deposit_native :
        (a health c : ℕ)
        → 0 < a
        → effective_max_user_position_lamports v2 (pos a) health ≡ pos c
        → max_deposit_lamports v2 (pos a) health
          ≡ pos (clamped v2.min_house_share_bps (floor_cap a) c v2.min_lp_deposit)
    unfolding max_deposit_lamports clamped
    max_deposit_native a health c ha e = rw (e, by_floor_lem a ha) (ground arith)

    -- A deposit of `x` lamports, which is not below the minimum and mints `u` units, is within the
    -- limit the page shows exactly when it is within the position's cap and leaves the house its
    -- share of the units, for a vault of assets `a` whose parts do not exceed its units and whose
    -- house share is at most the whole.
    pub max_deposit_iff :
        (x a u health : ℕ)
        → 0 < a
        → 0 < x
        → v2.min_lp_deposit ≤ x
        → lamports_to_units (pos x) (pos a) (pos v2.total_units) ≡ pos u
        → 0 < u
        → (pos x ≤ℤ max_deposit_lamports v2 (pos a) health) ↔ (
            (pos x ≤ℤ effective_max_user_position_lamports v2 (pos a) health)
            × (v2.min_house_share_bps
                  * (v2.house_units
                      + (v2.total_units - v2.seed_units - v2.house_units - v2.house_pending_units
                          + u))
                ≤ v2.house_units * 10000))
    max_deposit_iff x a u health ha hx least e hu =
        let (c, cap) = position_cap_lem v2 a health in
        let units : minted x a v2.total_units ≡ u =
          cc (lamports_to_units_lem x a v2.total_units ha) in
        let floor = cap_iff x a v2.total_units most_players players ha hx (omega arith) in
        let fair = share_iff v2.house_units v2.min_house_share_bps (players + u) in
        rw (max_deposit_native a health c ha cap, cap)
          (ground (
            arith,
            clamped_iff x v2.min_house_share_bps (floor_cap a) c v2.min_lp_deposit hx least,
            floor,
            fair,
          ))
