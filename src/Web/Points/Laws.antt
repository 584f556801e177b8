-- ===== src/Web/Points/Laws.antt =====
-- The bounds of the points, and an award that is made twice.
use playkaboom.Common.{
  ℕ, suc, none, some, ◌*◌, ◌/◌, ◌≤◌, ◌≡◌, refl, arith, Bool, true, false, Option, List, ◌∷◌,
  Bool-cases, inl, inr,
}
use playkaboom.Common.Int.{pos, ltb_ℤ, pos_part}
use playkaboom.Common.Arith.{mul_mono, mul-le-mul, div-mul-le, le-div}
use playkaboom.Sdk.Buffer.Laws.{bytes_eq_refl}
use playkaboom.Web.Points.{
  AwardPointsInput, PointsArgs, Number, not_finite, ratio, Row, row_of, clamp_mult, mult_or_one,
  compute_points, present, award_points,
}

clamp_mult_bounds :
    (v : Number) (most : ℕ)
    → 10000 ≤ most
    → (10000 ≤ clamp_mult v most) × (clamp_mult v most ≤ most)
unfolding clamp_mult
clamp_mult_bounds not_finite most h = (omega arith, h)
clamp_mult_bounds (ratio n d) most h = elim (Bool-cases (ltb_ℤ n (pos (10000 * suc d)))) [
  | inl small ↦ rw small (omega arith, h)
  | inr large ↦
      let whole = le-div 10000 (pos_part n) (suc d) (omega arith) (ground arith) in
      rw large (ground (arith, whole))
]

mult_or_one_bounds :
    (v : Option Number) (most : ℕ)
    → 10000 ≤ most
    → (10000 ≤ mult_or_one v most) × (mult_or_one v most ≤ most)
unfolding mult_or_one
mult_or_one_bounds none most h = clamp_mult_bounds (ratio (pos 10000) 0) most h
mult_or_one_bounds (some v) most h = clamp_mult_bounds v most h

product_bounds :
    (t s e : ℕ)
    → (10000 ≤ t) × (t ≤ 15000)
    → (10000 ≤ s) × (s ≤ 12500)
    → (10000 ≤ e) × (e ≤ 30000)
    → (1000000000000 ≤ t * s * e) × (t * s * e ≤ 5625000000000)
product_bounds t s e (ht, ht₁) (hs, hs₁) (he, he₁) = (
  mul-le-mul 100000000 (t * s) 10000 e (mul-le-mul 10000 t 10000 s ht hs) he,
  mul-le-mul (t * s) 187500000 e 30000 (mul-le-mul t 15000 s 12500 ht₁ hs₁) he₁,
)

scaled_bounds :
    (base t s e : ℕ)
    → (1000000000000 ≤ t * s * e) × (t * s * e ≤ 5625000000000)
    → (base ≤ base * t * s * e / 1000000000000)
      × (base * t * s * e / 1000000000000 * 1000 ≤ base * 5625)
scaled_bounds base t s e (low, high) =
    let total = base * t * s * e in
    (
      le-div base total 1000000000000 (omega arith)
          (omega (arith, mul_mono 1000000000000 (t * s * e) base low)),
      omega (arith, div-mul-le total 1000000000000, mul_mono (t * s * e) 5625000000000 base high),
    )

-- A round's total points are at least its base points and at most 5.625 times them, whatever the
-- multipliers passed: whole numbers or not, and finite or not.
pub compute_points_bounds :
    (args : PointsArgs)
    → let (base, total) = compute_points args in (base ≤ total) × (total * 1000 ≤ base * 5625)
unfolding compute_points
compute_points_bounds args =
    let t = mult_or_one args.tier_mult_bps 15000 in
    let s = mult_or_one args.streak_mult_bps 12500 in
    let e = mult_or_one args.event_mult_bps 30000 in
    let base = pos_part args.bet_lamports * pos_part args.edge_bps / 200000000 in
    ground (
      arith,
      scaled_bounds base t s e (
          product_bounds t s e (mult_or_one_bounds args.tier_mult_bps 15000 (omega arith))
            (mult_or_one_bounds args.streak_mult_bps 12500 (omega arith))
            (mult_or_one_bounds args.event_mult_bps 30000 (omega arith))),
    )

present_here : (r : Row) (rows : List Row) → present (r ∷ rows) r.source_key r.source ≡ true
unfolding present
present_here r rows = rw (bytes_eq_refl r.source_key, bytes_eq_refl r.source) refl

award_again :
    (fails : Bool) (input : AwardPointsInput) (ledger : List Row)
    → present ledger input.source_key input.source ≡ true
    → let (ledger₁, result) = award_points fails input ledger in
      (ledger₁ ≡ ledger) × (result.inserted ≡ false)
unfolding award_points
award_again false input ledger h = rw h (refl, refl)
award_again true input ledger h = (refl, refl)

award_present :
    (input : AwardPointsInput) (ledger : List Row)
    → let (ledger₁, _) = award_points false input ledger in
      present ledger₁ input.source_key input.source ≡ true
unfolding award_points row_of
award_present input ledger = elim (Bool-cases (present ledger input.source_key input.source)) [
  | inl known ↦ rw (known, known) refl
  | inr fresh ↦ rw fresh (present_here (row_of input) ledger)
]

-- After an award whose insert did not fail, an award of the same source, with whatever amounts and
-- player, leaves the ledger as it is and says so.
pub award_points_twice :
    (input again : AwardPointsInput) (ledger : List Row) (fails : Bool)
    → again.source_key ≡ input.source_key
    → again.source ≡ input.source
    → let (ledger₁, _) = award_points false input ledger in
      let (ledger₂, result) = award_points fails again ledger₁ in
      (ledger₂ ≡ ledger₁) × (result.inserted ≡ false)
award_points_twice input again ledger fails key source =
    let (ledger₁, _) = award_points false input ledger in
    award_again fails again ledger₁ (rw (key, source) (award_present input ledger))
