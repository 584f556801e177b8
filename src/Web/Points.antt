-- ===== src/Web/Points.antt =====
-- apps/web/src/server/points.ts: the points of a settled round, and the ledger they are written to.
pub mod Laws
use playkaboom.Common.{
  ℕ, suc, ◌+◌, ◌*◌, ◌/◌, min, Bool, true, false, not, ◌&&◌, ◌||◌, Option, none, some, List, [], ◌∷◌,
  String, ◌==◌, leb, if◌then◌else◌,
}
use playkaboom.Common.Int.{ℤ, pos, pos_part, ltb_ℤ, leb_ℤ}
use playkaboom.Sdk.Buffer.{Bytes, bytes_eq}
use mathlib.Core.Option.{get_or}

abbrev pub base_divisor : ℕ
base_divisor = 200000000

abbrev pub max_tier_mult_bps : ℕ
max_tier_mult_bps = 15000

abbrev pub max_streak_mult_bps : ℕ
max_streak_mult_bps = 12500

abbrev pub max_event_mult_bps : ℕ
max_event_mult_bps = 30000

-- A JavaScript number: one that is not finite, or a ratio.
pub data Number : Type 0 where
  not_finite : Number
  ratio : (numerator : ℤ) → (denominator_less_one : ℕ) → Number

-- `edgeBps` is a whole number, since BigInt refuses any other.
pub record PointsArgs : Type 0 where
  pub bet_lamports : ℤ
  pub edge_bps : ℤ
  pub tier_mult_bps : Option Number
  pub streak_mult_bps : Option Number
  pub event_mult_bps : Option Number

-- `clampMult`, with Math.floor of the ratio
unfoldable pub clamp_mult : Number → ℕ → ℕ
clamp_mult not_finite most = 10000
clamp_mult (ratio n d) most =
    if ltb_ℤ n (pos (10000 * suc d)) then 10000 else min most (pos_part n / suc d)

-- `clampMult(v ?? 10_000, most)`
unfoldable pub mult_or_one : Option Number → ℕ → ℕ
mult_or_one none most = clamp_mult (ratio (pos 10000) 0) most
mult_or_one (some v) most = clamp_mult v most

-- `computePoints`: the base points and the total.
unfoldable pub compute_points : PointsArgs → ℕ × ℕ
compute_points args =
    let tier = mult_or_one args.tier_mult_bps max_tier_mult_bps in
    let streak = mult_or_one args.streak_mult_bps max_streak_mult_bps in
    let event = mult_or_one args.event_mult_bps max_event_mult_bps in
    let base = pos_part args.bet_lamports * pos_part args.edge_bps / base_divisor in
    let total = base * tier * streak * event / 1000000000000 in
    if leb_ℤ args.bet_lamports (pos 0) || leb_ℤ args.edge_bps (pos 0) then (0, 0) else (base, total)

-- Texts are their bytes.
pub record AwardPointsInput : Type 0 where
  pub player : Bytes
  pub source_key : Bytes
  pub source : Bytes
  pub points : PointsArgs
  pub signer : Option Bytes
  pub notes : Option Bytes

-- A row of the ledger.
pub record Row : Type 0 where
  pub player : Bytes
  pub source_key : Bytes
  pub source : Bytes
  pub base_points : ℕ
  pub tier_mult_bps : ℕ
  pub streak_mult_bps : ℕ
  pub event_mult_bps : ℕ
  pub total_points : ℕ
  pub bet_lamports : ℤ
  pub edge_bps : ℤ
  pub signer : Option Bytes
  pub notes : Option Bytes

unfoldable pub row_of : AwardPointsInput → Row
row_of input =
    let args = input.points in
    let (base, total) = compute_points args in
    record {
      player = input.player;
      source_key = input.source_key;
      source = input.source;
      base_points = base;
      tier_mult_bps = mult_or_one args.tier_mult_bps max_tier_mult_bps;
      streak_mult_bps = mult_or_one args.streak_mult_bps max_streak_mult_bps;
      event_mult_bps = mult_or_one args.event_mult_bps max_event_mult_bps;
      total_points = total;
      bet_lamports = args.bet_lamports;
      edge_bps = args.edge_bps;
      signer = input.signer;
      notes = input.notes;
    }

-- A row has the key (source_key, source) already.
unfoldable pub present : List Row → Bytes → Bytes → Bool
present [] source_key source = false
present (r ∷ rows) source_key source =
    bytes_eq r.source_key source_key && bytes_eq r.source source || present rows source_key source

pub record AwardResult : Type 0 where
  pub base_points : ℕ
  pub total_points : ℕ
  pub inserted : Bool

-- `awardPoints` on a ledger that may fail: an insert that ignores duplicates of the key.
unfoldable pub award_points : (fails : Bool) → AwardPointsInput → List Row → List Row × AwardResult
award_points fails input ledger =
    let (base, total) = compute_points input.points in
    let inserted = not (fails || present ledger input.source_key input.source) in
    (
      if inserted then row_of input ∷ ledger else ledger,
      record { base_points = base; total_points = total; inserted = inserted },
    )
