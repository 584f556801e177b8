-- ===== src/Web/Cron/LpPoints.antt =====
-- apps/web/src/server/cron/lp-points-pass.ts: the points that liquidity providers earn by the hour.
-- Amounts, rates and accruals are never negative.
pub mod Again
pub mod Earned
pub mod Exact
pub mod Hours
pub mod Ledger
pub mod Stamps
use playkaboom.Common.{
  ℕ, suc, ◌+◌, ◌-◌, ◌*◌, ◌/◌, Bool, true, false, ◌&&◌, ◌||◌, Option, none, some, List, [], ◌∷◌,
  ◌++◌, Result, ok, err, thrown, ltb, ◌==◌, if◌then◌else◌, length,
}
use playkaboom.Common.Int.{pos, pos_part, ltb_ℤ}
use playkaboom.Sdk.Buffer.{Bytes, bytes_eq}
use playkaboom.Sdk.Accounts.{LpPositionAccount}
use playkaboom.Web.VaultMath.{units_to_lamports}
use Ledger.{hour_of, Books, DbRun, credit_lp_hour}

-- The counts of a run: what it credited, its points, and the owners that it failed for
pub record Report : Type 0 where
  pub credited : ℕ
  pub points : ℕ
  pub errors : List Bytes

unfoldable pub note_award :
    (owner : Bytes) (value_lamports : ℕ) → Result (Option ℕ) → Report → Report
note_award owner value_lamports (err e) report = record report {
  errors = report.errors ++ owner ∷ [];
}
note_award owner value_lamports (ok none) report = report
note_award owner value_lamports (ok (some award)) report =
    if ltb 0 value_lamports
    then record report { credited = suc report.credited; points = report.points + award }
    else report

-- The loop over the positions that earn or are stopped, each with how its transaction goes
unfoldable pub credit_all :
    (rate_micro hour : ℕ) → List (Bytes × ℕ × DbRun) → Books × Report → Books × Report
unfolding credit_lp_hour note_award
credit_all rate_micro hour [] st = st
credit_all rate_micro hour ((owner, value_lamports, db) ∷ ps) (books, report) =
    let (books', award) = credit_lp_hour db owner value_lamports rate_micro hour books in
    credit_all rate_micro hour ps (books', note_award owner value_lamports award report)

pub record LpSnapshot (K : Type 0) : Type 0 where
  pub positions : List (LpPositionAccount K)
  pub total_units : ℕ
  pub assets : ℕ

unfoldable pub with_db : (Bytes → DbRun) → List (Bytes × ℕ) → List (Bytes × ℕ × DbRun)
with_db db [] = []
with_db db ((owner, value) ∷ ps) = (owner, value, db owner) ∷ with_db db ps

-- What a call of `runLpPointsHourly` finds: the time, the rate or its error, what reading the
-- positions and the vault gives (nothing where the vault is not there), and how the transaction
-- for each owner goes.
pub record Tick (K : Type 0) : Type 0 where
  pub now : ℕ
  pub rate_micro : Result ℕ
  pub read : Result (Option (LpSnapshot K))
  pub db : Bytes → DbRun

-- `doneHour` of the process, and the database
pub record Hourly : Type 0 where
  pub done_hour : Option ℕ
  pub books : Books

unfoldable pub is_done : Option ℕ → ℕ → Bool
is_done none hour = false
is_done (some done) hour = hour == done

abbrev pub nothing_credited : Report
nothing_credited = record { credited = 0; points = 0; errors = [] }

-- `if (!res.errors.length) doneHour = hour`
unfoldable pub finish_hour : (hour : ℕ) → Option ℕ → Books × Report → Hourly × Result Report
finish_hour hour done (books, report) = (
  record { done_hour = if length report.errors == 0 then some hour else done; books = books },
  ok report,
)

module _ {K : Type 0} (to_base58 : K → Bytes) where
  unfoldable pub earning_positions :
      List (LpPositionAccount K) → (total_units assets : ℕ) → List (Bytes × ℕ)
  earning_positions [] total_units assets = []
  earning_positions (p ∷ ps) total_units assets =
      let rest = earning_positions ps total_units assets in
      let value = units_to_lamports (pos p.units) (pos assets) (pos total_units) in
      if ltb 0 p.pending_units
      then rest
      else if ltb_ℤ (pos 0) value
      then (to_base58 p.user, pos_part value) ∷ rest
      else rest

  -- Those with a withdrawal pending, at the value 0
  unfoldable pub stopped_positions : List (LpPositionAccount K) → List (Bytes × ℕ)
  stopped_positions [] = []
  stopped_positions (p ∷ ps) =
      let rest = stopped_positions ps in
      if ltb 0 p.pending_units then (to_base58 p.user, 0) ∷ rest else rest

  -- `[...earning, ...stopped]`
  unfoldable pub credited_positions : LpSnapshot K → List (Bytes × ℕ)
  unfolding earning_positions stopped_positions
  credited_positions snap =
      earning_positions snap.positions snap.total_units snap.assets
      ++ stopped_positions snap.positions

  unfoldable pub credit_snapshot :
      Tick K → (hour rate_micro : ℕ) → Hourly → Option (LpSnapshot K) → Hourly × Result Report
  unfolding finish_hour credit_all with_db credited_positions
  credit_snapshot tick hour rate_micro st none =
      (record st { done_hour = some hour }, ok nothing_credited)
  credit_snapshot tick hour rate_micro st (some snap) = finish_hour hour st.done_hour (
      credit_all rate_micro hour (with_db tick.db (credited_positions snap))
        (st.books, nothing_credited))

  unfoldable pub read_and_credit :
      Tick K
      → (hour rate_micro : ℕ) → Hourly
      → Result (Option (LpSnapshot K))
      → Hourly × Result Report
  unfolding credit_snapshot
  read_and_credit tick hour rate_micro st (err e) = (st, err e)
  read_and_credit tick hour rate_micro st (ok snap) = credit_snapshot tick hour rate_micro st snap

  unfoldable pub rate_and_credit : Tick K → (hour : ℕ) → Hourly → Result ℕ → Hourly × Result Report
  unfolding read_and_credit
  rate_and_credit tick hour st (err e) = (st, err e)
  rate_and_credit tick hour st (ok rate_micro) = read_and_credit tick hour rate_micro st tick.read

  unfoldable pub run_lp_points_hourly : Tick K → Hourly → Hourly × Result Report
  unfolding rate_and_credit is_done hour_of
  run_lp_points_hourly tick st =
      let hour = hour_of tick.now in
      if is_done st.done_hour hour
      then (st, ok nothing_credited)
      else rate_and_credit tick hour st tick.rate_micro

  -- A tick of the process, or a tick of a process that has just started
  unfoldable pub run_hours : List (Tick K × Bool) → Hourly → Hourly
  unfolding run_lp_points_hourly
  run_hours [] st = st
  run_hours ((tick, is_fresh) ∷ ticks) st =
      let st' = if is_fresh then record st { done_hour = none } else st in
      run_hours ticks (run_lp_points_hourly tick st').0

abbrev pub no_books : Books
no_books = record { accruals = []; ledger = [] }
