-- ===== src/Web/Cron/LpPoints/Hours.antt =====
-- The hourly runs over many ticks, and a second run of an hour.
use playkaboom.Common.{
  ℕ, Bool, true, false, inl, inr, Option, none, some, List, [], ◌∷◌, Result, ok, err, Bool-cases,
}
use playkaboom.Sdk.Buffer.{Bytes}
use playkaboom.Web.Cron.LpPoints.Ledger.{hour_of, Books, DbRun}
use playkaboom.Web.Cron.LpPoints.{
  Report, credit_all, LpSnapshot, credited_positions, with_db, Tick, Hourly, is_done, finish_hour,
  credit_snapshot, read_and_credit, rate_and_credit, run_lp_points_hourly, run_hours, no_books,
}
use playkaboom.Web.Cron.LpPoints.Exact.{
  IsExact, AllExact, credit_lp_hour-AllExact, no_books-AllExact,
}

credit_all-AllExact :
    (rate hour : ℕ) (ps : List (Bytes × ℕ × DbRun)) (st : Books × Report)
    → AllExact st.0
    → AllExact (credit_all rate hour ps st).0
unfolding credit_all
credit_all-AllExact rate hour [] st v = v
credit_all-AllExact rate hour ((owner, value, db) ∷ ps) (books, report) v =
    credit_all-AllExact rate hour ps _ (credit_lp_hour-AllExact db owner value rate hour books v)

module _ {K : Type 0} (to_base58 : K → Bytes) where
  read_and_credit-AllExact :
      (tick : Tick K) (hour rate : ℕ) (st : Hourly) (read : Result (Option (LpSnapshot K)))
      → AllExact st.books
      → AllExact (read_and_credit to_base58 tick hour rate st read).0.books
  unfolding read_and_credit credit_snapshot finish_hour
  read_and_credit-AllExact tick hour rate st (err e) v = v
  read_and_credit-AllExact tick hour rate st (ok none) v = v
  read_and_credit-AllExact tick hour rate st (ok (some snap)) v =
      credit_all-AllExact rate hour (with_db tick.db (credited_positions to_base58 snap)) _ v

  rate_and_credit-AllExact :
      (tick : Tick K) (hour : ℕ) (st : Hourly) (rate : Result ℕ)
      → AllExact st.books
      → AllExact (rate_and_credit to_base58 tick hour st rate).0.books
  unfolding rate_and_credit
  rate_and_credit-AllExact tick hour st (err e) v = v
  rate_and_credit-AllExact tick hour st (ok rate) v =
      read_and_credit-AllExact tick hour rate st tick.read v

  run_lp_points_hourly-AllExact :
      (tick : Tick K) (st : Hourly)
      → AllExact st.books
      → AllExact (run_lp_points_hourly to_base58 tick st).0.books
  unfolding run_lp_points_hourly
  run_lp_points_hourly-AllExact tick st v =
      elim (Bool-cases (is_done st.done_hour (hour_of tick.now))) [
        | inl done ↦ rw done v
        | inr new ↦ rw new (rate_and_credit-AllExact tick (hour_of tick.now) st tick.rate_micro v)
      ]

  run_hours-AllExact :
      (ticks : List (Tick K × Bool)) (st : Hourly)
      → AllExact st.books
      → AllExact (run_hours to_base58 ticks st).books
  unfolding run_hours
  run_hours-AllExact [] st v = v
  run_hours-AllExact ((tick, true) ∷ ticks) st v =
      run_hours-AllExact ticks _
        (run_lp_points_hourly-AllExact tick (record st { done_hour = none }) v)
  run_hours-AllExact ((tick, false) ∷ ticks) st v =
      run_hours-AllExact ticks _ (run_lp_points_hourly-AllExact tick st v)

  -- After any ticks of any processes from empty tables, whatever the reads give and however the
  -- transactions fail, the points in each owner's ledger are the whole points of the owner's
  -- accrual, and none of them is of an hour after the last one accrued.
  pub run_hours-IsExact :
      (ticks : List (Tick K × Bool)) (owner : Bytes)
      → IsExact owner
          (run_hours to_base58 ticks (record { done_hour = none; books = no_books })).books
  run_hours-IsExact ticks owner = run_hours-AllExact ticks _ no_books-AllExact owner
