-- ===== src/Tests/LpPoints.antt =====
-- Two liquidity providers, one of whom asked to withdraw and cancels within the hour.
use playkaboom.Common.{◌/◌, ◌≡◌, refl, true, none, some, List, [], ◌∷◌, ok, inl, inr, codes}
use playkaboom.Common.Int.{◌*ℤ◌, quot}
use playkaboom.Sdk.Buffer.{Bytes, bytes_eq}
use playkaboom.Sdk.Accounts.{LpPositionAccount}
use playkaboom.Web.VaultMath.{units_to_lamports, div_bigint}
use playkaboom.Web.Cron.LpPoints.Ledger.{
  e15, hour_of, DbRun, credit_lp_hour, committed, ensure_row, due_accrual, credit_row, accrue,
  is_due,
}
use playkaboom.Web.Cron.LpPoints.{
  Report, LpSnapshot, Tick, Hourly, no_books, is_done, run_hours, run_lp_points_hourly,
  credited_positions, earning_positions, stopped_positions, rate_and_credit, read_and_credit,
  credit_snapshot, finish_hour, credit_all, with_db, note_award,
}
use playkaboom.Web.Cron.LpPoints.Exact.{IsExact, points_of}
use playkaboom.Web.Cron.LpPoints.Earned.{Attempt, credits, earned, credits_lem}
use playkaboom.Web.Cron.LpPoints.Hours.{run_hours-IsExact}
use playkaboom.Web.Cron.LpPoints.Again.{Covers, run_lp_points_hourly_twice}
use playkaboom.Tests.Toy.{Key, player_key, house_key, toy}

-- An hour whose commit is acknowledged too late is tried again, and counts once.
abbrev tried : Attempt
tried = record {
  db = DbRun.commit_lost;
  owner = codes "ann";
  value_lamports = 150000000;
  rate_micro = 10000000;
  hour = 494000;
}

abbrev attempts : List Attempt
attempts =
    tried
    ∷ record tried { db = DbRun.goes_through }
    ∷ record tried { db = DbRun.goes_through; hour = 494001 }
    ∷ []

credits_lem_example :
    points_of (credits attempts no_books).ledger (codes "ann")
    ≡ earned (codes "ann") none attempts / e15
credits_lem_example = credits_lem attempts (codes "ann")

abbrev name : Key → Bytes
name k = toy.to_bytes k

abbrev staying : LpPositionAccount Key
staying = record {
  user = player_key;
  units = 1000000000;
  pending_units = 0;
  pending_unlock_slot = 0;
  created_slot = 100;
  bump = 255;
}

abbrev leaving : LpPositionAccount Key
leaving = record staying { user = house_key; pending_units = 500000000 }

abbrev snapshot : LpSnapshot Key
snapshot = record {
  positions = staying ∷ leaving ∷ [];
  total_units = 10000000000;
  assets = 10000000000;
}

abbrev cancelled : LpSnapshot Key
cancelled = record snapshot { positions = staying ∷ record leaving { pending_units = 0 } ∷ [] }

abbrev tick : Tick Key
tick = record {
  now = 1778400000000;
  rate_micro = ok 10000000;
  read = ok (some snapshot);
  db = λ owner. DbRun.goes_through;
}

abbrev again : Tick Key
again = record tick { now = 1778401000000; read = ok (some cancelled) }

abbrev start : Hourly
start = record { done_hour = none; books = no_books }

run_hours-IsExact_example :
    IsExact (name player_key) (run_hours name ((tick, true) ∷ (again, true) ∷ []) start).books
run_hours-IsExact_example =
    run_hours-IsExact name ((tick, true) ∷ (again, true) ∷ []) (name player_key)

abbrev report : Report
report = record { credited = 1; points = 10; errors = [] }

ran : (run_lp_points_hourly name tick start).1 ≡ ok report
unfolding run_lp_points_hourly rate_and_credit read_and_credit credit_snapshot finish_hour
    credit_all with_db credit_lp_hour committed ensure_row due_accrual credit_row accrue note_award
    is_due credited_positions earning_positions stopped_positions units_to_lamports bytes_eq hour_of
    is_done div_bigint quot ◌*ℤ◌
ran = refl

read_inj : (a b : LpSnapshot Key) → ok (some a) ≡ ok (some b) → a ≡ b
read_inj a b e = cc

covers : Covers name snapshot again.read
unfolding credited_positions earning_positions stopped_positions units_to_lamports div_bigint quot
    ◌*ℤ◌
covers later e = rw (← read_inj cancelled later e) (inl refl, (inr (inl refl), tt))

run_lp_points_hourly_twice_example :
    (run_lp_points_hourly name again
      (record { done_hour = none; books = (run_lp_points_hourly name tick start).0.books })).0.books
    ≡ (run_lp_points_hourly name tick start).0.books
unfolding hour_of is_done
run_lp_points_hourly_twice_example =
    run_lp_points_hourly_twice name tick again start snapshot 10000000 report none refl refl refl
      ran refl refl covers
