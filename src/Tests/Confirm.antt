-- ===== src/Tests/Confirm.antt =====
-- A confirmation that is polled until its transaction is seen.
use playkaboom.Common.{◌≡◌, refl, arith, false, none, some, [], ◌∷◌, ok, Listed}
use playkaboom.Web.Confirm.{
  Status, Round, Outcome, returned, processed, confirm_by_polling, poll, poll_round, poll_status,
  poll_height, read_status, read_height, status_pending, is_seen,
}
use playkaboom.Web.Confirm.Outcomes.{DueTo, confirm_by_polling_ends, confirm_by_polling-DueTo}

abbrev seen : Status
seen = record { failed = false; confirmation = some processed }

abbrev first : Round
first = record {
  now = 1000;
  statuses = ok none;
  after_status = 1010;
  height = ok 250;
  last_statuses = ok none;
  after_height = 1020;
}

abbrev second : Round
second = record first { now = 1500; statuses = ok (some seen); after_status = 1510 }

abbrev third : Round
third = record first { now = 1700; after_status = 1710 }

confirm_by_polling_ends_example :
    (outcome : Outcome) × (confirm_by_polling 1000 50 300 (first ∷ second ∷ third ∷ [])
      ≡ some outcome)
confirm_by_polling_ends_example =
    confirm_by_polling_ends 1000 50 300 first (second ∷ third ∷ []) (omega arith)
      (omega arith, (omega arith, tt)) (omega arith)

returns : confirm_by_polling 1000 60000 300 (first ∷ second ∷ []) ≡ some returned
unfolding confirm_by_polling poll poll_round poll_status poll_height read_status read_height
    status_pending is_seen
returns = refl

confirm_by_polling-DueTo_example :
    (r : Round) × Listed r (first ∷ second ∷ []) × DueTo 1000 60000 300 returned r
confirm_by_polling-DueTo_example =
    confirm_by_polling-DueTo 1000 60000 300 (first ∷ second ∷ []) returned returns
