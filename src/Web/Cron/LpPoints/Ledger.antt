-- ===== src/Web/Cron/LpPoints/Ledger.antt =====
-- creditLpHour of lp-points-pass.ts, on the rows of its two tables.
use playkaboom.Common.{
  ℕ, ◌+◌, ◌-◌, ◌*◌, ◌/◌, Bool, true, false, ◌&&◌, ◌||◌, Option, none, some, List, [], ◌∷◌, Result,
  ok, err, thrown, ltb, ◌==◌, if◌then◌else◌,
}
use playkaboom.Sdk.Buffer.{Bytes, bytes_eq}

abbrev pub e15 : ℕ
e15 = 1000000000000000

-- `hourKey`: the text up to the hour names the hour, which is counted from the epoch here.
unfoldable pub hour_of : (ms : ℕ) → ℕ
hour_of ms = ms / 3600000

-- What is accrued, and the whole points that this newly crosses
unfoldable pub accrue : (prev_e15 value_lamports rate_micro : ℕ) → ℕ × ℕ
accrue prev_e15 value_lamports rate_micro =
    let accrued_e15 = prev_e15 + value_lamports * rate_micro in
    (accrued_e15, accrued_e15 / e15 - prev_e15 / e15)

-- A row of `lp_points_accrual`, and one of `points_ledger` of the source "lp_hourly", by its key
pub record Accrual : Type 0 where
  pub owner : Bytes
  pub accrued_e15 : ℕ
  pub last_hour : Option ℕ

pub record Credit : Type 0 where
  pub player : Bytes
  pub hour : ℕ
  pub points : ℕ

pub record Books : Type 0 where
  pub accruals : List Accrual
  pub ledger : List Credit

-- `insert into lp_points_accrual ... on conflict (owner) do nothing`
unfoldable pub ensure_row : List Accrual → Bytes → List Accrual
ensure_row [] owner = record { owner = owner; accrued_e15 = 0; last_hour = none } ∷ []
ensure_row (r ∷ rs) owner =
    let rest = ensure_row rs owner in if bytes_eq r.owner owner then r ∷ rs else r ∷ rest

-- `last_hour is null or last_hour < hour`
unfoldable pub is_due : Option ℕ → ℕ → Bool
is_due none hour = true
is_due (some last) hour = ltb last hour

-- `select accrued_e15 ... where owner = $1 and (last_hour is null or last_hour < $2)`
unfoldable pub due_accrual : List Accrual → Bytes → ℕ → Option ℕ
unfolding is_due
due_accrual [] owner hour = none
due_accrual (r ∷ rs) owner hour =
    if bytes_eq r.owner owner
    then (if is_due r.last_hour hour then some r.accrued_e15 else none)
    else due_accrual rs owner hour

-- `update lp_points_accrual set ... where owner = $1`
unfoldable pub update_row : List Accrual → Bytes → (accrued_e15 hour : ℕ) → List Accrual
update_row [] owner accrued_e15 hour = []
update_row (r ∷ rs) owner accrued_e15 hour =
    let rest = update_row rs owner accrued_e15 hour in
    if bytes_eq r.owner owner
    then record { owner = r.owner; accrued_e15 = accrued_e15; last_hour = some hour } ∷ rs
    else r ∷ rest

unfoldable pub is_credited : List Credit → Bytes → ℕ → Bool
is_credited [] owner hour = false
is_credited (c ∷ cs) owner hour =
    (bytes_eq c.player owner && c.hour == hour) || is_credited cs owner hour

-- `insert into points_ledger ... on conflict (source_key, source) do nothing`
unfoldable pub add_credit : List Credit → Credit → List Credit
unfolding is_credited
add_credit ledger c = if is_credited ledger c.player c.hour then ledger else c ∷ ledger

-- The transaction's writes, where it is committed, and `award`
unfoldable pub credit_row :
    (owner : Bytes) (value_lamports rate_micro hour : ℕ) → Books → Option ℕ → Books × Option ℕ
unfolding accrue update_row add_credit
credit_row owner value_lamports rate_micro hour books none = (books, none)
credit_row owner value_lamports rate_micro hour books (some prev) =
    let next = accrue prev value_lamports rate_micro in
    (
      record {
        accruals = update_row books.accruals owner next.0 hour;
        ledger =
            if ltb 0 next.1
            then add_credit books.ledger (record { player = owner; hour = hour; points = next.1 })
            else books.ledger;
      },
      some next.1,
    )

unfoldable pub committed :
    (owner : Bytes) (value_lamports rate_micro hour : ℕ) → Books → Books × Option ℕ
unfolding credit_row ensure_row due_accrual
committed owner value_lamports rate_micro hour books =
    let rows = ensure_row books.accruals owner in
    credit_row owner value_lamports rate_micro hour
      (record { accruals = rows; ledger = books.ledger }) (due_accrual rows owner hour)

-- How the transaction goes: it is committed, or a query fails and nothing of it stays, or it is
-- committed and the answer to the commit is lost.
pub data DbRun : Type 0 where
  goes_through rolled_back commit_lost : DbRun

-- `creditLpHour`
unfoldable pub credit_lp_hour :
    DbRun → (owner : Bytes) (value_lamports rate_micro hour : ℕ) → Books → Books × Result (Option ℕ)
unfolding committed
credit_lp_hour goes_through owner value_lamports rate_micro hour books =
    let (books', award) = committed owner value_lamports rate_micro hour books in (books', ok award)
credit_lp_hour rolled_back owner value_lamports rate_micro hour books =
    (books, err (thrown "rolled back"))
credit_lp_hour commit_lost owner value_lamports rate_micro hour books =
    let (books', award) = committed owner value_lamports rate_micro hour books in
    (books', err (thrown "connection lost"))
