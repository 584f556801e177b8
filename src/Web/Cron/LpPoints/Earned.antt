-- ===== src/Web/Cron/LpPoints/Earned.antt =====
-- What an owner is paid of what the calls of creditLpHour add up to.
use playkaboom.Common.{
  ℕ, ◌+◌, ◌*◌, ◌/◌, ◌≡◌, refl, ap, ◌∙◌, arith, Bool, true, false, ◌&&◌, Option, none, some, List,
  [], ◌∷◌, if◌then◌else◌,
}
use playkaboom.Sdk.Buffer.{Bytes, bytes_eq}
use playkaboom.Web.Cron.LpPoints.Ledger.{
  e15, Books, is_due, DbRun, goes_through, rolled_back, commit_lost, credit_lp_hour,
}
use playkaboom.Web.Cron.LpPoints.{no_books}
use playkaboom.Web.Cron.LpPoints.Exact.{
  state_of, points_of, counted, state_of-committed, AllExact, credit_lp_hour-AllExact,
  no_books-AllExact,
}

-- A call of `creditLpHour`, by any process
pub record Attempt : Type 0 where
  pub db : DbRun
  pub owner : Bytes
  pub value_lamports : ℕ
  pub rate_micro : ℕ
  pub hour : ℕ

unfoldable pub credits : List Attempt → Books → Books
credits [] books = books
credits (a ∷ rest) books =
    credits rest (credit_lp_hour a.db a.owner a.value_lamports a.rate_micro a.hour books).0

unfoldable pub is_committed : DbRun → Bool
is_committed goes_through = true
is_committed rolled_back = false
is_committed commit_lost = true

-- What an owner earned: of the calls that were committed, those of an hour later than all before
unfoldable pub earned : (owner : Bytes) → Option ℕ → List Attempt → ℕ
earned owner last [] = 0
earned owner last (a ∷ rest) =
    let counts = is_committed a.db && bytes_eq a.owner owner && is_due last a.hour in
    let later = earned owner (some a.hour) rest in
    let same = earned owner last rest in
    if counts then a.value_lamports * a.rate_micro + later else same

state_of-credit :
    (a : Attempt) (books : Books) (o : Bytes)
    → state_of (credit_lp_hour a.db a.owner a.value_lamports a.rate_micro a.hour books).0.accruals o
      ≡ counted
          (is_committed a.db && bytes_eq a.owner o)
          (a.value_lamports * a.rate_micro)
          a.hour
          (state_of books.accruals o)
unfolding credit_lp_hour is_committed counted
state_of-credit a books o = state_of-run a.db
  where
    state_of-run :
        (db : DbRun)
        → state_of
            (credit_lp_hour db a.owner a.value_lamports a.rate_micro a.hour books).0.accruals
            o
          ≡ counted
              (is_committed db && bytes_eq a.owner o)
              (a.value_lamports * a.rate_micro)
              a.hour
              (state_of books.accruals o)
    state_of-run goes_through =
        state_of-committed a.owner a.value_lamports a.rate_micro a.hour books o
    state_of-run rolled_back = refl
    state_of-run commit_lost =
        state_of-committed a.owner a.value_lamports a.rate_micro a.hour books o

credits-earned :
    (attempts : List Attempt) (books : Books) (o : Bytes)
    → (state_of (credits attempts books).accruals o).1
      ≡ (state_of books.accruals o).1 + earned o (state_of books.accruals o).0 attempts
unfolding credits earned counted
credits-earned [] books o = omega arith
credits-earned (a ∷ rest) books o =
    let next = (credit_lp_hour a.db a.owner a.value_lamports a.rate_micro a.hour books).0 in
    ground (arith, credits-earned rest next o, state_of-credit a books o)

credits-AllExact :
    (attempts : List Attempt) (books : Books) → AllExact books → AllExact (credits attempts books)
unfolding credits
credits-AllExact [] books v = v
credits-AllExact (a ∷ rest) books v =
    credits-AllExact rest (credit_lp_hour a.db a.owner a.value_lamports a.rate_micro a.hour books).0
      (credit_lp_hour-AllExact a.db a.owner a.value_lamports a.rate_micro a.hour books v)

-- After any calls of `creditLpHour`, by any processes in any order and however their transactions
-- fail, an owner's points are the whole points of what the owner earned: nothing is lost by
-- rounding, and of the calls for an hour only the first that is committed counts.
pub credits_lem :
    (attempts : List Attempt) (owner : Bytes)
    → points_of (credits attempts no_books).ledger owner ≡ earned owner none attempts / e15
unfolding state_of
credits_lem attempts owner =
    (credits-AllExact attempts no_books no_books-AllExact owner).paid
    ∙ ap (λ n. n / e15) (omega (arith, credits-earned attempts no_books owner))
