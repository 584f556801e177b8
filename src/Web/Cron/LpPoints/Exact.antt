-- ===== src/Web/Cron/LpPoints/Exact.antt =====
-- The points in the ledger are exactly the whole points of what was accrued.
use playkaboom.Common.{
  ℕ, ◌+◌, ◌-◌, ◌*◌, ◌/◌, ◌≡◌, refl, arith, Bool, true, false, ◌&&◌, inl, inr, Option, none, some,
  List, [], ◌∷◌, ltb, if◌then◌else◌, All, Bool-cases,
}
use playkaboom.Common.Arith.{div_mono}
use playkaboom.Sdk.Buffer.{Bytes, bytes_eq}
use playkaboom.Sdk.Buffer.Laws.{bytes_eq_iff, bytes_eq_refl}
use playkaboom.Web.Cron.LpPoints.Ledger.{
  e15, accrue, Accrual, Credit, Books, ensure_row, is_due, due_accrual, update_row, is_credited,
  add_credit, credit_row, committed, DbRun, goes_through, rolled_back, commit_lost, credit_lp_hour,
}
use playkaboom.Web.Cron.LpPoints.{no_books}

-- The last hour and the accrual of an owner's row, and those of a new row where there is none
unfoldable pub state_of : List Accrual → Bytes → Option ℕ × ℕ
state_of [] owner = (none, 0)
state_of (r ∷ rs) owner =
    if bytes_eq r.owner owner then (r.last_hour, r.accrued_e15) else state_of rs owner

unfoldable pub points_of : List Credit → Bytes → ℕ
points_of [] owner = 0
points_of (c ∷ cs) owner =
    if bytes_eq c.player owner then c.points + points_of cs owner else points_of cs owner

state_of-ensure_row :
    (rows : List Accrual) (q o : Bytes) → state_of (ensure_row rows q) o ≡ state_of rows o
unfolding state_of ensure_row
state_of-ensure_row [] q o = ground arith
state_of-ensure_row (r ∷ rs) q o = ground (arith, state_of-ensure_row rs q o)

due_accrual-ensure_row :
    (rows : List Accrual) (q : Bytes) (hour : ℕ)
    → due_accrual (ensure_row rows q) q hour
      ≡ (if is_due (state_of rows q).0 hour then some (state_of rows q).1 else none)
unfolding due_accrual ensure_row state_of is_due
due_accrual-ensure_row [] q hour = rw (bytes_eq_refl q) refl
due_accrual-ensure_row (r ∷ rs) q hour = ground (arith, due_accrual-ensure_row rs q hour)

state_of-update_row :
    (rows : List Accrual) (q o : Bytes) (acc hour : ℕ)
    → state_of (update_row (ensure_row rows q) q acc hour) o
      ≡ (if bytes_eq q o then (some hour, acc) else state_of rows o)
unfolding update_row ensure_row state_of
state_of-update_row [] q o acc hour = rw (bytes_eq_refl q) refl
state_of-update_row (r ∷ rs) q o acc hour = ground (
  arith,
  bytes_eq_iff q o,
  bytes_eq_iff r.owner q,
  bytes_eq_iff r.owner o,
  state_of-update_row rs q o acc hour,
)

-- No entry of an owner is of an hour that is still due.
abbrev pub PaidUpTo : (owner : Bytes) → Option ℕ → List Credit → Type 0
PaidUpTo owner last = All (λ c. c.player ≡ owner → is_due last c.hour ≡ false)

is_credited-PaidUpTo :
    (ledger : List Credit) (owner : Bytes) (last : Option ℕ) (hour : ℕ)
    → PaidUpTo owner last ledger
    → is_due last hour ≡ true
    → is_credited ledger owner hour ≡ false
unfolding is_credited
is_credited-PaidUpTo [] owner last hour h due = refl
is_credited-PaidUpTo (c ∷ cs) owner last hour (h, hs) due =
    ground (arith, is_credited-PaidUpTo cs owner last hour hs due, bytes_eq_iff c.player owner)

-- Paying an hour later on keeps what was paid.
PaidUpTo-later :
    (ledger : List Credit) (owner : Bytes) (last : Option ℕ) (hour : ℕ)
    → PaidUpTo owner last ledger
    → is_due last hour ≡ true
    → PaidUpTo owner (some hour) ledger
unfolding is_due
PaidUpTo-later [] owner last hour h due = tt
PaidUpTo-later (c ∷ cs) owner none hour (h, hs) due =
    (λ e. absurd (ground (arith, h e)), PaidUpTo-later cs owner none hour hs due)
PaidUpTo-later (c ∷ cs) owner (some last) hour (h, hs) due =
    (λ e. ground (arith, h e), PaidUpTo-later cs owner (some last) hour hs due)

-- The books pay an owner the whole points of the accrual, and no hour twice.
pub record IsExact (owner : Bytes) (books : Books) : Type 0 where
  pub paid : points_of books.ledger owner ≡ (state_of books.accruals owner).1 / e15
  pub up_to : PaidUpTo owner (state_of books.accruals owner).0 books.ledger

-- What a committed credit makes of an owner's row
unfoldable pub counted : (is_own : Bool) (amount hour : ℕ) → Option ℕ × ℕ → Option ℕ × ℕ
unfolding is_due
counted is_own amount hour (last, acc) =
    if is_own && is_due last hour then (some hour, acc + amount) else (last, acc)

module _ (q : Bytes) (value rate hour : ℕ) (books : Books) where
  pub committed-late :
      is_due (state_of books.accruals q).0 hour ≡ false
      → (committed q value rate hour books).0
        ≡ record { accruals = ensure_row books.accruals q; ledger = books.ledger }
  unfolding committed credit_row
  committed-late late = rw (due_accrual-ensure_row books.accruals q hour, late) refl

  abbrev award : ℕ
  award = ((state_of books.accruals q).1 + value * rate) / e15 - (state_of books.accruals q).1 / e15

  committed-due :
      is_due (state_of books.accruals q).0 hour ≡ true
      → (committed q value rate hour books).0 ≡ record {
        accruals =
            update_row
              (ensure_row books.accruals q)
              q
              ((state_of books.accruals q).1 + value * rate)
              hour;
        ledger =
            if ltb 0 award
            then add_credit books.ledger (record { player = q; hour = hour; points = award })
            else books.ledger;
      }
  unfolding committed credit_row accrue
  committed-due due = rw (due_accrual-ensure_row books.accruals q hour, due) refl

  pub state_of-committed :
      (o : Bytes)
      → state_of (committed q value rate hour books).0.accruals o
        ≡ counted (bytes_eq q o) (value * rate) hour (state_of books.accruals o)
  unfolding counted
  state_of-committed o = elim (Bool-cases (is_due (state_of books.accruals q).0 hour)) [
    | inl due ↦
        rw
          (
            committed-due due,
            state_of-update_row books.accruals q o ((state_of books.accruals q).1 + value * rate)
                hour,
          )
          (ground (arith, due, bytes_eq_iff q o))
    | inr late ↦
        rw (committed-late late, state_of-ensure_row books.accruals q o)
          (ground (arith, late, bytes_eq_iff q o))
  ]

  points_of-add_credit :
      (o : Bytes) (points : ℕ)
      → is_credited books.ledger q hour ≡ false
      → points_of (add_credit books.ledger (record { player = q; hour = hour; points = points })) o
        ≡ (if bytes_eq q o then points else 0) + points_of books.ledger o
  unfolding add_credit points_of
  points_of-add_credit o points new = rw new (ground arith)

  abbrev paid_ledger : List Credit
  paid_ledger =
      if ltb 0 award
      then add_credit books.ledger (record { player = q; hour = hour; points = award })
      else books.ledger

  points_of-paid_ledger :
      (o : Bytes)
      → is_credited books.ledger q hour ≡ false
      → points_of paid_ledger o ≡ (if bytes_eq q o then award else 0) + points_of books.ledger o
  points_of-paid_ledger o new = elim (Bool-cases (ltb 0 award)) [
    | inl some_points ↦ rw some_points (points_of-add_credit o award new)
    | inr no_points ↦
        let zero_points : award ≡ 0 = ground arith in rw no_points (ground (arith, zero_points))
  ]

  PaidUpTo-paid_ledger :
      (o : Bytes) (last : Option ℕ)
      → is_credited books.ledger q hour ≡ false
      → (q ≡ o → is_due last hour ≡ false)
      → PaidUpTo o last books.ledger
      → PaidUpTo o last paid_ledger
  unfolding add_credit
  PaidUpTo-paid_ledger o last new own h = elim (Bool-cases (ltb 0 award)) [
    | inl some_points ↦ rw (some_points, new) (own, h)
    | inr no_points ↦ rw no_points h
  ]

  -- The books after a credit are exact for each owner that they were exact for.
  pub committed-IsExact :
      (o : Bytes)
      → ((p : Bytes) → IsExact p books)
      → IsExact o (committed q value rate hour books).0
  unfolding is_due
  committed-IsExact o v = elim (Bool-cases (is_due (state_of books.accruals q).0 hour)) [
    | inr late ↦ rw (committed-late late) (record {
      paid = rw (state_of-ensure_row books.accruals q o) (v o).paid;
      up_to = rw (state_of-ensure_row books.accruals q o) (v o).up_to;
    })
    | inl due ↦
        let next = (state_of books.accruals q).1 + value * rate in
        let new =
          is_credited-PaidUpTo books.ledger q (state_of books.accruals q).0 hour (v q).up_to due in
        let more = div_mono (state_of books.accruals q).1 next e15 (omega arith) in
        let row = state_of-update_row books.accruals q o next hour in
        rw (committed-due due) (elim (Bool-cases (bytes_eq q o)) [
          | inl own ↦ record {
            paid =
                let e = (bytes_eq_iff q o).0 own in
                let was : points_of books.ledger o ≡ (state_of books.accruals q).1 / e15 =
                  rw (← e) (v q).paid in
                rw (points_of-paid_ledger o new, row, own) (omega (arith, more, was));
            up_to =
                rw (row, own)
                  (PaidUpTo-paid_ledger o (some hour) new (λ e. ground arith)
                    (PaidUpTo-later books.ledger o (state_of books.accruals o).0 hour (v o).up_to
                      (rw (← (bytes_eq_iff q o).0 own) due)));
          }
          | inr other ↦ record {
            paid = rw (points_of-paid_ledger o new, row, other) (omega (arith, (v o).paid));
            up_to =
                rw (row, other)
                  (PaidUpTo-paid_ledger o (state_of books.accruals o).0 new
                    (λ e. absurd (ground (arith, bytes_eq_iff q o))) (v o).up_to);
          }
        ])
  ]

abbrev pub AllExact : Books → Type 0
AllExact books = (owner : Bytes) → IsExact owner books

pub credit_lp_hour-AllExact :
    (db : DbRun) (q : Bytes) (value rate hour : ℕ) (books : Books)
    → AllExact books
    → AllExact (credit_lp_hour db q value rate hour books).0
unfolding credit_lp_hour
credit_lp_hour-AllExact goes_through q value rate hour books v o =
    committed-IsExact q value rate hour books o v
credit_lp_hour-AllExact rolled_back q value rate hour books v o = v o
credit_lp_hour-AllExact commit_lost q value rate hour books v o =
    committed-IsExact q value rate hour books o v

pub no_books-AllExact : AllExact no_books
unfolding points_of state_of
no_books-AllExact o = record { paid = refl; up_to = tt }
