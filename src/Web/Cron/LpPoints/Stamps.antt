-- ===== src/Web/Cron/LpPoints/Stamps.antt =====
-- Where an hour is stamped for an owner, credits of that hour change nothing.
use playkaboom.Common.{
  ℕ, ◌≤◌, ◌≡◌, refl, ap, ◌∙◌, arith, false, Option, none, some, List, [], ◌∷◌, Result, ok, err,
  length, All, length-append,
}
use playkaboom.Sdk.Buffer.{Bytes}
use playkaboom.Sdk.Buffer.Laws.{bytes_eq_refl}
use playkaboom.Web.Cron.LpPoints.Ledger.{
  Accrual, Books, ensure_row, is_due, committed, DbRun, goes_through, rolled_back, commit_lost,
  credit_lp_hour,
}
use playkaboom.Web.Cron.LpPoints.{Report, note_award, credit_all}
use playkaboom.Web.Cron.LpPoints.Exact.{state_of, counted, committed-late, state_of-committed}

-- The hour, or a later one, is accrued for an owner.
abbrev pub Stamped : (hour : ℕ) → Books → (owner : Bytes) → Type 0
Stamped hour books owner = is_due (state_of books.accruals owner).0 hour ≡ false

ensure_row-due :
    (rows : List Accrual) (q : Bytes) (hour : ℕ)
    → is_due (state_of rows q).0 hour ≡ false
    → ensure_row rows q ≡ rows
unfolding ensure_row state_of is_due
ensure_row-due [] q hour h = cc
ensure_row-due (r ∷ rs) q hour h = ground (arith, ensure_row-due rs q hour)

module _ (rate hour : ℕ) where
  committed-Stamped :
      (q o : Bytes) (value : ℕ) (books : Books)
      → Stamped hour books o
      → Stamped hour (committed q value rate hour books).0 o
  unfolding counted is_due
  committed-Stamped q o value books h =
      rw (state_of-committed q value rate hour books o) (ground (arith, h))

  committed-stamps :
      (q : Bytes) (value : ℕ) (books : Books) → Stamped hour (committed q value rate hour books).0 q
  unfolding counted is_due
  committed-stamps q value books =
      rw (state_of-committed q value rate hour books q, bytes_eq_refl q) (ground arith)

  credit_lp_hour-Stamped :
      (db : DbRun) (q o : Bytes) (value : ℕ) (books : Books)
      → Stamped hour books o
      → Stamped hour (credit_lp_hour db q value rate hour books).0 o
  unfolding credit_lp_hour
  credit_lp_hour-Stamped goes_through q o value books h = committed-Stamped q o value books h
  credit_lp_hour-Stamped rolled_back q o value books h = h
  credit_lp_hour-Stamped commit_lost q o value books h = committed-Stamped q o value books h

  credit_lp_hour-same :
      (db : DbRun) (q : Bytes) (value : ℕ) (books : Books)
      → Stamped hour books q
      → (credit_lp_hour db q value rate hour books).0 ≡ books
  unfolding credit_lp_hour
  credit_lp_hour-same rolled_back q value books h = refl
  credit_lp_hour-same goes_through q value books h =
      committed-late q value rate hour books h
      ∙ ap (λ rows. let b : Books = record { accruals = rows; ledger = books.ledger } in b)
          (ensure_row-due books.accruals q hour h)
  credit_lp_hour-same commit_lost q value books h =
      committed-late q value rate hour books h
      ∙ ap (λ rows. let b : Books = record { accruals = rows; ledger = books.ledger } in b)
          (ensure_row-due books.accruals q hour h)

  note_award-le :
      (owner : Bytes) (value : ℕ) (award : Result (Option ℕ)) (report : Report)
      → length report.errors ≤ length (note_award owner value award report).errors
  unfolding note_award
  note_award-le owner value (err e) report = omega (arith, length-append report.errors (owner ∷ []))
  note_award-le owner value (ok none) report = omega arith
  note_award-le owner value (ok (some award)) report = ground arith

  credit_all-le :
      (ps : List (Bytes × ℕ × DbRun)) (st : Books × Report)
      → length st.1.errors ≤ length (credit_all rate hour ps st).1.errors
  unfolding credit_all
  credit_all-le [] st = omega arith
  credit_all-le ((q, value, db) ∷ ps) (books, report) =
      let r = credit_lp_hour db q value rate hour books in
      omega (
        arith,
        note_award-le q value r.1 report,
        credit_all-le ps (r.0, note_award q value r.1 report),
      )

  credit_all-Stamped :
      (ps : List (Bytes × ℕ × DbRun)) (st : Books × Report) (o : Bytes)
      → Stamped hour st.0 o
      → Stamped hour (credit_all rate hour ps st).0 o
  unfolding credit_all
  credit_all-Stamped [] st o h = h
  credit_all-Stamped ((q, value, db) ∷ ps) (books, report) o h =
      credit_all-Stamped ps _ o (credit_lp_hour-Stamped db q o value books h)

  -- Where no credit failed, each owner is stamped.
  credit_lp_hour-stamps :
      (db : DbRun) (q : Bytes) (value : ℕ) (st : Books × Report)
      → length (note_award q value (credit_lp_hour db q value rate hour st.0).1 st.1).errors
        ≤ length st.1.errors
      → Stamped hour (credit_lp_hour db q value rate hour st.0).0 q
  unfolding credit_lp_hour note_award
  credit_lp_hour-stamps goes_through q value (books, report) h = committed-stamps q value books
  credit_lp_hour-stamps rolled_back q value (books, report) h =
      absurd (omega (arith, h, length-append report.errors (q ∷ [])))
  credit_lp_hour-stamps commit_lost q value (books, report) h =
      absurd (omega (arith, h, length-append report.errors (q ∷ [])))

  pub credit_all-stamps :
      (ps : List (Bytes × ℕ × DbRun)) (st : Books × Report)
      → length (credit_all rate hour ps st).1.errors ≤ length st.1.errors
      → All (λ (p : Bytes × ℕ × DbRun). Stamped hour (credit_all rate hour ps st).0 p.0) ps
  unfolding credit_all
  credit_all-stamps [] st h = tt
  credit_all-stamps ((q, value, db) ∷ ps) (books, report) h =
      let r = credit_lp_hour db q value rate hour books in
      let next : Books × Report = (r.0, note_award q value r.1 report) in
      let kept = credit_all-le ps next in
      let noted = note_award-le q value r.1 report in
      (
        credit_all-Stamped ps next q
            (credit_lp_hour-stamps db q value (books, report) (omega (arith, h, kept))),
        credit_all-stamps ps next (omega (arith, h, noted)),
      )

  pub credit_all-same :
      (ps : List (Bytes × ℕ × DbRun)) (books : Books) (report : Report)
      → All (λ (p : Bytes × ℕ × DbRun). Stamped hour books p.0) ps
      → (credit_all rate hour ps (books, report)).0 ≡ books
  unfolding credit_all
  credit_all-same [] books report h = refl
  credit_all-same ((q, value, db) ∷ ps) books report (h, hs) =
      let r = credit_lp_hour db q value rate hour books in
      let report' = note_award q value r.1 report in
      ap (λ (b : Books). (credit_all rate hour ps (b, report')).0)
        (credit_lp_hour-same db q value books h)
      ∙ credit_all-same ps books report' hs
