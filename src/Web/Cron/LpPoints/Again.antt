-- ===== src/Web/Cron/LpPoints/Again.antt =====
-- A second run of an hour that was credited changes nothing.
use playkaboom.Common.{
  ℕ, ◌≡◌, refl, ap, arith, false, inl, inr, Option, none, some, List, [], ◌∷◌, map, Result, ok, err,
  Bool-cases, All, Listed,
}
use playkaboom.Sdk.Buffer.{Bytes}
use playkaboom.Web.Cron.LpPoints.Ledger.{hour_of, Books, DbRun}
use playkaboom.Web.Cron.LpPoints.{
  Report, credit_all, LpSnapshot, credited_positions, with_db, Tick, Hourly, is_done, finish_hour,
  credit_snapshot, read_and_credit, rate_and_credit, run_lp_points_hourly, nothing_credited,
}
use playkaboom.Web.Cron.LpPoints.Stamps.{Stamped, credit_all-stamps, credit_all-same}

abbrev pub owners : List (Bytes × ℕ) → List Bytes
owners ps = map (λ p. p.0) ps

module _ {K : Type 0} (to_base58 : K → Bytes) where
  Stamped-owners :
      (hour : ℕ) (books : Books) (db : Bytes → DbRun) (ps : List (Bytes × ℕ)) (o : Bytes)
      → All (λ (p : Bytes × ℕ × DbRun). Stamped hour books p.0) (with_db db ps)
      → Listed o (owners ps)
      → Stamped hour books o
  unfolding with_db
  Stamped-owners hour books db [] o h listed = absurd listed
  Stamped-owners hour books db ((q, value) ∷ ps) o (h, hs) (inl e) = rw e h
  Stamped-owners hour books db ((q, value) ∷ ps) o (h, hs) (inr later) =
      Stamped-owners hour books db ps o hs later

  Stamped-with_db :
      (hour : ℕ) (books : Books) (db again : Bytes → DbRun) (ps qs : List (Bytes × ℕ))
      → All (λ (p : Bytes × ℕ × DbRun). Stamped hour books p.0) (with_db db ps)
      → All (λ (p : Bytes × ℕ). Listed p.0 (owners ps)) qs
      → All (λ (p : Bytes × ℕ × DbRun). Stamped hour books p.0) (with_db again qs)
  unfolding with_db
  Stamped-with_db hour books db again ps [] h covered = tt
  Stamped-with_db hour books db again ps ((q, value) ∷ qs) h (listed, covered) = (
    Stamped-owners hour books db ps q h listed,
    Stamped-with_db hour books db again ps qs h covered,
  )

  -- The second run reads no position of another owner.
  abbrev pub Covers : LpSnapshot K → Result (Option (LpSnapshot K)) → Type 0
  Covers snap read =
      (later : LpSnapshot K)
      → read ≡ ok (some later)
      → All (λ (p : Bytes × ℕ). Listed p.0 (owners (credited_positions to_base58 snap)))
          (credited_positions to_base58 later)

  read_and_credit-same :
      (tick : Tick K) (snap : LpSnapshot K) (hour rate : ℕ) (st : Hourly) (db : Bytes → DbRun)
      (read : Result (Option (LpSnapshot K)))
      → All
          (λ (p : Bytes × ℕ × DbRun). Stamped hour st.books p.0)
          (with_db db (credited_positions to_base58 snap))
      → Covers snap read
      → (read_and_credit to_base58 tick hour rate st read).0.books ≡ st.books
  unfolding read_and_credit credit_snapshot finish_hour
  read_and_credit-same tick snap hour rate st db (err e) h covers = refl
  read_and_credit-same tick snap hour rate st db (ok none) h covers = refl
  read_and_credit-same tick snap hour rate st db (ok (some later)) h covers =
      credit_all-same rate hour (with_db tick.db (credited_positions to_base58 later)) st.books
        nothing_credited
        (Stamped-with_db hour st.books db tick.db (credited_positions to_base58 snap)
          (credited_positions to_base58 later) h (covers later refl))

  rate_and_credit-same :
      (tick : Tick K) (snap : LpSnapshot K) (hour : ℕ) (st : Hourly) (db : Bytes → DbRun)
      (rate : Result ℕ)
      → All
          (λ (p : Bytes × ℕ × DbRun). Stamped hour st.books p.0)
          (with_db db (credited_positions to_base58 snap))
      → Covers snap tick.read
      → (rate_and_credit to_base58 tick hour st rate).0.books ≡ st.books
  unfolding rate_and_credit
  rate_and_credit-same tick snap hour st db (err e) h covers = refl
  rate_and_credit-same tick snap hour st db (ok rate) h covers =
      read_and_credit-same tick snap hour rate st db tick.read h covers

  run_lp_points_hourly-same :
      (tick : Tick K) (snap : LpSnapshot K) (st : Hourly) (db : Bytes → DbRun)
      → All
          (λ (p : Bytes × ℕ × DbRun). Stamped (hour_of tick.now) st.books p.0)
          (with_db db (credited_positions to_base58 snap))
      → Covers snap tick.read
      → (run_lp_points_hourly to_base58 tick st).0.books ≡ st.books
  unfolding run_lp_points_hourly
  run_lp_points_hourly-same tick snap st db h covers =
      elim (Bool-cases (is_done st.done_hour (hour_of tick.now))) [
        | inl done ↦ rw done refl
        | inr new ↦
            rw new
              (rate_and_credit-same tick snap (hour_of tick.now) st db tick.rate_micro h covers)
      ]

  first_run :
      (tick : Tick K) (st : Hourly) (snap : LpSnapshot K) (rate : ℕ)
      → is_done st.done_hour (hour_of tick.now) ≡ false
      → tick.rate_micro ≡ ok rate
      → tick.read ≡ ok (some snap)
      → run_lp_points_hourly to_base58 tick st
        ≡ finish_hour (hour_of tick.now) st.done_hour (
            credit_all rate
              (hour_of tick.now)
              (with_db tick.db (credited_positions to_base58 snap))
              (st.books, nothing_credited))
  unfolding run_lp_points_hourly rate_and_credit read_and_credit credit_snapshot
  first_run tick st snap rate new paid read = rw (new, paid, rate_and_credit, read) refl

  -- Where a run of an hour credited its positions without an error, another run of that hour, by
  -- the same process or by one that remembers any other hour, leaves the books as they are,
  -- whatever its rate and values, so far as it reads positions of the same owners: a withdrawal
  -- that was pending in the first run and is cancelled earns nothing in the second.
  pub run_lp_points_hourly_twice :
      (tick again : Tick K) (st : Hourly) (snap : LpSnapshot K) (rate : ℕ) (report : Report)
      (remembered : Option ℕ)
      → is_done st.done_hour (hour_of tick.now) ≡ false
      → tick.rate_micro ≡ ok rate
      → tick.read ≡ ok (some snap)
      → (run_lp_points_hourly to_base58 tick st).1 ≡ ok report
      → report.errors ≡ []
      → hour_of again.now ≡ hour_of tick.now
      → Covers snap again.read
      → (run_lp_points_hourly to_base58 again (record {
        done_hour = remembered;
        books = (run_lp_points_hourly to_base58 tick st).0.books;
      })).0.books
        ≡ (run_lp_points_hourly to_base58 tick st).0.books
  unfolding finish_hour
  run_lp_points_hourly_twice tick again st snap rate report remembered new paid read ran clean same
        covers =
      let hour = hour_of tick.now in
      let ps = with_db tick.db (credited_positions to_base58 snap) in
      let result = credit_all rate hour ps (st.books, nothing_credited) in
      let first = first_run tick st snap rate new paid read in
      let reported : result.1 ≡ report = ground (arith, ap (λ r. r.1) first, ran) in
      let stamped =
        credit_all-stamps rate hour ps (st.books, nothing_credited)
          (rw (reported, clean) (omega arith)) in
      rw first (
        run_lp_points_hourly-same again snap (record { done_hour = remembered; books = result.0 })
          tick.db (rw same stamped) covers)
