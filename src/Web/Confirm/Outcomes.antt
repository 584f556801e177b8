-- ===== src/Web/Confirm/Outcomes.antt =====
-- The loop of confirmByPolling ends, and what its end says of the node's answers.
use playkaboom.Common.{
  Either-cases, ℕ, ◌+◌, ◌*◌, ◌≤◌, ◌<◌, ◌≡◌, refl, ap, ◌∙◌, ltb→lt, Listed, arith, true, false,
  Option, none, some, List, [], ◌∷◌, ◌⊎◌, inl, inr, Result, ok, err, ltb, leb, length, Bool-cases,
}
use mathlib.Core.Path.{subst}
use playkaboom.Web.Confirm.{
  Status, Round, Outcome, returned, transaction_failed, blockhash_expired, timed_out, Poll, is_seen,
  is_final, read_status, poll_status, read_last, read_height, poll_height, poll_round, poll,
  nothing_polled, confirm_by_polling,
}

-- From the second round on the loop waits 100 ms between rounds.
abbrev pub Paced : (earliest : ℕ) → List Round → Type 0
Paced earliest [] = Unit
Paced earliest (r ∷ rs) = (earliest ≤ r.now) × Paced (r.now + 100) rs

poll_round-late :
    (start timeout_ms last_valid : ℕ) (r : Round) (p : Poll)
    → start + timeout_ms < r.now
    → poll_round start timeout_ms last_valid r p ≡ inr timed_out
unfolding poll_round
poll_round-late start timeout_ms last_valid r p late = ground arith

module _ (start timeout_ms last_valid : ℕ) where
  abbrev Ends : List Round → Poll → Type 0
  Ends rs p = (outcome : Outcome) × (poll start timeout_ms last_valid rs p ≡ some outcome)

  poll_step : (r : Round) (rs : List Round) (p : Poll) → ((q : Poll) → Ends rs q) → Ends (r ∷ rs) p
  unfolding poll
  poll_step r rs p rest = elim (Either-cases (poll_round start timeout_ms last_valid r p)) [
    | inr (outcome, e) ↦ (outcome, rw (e, poll) refl)
    | inl (q, e) ↦ ((rest q).0, rw (e, poll) (rest q).1)
  ]

  poll-Ends :
      (earliest : ℕ) (r : Round) (rs : List Round) (p : Poll)
      → Paced earliest (r ∷ rs)
      → start + timeout_ms < earliest + 100 * length rs
      → Ends (r ∷ rs) p
  unfolding poll
  poll-Ends earliest r [] p (first, pace) enough =
      (timed_out, rw (poll_round-late start timeout_ms last_valid r p (omega arith), poll) refl)
  poll-Ends earliest r (q ∷ rs) p (first, pace) enough =
      poll_step r (q ∷ rs) p (λ p'. poll-Ends (r.now + 100) q rs p' pace (omega arith))

-- While the loop waits as it does and the clock does not go back, it ends within the rounds that fit
-- into its timeout at ten a second, and three more.
pub confirm_by_polling_ends :
    (start timeout_ms last_valid : ℕ) (first : Round) (rounds : List Round)
    → start ≤ first.now
    → Paced first.now rounds
    → timeout_ms + 100 < 100 * length rounds
    → (outcome : Outcome) × (confirm_by_polling start timeout_ms last_valid (first ∷ rounds)
        ≡ some outcome)
unfolding confirm_by_polling
confirm_by_polling_ends start timeout_ms last_valid first [] later pace enough =
    absurd (omega arith)
confirm_by_polling_ends start timeout_ms last_valid first (r ∷ rs) later pace enough =
    poll_step start timeout_ms last_valid first (r ∷ rs) nothing_polled
      (λ q. poll-Ends start timeout_ms last_valid first.now r rs q pace (omega arith))

-- The answer of the node, or the clock, that an end of the loop is due to
abbrev pub DueTo : (start timeout_ms last_valid : ℕ) → Outcome → Round → Type 0
DueTo start timeout_ms last_valid returned r =
    ((s : Status) × (r.statuses ≡ ok (some s))
      × (s.failed ≡ false)
      × (is_seen s.confirmation ≡ true))
    ⊎ ((s : Status) × (h : ℕ) × (r.height ≡ ok h)
        × (last_valid < h)
        × (r.last_statuses ≡ ok (some s))
        × (is_final s.confirmation ≡ true))
DueTo start timeout_ms last_valid transaction_failed r =
    (s : Status) × (r.statuses ≡ ok (some s)) × (s.failed ≡ true)
DueTo start timeout_ms last_valid blockhash_expired r =
    (h : ℕ) × (r.height ≡ ok h) × (last_valid < h)
DueTo start timeout_ms last_valid timed_out r = start + timeout_ms < r.now

module _ (start timeout_ms last_valid : ℕ) (r : Round) where
  read_status-DueTo :
      (p : Poll) (a : Result (Option Status)) (outcome : Outcome)
      → r.statuses ≡ a
      → read_status r p a ≡ inr outcome
      → DueTo start timeout_ms last_valid outcome r
  unfolding read_status
  read_status-DueTo p (err e) outcome told h = cc
  read_status-DueTo p (ok none) outcome told h = cc
  read_status-DueTo p (ok (some s)) returned told h = inl (s, told, ground arith, ground arith)
  read_status-DueTo p (ok (some s)) transaction_failed told h = (s, told, ground arith)
  read_status-DueTo p (ok (some s)) blockhash_expired told h = absurd (ground arith)
  read_status-DueTo p (ok (some s)) timed_out told h = absurd (ground arith)

  read_last-DueTo :
      (p : Poll) (height : ℕ) (a : Result (Option Status)) (outcome : Outcome)
      → r.height ≡ ok height
      → last_valid < height
      → r.last_statuses ≡ a
      → read_last r p a ≡ inr outcome
      → DueTo start timeout_ms last_valid outcome r
  unfolding read_last
  read_last-DueTo p height (err e) outcome high late told h = cc
  read_last-DueTo p height (ok none) returned high late told h = cc
  read_last-DueTo p height (ok (some s)) returned high late told h =
      inr (s, height, high, late, told, ground arith)
  read_last-DueTo p height a blockhash_expired high late told h = (height, high, late)
  read_last-DueTo p height (ok none) transaction_failed high late told h = cc
  read_last-DueTo p height (ok none) timed_out high late told h = cc
  read_last-DueTo p height (ok (some s)) transaction_failed high late told h = absurd (ground arith)
  read_last-DueTo p height (ok (some s)) timed_out high late told h = absurd (ground arith)

  read_height-DueTo :
      (p : Poll) (a : Result ℕ) (outcome : Outcome)
      → r.height ≡ a
      → read_height last_valid r p a ≡ inr outcome
      → DueTo start timeout_ms last_valid outcome r
  unfolding read_height
  read_height-DueTo p (err e) outcome high h = cc
  read_height-DueTo p (ok height) outcome high h = elim (Bool-cases (ltb last_valid height)) [
    | inl late ↦
        read_last-DueTo p height r.last_statuses outcome high (ground arith) refl
          (rw (late, read_height) at h)
    | inr early ↦ absurd (ground arith)
  ]

  poll_height-DueTo :
      (p : Poll) (outcome : Outcome)
      → poll_height last_valid r p ≡ inr outcome
      → DueTo start timeout_ms last_valid outcome r
  unfolding poll_height
  poll_height-DueTo p outcome h = elim (Bool-cases (leb p.next_height_at r.now)) [
    | inl due ↦ read_height-DueTo p r.height outcome refl (rw (due, poll_height) at h)
    | inr not_due ↦ absurd (ground arith)
  ]

  poll_status-DueTo :
      (p : Poll) (outcome : Outcome)
      → poll_status r p ≡ inr outcome
      → DueTo start timeout_ms last_valid outcome r
  unfolding poll_status
  poll_status-DueTo p outcome h = elim (Bool-cases (leb p.next_status_at r.now)) [
    | inl due ↦ read_status-DueTo p r.statuses outcome refl (rw (due, poll_status) at h)
    | inr not_due ↦ absurd (ground arith)
  ]

  poll_round-DueTo :
      (p : Poll) (outcome : Outcome)
      → poll_round start timeout_ms last_valid r p ≡ inr outcome
      → DueTo start timeout_ms last_valid outcome r
  unfolding poll_round
  poll_round-DueTo p outcome h = elim (Bool-cases (ltb (start + timeout_ms) r.now)) [
    | inl late ↦
        let is_late : timed_out ≡ outcome = ground arith in
        subst (λ o. DueTo start timeout_ms last_valid o r) is_late (ltb→lt _ _ late)
    | inr early ↦ elim (Either-cases (poll_status r p)) [
      | inr (other, e) ↦
          let same : other ≡ outcome = ground arith in
          subst (λ o. DueTo start timeout_ms last_valid o r) same (poll_status-DueTo p other e)
      | inl (q, e) ↦ poll_height-DueTo q outcome (ground arith)
    ]
  ]

poll-DueTo :
    (start timeout_ms last_valid : ℕ) (rounds : List Round) (p : Poll) (outcome : Outcome)
    → poll start timeout_ms last_valid rounds p ≡ some outcome
    → (r : Round) × Listed r rounds × DueTo start timeout_ms last_valid outcome r
unfolding poll
poll-DueTo start timeout_ms last_valid [] p outcome h = cc
poll-DueTo start timeout_ms last_valid (r ∷ rs) p outcome h =
    elim (Either-cases (poll_round start timeout_ms last_valid r p)) [
      | inr (other, e) ↦
          let same : other ≡ outcome = ground arith in
          (
            r,
            inl refl,
            poll_round-DueTo start timeout_ms last_valid r p outcome (e ∙ ap (λ o. inr o) same),
          )
      | inl (q, e) ↦
          let rest = poll-DueTo start timeout_ms last_valid rs q outcome (ground arith) in
          (rest.0, inr rest.1, rest.2)
    ]

-- However the loop ends, one of its rounds is the reason: a status that is no failure and was at
-- least processed, or a final one after the blockhash expired; a status that is a failure; a block
-- height past the last valid one; or a clock past the timeout.
pub confirm_by_polling-DueTo :
    (start timeout_ms last_valid : ℕ) (rounds : List Round) (outcome : Outcome)
    → confirm_by_polling start timeout_ms last_valid rounds ≡ some outcome
    → (r : Round) × Listed r rounds × DueTo start timeout_ms last_valid outcome r
unfolding confirm_by_polling
confirm_by_polling-DueTo start timeout_ms last_valid rounds outcome h =
    poll-DueTo start timeout_ms last_valid rounds nothing_polled outcome h
