-- ===== src/Web/Confirm.antt =====
-- apps/web/src/lib/confirm.ts: confirmByPolling, whose loop ends by its clock.
pub mod Outcomes
use playkaboom.Common.{
  ℕ, suc, ◌+◌, ◌*◌, ◌^◌, min, Bool, true, false, not, Option, none, some, List, [], ◌∷◌, ◌⊎◌, inl,
  inr, Result, ok, err, ltb, leb, if◌then◌else◌,
}

pub data Confirmation : Type 0 where
  processed confirmed finalized : Confirmation

-- A signature's status: whether the transaction failed, and how far it is confirmed
pub record Status : Type 0 where
  pub failed : Bool
  pub confirmation : Option Confirmation

-- What one round of the loop finds: the clock, the answers of the node and the clock after each.
-- An answer is an error where the call throws.
pub record Round : Type 0 where
  pub now : ℕ
  pub statuses : Result (Option Status)
  pub after_status : ℕ
  pub height : Result ℕ
  pub last_statuses : Result (Option Status)
  pub after_height : ℕ

pub data Outcome : Type 0 where
  returned transaction_failed blockhash_expired timed_out : Outcome

-- The variables of the loop that outlive a round
pub record Poll : Type 0 where
  pub next_status_at : ℕ
  pub next_height_at : ℕ
  pub consecutive_errors : ℕ
  pub backoff_ms : ℕ

unfoldable pub is_seen : Option Confirmation → Bool
is_seen none = false
is_seen (some c) = true

unfoldable pub is_final : Option Confirmation → Bool
is_final none = false
is_final (some processed) = false
is_final (some confirmed) = true
is_final (some finalized) = true

-- After a status that settles nothing, and after an error of the node
unfoldable pub status_pending : Round → Poll → Poll
status_pending r p = record p {
  consecutive_errors = 0;
  backoff_ms = 0;
  next_status_at = r.after_status + 400;
}

unfoldable pub status_error : Round → Poll → Poll
status_error r p =
    let errors = suc p.consecutive_errors in
    let backoff = min 4000 (250 * 2 ^ min errors 4) in
    record p {
      consecutive_errors = errors;
      backoff_ms = backoff;
      next_status_at = r.after_status + 400 + backoff;
    }

unfoldable pub read_status : Round → Poll → Result (Option Status) → Poll ⊎ Outcome
unfolding is_seen status_pending status_error
read_status r p (err e) = inl (status_error r p)
read_status r p (ok none) = inl (status_pending r p)
read_status r p (ok (some s)) =
    if s.failed
    then inr transaction_failed
    else if is_seen s.confirmation
    then inr returned
    else inl (status_pending r p)

unfoldable pub poll_status : Round → Poll → Poll ⊎ Outcome
unfolding read_status
poll_status r p = if leb p.next_status_at r.now then read_status r p r.statuses else inl p

unfoldable pub height_error : Round → Poll → Poll
height_error r p = record p {
  consecutive_errors = suc p.consecutive_errors;
  next_height_at = r.after_height + 3000;
}

-- The last status check, once the blockhash has expired
unfoldable pub read_last : Round → Poll → Result (Option Status) → Poll ⊎ Outcome
unfolding is_final height_error
read_last r p (err e) = inl (height_error r p)
read_last r p (ok none) = inr blockhash_expired
read_last r p (ok (some s)) =
    if is_final s.confirmation then inr returned else inr blockhash_expired

unfoldable pub read_height : (last_valid : ℕ) → Round → Poll → Result ℕ → Poll ⊎ Outcome
unfolding read_last height_error
read_height last_valid r p (err e) = inl (height_error r p)
read_height last_valid r p (ok height) =
    if ltb last_valid height
    then read_last r p r.last_statuses
    else inl (record p { consecutive_errors = 0; next_height_at = r.after_height + 3000 })

unfoldable pub poll_height : (last_valid : ℕ) → Round → Poll → Poll ⊎ Outcome
unfolding read_height
poll_height last_valid r p =
    if leb p.next_height_at r.now then read_height last_valid r p r.height else inl p

-- One round of `while (true)`
unfoldable pub poll_round : (start timeout_ms last_valid : ℕ) → Round → Poll → Poll ⊎ Outcome
unfolding poll_status poll_height
poll_round start timeout_ms last_valid r p =
    if ltb (start + timeout_ms) r.now
    then inr timed_out
    else elim (poll_status r p) [ inr outcome ↦ inr outcome | inl p' ↦ poll_height last_valid r p' ]

-- The loop over the rounds that the clock allows; none where they run out before it ends
unfoldable pub poll : (start timeout_ms last_valid : ℕ) → List Round → Poll → Option Outcome
unfolding poll_round
poll start timeout_ms last_valid [] p = none
poll start timeout_ms last_valid (r ∷ rs) p = elim (poll_round start timeout_ms last_valid r p) [
  | inr outcome ↦ some outcome
  | inl p' ↦ poll start timeout_ms last_valid rs p'
]

abbrev pub nothing_polled : Poll
nothing_polled = record {
  next_status_at = 0;
  next_height_at = 0;
  consecutive_errors = 0;
  backoff_ms = 0;
}

unfoldable pub confirm_by_polling : (start timeout_ms last_valid : ℕ) → List Round → Option Outcome
unfolding poll
confirm_by_polling start timeout_ms last_valid rounds =
    poll start timeout_ms last_valid rounds nothing_polled
