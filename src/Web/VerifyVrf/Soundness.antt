-- ===== src/Web/VerifyVrf/Soundness.antt =====
-- The verdict of `verifyVrfSettle` on a settlement.
use playkaboom.Common.{
  ℕ, zero, suc, ◌+◌, ◌-◌, ◌*◌, ◌/◌, ◌≤◌, ◌<◌, ◌≡◌, refl, ap, ◌∙◌, ◌⊎◌, inl, inr, arith, Bool, true,
  false, ◌&&◌, none, some, Error, ok, err, Bool-cases, Option-cases, Result-cases,
}
use playkaboom.Common.Int.{ℤ, pos, negsuc, ◌-ℤ◌, ◌*ℤ◌, quot, *ℤ_pos, quot_pos, ltb_ℤ}
use native.Mathlib.Decide.{dec_le}
use playkaboom.Shared.Multiplier.{calc_multiplier_bps}
use Outcome.{won, lost}
use playkaboom.Web.VerifyVrf.{
  Outcome, Round, eq_ℤ, mult_or_minus_one, pays, find_reveals, state_reveals, state_agrees,
  reveals_of, mult_of, settle_verified, verdict,
}

eq_ℤ_sound : (a b : ℤ) → eq_ℤ a b ≡ true → a ≡ b
eq_ℤ_sound a b h = ground arith

eq_ℤ_refl : (a : ℤ) → eq_ℤ a a ≡ true
eq_ℤ_refl a = ground arith

pos_of : (a : ℤ) → ltb_ℤ (pos 0) a ≡ true → (n : ℕ) × (a ≡ pos n) × (0 < n)
pos_of (pos n) h = (n, refl, ground arith)
pos_of (negsuc n) h = ground arith

find_reveals_sound : (k r : ℕ) (p : ℕ → Bool) (x : ℕ) → find_reveals k r p ≡ some x → p x ≡ true
unfolding find_reveals
find_reveals_sound zero r p x h = cc
find_reveals_sound (suc k) r p x h = ground (arith, find_reveals_sound k (suc r) p x)

clash : (b : Bool) → b ≡ true → b ≡ false → ⊥
clash b h k = cc

find_reveals_complete :
    (k r x : ℕ) (p : ℕ → Bool)
    → r ≤ x
    → x < r + k
    → p x ≡ true
    → (y : ℕ) × (find_reveals k r p ≡ some y) × (p y ≡ true)
unfolding find_reveals
find_reveals_complete zero r x p h h₁ e = absurd (omega arith)
find_reveals_complete (suc k) r x p h h₁ e = elim (Bool-cases (p r)) [
  | inl found ↦ (r, ground arith, found)
  | inr passed ↦
      let later : suc r ≤ x = elim (dec_le (suc r) x) [
        | yes le ↦ le
        | no gt ↦ let same : r ≡ x = omega arith in absurd (clash (p x) e (rw (← same) passed))
      ] in
      rw passed (find_reveals_complete k (suc r) x p later (omega arith) e)
]

right : (a b : Bool) → (a && b) ≡ true → b ≡ true
right a b h = ground arith

clash_right : (a : Bool) → (a && false) ≡ true → ⊥
clash_right a h = ground arith

mult_value :
    (r m e : ℕ) (v : ℤ)
    → calc_multiplier_bps (pos r) (pos m) (pos e) ≡ ok v
    → mult_or_minus_one r m e ≡ v
unfolding mult_or_minus_one
mult_value r m e v returned = rw (returned, mult_or_minus_one) refl

mult_thrown :
    (r m e : ℕ) (error : Error)
    → calc_multiplier_bps (pos r) (pos m) (pos e) ≡ err error
    → mult_or_minus_one r m e ≡ negsuc 0
unfolding mult_or_minus_one
mult_thrown r m e error thrown = rw (thrown, mult_or_minus_one) refl

-- A multiplier above 0 is the multiplier's, not a refusal.
mult_pos :
    (r m e : ℕ)
    → ltb_ℤ (pos 0) (mult_or_minus_one r m e) ≡ true
    → (mult : ℕ) × (calc_multiplier_bps (pos r) (pos m) (pos e) ≡ ok (pos mult))
      × (mult_or_minus_one r m e ≡ pos mult)
mult_pos r m e h = elim (Result-cases (calc_multiplier_bps (pos r) (pos m) (pos e))) [
  | inl (error, thrown) ↦
      let none_left = rw (mult_thrown r m e error thrown) at h in
      absurd (clash false none_left refl)
  | inr (value, returned) ↦
      let above : ltb_ℤ (pos 0) value ≡ true = rw (mult_value r m e value returned) at h in
      let (mult, is, _) = pos_of value above in
      (mult, returned ∙ ap ok is, mult_value r m e value returned ∙ is)
]

module _ {K : Type 0} (edge_bps : ℕ) (round : Round K) where
  -- The money of a win matches, with a multiplier that is not a refusal.
  money :
      (bet payout r m : ℕ)
      → (ltb_ℤ (pos 0) (mult_or_minus_one r m edge_bps)
          && eq_ℤ (quot (pos bet *ℤ mult_or_minus_one r m edge_bps) 10000) (pos payout))
        ≡ true
      → (mult : ℕ) × (calc_multiplier_bps (pos r) (pos m) (pos edge_bps) ≡ ok (pos mult))
        × (payout ≡ bet * mult / 10000)
  money bet payout r m h =
      let (mult, returned, is) = mult_pos r m edge_bps (ground arith) in
      let same : quot (pos bet *ℤ mult_or_minus_one r m edge_bps) 10000 ≡ pos payout =
        eq_ℤ_sound _ _ (ground arith) in
      (mult, returned, cc (is, *ℤ_pos bet mult, quot_pos (bet * mult) 10000))

  settle_won :
      (payout : ℕ)
      → 0 < payout
      → settle_verified edge_bps round (pos payout) ≡ true
      → (r : ℕ) × (mult : ℕ) × (reveals_of edge_bps round (pos payout) ≡ some r)
        × (calc_multiplier_bps (pos r) (pos round.mine_count) (pos edge_bps) ≡ ok (pos mult))
        × (payout ≡ round.bet * mult / 10000)
  unfolding settle_verified mult_of
  settle_won payout h v =
      let above : ltb_ℤ (pos 0) (pos payout) ≡ true = ground arith in
      elim (Option-cases (reveals_of edge_bps round (pos payout))) [
        | inl nothing ↦ let bad = rw (above, nothing) at v in absurd (clash_right _ bad)
        | inr (r, found) ↦
            let good = rw (above, found) at v in
            let (mult, returned, same) =
              money round.bet payout r round.mine_count (right _ _ good) in
            (r, mult, found, returned, same)
      ]

  settle_sound :
      (payout : ℤ)
      → settle_verified edge_bps round payout ≡ true
      → ((r : ℕ) × (mult : ℕ) × (ltb_ℤ (pos 0) payout ≡ true)
          × (reveals_of edge_bps round payout ≡ some r)
          × (calc_multiplier_bps (pos r) (pos round.mine_count) (pos edge_bps) ≡ ok (pos mult))
          × (payout ≡ pos (round.bet * mult / 10000)))
        ⊎ ((ltb_ℤ (pos 0) payout ≡ false) × (payout ≡ pos 0))
  unfolding settle_verified
  settle_sound (pos zero) v = inr (refl, refl)
  settle_sound (pos (suc n)) v =
      let (r, mult, found, returned, same) = settle_won (suc n) (omega arith) v in
      inl (r, mult, ground arith, found, returned, ap pos same)
  settle_sound (negsuc n) v =
      let below : ltb_ℤ (pos 0) (negsuc n) ≡ false = ground arith in
      let bad = rw below at v in inr (below, eq_ℤ_sound (negsuc n) (pos 0) (right _ _ bad))

  -- What `verifyVrfSettle` proves of a settlement that it calls verified: a win paid the bet times
  -- the multiplier of the safe reveals it names, on the start's bet and mines, with the cuts beside
  -- it; a loss paid the player nothing.
  pub verdict_sound :
      (paid_out treasury_cut referral_cut : ℤ)
      → let v = verdict edge_bps false (some round) paid_out treasury_cut referral_cut in
        v.verified ≡ true
        → ((r : ℕ) × (mult : ℕ) × (v.outcome ≡ won)
            × (v.safe_reveals ≡ some r)
            × (calc_multiplier_bps (pos r) (pos round.mine_count) (pos edge_bps) ≡ ok (pos mult))
            × (paid_out -ℤ treasury_cut -ℤ referral_cut ≡ pos (round.bet * mult / 10000)))
          ⊎ ((v.outcome ≡ lost) × (paid_out -ℤ treasury_cut -ℤ referral_cut ≡ pos 0))
  unfolding verdict
  verdict_sound paid_out treasury_cut referral_cut v =
      elim (settle_sound (paid_out -ℤ treasury_cut -ℤ referral_cut) v) [
        | inl (r, mult, above, found, returned, same) ↦
            inl (r, mult, rw (v, above) refl, found, returned, same)
        | inr (below, same) ↦ inr (rw (v, below) refl, same)
      ]

quot_positive :
    (bet p : ℕ) (x : ℤ) → 0 < p → quot (pos bet *ℤ x) 10000 ≡ pos p → ltb_ℤ (pos 0) x ≡ true
unfolding quot ◌*ℤ◌
quot_positive bet p x h e = ground arith

pays_sound :
    (bet m edge_bps r : ℕ) (payout : ℤ)
    → pays bet m edge_bps payout r ≡ true
    → quot (pos bet *ℤ mult_or_minus_one r m edge_bps) 10000 ≡ payout
unfolding pays
pays_sound bet m edge_bps r payout h = eq_ℤ_sound _ _ h

module _ (edge_bps bet m r mult : ℕ) where
  pays_lem :
      calc_multiplier_bps (pos r) (pos m) (pos edge_bps) ≡ ok (pos mult)
      → pays bet m edge_bps (pos (bet * mult / 10000)) r ≡ true
  unfolding pays
  pays_lem returned =
      rw (mult_value r m edge_bps (pos mult) returned, *ℤ_pos bet mult, quot_pos (bet * mult) 10000)
        (eq_ℤ_refl (pos (bet * mult / 10000)))

module _ (K : Type 0) (edge_bps bet m r mult : ℕ) where
  -- A round whose state could not be replayed.
  abbrev pub unread : Round K
  unread = record { bet = bet; mine_count = m; state = none }

  settle_complete :
      1 ≤ r
      → r + m ≤ 16
      → calc_multiplier_bps (pos r) (pos m) (pos edge_bps) ≡ ok (pos mult)
      → 0 < bet * mult / 10000
      → settle_verified edge_bps unread (pos (bet * mult / 10000)) ≡ true
  unfolding settle_verified mult_of state_agrees reveals_of state_reveals
  settle_complete h h₁ returned positive =
      let payout = bet * mult / 10000 in
      let above : ltb_ℤ (pos 0) (pos payout) ≡ true = ground arith in
      let (y, found, paid) =
        find_reveals_complete (16 - m) 1 r (pays bet m edge_bps (pos payout)) h (omega arith)
          (pays_lem edge_bps bet m r mult returned) in
      let same : quot (pos bet *ℤ mult_or_minus_one y m edge_bps) 10000 ≡ pos payout =
        pays_sound bet m edge_bps y (pos payout) paid in
      let more = quot_positive bet payout (mult_or_minus_one y m edge_bps) positive same in
      rw (above, found, more, same, eq_ℤ_refl (pos payout)) refl

  -- A win of a round whose committed state could not be read is still verified as a win, where the
  -- player got what some possible number of safe reveals pays, and that is not nothing.
  pub verdict_complete :
      (paid_out treasury_cut referral_cut : ℤ)
      → 1 ≤ r
      → r + m ≤ 16
      → calc_multiplier_bps (pos r) (pos m) (pos edge_bps) ≡ ok (pos mult)
      → 0 < bet * mult / 10000
      → paid_out -ℤ treasury_cut -ℤ referral_cut ≡ pos (bet * mult / 10000)
      → let v = verdict edge_bps false (some unread) paid_out treasury_cut referral_cut in
        (v.verified ≡ true) × (v.outcome ≡ won)
  unfolding verdict
  verdict_complete paid_out treasury_cut referral_cut h h₁ returned positive same =
      let above : ltb_ℤ (pos 0) (pos (bet * mult / 10000)) ≡ true = ground arith in
      rw (same, settle_complete h h₁ returned positive, above) (refl, refl)
