-- ===== src/Web/Cron/VrfPasses/Idle.antt =====
-- What the two idle checks say of the transactions that a node listed.
use playkaboom.Common.{
  ℕ, ◌+◌, ◌*◌, ◌≤◌, ◌≡◌, ◌≢◌, refl, arith, true, false, ◌⊎◌, inl, inr, none, some, List, [], ◌∷◌,
  Result, ok, err, All, Bool-cases, Option-cases,
}
use playkaboom.Common.Int.{◌-ℤ◌}
use playkaboom.Sdk.Web3.{Web3}
use playkaboom.Web.Cron.VrfPasses.Activity.{
  settled_idle_ms, force_age_ms, age_at_least, SignatureInfo, find_ok, last_ok_tx_time, idle_for,
  settle_idle,
}
use playkaboom.Web.Cron.VrfPasses.{Chain, settle_due}

-- Signatures from the newest to the oldest, each with its time
abbrev pub NewestFirst : (newest : ℕ) → List SignatureInfo → Type 0
NewestFirst newest [] = Unit
NewestFirst newest (s ∷ ss) = (t : ℕ) × (s.block_time ≡ some t) × (t ≤ newest) × NewestFirst t ss

-- No transaction that went through is later than a time.
abbrev pub NoneAfter : ℕ → List SignatureInfo → Type 0
NoneAfter t = All (λ s. s.failed ≡ false → (u : ℕ) → s.block_time ≡ some u → u ≤ t)

NewestFirst-NoneAfter :
    (newest t : ℕ) (ss : List SignatureInfo) → newest ≤ t → NewestFirst newest ss → NoneAfter t ss
NewestFirst-NoneAfter newest t [] h order = tt
NewestFirst-NoneAfter newest t (s ∷ ss) h (own, timed, older, rest) =
    (λ went u e. ground arith, NewestFirst-NoneAfter own t ss (omega arith) rest)

find_ok-NoneAfter :
    (newest t : ℕ) (ss : List SignatureInfo) (found : SignatureInfo)
    → find_ok ss ≡ some found
    → found.block_time ≡ some t
    → NewestFirst newest ss
    → NoneAfter t ss
unfolding find_ok
find_ok-NoneAfter newest t [] found e timed order = cc
find_ok-NoneAfter newest t (s ∷ ss) found e timed (own, own_time, older, rest) =
    elim (Bool-cases s.failed) [
      | inl bad ↦ (
        λ went u e'. absurd (ground arith),
        find_ok-NoneAfter own t ss found (ground arith) timed rest,
      )
      | inr good ↦
          let here : s ≡ found = ground arith in
          let same : own ≡ t = ground arith in
          (λ went u e'. ground arith, NewestFirst-NoneAfter own t ss (omega arith) rest)
    ]

-- Where none went through, anything holds of those that did.
none_ok :
    (P : SignatureInfo → Type 0) (ss : List SignatureInfo)
    → find_ok ss ≡ none
    → All (λ s. s.failed ≡ false → P s) ss
unfolding find_ok
none_ok P [] e = tt
none_ok P (s ∷ ss) e = (λ went. absurd (ground arith), none_ok P ss (ground arith))

-- The time that the checks go by is no earlier than any transaction that went through.
last_ok_tx_time-NoneAfter :
    (newest t : ℕ) (ss : List SignatureInfo)
    → last_ok_tx_time ss ≡ some t
    → NewestFirst newest ss
    → NoneAfter t ss
unfolding last_ok_tx_time
last_ok_tx_time-NoneAfter newest t ss e order = elim (Option-cases (find_ok ss)) [
  | inl nothing ↦ none_ok (λ s. (u : ℕ) → s.block_time ≡ some u → u ≤ t) ss nothing
  | inr (found, is_found) ↦ find_ok-NoneAfter newest t ss found is_found (ground arith) order
]

-- Every transaction that went through is at least so long ago.
abbrev pub IdleFor : (now idle : ℕ) → List SignatureInfo → Type 0
IdleFor now idle =
    All (λ s. s.failed ≡ false → (u : ℕ) → s.block_time ≡ some u → u * 1000 + idle ≤ now)

NoneAfter-IdleFor :
    (now idle t : ℕ) (ss : List SignatureInfo)
    → idle_for now t idle ≡ true
    → NoneAfter t ss
    → IdleFor now idle ss
unfolding idle_for ◌-ℤ◌
NoneAfter-IdleFor now idle t [] h late = tt
NoneAfter-IdleFor now idle t (s ∷ ss) h (le, late) =
    (λ went u e. ground (arith, le went u e), NoneAfter-IdleFor now idle t ss h late)

find_ok-timed :
    (newest : ℕ) (ss : List SignatureInfo) (found : SignatureInfo)
    → find_ok ss ≡ some found
    → NewestFirst newest ss
    → found.block_time ≢ none
unfolding find_ok
find_ok-timed newest [] found e order = cc
find_ok-timed newest (s ∷ ss) found e (own, own_time, older, rest) = elim (Bool-cases s.failed) [
  | inl bad ↦ find_ok-timed own ss found (ground arith) rest
  | inr good ↦ ground arith
]

-- Where the checks find no time, nothing went through.
no_time-IdleFor :
    (now idle newest : ℕ) (ss : List SignatureInfo)
    → last_ok_tx_time ss ≡ none
    → NewestFirst newest ss
    → IdleFor now idle ss
unfolding last_ok_tx_time
no_time-IdleFor now idle newest ss e order = elim (Option-cases (find_ok ss)) [
  | inl nothing ↦ none_ok (λ s. (u : ℕ) → s.block_time ≡ some u → u * 1000 + idle ≤ now) ss nothing
  | inr (found, is_found) ↦ absurd (find_ok-timed newest ss found is_found order (ground arith))
]

settle_idle_lem :
    (now : ℕ) (r : Result (List SignatureInfo))
    → settle_idle now r ≡ true
    → (ss : List SignatureInfo) × (r ≡ ok ss)
      × ((newest : ℕ) → NewestFirst newest ss → IdleFor now settled_idle_ms ss)
unfolding settle_idle
settle_idle_lem now (err e) h = cc
settle_idle_lem now (ok ss) h = (
  ss,
  refl,
  λ newest order. elim (Option-cases (last_ok_tx_time ss)) [
    | inl e ↦ no_time-IdleFor now settled_idle_ms newest ss e order
    | inr (t, e) ↦
        NoneAfter-IdleFor now settled_idle_ms t ss (ground arith)
          (last_ok_tx_time-NoneAfter newest t ss e order)
  ],
)

-- A game's claim is half an hour old, or the node listed the game's transactions, and of those that
-- it listed from the newest on, each with its time, none that went through is later than a minute
-- ago.
abbrev pub HadTime :
    (w : Web3) → Chain w.PublicKey → (game : w.PublicKey) → (start_slot : ℕ) → Type 0
HadTime w c game start_slot =
    (age_at_least c.slot start_slot c.slot_ms force_age_ms ≡ true)
    ⊎ ((ss : List SignatureInfo) × (c.l1_signatures game ≡ ok ss)
        × ((newest : ℕ) → NewestFirst newest ss → IdleFor (c.now_at game) settled_idle_ms ss))

pub settle_due_lem :
    (w : Web3) (c : Chain w.PublicKey) (game : w.PublicKey) (start_slot : ℕ)
    → settle_due w c game start_slot ≡ true
    → HadTime w c game start_slot
unfolding settle_due
settle_due_lem w c game start_slot h =
    elim (Bool-cases (age_at_least c.slot start_slot c.slot_ms force_age_ms)) [
      | inl aged ↦ inl aged
      | inr young ↦
          inr (settle_idle_lem (c.now_at game) (c.l1_signatures game) (rw (young, settle_due) at h))
    ]
