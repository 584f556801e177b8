-- ===== src/Web/Cron/VrfPasses/Activity.antt =====
-- When a game was last active: the idle checks of vrf-passes.ts.
use playkaboom.Common.{
  ℕ, ◌*◌, Bool, true, false, Option, none, some, List, [], ◌∷◌, Result, ok, err, if◌then◌else◌,
}
use playkaboom.Common.Int.{pos, ◌-ℤ◌, ◌*ℤ◌, leb_ℤ}
use playkaboom.Sdk.Vrf.{VrfStatus, playing, won, lost, void}

abbrev pub settled_idle_ms : ℕ
settled_idle_ms = 60000

abbrev pub force_age_ms : ℕ
force_age_ms = 1800000

abbrev pub force_idle_ms : ℕ
force_idle_ms = 300000

abbrev pub max_tx_per_kind : ℕ
max_tx_per_kind = 15

-- `msPerSlot`: a quotient of whole numbers, kept without rounding
pub record SlotMs : Type 0 where
  pub millis : ℕ
  pub slots : ℕ

-- `(slot - start) * slotMs >= t`
unfoldable pub age_at_least : (slot start : ℕ) → SlotMs → ℕ → Bool
age_at_least slot start slot_ms t =
    leb_ℤ (pos (t * slot_ms.slots)) ((pos slot -ℤ pos start) *ℤ pos slot_ms.millis)

-- An entry of getSignaturesForAddress, newest first
pub record SignatureInfo : Type 0 where
  pub failed : Bool
  pub block_time : Option ℕ

unfoldable pub find_ok : List SignatureInfo → Option SignatureInfo
find_ok [] = none
find_ok (s ∷ ss) = let rest = find_ok ss in if s.failed then rest else some s

unfoldable pub last_of : List SignatureInfo → Option SignatureInfo
last_of [] = none
last_of (s ∷ []) = some s
last_of (s ∷ t ∷ ss) = last_of (t ∷ ss)

-- `lastOkTxTime`, of the signatures that the node returned
unfoldable pub last_ok_tx_time : List SignatureInfo → Option ℕ
unfolding find_ok last_of
last_ok_tx_time sigs = elim (find_ok sigs) [
  | some s ↦ s.block_time
  | none ↦ elim (last_of sigs) [ none ↦ none | some s ↦ s.block_time ]
]

-- `Date.now() - t * 1000 >= idle`
unfoldable pub idle_for : (now t idle : ℕ) → Bool
idle_for now t idle = leb_ℤ (pos idle) (pos now -ℤ pos (t * 1000))

-- The answers of the two idle checks, where the node's answer may have been an error
unfoldable pub settle_idle : (now : ℕ) → Result (List SignatureInfo) → Bool
unfolding last_ok_tx_time idle_for
settle_idle now (err e) = false
settle_idle now (ok sigs) = elim (last_ok_tx_time sigs) [
  | none ↦ true
  | some t ↦ idle_for now t settled_idle_ms
]

unfoldable pub force_idle :
    (now idle : ℕ) → (age_over_idle : Bool) → Result (List SignatureInfo) → Bool
unfolding last_ok_tx_time idle_for
force_idle now idle age_over_idle (err e) = false
force_idle now idle age_over_idle (ok sigs) = elim (last_ok_tx_time sigs) [
  | none ↦ age_over_idle
  | some t ↦ idle_for now t idle
]

unfoldable pub is_playing : VrfStatus → Bool
is_playing playing = true
is_playing won = false
is_playing lost = false
is_playing void = false
