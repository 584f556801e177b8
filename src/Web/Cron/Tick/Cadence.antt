-- ===== src/Web/Cron/Tick/Cadence.antt =====
-- The successful runs of a pass, over many ticks.
use playkaboom.Common.{
  ℕ, ◌+◌, ◌≤◌, ◌≡◌, refl, ◌∙◌, arith, false, Option, none, some, List, [], ◌∷◌, Result, ok, err,
  if◌then◌else◌, All, Bool-cases, inl, inr,
}
use mathlib.Core.Path.{subst}
use playkaboom.Common.Int.{◌-ℤ◌}
use playkaboom.Sdk.Buffer.{Bytes, bytes_eq}
use playkaboom.Sdk.Buffer.Laws.{bytes_eq_iff}
use playkaboom.Web.Cron.Tick.{
  CronPass, PassOutcome, success, failure, not_due, LastOk, last_ok, set_last_ok, too_soon,
  TickState, finish, when_held, run_pass, run_passes, run_ticks,
}

too_soon_lem :
    (last now every_ms : ℕ) → too_soon (some last) now every_ms ≡ false → last + every_ms ≤ now
unfolding too_soon ◌-ℤ◌
too_soon_lem last now every_ms h = ground arith

last_ok-set_last_ok :
    (oks : LastOk) (k j : Bytes) (t : ℕ)
    → last_ok (set_last_ok oks k t) j ≡ (if bytes_eq k j then some t else last_ok oks j)
unfolding last_ok set_last_ok
last_ok-set_last_ok [] k j t = refl
last_ok-set_last_ok ((i, v) ∷ rest) k j t =
    ground
      (arith, bytes_eq_iff k j, bytes_eq_iff i k, bytes_eq_iff i j, last_ok-set_last_ok rest k j t)

-- The times at which a pass succeeded, of one tick and of many
module _ {Value : Type 0} (name : Bytes) where
  unfoldable pub tick_successes : (now : ℕ) → List (Bytes × PassOutcome Value) → List ℕ → List ℕ
  tick_successes now [] later = later
  tick_successes now ((k, success ms value) ∷ out) later =
      let rest = tick_successes now out later in if bytes_eq k name then now ∷ rest else rest
  tick_successes now ((k, _) ∷ out) later = tick_successes now out later

  unfoldable pub successes : List (ℕ × List (Bytes × PassOutcome Value)) → List ℕ
  unfolding tick_successes
  successes [] = []
  successes ((now, out) ∷ outs) = tick_successes now out (successes outs)

-- Each time is at least `gap` after the one before it.
abbrev pub Spaced : (gap : ℕ) → Option ℕ → List ℕ → Type 0
Spaced gap before [] = Unit
Spaced gap none (t ∷ ts) = Spaced gap (some t) ts
Spaced gap (some s) (t ∷ ts) = (s + gap ≤ t) × Spaced gap (some t) ts

tick_successes-cons :
    {Value : Type 0} (name : Bytes) (now : ℕ) (k : Bytes) (outcome : PassOutcome Value)
    (out : List (Bytes × PassOutcome Value)) (later : List ℕ)
    → tick_successes name now ((k, outcome) ∷ out) later
      ≡ tick_successes name now ((k, outcome) ∷ []) (tick_successes name now out later)
unfolding tick_successes
tick_successes-cons name now k (success ms value) out later = refl
tick_successes-cons name now k (failure ms e) out later = refl
tick_successes-cons name now k not_due out later = refl

Spaced-next :
    (gap every_ms now : ℕ) (before : Option ℕ) (later : List ℕ)
    → gap ≤ every_ms
    → too_soon before now every_ms ≡ false
    → Spaced gap (some now) later
    → Spaced gap before (now ∷ later)
Spaced-next gap every_ms now none later le soon h = h
Spaced-next gap every_ms now (some last) later le soon h =
    (omega (arith, too_soon_lem last now every_ms soon), h)

module _ {World Value : Type 0} (clock : World → ℕ)
    (assert_held : World → World × Result (Unit {0})) (name : Bytes) (gap : ℕ) where
  -- What one pass leaves of a pass's last success: it, or this tick's time and a distance to it
  finish_lem :
      (now t0 : ℕ) (p : CronPass World Value) (oks : LastOk) (r : World × Result Value)
      (later : List ℕ)
      → (p.name ≡ name → gap ≤ p.every_ms)
      → too_soon (last_ok oks p.name) now p.every_ms ≡ false
      → Spaced gap (last_ok (finish clock assert_held now t0 p oks r).0.last_oks name) later
      → Spaced gap (last_ok oks name) (
          tick_successes {Value = Value} name now
            ((p.name, (finish clock assert_held now t0 p oks r).1) ∷ [])
            later)
  unfolding finish tick_successes
  finish_lem now t0 p oks (w, err e) later due soon h = h
  finish_lem now t0 p oks (w, ok value) later due soon h =
      let set = last_ok-set_last_ok oks p.name name now in
      elim (Bool-cases (bytes_eq p.name name)) [
        | inl here ↦
            let same = (bytes_eq_iff p.name name).0 here in
            rw here (
              Spaced-next gap p.every_ms now (last_ok oks name) later (due same) (rw same at soon)
                (subst (λ o. Spaced gap o later) (set ∙ rw here refl) h))
        | inr there ↦ rw there (subst (λ o. Spaced gap o later) (set ∙ rw there refl) h)
      ]

  when_held_lem :
      (now : ℕ) (p : CronPass World Value) (oks : LastOk) (r : World × Result (Unit {0}))
      (later : List ℕ)
      → (p.name ≡ name → gap ≤ p.every_ms)
      → Spaced gap (last_ok (when_held clock assert_held now p oks r).0.last_oks name) later
      → Spaced gap (last_ok oks name) (
          tick_successes name now
            ((p.name, (when_held clock assert_held now p oks r).1) ∷ [])
            later)
  unfolding when_held tick_successes
  when_held_lem now p oks (w, err e) later due h = h
  when_held_lem now p oks (w, ok held) later due h =
      elim (Bool-cases (too_soon (last_ok oks p.name) now p.every_ms)) [
        | inl soon ↦ ground (arith)
        | inr late ↦
            rw late (finish_lem now (clock w) p oks (p.run w) later due late (rw late at h))
      ]

  run_pass_lem :
      (now : ℕ) (p : CronPass World Value) (st : TickState World) (later : List ℕ)
      → (p.name ≡ name → gap ≤ p.every_ms)
      → Spaced gap (last_ok (run_pass clock assert_held now p st).0.last_oks name) later
      → Spaced gap
          (last_ok st.last_oks name)
          (tick_successes name now ((p.name, (run_pass clock assert_held now p st).1) ∷ []) later)
  unfolding run_pass
  run_pass_lem now p st later due h =
      when_held_lem now p st.last_oks (assert_held st.world) later due h

  run_passes_lem :
      (now : ℕ) (ps : List (CronPass World Value)) (st : TickState World) (later : List ℕ)
      → All (λ p. p.name ≡ name → gap ≤ p.every_ms) ps
      → Spaced gap (last_ok (run_passes clock assert_held now ps st).0.last_oks name) later
      → Spaced gap
          (last_ok st.last_oks name)
          (tick_successes name now (run_passes clock assert_held now ps st).1 later)
  unfolding run_passes tick_successes
  run_passes_lem now [] st later due h = h
  run_passes_lem now (p ∷ ps) st later (due, dues) h =
      let st' = (run_pass clock assert_held now p st).0 in
      let rest = tick_successes name now (run_passes clock assert_held now ps st').1 later in
      rw
        (tick_successes-cons name now p.name (run_pass clock assert_held now p st).1
          (run_passes clock assert_held now ps st').1 later)
        (run_pass_lem now p st rest due (run_passes_lem now ps st' later dues h))

  -- Over any ticks, the successful runs of a pass are at least its gap apart, and the first is that
  -- far from the last success that the process remembers.
  pub run_ticks-Spaced :
      (ps : List (CronPass World Value)) (nows : List ℕ) (st : TickState World)
      → All (λ p. p.name ≡ name → gap ≤ p.every_ms) ps
      → Spaced gap
          (last_ok st.last_oks name)
          (successes name (run_ticks clock assert_held ps nows st).1)
  unfolding run_ticks successes
  run_ticks-Spaced ps [] st due = tt
  run_ticks-Spaced ps (now ∷ nows) st due =
      let st' = (run_passes clock assert_held now ps st).0 in
      run_passes_lem now ps st (successes name (run_ticks clock assert_held ps nows st').1) due
        (run_ticks-Spaced ps nows st' due)
