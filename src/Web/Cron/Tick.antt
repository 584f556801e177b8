-- ===== src/Web/Cron/Tick.antt =====
-- apps/web/src/server/cron/tick.ts: the scheduler of the house passes and its lock.
pub mod Cadence
pub mod Lock
use playkaboom.Common.{
  ℕ, ◌+◌, ◌-◌, ◌≡◌, Bool, true, false, not, ◌&&◌, ◌||◌, Option, none, some, List, [], ◌∷◌, ◌++◌,
  Result, Error, ok, err, thrown, ltb, if◌then◌else◌,
}
use playkaboom.Common.Int.{ℤ, pos, ◌-ℤ◌, ltb_ℤ}
use playkaboom.Sdk.Buffer.{Bytes, bytes_eq}

-- How the database and the function behave during one `withAdvisoryLock`: the connection is made
-- or not, the answer to pg_try_advisory_lock, whether the server took the lock where that query
-- failed (the pool's query_timeout rejects on the client's side alone), what the function returns,
-- whether the connection has been lost by the time of the unlock and of the release, and whether the
-- unlock goes through.
pub record LockRun {ℓ} (T : Type ℓ) : Type ℓ where
  pub connected : Result (Unit {0})
  pub locked : Result Bool
  pub taken_unseen : Bool
  pub value : Result T
  pub lost_at_unlock : Bool
  pub unlock_fails : Bool
  pub lost_at_release : Bool

-- What is done to the connection: the function is called under the lock, the unlock is asked for,
-- and the client goes back to the pool, destroyed or not.
pub data LockEffect : Type 0 where
  called : LockEffect
  unlock : (succeeds : Bool) → LockEffect
  release : (destroyed : Bool) → LockEffect

pub record LockResult {ℓ} (T : Type ℓ) : Type ℓ where
  -- none for `{ ran: false }`
  pub returned : Result (Option T)
  pub effects : List LockEffect

module _ {ℓ} {T : Type ℓ} where
  unfoldable pub ran : Result T → Result (Option T)
  ran (ok value) = ok (some value)
  ran (err e) = err e

  -- Under the lock: the function, the inner `finally` and the outer one
  unfoldable pub under_lock : LockRun T → LockResult T
  unfolding ran
  under_lock r = record {
    returned = ran r.value;
    effects =
        called
        ∷ (if r.lost_at_unlock
            then release true ∷ []
            else unlock (not r.unlock_fails) ∷ release (r.unlock_fails || r.lost_at_release) ∷ []);
  }

  unfoldable pub try_lock : LockRun T → Result Bool → LockResult T
  unfolding under_lock
  try_lock r (err e) = record { returned = err e; effects = release r.lost_at_release ∷ [] }
  try_lock r (ok false) = record { returned = ok none; effects = release r.lost_at_release ∷ [] }
  try_lock r (ok true) = under_lock r

  unfoldable pub with_connection : LockRun T → Result (Unit {0}) → LockResult T
  unfolding try_lock
  with_connection r (err e) = record { returned = err e; effects = [] }
  with_connection r (ok t) = try_lock r r.locked

  unfoldable pub with_advisory_lock : LockRun T → LockResult T
  unfolding with_connection
  with_advisory_lock r = with_connection r r.connected

-- The connection's own session lock after some effects, where `locked` says whether it was taken.
-- A destroyed connection ends its session, which frees the lock.
unfoldable pub still_locked : Bool → List LockEffect → Bool
still_locked locked [] = locked
still_locked locked (called ∷ es) = still_locked locked es
still_locked locked (unlock succeeds ∷ es) = still_locked (locked && not succeeds) es
still_locked locked (release destroyed ∷ es) = still_locked (locked && not destroyed) es

-- A pass: its name, the least time between successful runs, and what its run does to the world.
module _ (World Value : Type 0) where
  pub record CronPass : Type 0 where
    pub name : Bytes
    pub every_ms : ℕ
    pub run : World → World × Result Value

pub data PassOutcome (Value : Type 0) : Type 0 where
  success : (ms : ℤ) → Value → PassOutcome Value
  failure : (ms : ℤ) → Error → PassOutcome Value
  not_due : PassOutcome Value

-- `lastOk`
abbrev pub LastOk : Type 0
LastOk = List (Bytes × ℕ)

unfoldable pub last_ok : LastOk → Bytes → Option ℕ
last_ok [] name = none
last_ok ((k, t) ∷ rest) name = if bytes_eq k name then some t else last_ok rest name

unfoldable pub set_last_ok : LastOk → Bytes → ℕ → LastOk
set_last_ok [] name t = (name, t) ∷ []
set_last_ok ((k, old) ∷ rest) name t =
    let rest' = set_last_ok rest name t in
    if bytes_eq k name then (k, t) ∷ rest else (k, old) ∷ rest'

-- `last !== undefined && now - last < p.everyMs`
unfoldable pub too_soon : Option ℕ → (now every_ms : ℕ) → Bool
too_soon none now every_ms = false
too_soon (some last) now every_ms = ltb_ℤ (pos now -ℤ pos last) (pos every_ms)

pub record TickState (World : Type 0) : Type 0 where
  pub world : World
  pub last_oks : LastOk

-- The world has a clock, and a query on the lock's connection that can find it lost.
module _ {World Value : Type 0} (clock : World → ℕ)
    (assert_tick_lock_held : World → World × Result (Unit {0})) where
  -- A due pass is run; only its success counts for the cadence.
  unfoldable pub finish :
      (now t0 : ℕ)
      → CronPass World Value
      → LastOk
      → World × Result Value
      → TickState World × PassOutcome Value
  unfolding set_last_ok
  finish now t0 p oks (w, ok value) = (
    record { world = w; last_oks = set_last_ok oks p.name now },
    success (pos (clock w) -ℤ pos t0) value,
  )
  finish now t0 p oks (w, err e) =
      (record { world = w; last_oks = oks }, failure (pos (clock w) -ℤ pos t0) e)

  unfoldable pub when_held :
      (now : ℕ)
      → CronPass World Value
      → LastOk
      → World × Result (Unit {0})
      → TickState World × PassOutcome Value
  unfolding finish last_ok too_soon
  when_held now p oks (w, err e) = (record { world = w; last_oks = oks }, failure (pos 0) e)
  when_held now p oks (w, ok held) =
      if too_soon (last_ok oks p.name) now p.every_ms
      then (record { world = w; last_oks = oks }, not_due)
      else finish now (clock w) p oks (p.run w)

  -- One round of the loop over the passes
  unfoldable pub run_pass :
      (now : ℕ) → CronPass World Value → TickState World → TickState World × PassOutcome Value
  unfolding when_held
  run_pass now p st = when_held now p st.last_oks (assert_tick_lock_held st.world)

  -- The loop. The passes have different names, so each one adds its own entry of `out`.
  unfoldable pub run_passes :
      (now : ℕ)
      → List (CronPass World Value)
      → TickState World
      → TickState World × List (Bytes × PassOutcome Value)
  unfolding run_pass
  run_passes now [] st = (st, [])
  run_passes now (p ∷ ps) st =
      let (st', outcome) = run_pass now p st in
      let (st'', out) = run_passes now ps st' in (st'', (p.name, outcome) ∷ out)

  -- Ticks at some times, each with all the passes
  unfoldable pub run_ticks :
      List (CronPass World Value)
      → List ℕ
      → TickState World
      → TickState World × List (ℕ × List (Bytes × PassOutcome Value))
  unfolding run_passes
  run_ticks ps [] st = (st, [])
  run_ticks ps (now ∷ nows) st =
      let (st', out) = run_passes now ps st in
      let (st'', outs) = run_ticks ps nows st' in (st'', (now, out) ∷ outs)
