-- ===== src/Web/Cron/Tick/Lock.antt =====
-- When the lock of a tick is taken and given back.
use playkaboom.Common.{
  ◌&&◌, not, ◌≡◌, refl, arith, Bool, true, false, List, [], ◌∷◌, Result, ok, err,
}
use playkaboom.Web.Cron.Tick.{
  LockRun, LockEffect, called, under_lock, try_lock, with_connection, with_advisory_lock,
  still_locked,
}

unfoldable pub is_yes : Result Bool → Bool
is_yes (err e) = false
is_yes (ok answer) = answer

-- The server has taken the lock: it said so, or the query failed and it did all the same.
unfoldable pub is_taken : Result Bool → Bool → Bool
is_taken (err e) unseen = unseen
is_taken (ok answer) unseen = answer

unfoldable pub is_failed : Result Bool → Bool
is_failed (err e) = true
is_failed (ok answer) = false

-- A run whose connection is made, of some answer.
unfoldable pub connects {ℓ} : {T : Type ℓ} → LockRun T → Bool
connects r = elim r.connected [ err e ↦ false | ok t ↦ true ]

-- The lock is taken where the connection is made and the server takes it.
unfoldable pub takes_lock {ℓ} : {T : Type ℓ} → LockRun T → Bool
unfolding is_taken connects
takes_lock r = connects r && is_taken r.locked r.taken_unseen

unfoldable pub calls : List LockEffect → Bool
calls [] = false
calls (called ∷ es) = true
calls (_ ∷ es) = calls es

module _ {ℓ} {T : Type ℓ} (r : LockRun T) where
  under_lock_lem : still_locked true (under_lock r).effects ≡ false
  unfolding under_lock still_locked
  under_lock_lem = ground arith

  -- The lock was taken by a query that failed, and the connection outlives its release.
  abbrev pub leaks : Result Bool → Bool
  leaks locked = is_failed locked && r.taken_unseen && not r.lost_at_release

  try_lock_lem :
      (locked : Result Bool)
      → (calls (try_lock r locked).effects ≡ is_yes locked)
        × (still_locked (is_taken locked r.taken_unseen) (try_lock r locked).effects ≡ leaks locked)
  unfolding try_lock calls still_locked is_yes is_taken is_failed
  try_lock_lem (err e) = (refl, refl)
  try_lock_lem (ok false) = (refl, refl)
  try_lock_lem (ok true) = (refl, under_lock_lem)

  with_connection_lem :
      (connected : Result (Unit {0}))
      → r.connected ≡ connected
      → (calls (with_connection r connected).effects ≡ connects r && is_yes r.locked)
        × (still_locked (takes_lock r) (with_connection r connected).effects
            ≡ connects r && leaks r.locked)
  unfolding with_connection takes_lock connects calls still_locked
  with_connection_lem (err e) h = rw (h, takes_lock, connects) (refl, refl)
  with_connection_lem (ok t) h = rw (h, takes_lock, connects) (try_lock_lem r.locked)

  -- The function is called exactly where the connection is made and the query answers that the lock
  -- was taken. However the function, the unlock and the connection then fail, the lock is not held
  -- once the client is back in the pool. It is held there in one case only: the query for it failed,
  -- though the server took it, and the connection was not lost.
  pub with_advisory_lock_lem :
      (calls (with_advisory_lock r).effects ≡ connects r && is_yes r.locked)
      × (still_locked (takes_lock r) (with_advisory_lock r).effects ≡ connects r && leaks r.locked)
  unfolding with_advisory_lock
  with_advisory_lock_lem = with_connection_lem r.connected refl
