-- ===== src/Web/RateLimit.antt =====
-- apps/web/src/server/ratelimit.ts: the limiter that a process keeps by itself.
pub mod Recent
pub mod Window
use playkaboom.Common.{
  ℕ, zero, suc, ◌+◌, ◌-◌, Bool, true, false, List, [], ◌∷◌, ◌++◌, ltb, if◌then◌else◌, length,
  replicate,
}
use playkaboom.Sdk.Buffer.{Bytes, bytes_eq}

abbrev pub window_ms : ℕ
window_ms = 10000

abbrev pub max_keys : ℕ
max_keys = 10000

-- `localHits`: the hits of each key, a time for each. A key is the bytes of its text.
abbrev pub Hits : Type 0
Hits = List (Bytes × List ℕ)

-- `localHits.get(key) ?? []`
unfoldable pub hits_of : Hits → Bytes → List ℕ
hits_of [] key = []
hits_of ((k, hits) ∷ rest) key = if bytes_eq k key then hits else hits_of rest key

-- `localHits.set(key, hits)`
unfoldable pub set_hits : Hits → Bytes → List ℕ → Hits
set_hits [] key hits = (key, hits) ∷ []
set_hits ((k, old) ∷ rest) key hits =
    let rest' = set_hits rest key hits in
    if bytes_eq k key then (k, hits) ∷ rest else (k, old) ∷ rest'

-- The hits `t` with `now - t < WINDOW_MS`
unfoldable pub recent : ℕ → List ℕ → List ℕ
recent now [] = []
recent now (t ∷ ts) = let rest = recent now ts in if ltb now (t + window_ms) then t ∷ rest else rest

pub record LimitResult : Type 0 where
  pub allowed : Bool
  pub remaining : ℕ

unfoldable pub local_limit : (now : ℕ) (key : Bytes) (cost max_hits : ℕ) → Hits → Hits × LimitResult
local_limit now key cost max_hits all =
    let kept = if ltb max_keys (length all) then [] else all in
    let hits = recent now (hits_of kept key) in
    let more = hits ++ replicate cost now in
    if ltb max_hits (length hits + cost)
    then (set_hits kept key hits, record { allowed = false; remaining = 0 })
    else (set_hits kept key more, record { allowed = true; remaining = max_hits - length more })
