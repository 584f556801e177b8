-- ===== src/Web/RateLimit/Window.antt =====
-- How many hits of one key are allowed in any window of time.
use playkaboom.Common.{
  ℕ, ◌+◌, ◌-◌, ◌≤◌, ◌<◌, ◌≡◌, refl, arith, true, false, List, [], ◌∷◌, ◌++◌, ◌&&◌, le→ltb, lt→ltb,
  Bool-cases, inl, inr, if◌then◌else◌, length, replicate, length-append, length-replicate,
}
use playkaboom.Sdk.Buffer.{Bytes, bytes_eq}
use native.Mathlib.Decide.{dec_le}
use playkaboom.Sdk.Buffer.Laws.{bytes_eq_sound}
use playkaboom.Web.RateLimit.{Hits, hits_of, set_hits, recent, local_limit, max_keys}
use playkaboom.Web.RateLimit.Recent.{
  hits_of-set_hits, recent-append, recent-recent, length-recent, length-set_hits,
  hits_of-set_hits_other,
}

pub record Request : Type 0 where
  pub now : ℕ
  pub key : Bytes
  pub cost : ℕ

-- The limiter over a sequence of requests, with the times of the hits that it allows one key.
unfoldable pub serve : (max_hits : ℕ) (key : Bytes) → List Request → Hits → List ℕ → Hits × List ℕ
serve max_hits key [] all log = (all, log)
serve max_hits key (r ∷ rs) all log =
    let (next, result) = local_limit r.now r.key r.cost max_hits all in
    serve max_hits key rs next
      (if bytes_eq r.key key && result.allowed then log ++ replicate r.cost r.now else log)

-- The clock does not go back from `now` on.
abbrev pub InOrder : ℕ → List Request → Type 0
InOrder now [] = Unit
InOrder now (r ∷ rs) = (now ≤ r.now) × InOrder r.now rs

unfoldable pub last_time : ℕ → List Request → ℕ
last_time now [] = now
last_time now (r ∷ rs) = last_time r.now rs

module _ (max_hits : ℕ) (key : Bytes) where
  -- From `now` on, the limiter has the allowed hits that are recent, and they are few enough.
  record IsKept (now : ℕ) (all : Hits) (log : List ℕ) : Type 0 where
    same : (later : ℕ) → now ≤ later → recent later log ≡ recent later (hits_of all key)
    few : (later : ℕ) → now ≤ later → length (recent later log) ≤ max_hits

  trim-IsKept :
      (now at : ℕ) (all next : Hits) (log : List ℕ)
      → now ≤ at
      → IsKept now all log
      → hits_of next key ≡ recent at (hits_of all key)
      → IsKept at next log
  trim-IsKept now at all next log h k e = record {
    same = λ later le.
        rw (e, recent-recent at later (hits_of all key) le) (k.same later (omega arith));
    few = λ later le. k.few later (omega arith);
  }

  recent_more :
      (now at : ℕ) (all : Hits) (log more : List ℕ)
      → now ≤ at
      → IsKept now all log
      → (later : ℕ) → at ≤ later
      → recent later (log ++ more) ≡ recent later (recent at (hits_of all key) ++ more)
  recent_more now at all log more h k later le =
      rw
        (
          recent-append later log more,
          recent-append later (recent at (hits_of all key)) more,
          recent-recent at later (hits_of all key) le,
          k.same later (omega arith),
        )
        refl

  more-IsKept :
      (now at cost : ℕ) (all next : Hits) (log : List ℕ)
      → now ≤ at
      → IsKept now all log
      → hits_of next key ≡ recent at (hits_of all key) ++ replicate cost at
      → length (recent at (hits_of all key)) + cost ≤ max_hits
      → IsKept at next (log ++ replicate cost at)
  more-IsKept now at cost all next log h k e fits =
      let kept = hits_of all key in
      let whole = recent_more now at all log (replicate cost at) h k in
      record {
        same = λ later le. rw e (whole later le);
        few = λ later le. rw (whole later le) (
            omega (
              arith,
              length-recent later (recent at kept ++ replicate cost at),
              length-append (recent at kept) (replicate cost at),
              length-replicate cost at,
            ));
      }

  other-IsKept :
      (now at : ℕ) (all next : Hits) (log : List ℕ)
      → now ≤ at
      → IsKept now all log
      → hits_of next key ≡ hits_of all key
      → IsKept at next log
  other-IsKept now at all next log h k e = record {
    same = λ later le. rw e (k.same later (omega arith));
    few = λ later le. k.few later (omega arith);
  }

limit_refused :
    (now : ℕ) (key : Bytes) (cost max_hits : ℕ) (all : Hits)
    → length all ≤ max_keys
    → max_hits < length (recent now (hits_of all key)) + cost
    → local_limit now key cost max_hits all
      ≡ (set_hits all key (recent now (hits_of all key)), record { allowed = false; remaining = 0 })
unfolding local_limit
limit_refused now key cost max_hits all small over =
    rw
      (
        le→ltb max_keys (length all) small,
        lt→ltb max_hits (length (recent now (hits_of all key)) + cost) over,
      )
      refl

limit_allowed :
    (now : ℕ) (key : Bytes) (cost max_hits : ℕ) (all : Hits)
    → length all ≤ max_keys
    → length (recent now (hits_of all key)) + cost ≤ max_hits
    → local_limit now key cost max_hits all ≡ (
      set_hits all key (recent now (hits_of all key) ++ replicate cost now),
      record {
        allowed = true;
        remaining = max_hits - length (recent now (hits_of all key) ++ replicate cost now);
      },
    )
unfolding local_limit
limit_allowed now key cost max_hits all small fits =
    rw
      (
        le→ltb max_keys (length all) small,
        le→ltb max_hits (length (recent now (hits_of all key)) + cost) fits,
      )
      refl

module _ (max_hits : ℕ) (key : Bytes) where
  refused-IsKept :
      (now at cost : ℕ) (other : Bytes) (all : Hits) (log : List ℕ)
      → now ≤ at
      → IsKept max_hits key now all log
      → IsKept max_hits key at
          (set_hits all other (recent at (hits_of all other)))
          (if bytes_eq other key && false then log ++ replicate cost at else log)
  refused-IsKept now at cost other all log h k = elim (Bool-cases (bytes_eq other key)) [
    | inl ours ↦
        let same : other ≡ key = bytes_eq_sound other key ours in
        rw ours (
          trim-IsKept max_hits key now at all _ log h k
            (rw same (hits_of-set_hits all key (recent at (hits_of all key)))))
    | inr theirs ↦ rw theirs (
        other-IsKept max_hits key now at all _ log h k
          (hits_of-set_hits_other all key other (recent at (hits_of all other)) theirs))
  ]

  allowed-IsKept :
      (now at cost : ℕ) (other : Bytes) (all : Hits) (log : List ℕ)
      → now ≤ at
      → length (recent at (hits_of all other)) + cost ≤ max_hits
      → IsKept max_hits key now all log
      → IsKept max_hits key at
          (set_hits all other (recent at (hits_of all other) ++ replicate cost at))
          (if bytes_eq other key && true then log ++ replicate cost at else log)
  allowed-IsKept now at cost other all log h fits k = elim (Bool-cases (bytes_eq other key)) [
    | inl ours ↦
        let same : other ≡ key = bytes_eq_sound other key ours in
        rw ours (
          more-IsKept max_hits key now at cost all _ log h k
            (rw same (hits_of-set_hits all key (recent at (hits_of all key) ++ replicate cost at)))
            (rw same at fits))
    | inr theirs ↦ rw theirs (
        other-IsKept max_hits key now at all _ log h k (
          hits_of-set_hits_other all key other (recent at (hits_of all other) ++ replicate cost at)
            theirs))
  ]

  local_limit-IsKept :
      (now : ℕ) (all : Hits) (log : List ℕ) (r : Request)
      → now ≤ r.now
      → length all ≤ max_keys
      → IsKept max_hits key now all log
      → let (next, result) = local_limit r.now r.key r.cost max_hits all in
        IsKept max_hits key r.now next
          (if bytes_eq r.key key && result.allowed then log ++ replicate r.cost r.now else log)
        × (length next ≤ length all + 1)
  local_limit-IsKept now all log r h small k =
      let hits = recent r.now (hits_of all r.key) in
      elim (dec_le (length hits + r.cost) max_hits) [
        | no over ↦
            rw (limit_refused r.now r.key r.cost max_hits all small (omega arith))
              (refused-IsKept now r.now r.cost r.key all log h k, length-set_hits all r.key hits)
        | yes fits ↦ rw (limit_allowed r.now r.key r.cost max_hits all small fits) (
          allowed-IsKept now r.now r.cost r.key all log h fits k,
          length-set_hits all r.key (hits ++ replicate r.cost r.now),
        )
      ]

  serve-IsKept :
      (rs : List Request) (now : ℕ) (all : Hits) (log : List ℕ)
      → InOrder now rs
      → length all + length rs ≤ max_keys
      → IsKept max_hits key now all log
      → let (all₁, log₁) = serve max_hits key rs all log in
        IsKept max_hits key (last_time now rs) all₁ log₁
  unfolding serve last_time
  serve-IsKept [] now all log order few k = k
  serve-IsKept (r ∷ rs) now all log (later, order) few k =
      let (kept, size) = local_limit-IsKept now all log r later (omega arith) k in
      serve-IsKept rs r.now _ _ order (omega (arith, size)) kept

  -- Of one key's requests the limiter allows at most `max_hits` hits in any window of ten seconds,
  -- whatever other keys ask, while the clock does not go back, the key's budget is the same at
  -- each request, and the process has not seen more requests than the keys it keeps.
  pub serve-recent :
      (rs : List Request) (at : ℕ)
      → InOrder 0 rs
      → length rs ≤ max_keys
      → last_time 0 rs ≤ at
      → length (recent at (serve max_hits key rs [] []).1) ≤ max_hits
  unfolding recent hits_of
  serve-recent rs at order few le =
      let empty : IsKept max_hits key 0 [] [] = record {
        same = λ later le. refl;
        few = λ later le. omega arith;
      } in
      (serve-IsKept rs 0 [] [] order (omega arith) empty).few at le
