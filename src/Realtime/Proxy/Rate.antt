-- ===== src/Realtime/Proxy/Rate.antt =====
-- What a connection sends upstream: how much in a time, and which frames.
pub mod Spend
pub mod Run
use playkaboom.Common.{
  ℕ, suc, ◌+◌, ◌-◌, ◌*◌, ◌≤◌, ◌<◌, ◌≡◌, refl, sym, ap, ◌∙◌, arith, Bool, true, false, ◌||◌, ◌⊎◌,
  inl, inr, Option, none, some, List, [], ◌∷◌, ◌++◌, map, length, All, is_some, if◌then◌else◌,
  codes, Bool-cases, Option-cases, ltb, leb, ◌==◌,
}
use playkaboom.Common.Int.{
  ℤ, pos, negsuc, pos_part, neg_part, ◌+ℤ◌, ◌-ℤ◌, ◌*ℤ◌, ltb_ℤ, leb_ℤ, +ℤ_pos, -ℤ_pos, *ℤ_pos,
}
use playkaboom.Realtime.Json.{Json, calls_of}
use playkaboom.Sdk.Buffer.{Bytes}
use playkaboom.Realtime.Proxy.State.{
  Proxy, Surroundings, Effect, answer, to_client, to_upstream, close_client, terminate_client,
  close_upstream, terminate_upstream, close_both, unless_backed_up, rpc_error, note_message,
  note_messages, note_answer, start,
}
use playkaboom.Realtime.Proxy.{
  refill, first_id, spent, forward, spend, no_calls, answer_batch, gate, Event, client_message,
  upstream_message, upstream_opened, closed_by, upstream_error, client_error, on_client_message,
  note_upstream, pass_down, on_upstream_message, handle, run,
}
use playkaboom.Realtime.Proxy.Gate.{
  max_frame, max_batch, per_second, burst, is_allowed, method_of, RpcError, invalid, limited, Batch,
  admit_all,
}
use playkaboom.Realtime.Proxy.Flights.Passed.{Follows-start}
use playkaboom.Realtime.Proxy.Flights.{note_calls_lem}

refilled :
    (tokens : ℤ) (now last : ℕ)
    → neg_part tokens ≡ 0
    → last ≤ now
    → tokens +ℤ (pos now -ℤ pos last) *ℤ pos per_second
      ≡ pos (pos_part tokens + (now - last) * per_second)
refilled (pos t) now last no_debt h =
    rw (-ℤ_pos now last h, *ℤ_pos (now - last) per_second, +ℤ_pos t ((now - last) * per_second))
      refl
refilled (negsuc t) now last no_debt h = absurd (omega arith)

-- The bucket never holds a debt, and a refill adds at most what the time brings.
pub refill_lem :
    (now : ℕ) (p : Proxy)
    → neg_part p.tokens ≡ 0
    → p.last_refill ≤ now
    → (neg_part (refill now p).tokens ≡ 0)
      × (pos_part (refill now p).tokens ≤ pos_part p.tokens + (now - p.last_refill) * per_second)
unfolding refill
refill_lem now p no_debt h = rw (refilled p.tokens now p.last_refill no_debt h) (ground arith)

pub refill-now : (now : ℕ) (p : Proxy) → (refill now p).last_refill ≤ now
unfolding refill
refill-now now p = omega arith

pub spent_lem :
    (calls : List Json) (p : Proxy)
    → neg_part p.tokens ≡ 0
    → ltb_ℤ p.tokens (pos (length calls * 1000)) ≡ false
    → (neg_part (spent calls p).tokens ≡ 0)
      × (pos_part (spent calls p).tokens + length calls * 1000 ≡ pos_part p.tokens)
unfolding spent ◌-ℤ◌
spent_lem calls p no_debt h = ground arith

module _ (json_parse : Bytes → Option Json) where
  -- How many calls a frame makes
  unfoldable pub frame_calls : Bytes → ℕ
  frame_calls buf = elim (json_parse buf) [ none ↦ 0 | some parsed ↦ length (calls_of parsed) ]

  unfoldable pub waiting_calls : List Bytes → ℕ
  waiting_calls [] = 0
  waiting_calls (buf ∷ bufs) = frame_calls buf + waiting_calls bufs

  -- How many calls went to the upstream
  unfoldable pub sent_calls : List Effect → ℕ
  sent_calls [] = 0
  sent_calls (to_upstream buf ∷ effects) = frame_calls buf + sent_calls effects
  sent_calls (_ ∷ effects) = sent_calls effects

  -- A frame of one to ten calls of allowed methods, in 64 KiB
  abbrev pub IsPermitted : Bytes → Type 0
  IsPermitted buf =
      (length buf ≤ max_frame)
      × (parsed : Json) × (json_parse buf ≡ some parsed)
      × (0 < length (calls_of parsed))
      × (length (calls_of parsed) ≤ max_batch)
      × All (λ call. is_allowed (method_of call) ≡ true) (calls_of parsed)

  abbrev pub SendsPermitted : Effect → Type 0
  SendsPermitted (to_upstream buf) = IsPermitted buf
  SendsPermitted _ = Unit

  pub waiting_calls-append :
      (bufs : List Bytes) (buf : Bytes)
      → waiting_calls (bufs ++ buf ∷ []) ≡ waiting_calls bufs + frame_calls buf
  unfolding waiting_calls
  waiting_calls-append [] buf = omega arith
  waiting_calls-append (b ∷ bufs) buf = omega (arith, waiting_calls-append bufs buf)

  pub sent_calls-append :
      (es fs : List Effect) → sent_calls (es ++ fs) ≡ sent_calls es + sent_calls fs
  unfolding sent_calls
  sent_calls-append [] fs = omega arith
  sent_calls-append (to_upstream buf ∷ es) fs = omega (arith, sent_calls-append es fs)
  sent_calls-append (_ ∷ es) fs = sent_calls-append es fs

  pub sent_calls-map : (bufs : List Bytes) → sent_calls (map to_upstream bufs) ≡ waiting_calls bufs
  unfolding sent_calls waiting_calls
  sent_calls-map [] = refl
  sent_calls-map (buf ∷ bufs) = omega (arith, sent_calls-map bufs)

  pub permitted-map :
      (bufs : List Bytes) → All IsPermitted bufs → All SendsPermitted (map to_upstream bufs)
  permitted-map [] h = tt
  permitted-map (buf ∷ bufs) (h, hs) = (h, permitted-map bufs hs)

  pub IsPermitted-append :
      (bufs : List Bytes) (buf : Bytes)
      → All IsPermitted bufs
      → IsPermitted buf
      → All IsPermitted (bufs ++ buf ∷ [])
  IsPermitted-append [] buf h k = (k, tt)
  IsPermitted-append (b ∷ bufs) buf (h, hs) k = (h, IsPermitted-append bufs buf hs k)

  -- What has been sent and what waits, with what is left in the bucket, is within the budget since
  -- the time `t0`.
  pub record IsMetered (t0 sent : ℕ) (p : Proxy) : Type 0 where
    pub no_debt : neg_part p.tokens ≡ 0
    pub started : t0 ≤ p.last_refill
    pub budget :
        (sent + waiting_calls p.pending) * 1000 + pos_part p.tokens
        ≤ burst * 1000 + (p.last_refill - t0) * per_second
    pub permitted : All IsPermitted p.pending

  pub record Keeps (t0 sent now : ℕ) (r : Proxy × List Effect) : Type 0 where
    pub metered : IsMetered t0 (sent + sent_calls r.1) r.0
    pub sends : All SendsPermitted r.1
    pub before : r.0.last_refill ≤ now
