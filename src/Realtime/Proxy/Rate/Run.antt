-- ===== src/Realtime/Proxy/Rate/Run.antt =====
-- What a connection sends upstream over its whole life.
use playkaboom.Common.{
  ℕ, ◌+◌, ◌-◌, ◌*◌, ◌≤◌, ◌<◌, ◌≡◌, refl, ◌∙◌, arith, Bool, ◌||◌, ◌⊎◌, inl, inr, Option, none, some,
  List, [], ◌∷◌, ◌++◌, length, All, codes, Bool-cases, Option-cases, ltb, ◌==◌,
}
use playkaboom.Realtime.Json.{Json, calls_of}
use playkaboom.Sdk.Buffer.{Bytes}
use playkaboom.Realtime.Proxy.State.{
  Proxy, Surroundings, Effect, close_both, unless_backed_up, note_message, note_messages,
  note_answer, start,
}
use playkaboom.Realtime.Proxy.{
  no_calls, gate, Event, client_message, upstream_message, upstream_opened, closed_by,
  upstream_error, client_error, on_client_message, note_upstream, pass_down, on_upstream_message,
  handle, run,
}
use playkaboom.Realtime.Proxy.Gate.{
  max_frame, max_batch, per_second, burst, RpcError, invalid, Batch, admit_all,
}
use playkaboom.Realtime.Proxy.Flights.Passed.{Follows-start}
use playkaboom.Realtime.Proxy.Flights.{note_calls_lem}
use playkaboom.Realtime.Proxy.Rate.{
  frame_calls, waiting_calls, sent_calls, IsPermitted, SendsPermitted, sent_calls-append,
  sent_calls-map, permitted-map, IsMetered, Keeps,
}
use playkaboom.Realtime.Proxy.Rate.Spend.{
  quiet-Keeps, close_both-Keeps, rpc_error-Keeps, answer_batch-Keeps,
}

-- The upstream's messages leave the bucket and what waits alone.
module _ (m : Json) (p : Proxy) where
  note_message-quiet :
      ((note_message m p).pending ≡ p.pending)
      × ((note_message m p).tokens ≡ p.tokens)
      × ((note_message m p).last_refill ≡ p.last_refill)
  unfolding note_message note_answer
  note_message-quiet = ground arith

note_messages-quiet :
    (ms : List Json) (p : Proxy)
    → ((note_messages ms p).pending ≡ p.pending)
      × ((note_messages ms p).tokens ≡ p.tokens)
      × ((note_messages ms p).last_refill ≡ p.last_refill)
unfolding note_messages
note_messages-quiet [] p = (refl, refl, refl)
note_messages-quiet (m ∷ ms) p =
    let first = note_message-quiet m p in
    let rest = note_messages-quiet ms (note_message m p) in
    (rest.0 ∙ first.0, rest.1 ∙ first.1, rest.2 ∙ first.2)

module _ (json_parse : Bytes → Option Json) where
  note_upstream-quiet :
      (bytes : Bytes) (p : Proxy)
      → ((note_upstream json_parse bytes p).pending ≡ p.pending)
        × ((note_upstream json_parse bytes p).tokens ≡ p.tokens)
        × ((note_upstream json_parse bytes p).last_refill ≡ p.last_refill)
  unfolding note_upstream
  note_upstream-quiet bytes p = elim (Option-cases (json_parse bytes)) [
    | inl e ↦ ground arith
    | inr (parsed, e) ↦ ground (arith, note_messages-quiet (calls_of parsed) p)
  ]

  admitted-IsPermitted :
      (buf : Bytes) (parsed : Json) (p : Proxy) (r : RpcError ⊎ Batch)
      → json_parse buf ≡ some parsed
      → length buf ≤ max_frame
      → 0 < length (calls_of parsed)
      → length (calls_of parsed) ≤ max_batch
      → admit_all p.flight.inflight
          (length p.subs + p.flight.pending_subs)
          (calls_of parsed)
          no_calls
        ≡ r
      → IsPermitted json_parse buf ⊎ ((error : RpcError) × (r ≡ inl error))
  admitted-IsPermitted buf parsed p (inl error) e small some_calls few h = inr (error, refl)
  admitted-IsPermitted buf parsed p (inr batch) e small some_calls few h =
      let live = length p.subs + p.flight.pending_subs in
      let noted =
        note_calls_lem p.flight.inflight live (calls_of parsed) no_calls batch p.flight h
          (Follows-start p.flight.inflight) in
      inl (small, parsed, e, some_calls, few, noted.2)

  module _ (t0 sent : ℕ) (s : Surroundings) where
    gate-Keeps :
        (buf : Bytes) (parsed : Json) (p : Proxy)
        → json_parse buf ≡ some parsed
        → length buf ≤ max_frame
        → IsMetered json_parse t0 sent p
        → p.last_refill ≤ s.now
        → Keeps json_parse t0 sent s.now (gate s buf (calls_of parsed) p)
    unfolding gate frame_calls
    gate-Keeps buf parsed p e small v h =
        let calls = calls_of parsed in
        let live = length p.subs + p.flight.pending_subs in
        let many : frame_calls json_parse buf ≡ length calls = rw (e, frame_calls) refl in
        elim (Bool-cases (length calls == 0 || ltb max_batch (length calls))) [
          | inl bad ↦ rw bad (rpc_error-Keeps json_parse t0 sent s (invalid none) p v h)
          | inr good ↦
              let admitted = admit_all p.flight.inflight live calls no_calls in
              let fine =
                admitted-IsPermitted buf parsed p admitted e small (ground arith) (ground arith)
                  refl in
              rw good (answer_batch-Keeps json_parse t0 sent s buf calls p admitted fine many v h)
        ]

    on_client_message-Keeps :
        (buf : Bytes) (is_binary : Bool) (p : Proxy)
        → IsMetered json_parse t0 sent p
        → p.last_refill ≤ s.now
        → Keeps json_parse t0 sent s.now (on_client_message json_parse s buf is_binary p)
    unfolding on_client_message
    on_client_message-Keeps buf is_binary p v h =
        elim (Bool-cases (is_binary || ltb max_frame (length buf))) [
          | inl bad ↦ rw bad (rpc_error-Keeps json_parse t0 sent s (invalid none) p v h)
          | inr good ↦ elim (Option-cases (json_parse buf)) [
            | inl e ↦ rw (good, e) (rpc_error-Keeps json_parse t0 sent s _ p v h)
            | inr (parsed, e) ↦ rw (good, e) (gate-Keeps buf parsed p e (ground arith) v h)
          ]
        ]

    on_upstream_message-Keeps :
        (bytes : Bytes) (is_binary : Bool) (p : Proxy)
        → IsMetered json_parse t0 sent p
        → p.last_refill ≤ s.now
        → Keeps json_parse t0 sent s.now (on_upstream_message json_parse s bytes is_binary p)
    unfolding on_upstream_message unless_backed_up pass_down close_both sent_calls
    on_upstream_message-Keeps bytes is_binary p v h =
        let noted = note_upstream-quiet bytes p in
        quiet-Keeps json_parse t0 sent s p (on_upstream_message json_parse s bytes is_binary p)
          (ground arith) (ground arith) (ground arith) (ground arith) (ground arith) v h

    handle-Keeps :
        (event : Event) (p : Proxy)
        → IsMetered json_parse t0 sent p
        → p.last_refill ≤ s.now
        → Keeps json_parse t0 sent s.now (handle json_parse s event p)
    unfolding handle waiting_calls
    handle-Keeps (client_message buf is_binary) p v h = on_client_message-Keeps buf is_binary p v h
    handle-Keeps (upstream_message bytes is_binary) p v h =
        on_upstream_message-Keeps bytes is_binary p v h
    handle-Keeps upstream_opened p v h = record {
      metered = record {
        no_debt = v.no_debt;
        started = v.started;
        budget = omega (arith, v.budget, sent_calls-map json_parse p.pending);
        permitted = tt;
      };
      sends = permitted-map json_parse p.pending v.permitted;
      before = h;
    }
    handle-Keeps (closed_by code reason) p v h =
        close_both-Keeps json_parse t0 sent s code reason p v h
    handle-Keeps upstream_error p v h =
        close_both-Keeps json_parse t0 sent s 1011 (codes "upstream error") p v h
    handle-Keeps client_error p v h =
        close_both-Keeps json_parse t0 sent s 1011 (codes "client error") p v h

  -- The clock does not go back, and the time of the last event.
  abbrev pub InOrder : ℕ → List (Surroundings × Event) → Type 0
  InOrder t [] = Unit
  InOrder t ((s, event) ∷ events) = (t ≤ s.now) × InOrder s.now events

  abbrev pub last_time : ℕ → List (Surroundings × Event) → ℕ
  last_time t [] = t
  last_time t ((s, event) ∷ events) = last_time s.now events

  permitted-append_sends :
      (es fs : List Effect)
      → All (SendsPermitted json_parse) es
      → All (SendsPermitted json_parse) fs
      → All (SendsPermitted json_parse) (es ++ fs)
  permitted-append_sends [] fs h k = k
  permitted-append_sends (e ∷ es) fs (h, hs) k = (h, permitted-append_sends es fs hs k)

  run-Keeps :
      (t0 sent now : ℕ) (events : List (Surroundings × Event)) (p : Proxy)
      → IsMetered json_parse t0 sent p
      → p.last_refill ≤ now
      → InOrder now events
      → Keeps json_parse t0 sent (last_time now events) (run json_parse events p)
  unfolding run sent_calls
  run-Keeps t0 sent now [] p v h order = record {
    metered = record {
      no_debt = v.no_debt;
      started = v.started;
      budget = omega (arith, v.budget);
      permitted = v.permitted;
    };
    sends = tt;
    before = h;
  }
  run-Keeps t0 sent now ((s, event) ∷ events) p v h (le, order) =
      let r = handle json_parse s event p in
      let kept = handle-Keeps t0 sent s event p v (omega arith) in
      let sent' = sent + sent_calls json_parse r.1 in
      let rest = run-Keeps t0 sent' s.now events r.0 kept.metered kept.before order in
      let both = sent_calls-append json_parse r.1 (run json_parse events r.0).1 in
      record {
        metered = record {
          no_debt = rest.metered.no_debt;
          started = rest.metered.started;
          budget = omega (arith, rest.metered.budget);
          permitted = rest.metered.permitted;
        };
        sends = permitted-append_sends r.1 (run json_parse events r.0).1 kept.sends rest.sends;
        before = rest.before;
      }

  -- The calls that went upstream are at most 40 and twelve for each second, and each frame that did
  -- is permitted.
  abbrev pub IsWithinBudget : ℕ → List (Surroundings × Event) → Type 0
  IsWithinBudget t0 events =
      (sent_calls json_parse (run json_parse events (start t0)).1 * 1000
        ≤ burst * 1000 + (last_time t0 events - t0) * per_second)
      × All (SendsPermitted json_parse) (run json_parse events (start t0)).1

  -- While the clock does not go back, the calls that a connection sends upstream are at most 40 and
  -- twelve for each second since it opened, and each frame that it sends is one to ten calls of
  -- allowed methods in at most 64 KiB.
  pub run_budget :
      (t0 : ℕ) (events : List (Surroundings × Event)) → InOrder t0 events → IsWithinBudget t0 events
  unfolding start waiting_calls
  run_budget t0 events order =
      let kept =
        run-Keeps t0 0 t0 events (start t0)
          (record { no_debt = refl; started = omega arith; budget = omega arith; permitted = tt })
          (omega arith) order in
      (omega (arith, kept.metered.budget, kept.before, kept.metered.started), kept.sends)
