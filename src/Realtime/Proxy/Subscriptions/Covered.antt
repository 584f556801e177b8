-- ===== src/Realtime/Proxy/Subscriptions/Covered.antt =====
-- The calls of a kind that go upstream are covered by what the connection notes of them.
use playkaboom.Common.{
  ℕ, ◌+◌, ◌≤◌, ◌≡◌, refl, arith, Bool, ◌||◌, ◌⊎◌, inl, inr, Option, none, List, [], ◌∷◌, ◌++◌,
  length, codes, Bool-cases, Option-cases, ltb,
}
use playkaboom.Realtime.Json.{Json, calls_of}
use playkaboom.Sdk.Buffer.{Bytes}
use playkaboom.Realtime.Proxy.State.{
  Proxy, Surroundings, Effect, to_upstream, close_both, unless_backed_up, rpc_error,
}
use playkaboom.Realtime.Proxy.{
  refill, first_id, spent, forward, spend, no_calls, answer_batch, gate, upstream_opened,
  on_client_message, note_upstream, pass_down, on_upstream_message, handle,
}
use playkaboom.Realtime.Proxy.Gate.{
  max_frame, RpcError, invalid, limited, Batch, admit_all, Flight, note_calls,
}
use playkaboom.Realtime.Proxy.Subscriptions.Asked.{
  count_calls, in_frame, waiting, asked, waiting-append, asked-map,
}

-- `level` is how many calls of a kind are noted, and grows with each admitted frame by its own.
module _ (json_parse : Bytes → Option Json) (counts : Json → Bool) (level : Flight → List Json → ℕ)
    (Keeps : List Json → Type 0)
    (grows : (calls : List Json) (batch : Batch) (flight : Flight) (subs : List Json)
      → admit_all flight.inflight (length subs + flight.pending_subs) calls no_calls ≡ inr batch
      → level (note_calls calls flight) subs ≡ level flight subs + count_calls counts calls) where
  -- The calls that went upstream or wait are at most those noted and some credit, and something holds
  -- of the subscriptions.
  pub record IsCovered (sent credit : ℕ) (p : Proxy) : Type 0 where
    pub covered : sent + waiting counts json_parse p.pending ≤ level p.flight p.subs + credit
    pub kept : Keeps p.subs

  abbrev pub Covers : (sent credit : ℕ) → Proxy × List Effect → Type 0
  Covers sent credit r = IsCovered (sent + asked counts json_parse r.1) credit r.0

  module _ (sent credit : ℕ) (s : Surroundings) where
    -- A handler that sends nothing upstream, and keeps what is noted and what waits
    quiet-Covers :
        (p : Proxy) (r : Proxy × List Effect)
        → r.0.pending ≡ p.pending
        → r.0.flight ≡ p.flight
        → r.0.subs ≡ p.subs
        → asked counts json_parse r.1 ≡ 0
        → IsCovered sent credit p
        → Covers sent credit r
    quiet-Covers p r pending flight subs none_sent v = record {
      covered = rw (pending, flight, subs, none_sent) (omega (arith, v.covered));
      kept = rw subs v.kept;
    }

    pub close_both-Covers :
        (code : ℕ) (reason : Bytes) (p : Proxy)
        → IsCovered sent credit p
        → Covers sent credit (close_both s code reason p)
    unfolding close_both asked
    close_both-Covers code reason p v =
        quiet-Covers p (close_both s code reason p) (ground arith) (ground arith) (ground arith)
          (ground arith) v

    rpc_error-Covers :
        (error : RpcError) (p : Proxy)
        → IsCovered sent credit p
        → Covers sent credit (rpc_error s error p)
    unfolding rpc_error unless_backed_up asked
    rpc_error-Covers error p v =
        quiet-Covers p (rpc_error s error p) (ground arith) (ground arith) (ground arith)
          (ground arith) v

    sent-Covers :
        (buf : Bytes) (p : Proxy)
        → IsCovered (sent + in_frame counts json_parse buf) credit p
        → Covers sent credit (p, to_upstream buf ∷ [])
    unfolding asked
    sent-Covers buf p v = record { covered = omega (arith, v.covered); kept = v.kept }

    queued-Covers :
        (buf : Bytes) (p : Proxy)
        → IsCovered (sent + in_frame counts json_parse buf) credit p
        → Covers sent credit (record p { pending = p.pending ++ buf ∷ [] }, [])
    unfolding asked
    queued-Covers buf p v = record {
      covered = omega (arith, v.covered, waiting-append counts json_parse p.pending buf);
      kept = v.kept;
    }

    dropped :
        (buf : Bytes) (p : Proxy)
        → IsCovered (sent + in_frame counts json_parse buf) credit p
        → IsCovered sent credit p
    dropped buf p v = record { covered = omega (arith, v.covered); kept = v.kept }

    forward-Covers :
        (buf : Bytes) (p : Proxy)
        → IsCovered (sent + in_frame counts json_parse buf) credit p
        → Covers sent credit (forward s buf p)
    unfolding forward
    forward-Covers buf p v =
        let less = dropped buf p v in
        ground (
          arith,
          close_both-Covers 1011 (codes "upstream send error") p less,
          close_both-Covers 1013 (codes "too many buffered requests") p less,
          sent-Covers buf p v,
          queued-Covers buf p v,
        )

    spend-Covers :
        (buf : Bytes) (calls : List Json) (batch : Batch) (p : Proxy)
        → in_frame counts json_parse buf ≡ count_calls counts calls
        → admit_all p.flight.inflight (length p.subs + p.flight.pending_subs) calls no_calls
          ≡ inr batch
        → IsCovered sent credit p
        → Covers sent credit (spend s buf calls p)
    unfolding spend spent refill
    spend-Covers buf calls batch p own admitted v =
        let p' = refill s.now p in
        let refused = limited (first_id calls) "Rate limit exceeded" in
        let noted = grows calls batch p.flight p.subs admitted in
        ground (
          arith,
          rpc_error-Covers refused p' (record { covered = v.covered; kept = v.kept }),
          forward-Covers buf (spent calls p')
              (record { covered = omega (arith, v.covered, noted, own); kept = v.kept }),
        )

    answer_batch-Covers :
        (buf : Bytes) (calls : List Json) (p : Proxy) (r : RpcError ⊎ Batch)
        → in_frame counts json_parse buf ≡ count_calls counts calls
        → admit_all p.flight.inflight (length p.subs + p.flight.pending_subs) calls no_calls ≡ r
        → IsCovered sent credit p
        → Covers sent credit (answer_batch s buf calls p r)
    unfolding answer_batch
    answer_batch-Covers buf calls p (inl error) own h v = rpc_error-Covers error p v
    answer_batch-Covers buf calls p (inr batch) own h v = ground (
      arith,
      rpc_error-Covers (limited (first_id calls) "Too many pending requests") p v,
      spend-Covers buf calls batch p own h v,
    )

    gate-Covers :
        (buf : Bytes) (calls : List Json) (p : Proxy)
        → in_frame counts json_parse buf ≡ count_calls counts calls
        → IsCovered sent credit p
        → Covers sent credit (gate s buf calls p)
    unfolding gate
    gate-Covers buf calls p own v =
        let live = length p.subs + p.flight.pending_subs in
        ground (
          arith,
          rpc_error-Covers (invalid none) p v,
          answer_batch-Covers buf calls p (admit_all p.flight.inflight live calls no_calls) own refl
              v,
        )

    pub on_client_message-Covers :
        (buf : Bytes) (is_binary : Bool) (p : Proxy)
        → IsCovered sent credit p
        → Covers sent credit (on_client_message json_parse s buf is_binary p)
    unfolding on_client_message in_frame
    on_client_message-Covers buf is_binary p v =
        elim (Bool-cases (is_binary || ltb max_frame (length buf))) [
          | inl bad ↦ rw bad (rpc_error-Covers (invalid none) p v)
          | inr good ↦ elim (Option-cases (json_parse buf)) [
            | inl e ↦ rw (good, e) (rpc_error-Covers _ p v)
            | inr (parsed, e) ↦
                let own : in_frame counts json_parse buf ≡ count_calls counts (calls_of parsed) =
                  rw (in_frame, e) refl in
                rw (good, e) (gate-Covers buf (calls_of parsed) p own v)
          ]
        ]

    pub upstream_opened-Covers :
        (p : Proxy)
        → IsCovered sent credit p
        → Covers sent credit (handle json_parse s upstream_opened p)
    unfolding handle waiting
    upstream_opened-Covers p v = record {
      covered = omega (arith, v.covered, asked-map counts json_parse p.pending);
      kept = v.kept;
    }

-- A message of the upstream leaves what waits, sends nothing upstream, and leaves what is noted as it
-- was or as the message leaves it.
pub on_upstream_message_lem :
    (json_parse : Bytes → Option Json) (counts : Json → Bool) (s : Surroundings) (bytes : Bytes)
    (is_binary : Bool) (p : Proxy)
    → (note_upstream json_parse bytes p).pending ≡ p.pending
    → let r = on_upstream_message json_parse s bytes is_binary p in
      let p' = note_upstream json_parse bytes p in
      (asked counts json_parse r.1 ≡ 0)
      × (r.0.pending ≡ p.pending)
      × (((r.0.flight ≡ p.flight) × (r.0.subs ≡ p.subs))
          ⊎ ((r.0.flight ≡ p'.flight) × (r.0.subs ≡ p'.subs)))
unfolding on_upstream_message unless_backed_up pass_down close_both asked
on_upstream_message_lem json_parse counts s bytes is_binary p pending = ground arith
