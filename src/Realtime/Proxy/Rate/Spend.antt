-- ===== src/Realtime/Proxy/Rate/Spend.antt =====
-- A frame that passes the gate is paid for from the bucket.
use playkaboom.Common.{
  ℕ, ◌+◌, ◌*◌, ◌≤◌, ◌≡◌, arith, false, ◌⊎◌, inl, inr, Option, List, [], ◌∷◌, ◌++◌, length, All,
  codes, Bool-cases,
}
use playkaboom.Common.Int.{pos, ltb_ℤ}
use playkaboom.Realtime.Json.{Json}
use playkaboom.Sdk.Buffer.{Bytes}
use playkaboom.Realtime.Proxy.State.{
  Proxy, Surroundings, Effect, to_upstream, close_both, unless_backed_up, rpc_error,
}
use playkaboom.Realtime.Proxy.{refill, first_id, spent, forward, spend, answer_batch}
use playkaboom.Realtime.Proxy.Gate.{RpcError, limited, Batch}
use playkaboom.Realtime.Proxy.Rate.{
  refill_lem, spent_lem, refill-now, frame_calls, sent_calls, IsPermitted, SendsPermitted,
  waiting_calls-append, IsPermitted-append, IsMetered, Keeps,
}

module _ (json_parse : Bytes → Option Json) where
  module _ (t0 sent : ℕ) (s : Surroundings) where
    -- A handler that neither sends upstream nor touches the bucket or what waits
    pub quiet-Keeps :
        (p : Proxy) (r : Proxy × List Effect)
        → r.0.pending ≡ p.pending
        → r.0.tokens ≡ p.tokens
        → r.0.last_refill ≡ p.last_refill
        → sent_calls json_parse r.1 ≡ 0
        → All (SendsPermitted json_parse) r.1
        → IsMetered json_parse t0 sent p
        → p.last_refill ≤ s.now
        → Keeps json_parse t0 sent s.now r
    quiet-Keeps p r pending tokens last none_sent sends v h = record {
      metered = record {
        no_debt = rw tokens v.no_debt;
        started = rw last v.started;
        budget = rw (pending, tokens, last, none_sent) (omega (arith, v.budget));
        permitted = rw pending v.permitted;
      };
      sends = sends;
      before = rw last h;
    }

    pub close_both-Keeps :
        (code : ℕ) (reason : Bytes) (p : Proxy)
        → IsMetered json_parse t0 sent p
        → p.last_refill ≤ s.now
        → Keeps json_parse t0 sent s.now (close_both s code reason p)
    unfolding close_both sent_calls
    close_both-Keeps code reason p v h =
        quiet-Keeps p (close_both s code reason p) (ground arith) (ground arith) (ground arith)
          (ground arith) (ground arith) v h

    pub rpc_error-Keeps :
        (error : RpcError) (p : Proxy)
        → IsMetered json_parse t0 sent p
        → p.last_refill ≤ s.now
        → Keeps json_parse t0 sent s.now (rpc_error s error p)
    unfolding rpc_error unless_backed_up sent_calls
    rpc_error-Keeps error p v h =
        quiet-Keeps p (rpc_error s error p) (ground arith) (ground arith) (ground arith)
          (ground arith) (ground arith) v h

    pub sent-Keeps :
        (buf : Bytes) (p : Proxy)
        → IsPermitted json_parse buf
        → IsMetered json_parse t0 (sent + frame_calls json_parse buf) p
        → p.last_refill ≤ s.now
        → Keeps json_parse t0 sent s.now (p, to_upstream buf ∷ [])
    unfolding sent_calls
    sent-Keeps buf p fine v h = record {
      metered = record {
        no_debt = v.no_debt;
        started = v.started;
        budget = omega (arith, v.budget);
        permitted = v.permitted;
      };
      sends = (fine, tt);
      before = h;
    }

    pub queued-Keeps :
        (buf : Bytes) (p : Proxy)
        → IsPermitted json_parse buf
        → IsMetered json_parse t0 (sent + frame_calls json_parse buf) p
        → p.last_refill ≤ s.now
        → Keeps json_parse t0 sent s.now (record p { pending = p.pending ++ buf ∷ [] }, [])
    unfolding sent_calls
    queued-Keeps buf p fine v h = record {
      metered = record {
        no_debt = v.no_debt;
        started = v.started;
        budget = omega (arith, v.budget, waiting_calls-append json_parse p.pending buf);
        permitted = IsPermitted-append json_parse p.pending buf v.permitted fine;
      };
      sends = tt;
      before = h;
    }

    dropped :
        (buf : Bytes) (p : Proxy)
        → IsMetered json_parse t0 (sent + frame_calls json_parse buf) p
        → IsMetered json_parse t0 sent p
    dropped buf p v = record {
      no_debt = v.no_debt;
      started = v.started;
      budget = omega (arith, v.budget);
      permitted = v.permitted;
    }

    pub forward-Keeps :
        (buf : Bytes) (p : Proxy)
        → IsPermitted json_parse buf
        → IsMetered json_parse t0 (sent + frame_calls json_parse buf) p
        → p.last_refill ≤ s.now
        → Keeps json_parse t0 sent s.now (forward s buf p)
    unfolding forward
    forward-Keeps buf p fine v h =
        let less = dropped buf p v in
        ground (
          arith,
          close_both-Keeps 1011 (codes "upstream send error") p less h,
          close_both-Keeps 1013 (codes "too many buffered requests") p less h,
          sent-Keeps buf p fine v h,
          queued-Keeps buf p fine v h,
        )

    pub refill-IsMetered :
        (p : Proxy)
        → IsMetered json_parse t0 sent p
        → p.last_refill ≤ s.now
        → IsMetered json_parse t0 sent (refill s.now p)
    unfolding refill
    refill-IsMetered p v h =
        let filled = refill_lem s.now p v.no_debt h in
        record {
          no_debt = filled.0;
          started = omega (arith, v.started);
          budget = omega (arith, v.budget, v.started, filled.1);
          permitted = v.permitted;
        }

    pub spent-IsMetered :
        (buf : Bytes) (calls : List Json) (p : Proxy)
        → frame_calls json_parse buf ≡ length calls
        → ltb_ℤ p.tokens (pos (length calls * 1000)) ≡ false
        → IsMetered json_parse t0 sent p
        → IsMetered json_parse t0 (sent + frame_calls json_parse buf) (spent calls p)
    unfolding spent
    spent-IsMetered buf calls p many enough v =
        let taken = spent_lem calls p v.no_debt enough in
        record {
          no_debt = taken.0;
          started = v.started;
          budget = omega (arith, v.budget, taken.1);
          permitted = v.permitted;
        }

    pub spend-Keeps :
        (buf : Bytes) (calls : List Json) (p : Proxy)
        → IsPermitted json_parse buf
        → frame_calls json_parse buf ≡ length calls
        → IsMetered json_parse t0 sent p
        → p.last_refill ≤ s.now
        → Keeps json_parse t0 sent s.now (spend s buf calls p)
    unfolding spend
    spend-Keeps buf calls p fine many v h =
        let p' = refill s.now p in
        let v' = refill-IsMetered p v h in
        let now' : p'.last_refill ≤ s.now = refill-now s.now p in
        elim (Bool-cases (ltb_ℤ p'.tokens (pos (length calls * 1000)))) [
          | inl short ↦
              rw short (rpc_error-Keeps (limited (first_id calls) "Rate limit exceeded") p' v' now')
          | inr enough ↦ rw enough (
              forward-Keeps buf (spent calls p') fine (spent-IsMetered buf calls p' many enough v')
                now')
        ]

    pub answer_batch-Keeps :
        (buf : Bytes) (calls : List Json) (p : Proxy) (r : RpcError ⊎ Batch)
        → IsPermitted json_parse buf ⊎ ((error : RpcError) × (r ≡ inl error))
        → frame_calls json_parse buf ≡ length calls
        → IsMetered json_parse t0 sent p
        → p.last_refill ≤ s.now
        → Keeps json_parse t0 sent s.now (answer_batch s buf calls p r)
    unfolding answer_batch
    answer_batch-Keeps buf calls p (inl error) fine many v h = rpc_error-Keeps error p v h
    answer_batch-Keeps buf calls p (inr batch) (inr (error, e)) many v h = cc
    answer_batch-Keeps buf calls p (inr batch) (inl fine) many v h = ground (
      arith,
      rpc_error-Keeps (limited (first_id calls) "Too many pending requests") p v h,
      spend-Keeps buf calls p fine many v h,
    )
