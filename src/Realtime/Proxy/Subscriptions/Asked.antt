-- ===== src/Realtime/Proxy/Subscriptions/Asked.antt =====
-- The calls of a kind that a connection asks the upstream for, against what it notes of them.
use playkaboom.Common.{
  ℕ, ◌+◌, ◌≡◌, refl, arith, Bool, inl, inr, Option, none, some, List, [], ◌∷◌, ◌++◌, map, length,
  codes, Either-cases, is_some,
}
use playkaboom.Realtime.Json.{Json, member, calls_of}
use playkaboom.Sdk.Buffer.{Bytes}
use playkaboom.Realtime.Proxy.State.{Effect, to_upstream}
use playkaboom.Realtime.Proxy.{no_calls}
use playkaboom.Realtime.Proxy.Gate.{
  id_key, is_subscribe, method_of, Request, Batch, admit, admit_all, Flight, note_calls,
}
use playkaboom.Realtime.Proxy.Flights.Passed.{one_if, Admitted, unkeyed, keyed, Follows-start}
use playkaboom.Realtime.Proxy.Flights.{admit_lem, note_calls_lem}

module _ (counts : Json → Bool) where
  -- How many of some calls are of the kind
  unfoldable pub count_calls : List Json → ℕ
  count_calls [] = 0
  count_calls (call ∷ calls) = one_if (counts call) + count_calls calls

  module _ (json_parse : Bytes → Option Json) where
    unfoldable pub in_frame : Bytes → ℕ
    unfolding count_calls
    in_frame buf = elim (json_parse buf) [ none ↦ 0 | some parsed ↦ count_calls (calls_of parsed) ]

    -- How many wait for the upstream to open
    unfoldable pub waiting : List Bytes → ℕ
    unfolding in_frame
    waiting [] = 0
    waiting (buf ∷ bufs) = in_frame buf + waiting bufs

    -- How many went upstream
    unfoldable pub asked : List Effect → ℕ
    unfolding in_frame
    asked [] = 0
    asked (to_upstream buf ∷ effects) = in_frame buf + asked effects
    asked (_ ∷ effects) = asked effects

    pub waiting-append :
        (bufs : List Bytes) (buf : Bytes) → waiting (bufs ++ buf ∷ []) ≡ waiting bufs + in_frame buf
    unfolding waiting
    waiting-append [] buf = omega arith
    waiting-append (b ∷ bufs) buf = omega (arith, waiting-append bufs buf)

    pub asked-append : (es fs : List Effect) → asked (es ++ fs) ≡ asked es + asked fs
    unfolding asked
    asked-append [] fs = omega arith
    asked-append (to_upstream buf ∷ es) fs = omega (arith, asked-append es fs)
    asked-append (_ ∷ es) fs = asked-append es fs

    pub asked-map : (bufs : List Bytes) → asked (map to_upstream bufs) ≡ waiting bufs
    unfolding asked waiting
    asked-map [] = refl
    asked-map (buf ∷ bufs) = omega (arith, asked-map bufs)

-- A call for a subscription, and a call with an id that its answer can be told by
abbrev pub asks_subscription : Json → Bool
asks_subscription call = is_subscribe (method_of call)

abbrev pub has_id : Json → Bool
has_id call = is_some (id_key (member (codes "id") call))

-- A frame's batch counts its calls.
Admitted-counts :
    (inflight : List Request) (live : ℕ) (call : Json) (batch batch' : Batch)
    → Admitted inflight live call batch batch'
    → (batch'.new_subs ≡ batch.new_subs + one_if (asks_subscription call))
      × (length batch'.keys ≡ length batch.keys + one_if (has_id call))
Admitted-counts inflight live call batch batch' (unkeyed is_key no_sub same) =
    rw (same, no_sub, is_key) (omega arith, omega arith)
Admitted-counts inflight live call batch batch' (keyed key is_key fresh keys subs bound) =
    rw (is_key, keys) (omega (arith, subs), omega arith)

pub admit_all_counts :
    (inflight : List Request) (live : ℕ) (calls : List Json) (batch batch' : Batch)
    → admit_all inflight live calls batch ≡ inr batch'
    → (batch'.new_subs ≡ batch.new_subs + count_calls asks_subscription calls)
      × (length batch'.keys ≡ length batch.keys + count_calls has_id calls)
unfolding admit_all count_calls
admit_all_counts inflight live [] batch batch' h =
    let same : batch ≡ batch' = cc in rw (← same) (omega arith, omega arith)
admit_all_counts inflight live (call ∷ calls) batch batch' h =
    elim (Either-cases (admit inflight live call batch)) [
      | inl (error, e) ↦ absurd (ground arith)
      | inr (middle, e) ↦
          let rest : admit_all inflight live calls middle ≡ inr batch' = ground arith in
          let first =
            Admitted-counts inflight live call batch middle
              (admit_lem inflight live batch middle call e).1 in
          let others = admit_all_counts inflight live calls middle batch' rest in
          (omega (arith, first.0, others.0), omega (arith, first.1, others.1))
    ]

-- What an admitted frame adds to what is noted
pub noted_counts :
    (calls : List Json) (batch : Batch) (flight : Flight) (live : ℕ)
    → admit_all flight.inflight live calls no_calls ≡ inr batch
    → ((note_calls calls flight).pending_subs
        ≡ flight.pending_subs + count_calls asks_subscription calls)
      × (length (note_calls calls flight).inflight
          ≡ length flight.inflight + count_calls has_id calls)
noted_counts calls batch flight live h =
    let grown =
      (note_calls_lem flight.inflight live calls no_calls batch flight h
        (Follows-start flight.inflight)).0 in
    let counted = admit_all_counts flight.inflight live calls no_calls batch h in
    (omega (arith, grown.more_pending, counted.0), omega (arith, grown.more_requests, counted.1))
