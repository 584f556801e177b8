-- ===== src/Realtime/Proxy/Subscriptions/Accounted.antt =====
-- The messages of the upstream, and what a connection asks for and notes while they come.
use playkaboom.Common.{
  ℕ, ◌+◌, ◌≡◌, arith, Bool, inl, inr, Option, none, some, List, [], ◌∷◌, ◌++◌, length, codes,
  Option-cases,
}
use playkaboom.Realtime.Json.{Json, calls_of}
use playkaboom.Sdk.Buffer.{Bytes}
use playkaboom.Realtime.Proxy.State.{Proxy, Surroundings, Effect, close_both}
use playkaboom.Realtime.Proxy.{
  client_message, upstream_message, upstream_opened, closed_by, upstream_error, client_error, Event,
  on_client_message, no_calls, note_upstream, on_upstream_message, handle,
}
use playkaboom.Realtime.Proxy.Gate.{Request, Batch, admit_all}
use playkaboom.Realtime.Proxy.Flights.Passed.{count_subs}
use playkaboom.Realtime.Proxy.Gate.{note_calls, Flight}
use playkaboom.Realtime.Proxy.Subscriptions.Asked.{
  count_calls, asks_subscription, has_id, asked, noted_counts,
}
use playkaboom.Realtime.Proxy.Subscriptions.Covered.{
  IsCovered, close_both-Covers, on_client_message-Covers, upstream_opened-Covers,
  on_upstream_message_lem,
}
use playkaboom.Realtime.Proxy.Subscriptions.Ends.{
  given_after_all, ends, answers, Held, Held-after_all,
}
use playkaboom.Realtime.Proxy.Subscriptions.Losses.{Loses, note_messages-Loses}
use playkaboom.Realtime.Proxy.Subscriptions.Bounds.{
  unsubscribe-not_subscribe, IsBounded, close_both-IsBounded,
}
use playkaboom.Realtime.Proxy.Subscriptions.Handlers.{
  on_upstream_message-IsBounded, handle-IsBounded, on_client_message-IsBounded,
}

module _ (json_parse : Bytes → Option Json) where
  -- The messages that an event brings from the upstream, and those of some events
  unfoldable pub messages : Event → List Json
  messages (upstream_message bytes is_binary) = elim (json_parse bytes) [
    | none ↦ []
    | some parsed ↦ calls_of parsed
  ]
  messages _ = []

  unfoldable pub all_messages : List (Surroundings × Event) → List Json
  all_messages [] = []
  all_messages ((s, event) ∷ events) = messages event ++ all_messages events

  abbrev pub level_subs : Flight → List Json → ℕ
  level_subs flight subs = length subs + flight.pending_subs

  abbrev pub level_requests : Flight → List Json → ℕ
  level_requests flight subs = length flight.inflight

  pub level_subs-grows :
      (calls : List Json) (batch : Batch) (flight : Flight) (subs : List Json)
      → admit_all flight.inflight (length subs + flight.pending_subs) calls no_calls ≡ inr batch
      → level_subs (note_calls calls flight) subs
        ≡ level_subs flight subs + count_calls asks_subscription calls
  level_subs-grows calls batch flight subs h =
      omega (arith, (noted_counts calls batch flight (length subs + flight.pending_subs) h).0)

  pub level_requests-grows :
      (calls : List Json) (batch : Batch) (flight : Flight) (subs : List Json)
      → admit_all flight.inflight (length subs + flight.pending_subs) calls no_calls ≡ inr batch
      → level_requests (note_calls calls flight) subs
        ≡ level_requests flight subs + count_calls has_id calls
  level_requests-grows calls batch flight subs h =
      (noted_counts calls batch flight (length subs + flight.pending_subs) h).1

  -- What holds after some events
  pub record IsAccounted (given : List Json) (subs_sent ended sent answered : ℕ) (p : Proxy)
      : Type 0 where
    pub bounded : IsBounded p
    pub subscriptions :
        IsCovered json_parse asks_subscription level_subs
          (Held given)
          level_subs-grows
          subs_sent
          ended
          p
    pub requests :
        IsCovered json_parse has_id level_requests (Held given) level_requests-grows sent answered p

  abbrev pub Accounts :
      (given : List Json) → (subs_sent ended sent answered : ℕ) → Proxy × List Effect → Type 0
  Accounts given subs_sent ended sent answered r =
      IsAccounted given (subs_sent + asked asks_subscription json_parse r.1) ended
        (sent + asked has_id json_parse r.1) answered r.0

  note_upstream-Loses :
      (given : List Json) (bytes : Bytes) (is_binary : Bool) (p : Proxy)
      → Held given p.subs
      → p.flight.pending_subs ≡ count_subs p.flight.inflight
      → let ms = messages (upstream_message bytes is_binary) in
        Loses given
          (given_after_all given ms)
          (ends given ms)
          (answers ms)
          p
          (note_upstream json_parse bytes p)
  unfolding note_upstream messages
  note_upstream-Loses given bytes is_binary p held counted =
      let apart = λ (call : Request). unsubscribe-not_subscribe call.method in
      elim (Option-cases (json_parse bytes)) [
        | inl e ↦
            rw (e, messages, note_upstream) (note_messages-Loses given [] p apart held counted)
        | inr (parsed, e) ↦
            rw (e, messages, note_upstream)
              (note_messages-Loses given (calls_of parsed) p apart held counted)
      ]

  credited :
      (given : List Json) (subs_sent ended sent answered : ℕ) (r : Proxy × List Effect)
      → Accounts given subs_sent ended sent answered r
      → Accounts
          (given_after_all given [])
          subs_sent
          (ended + ends given [])
          sent
          (answered + answers [])
          r
  unfolding given_after_all ends answers
  credited given subs_sent ended sent answered r v = record {
    bounded = v.bounded;
    subscriptions = record {
      covered = omega (arith, v.subscriptions.covered);
      kept = v.subscriptions.kept;
    };
    requests = record { covered = omega (arith, v.requests.covered); kept = v.requests.kept };
  }

  module _ (given : List Json) (subs_sent ended sent answered : ℕ) (s : Surroundings) where
    upstream_message-Accounts :
        (bytes : Bytes) (is_binary : Bool) (p : Proxy)
        → IsAccounted given subs_sent ended sent answered p
        → let ms = messages (upstream_message bytes is_binary) in
          Accounts
            (given_after_all given ms)
            subs_sent
            (ended + ends given ms)
            sent
            (answered + answers ms)
            (on_upstream_message json_parse s bytes is_binary p)
    upstream_message-Accounts bytes is_binary p v =
        let ms = messages (upstream_message bytes is_binary) in
        let lost =
          note_upstream-Loses given bytes is_binary p v.subscriptions.kept v.bounded.counted in
        let subs =
          on_upstream_message_lem json_parse asks_subscription s bytes is_binary p lost.waits in
        let others = on_upstream_message_lem json_parse has_id s bytes is_binary p lost.waits in
        let before = Held-after_all given ms p.subs v.subscriptions.kept in
        let held : Held (given_after_all given ms)
            (on_upstream_message json_parse s bytes is_binary p).0.subs =
          elim subs.2 [
            | inl (flight, same) ↦ rw same before
            | inr (flight, same) ↦ rw same lost.held
          ] in
        record {
          bounded = on_upstream_message-IsBounded json_parse s bytes is_binary p v.bounded;
          subscriptions = record {
            covered = elim subs.2 [
              | inl (flight, same) ↦
                  rw (flight, same, subs.0, subs.1) (omega (arith, v.subscriptions.covered))
              | inr (flight, same) ↦
                  rw (flight, same, subs.0, subs.1)
                    (omega (arith, v.subscriptions.covered, lost.subscriptions))
            ];
            kept = held;
          };
          requests = record {
            covered = elim others.2 [
              | inl (flight, same) ↦
                  rw (flight, others.0, others.1) (omega (arith, v.requests.covered))
              | inr (flight, same) ↦
                  rw (flight, others.0, others.1) (omega (arith, v.requests.covered, lost.requests))
            ];
            kept = held;
          };
        }

    closing-Accounts :
        (code : ℕ) (reason : Bytes) (p : Proxy)
        → IsAccounted given subs_sent ended sent answered p
        → Accounts given subs_sent ended sent answered (close_both s code reason p)
    closing-Accounts code reason p v = record {
      bounded = close_both-IsBounded s code reason p v.bounded;
      subscriptions =
          close_both-Covers json_parse asks_subscription level_subs (Held given) level_subs-grows
            subs_sent ended s code reason p v.subscriptions;
      requests =
          close_both-Covers json_parse has_id level_requests (Held given) level_requests-grows sent
            answered s code reason p v.requests;
    }

    pub handle-Accounts :
        (event : Event) (p : Proxy)
        → IsAccounted given subs_sent ended sent answered p
        → let ms = messages event in
          Accounts
            (given_after_all given ms)
            subs_sent
            (ended + ends given ms)
            sent
            (answered + answers ms)
            (handle json_parse s event p)
    unfolding handle messages
    handle-Accounts (client_message buf is_binary) p v =
        credited given subs_sent ended sent answered
          (on_client_message json_parse s buf is_binary p)
          (record {
            bounded = on_client_message-IsBounded json_parse s buf is_binary p v.bounded;
            subscriptions =
                on_client_message-Covers json_parse asks_subscription level_subs (Held given)
                  level_subs-grows subs_sent ended s buf is_binary p v.subscriptions;
            requests =
                on_client_message-Covers json_parse has_id level_requests (Held given)
                  level_requests-grows sent answered s buf is_binary p v.requests;
          })
    handle-Accounts (upstream_message bytes is_binary) p v =
        upstream_message-Accounts bytes is_binary p v
    handle-Accounts upstream_opened p v =
        credited given subs_sent ended sent answered (handle json_parse s upstream_opened p)
          (record {
            bounded = handle-IsBounded json_parse s upstream_opened p v.bounded;
            subscriptions =
                upstream_opened-Covers json_parse asks_subscription level_subs (Held given)
                  level_subs-grows subs_sent ended s p v.subscriptions;
            requests =
                upstream_opened-Covers json_parse has_id level_requests (Held given)
                  level_requests-grows sent answered s p v.requests;
          })
    handle-Accounts (closed_by code reason) p v =
        credited given subs_sent ended sent answered (close_both s code reason p)
          (closing-Accounts code reason p v)
    handle-Accounts upstream_error p v =
        credited given subs_sent ended sent answered (close_both s 1011 (codes "upstream error") p)
          (closing-Accounts 1011 (codes "upstream error") p v)
    handle-Accounts client_error p v =
        credited given subs_sent ended sent answered (close_both s 1011 (codes "client error") p)
          (closing-Accounts 1011 (codes "client error") p v)
