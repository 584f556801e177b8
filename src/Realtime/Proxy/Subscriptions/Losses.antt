-- ===== src/Realtime/Proxy/Subscriptions/Losses.antt =====
-- What the messages of an upstream take from what a connection notes.
use playkaboom.Common.{
  ◌∙◌, ℕ, ◌+◌, ◌≤◌, ◌≡◌, refl, arith, true, false, inl, inr, some, List, [], ◌∷◌, length, codes,
  Bool-cases, Option-cases,
}
use playkaboom.Realtime.Json.{Json, member}
use playkaboom.Realtime.Proxy.State.{
  Proxy, remove_value, is_final, notified_subscription, is_signature_notification, note_answer,
  note_message, note_messages,
}
use playkaboom.Realtime.Proxy.Gate.{
  is_subscribe, is_unsubscribe, IdKey, id_key, Request, request_of,
}
use playkaboom.Realtime.Proxy.Flights.Passed.{one_if, count_subs, delete_request_lem}
use playkaboom.Realtime.Proxy.Subscriptions.Asked.{has_id}
use playkaboom.Realtime.Proxy.Subscriptions.Ends.{
  gives_none, can_end, given_after, given_after_all, ends, answers, Held, length-remove_least,
  Held-after, Held-remove, unsubscribed_lem, subscribed_lem,
}

-- What one message, or some of them, take from what a connection notes, and which subscriptions it
-- then holds
pub record Loses (given given' : List Json) (ended answered : ℕ) (p p' : Proxy) : Type 0 where
  pub subscriptions :
      length p.subs + p.flight.pending_subs ≤ length p'.subs + p'.flight.pending_subs + ended
  pub requests : length p.flight.inflight ≤ length p'.flight.inflight + answered
  pub held : Held given' p'.subs
  pub counted : p'.flight.pending_subs ≡ count_subs p'.flight.inflight
  pub waits : p'.pending ≡ p.pending

module _ (given : List Json) (m : Json) (p : Proxy) (held : Held given p.subs)
    (counted : p.flight.pending_subs ≡ count_subs p.flight.inflight) where
  note_answer-Loses :
      (key : IdKey) (call : Request)
      → request_of p.flight.inflight key ≡ some call
      → (is_unsubscribe call.method ≡ true → is_subscribe call.method ≡ false)
      → Loses given
          (given_after given m)
          (one_if (gives_none given m))
          1
          p
          (note_answer m key call p)
  unfolding note_answer
  note_answer-Loses key call found apart =
      let less = delete_request_lem p.flight.inflight key call found in
      let ended = unsubscribed_lem given p.subs m call.unsub_id held in
      let begun = subscribed_lem given p.subs m held in
      elim (Bool-cases (is_unsubscribe call.method)) [
        | inl unsub ↦ rw unsub (record {
          subscriptions = omega (arith, ended.0);
          requests = omega (arith, less.0);
          held = ended.1;
          counted = ground (arith, less.1, apart unsub);
          waits = refl;
        })
        | inr other ↦ elim (Bool-cases (is_subscribe call.method)) [
          | inl sub ↦
              rw (other, sub)
                (record {
                  subscriptions = ground (arith, begun.0, less.1);
                  requests = omega (arith, less.0);
                  held = begun.1;
                  counted = ground (arith, less.1);
                  waits = refl;
                })
          | inr plain ↦
              rw (other, plain)
                (record {
                  subscriptions = omega arith;
                  requests = omega (arith, less.0);
                  held = Held-after given p.subs m held;
                  counted = ground (arith, less.1);
                  waits = refl;
                })
        ]
      ]

  same-Loses : Loses given (given_after given m) 0 0 p p
  same-Loses = record {
    subscriptions = omega arith;
    requests = omega arith;
    held = Held-after given p.subs m held;
    counted = counted;
    waits = refl;
  }

  more-Loses :
      (a b c d : ℕ) (p' : Proxy)
      → a ≤ c
      → b ≤ d
      → Loses given (given_after given m) a b p p'
      → Loses given (given_after given m) c d p p'
  more-Loses a b c d p' h k v = record {
    subscriptions = omega (arith, v.subscriptions);
    requests = omega (arith, v.requests);
    held = v.held;
    counted = v.counted;
    waits = v.waits;
  }

  note_message-Loses :
      ((call : Request) → is_unsubscribe call.method ≡ true → is_subscribe call.method ≡ false)
      → Loses given
          (given_after given m)
          (one_if (can_end given m))
          (one_if (has_id m))
          p
          (note_message m p)
  unfolding note_message can_end
  note_message-Loses apart = elim (Bool-cases (is_signature_notification m)) [
    | inl notified ↦ elim (Bool-cases (is_final m)) [
      | inl final ↦
          rw (notified, final)
            (record {
              subscriptions = omega (arith, length-remove_least p.subs (notified_subscription m));
              requests = omega arith;
              held =
                  Held-after given (remove_value p.subs (notified_subscription m)) m
                    (Held-remove given p.subs (notified_subscription m) held);
              counted = counted;
              waits = refl;
            })
      | inr early ↦
          rw (notified, early) (more-Loses 0 0 _ _ p (omega arith) (omega arith) same-Loses)
    ]
    | inr other ↦ elim (Option-cases (id_key (member (codes "id") m))) [
      | inl absent ↦
          rw (other, absent) (more-Loses 0 0 _ _ p (omega arith) (omega arith) same-Loses)
      | inr (key, e) ↦ elim (Option-cases (request_of p.flight.inflight key)) [
        | inl unknown ↦
            rw (other, e, unknown) (more-Loses 0 0 _ _ p (omega arith) (omega arith) same-Loses)
        | inr (call, found) ↦ rw (other, e, found) (note_answer-Loses key call found (apart call))
      ]
    ]
  ]

pub note_messages-Loses :
    (given ms : List Json) (p : Proxy)
    → ((call : Request) → is_unsubscribe call.method ≡ true → is_subscribe call.method ≡ false)
    → Held given p.subs
    → p.flight.pending_subs ≡ count_subs p.flight.inflight
    → Loses given (given_after_all given ms) (ends given ms) (answers ms) p (note_messages ms p)
unfolding note_messages given_after_all ends answers
note_messages-Loses given [] p apart held counted = record {
  subscriptions = omega arith;
  requests = omega arith;
  held = held;
  counted = counted;
  waits = refl;
}
note_messages-Loses given (m ∷ ms) p apart held counted =
    let first = note_message-Loses given m p held counted apart in
    let rest =
      note_messages-Loses (given_after given m) ms (note_message m p) apart first.held
        first.counted in
    record {
      subscriptions = omega (arith, first.subscriptions, rest.subscriptions);
      requests = omega (arith, first.requests, rest.requests);
      held = rest.held;
      counted = rest.counted;
      waits = rest.waits ∙ first.waits;
    }
