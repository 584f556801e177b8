-- ===== src/Realtime/Proxy/Subscriptions.antt =====
-- What a connection asks the upstream for, and what it holds at most: subscriptions, requests and
-- frames that wait.
pub mod Bounds
pub mod Asked
pub mod Covered
pub mod Ends
pub mod Losses
pub mod Handlers
pub mod Accounted
use playkaboom.Common.{
  ◌==◌, ℕ, ◌+◌, ◌-◌, ◌≤◌, ◌≡◌, refl, ap, arith, Bool, true, false, ◌||◌, ◌⊎◌, inl, inr, Option,
  none, some, List, [], ◌∷◌, ◌++◌, Bool-cases, length, length-append, drop, drop-add, length-drop,
  if◌then◌else◌, codes, Option-cases, ltb,
}
use native.Mathlib.Decide.{dec_le}
use playkaboom.Realtime.Json.{Json, member, ends_with, calls_of}
use playkaboom.Sdk.Buffer.{Bytes, bytes_eq}
use playkaboom.Sdk.Buffer.Laws.{bytes_eq_sound}
use playkaboom.Realtime.Proxy.State.{
  Proxy, Surroundings, Effect, close_both, unless_backed_up, rpc_error, remove_value, add_value,
  unsubscribed, subscribed, notified_subscription, note_answer, note_message, note_messages, start,
}
use playkaboom.Realtime.Proxy.{
  refill, first_id, spent, forward, spend, client_message, upstream_message, upstream_opened,
  closed_by, upstream_error, client_error, gate, Event, on_client_message, no_calls, answer_batch,
  note_upstream, pass_down, on_upstream_message, handle, run,
}
use playkaboom.Realtime.Proxy.Gate.{
  max_pending, max_batch, max_subscriptions, is_subscribe, is_unsubscribe, IdKey, id_key, Request,
  request_of, RpcError, invalid, limited, Batch, admit_all,
}
use playkaboom.Realtime.Proxy.Flights.Passed.{count_subs, delete_request_lem, Follows-start}
use playkaboom.Realtime.Proxy.Flights.{note_calls_lem}
use playkaboom.Realtime.Proxy.Gate.{note_calls, Flight}
use Asked.{
  count_calls, asks_subscription, has_id, in_frame, waiting, asked, asked-append, noted_counts,
}
use Covered.{
  IsCovered, close_both-Covers, on_client_message-Covers, upstream_opened-Covers,
  on_upstream_message_lem,
}
use Ends.{given_after_all, ends, answers, Held, Held-after_all, ends-append, answers-append}
use Losses.{Loses, note_messages-Loses}
use Bounds.{
  unsubscribe-not_subscribe, IsBounded, close_both-IsBounded, rpc_error-IsBounded,
  note_messages-IsBounded, gate-IsBounded,
}
use Accounted.{messages, all_messages, IsAccounted, handle-Accounts}

module _ (json_parse : Bytes → Option Json) where
  -- What is held is bounded, and what was asked for is at most that and what the upstream ended.
  record IsWithin (asked_subs asked_requests ended answered : ℕ) (p : Proxy) : Type 0 where
    bounded : IsBounded p
    subscriptions : asked_subs ≤ max_subscriptions + ended
    requests : asked_requests ≤ max_pending + answered

  run-IsWithin :
      (given : List Json) (subs_sent ended sent answered : ℕ) (events : List (Surroundings × Event))
      (p : Proxy)
      → IsAccounted json_parse given subs_sent ended sent answered p
      → let r = run json_parse events p in
        IsWithin
          (subs_sent + asked asks_subscription json_parse r.1)
          (sent + asked has_id json_parse r.1)
          (ended + ends given (all_messages json_parse events))
          (answered + answers (all_messages json_parse events))
          r.0
  unfolding run all_messages asked
  run-IsWithin given subs_sent ended sent answered [] p v = record {
    bounded = v.bounded;
    subscriptions = omega (arith, v.subscriptions.covered, v.bounded.live);
    requests = omega (arith, v.requests.covered, v.bounded.requests);
  }
  run-IsWithin given subs_sent ended sent answered ((s, event) ∷ events) p v =
      let r = handle json_parse s event p in
      let r' = run json_parse events r.0 in
      let ms = messages json_parse event in
      let later = all_messages json_parse events in
      let rest =
        run-IsWithin (given_after_all given ms) (subs_sent + asked asks_subscription json_parse r.1)
          (ended + ends given ms) (sent + asked has_id json_parse r.1) (answered + answers ms)
          events r.0 (handle-Accounts json_parse given subs_sent ended sent answered s event p v) in
      record {
        bounded = rest.bounded;
        subscriptions = omega (
          arith,
          rest.subscriptions,
          ends-append given ms later,
          asked-append asks_subscription json_parse r.1 r'.1,
        );
        requests = omega (
          arith,
          rest.requests,
          answers-append ms later,
          asked-append has_id json_parse r.1 r'.1,
        );
      }

  -- The relay's maps are bounded, and so is what went upstream.
  abbrev pub IsCapped : ℕ → List (Surroundings × Event) → Type 0
  IsCapped now events =
      let r = run json_parse events (start now) in
      IsBounded r.0
      × (asked asks_subscription json_parse r.1
          ≤ max_subscriptions + ends [] (all_messages json_parse events))
      × (asked has_id json_parse r.1 ≤ max_pending + answers (all_messages json_parse events))

  -- Whatever the client and the upstream send and however the sockets close, the subscriptions that
  -- a connection asks the upstream for are at most 32 more than the upstream's messages that can
  -- end one: the last notification of a signature, and answers that give no new subscription. The
  -- requests with an id (a number or a text) that it sends are at most 50 more than the upstream's
  -- messages with one. It notes at most 32 subscriptions held or asked for, 50 requests with an id
  -- and 50 frames that wait, and counts as asked for exactly the subscriptions among the requests
  -- that it notes.
  pub run-IsBounded : (now : ℕ) (events : List (Surroundings × Event)) → IsCapped now events
  unfolding start count_subs waiting
  run-IsBounded now events =
      let within = run-IsWithin [] 0 0 0 0 events (start now) (record {
        bounded = record {
          counted = refl;
          live = omega arith;
          requests = omega arith;
          waiting = omega arith;
        };
        subscriptions = record { covered = omega arith; kept = λ v h. h };
        requests = record { covered = omega arith; kept = λ v h. h };
      }) in
      (within.bounded, omega (arith, within.subscriptions), omega (arith, within.requests))
