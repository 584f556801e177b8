-- ===== src/Realtime/Proxy/Subscriptions/Bounds.antt =====
-- The bounds of a connection are kept by its parts.
use playkaboom.Common.{
  ◌==◌, ℕ, ◌+◌, ◌-◌, ◌≤◌, ◌≡◌, refl, ap, arith, Bool, true, false, ◌||◌, ◌⊎◌, inl, inr, Option,
  none, some, List, [], ◌∷◌, length, length-append, drop, drop-add, length-drop, if◌then◌else◌,
  codes, Option-cases, ltb,
}
use native.Mathlib.Decide.{dec_le}
use playkaboom.Realtime.Json.{Json, member, ends_with}
use playkaboom.Sdk.Buffer.{Bytes, bytes_eq}
use playkaboom.Sdk.Buffer.Laws.{bytes_eq_sound}
use playkaboom.Realtime.Proxy.State.{
  Proxy, Surroundings, Effect, close_both, unless_backed_up, rpc_error, remove_value, add_value,
  unsubscribed, subscribed, notified_subscription, note_answer, note_message, note_messages,
}
use playkaboom.Realtime.Proxy.{
  refill, first_id, spent, forward, spend, gate, no_calls, answer_batch,
}
use playkaboom.Realtime.Proxy.Gate.{
  max_pending, max_batch, max_subscriptions, is_subscribe, is_unsubscribe, IdKey, id_key, Request,
  request_of, RpcError, invalid, limited, Batch, admit_all,
}
use playkaboom.Realtime.Proxy.Flights.Passed.{count_subs, delete_request_lem, Follows-start}
use playkaboom.Realtime.Proxy.Flights.{note_calls_lem}

pub record IsBounded (p : Proxy) : Type 0 where
  pub counted : p.flight.pending_subs ≡ count_subs p.flight.inflight
  pub live : length p.subs + p.flight.pending_subs ≤ max_subscriptions
  pub requests : length p.flight.inflight ≤ max_pending
  pub waiting : length p.pending ≤ max_pending

-- "Unsubscribe" does not end in "Subscribe".
pub unsubscribe-not_subscribe :
    (method : Bytes) → is_unsubscribe method ≡ true → is_subscribe method ≡ false
unfolding is_unsubscribe is_subscribe ends_with bytes_eq
unsubscribe-not_subscribe method h =
    let suffix : drop (length method - 11) method ≡ codes "Unsubscribe" =
      bytes_eq_sound _ (codes "Unsubscribe") h in
    elim (dec_le 11 (length method)) [
      | yes long ↦
          let later : length method - 9 ≡ length method - 11 + 2 = omega arith in
          rw (later, drop-add (length method - 11) 2 method, suffix) refl
      | no short ↦ absurd (omega (arith, length-drop (length method - 11) method, ap length suffix))
    ]

length-remove_value :
    (subs : List Json) (value : Option Json) → length (remove_value subs value) ≤ length subs
unfolding remove_value
length-remove_value subs none = omega arith
length-remove_value [] (some value) = omega arith
length-remove_value (v ∷ vs) (some value) = ground (arith, length-remove_value vs (some value))

length-add_value :
    (subs : List Json) (value : Json) → length (add_value subs value) ≤ length subs + 1
unfolding add_value
length-add_value subs value = ground (arith, length-append subs (value ∷ []))

length-unsubscribed :
    (m : Json) (value : Option Json) (subs : List Json)
    → length (unsubscribed m value subs) ≤ length subs
unfolding unsubscribed
length-unsubscribed m value subs = ground (arith, length-remove_value subs value)

length-subscribed : (m : Json) (subs : List Json) → length (subscribed m subs) ≤ length subs + 1
unfolding subscribed
length-subscribed m subs = elim (Option-cases (member (codes "error") m)) [
  | inr (error, e) ↦ ground arith
  | inl absent ↦ elim (Option-cases (member (codes "result") m)) [
    | inl missing ↦ ground arith
    | inr (result, e) ↦ ground (arith, length-add_value subs result)
  ]
]

if-IsBounded :
    (test : Bool) (a b : Proxy × List Effect)
    → IsBounded a.0
    → IsBounded b.0
    → IsBounded (if test then a else b).0
if-IsBounded true a b h k = h
if-IsBounded false a b h k = k

pub close_both-IsBounded :
    (s : Surroundings) (code : ℕ) (reason : Bytes) (p : Proxy)
    → IsBounded p
    → IsBounded (close_both s code reason p).0
unfolding close_both
close_both-IsBounded s code reason p v = ground arith

pub rpc_error-IsBounded :
    (s : Surroundings) (error : RpcError) (p : Proxy)
    → IsBounded p
    → IsBounded (rpc_error s error p).0
unfolding rpc_error unless_backed_up
rpc_error-IsBounded s error p v = ground (arith, close_both-IsBounded s)

forward-IsBounded :
    (s : Surroundings) (buf : Bytes) (p : Proxy) → IsBounded p → IsBounded (forward s buf p).0
unfolding forward
forward-IsBounded s buf p v = ground (
  arith,
  close_both-IsBounded s 1011 (codes "upstream send error") p v,
  close_both-IsBounded s 1013 (codes "too many buffered requests") p v,
  length-append p.pending (buf ∷ []),
)

note_answer-IsBounded :
    (m : Json) (key : IdKey) (call : Request) (p : Proxy)
    → request_of p.flight.inflight key ≡ some call
    → IsBounded p
    → IsBounded (note_answer m key call p)
unfolding note_answer
note_answer-IsBounded m key call p found v =
    let less = delete_request_lem p.flight.inflight key call found in
    let fewer = length-unsubscribed m call.unsub_id p.subs in
    let more = length-subscribed m p.subs in ground (arith, unsubscribe-not_subscribe call.method)

note_message-IsBounded : (m : Json) (p : Proxy) → IsBounded p → IsBounded (note_message m p)
unfolding note_message
note_message-IsBounded m p v = elim (Option-cases (id_key (member (codes "id") m))) [
  | inl absent ↦ ground (arith, length-remove_value p.subs (notified_subscription m))
  | inr (key, e) ↦ elim (Option-cases (request_of p.flight.inflight key)) [
    | inl unknown ↦ ground (arith, length-remove_value p.subs (notified_subscription m))
    | inr (call, found) ↦ ground (
      arith,
      length-remove_value p.subs (notified_subscription m),
      note_answer-IsBounded m key call p found v,
    )
  ]
]

pub note_messages-IsBounded :
    (ms : List Json) (p : Proxy) → IsBounded p → IsBounded (note_messages ms p)
unfolding note_messages
note_messages-IsBounded [] p v = v
note_messages-IsBounded (m ∷ ms) p v =
    note_messages-IsBounded ms (note_message m p) (note_message-IsBounded m p v)

spend-IsBounded :
    (s : Surroundings) (buf : Bytes) (calls : List Json) (p : Proxy) (batch : Batch)
    → admit_all p.flight.inflight (length p.subs + p.flight.pending_subs) calls no_calls ≡ inr batch
    → length p.flight.inflight + length batch.keys ≤ max_pending
    → IsBounded p
    → IsBounded (spend s buf calls p).0
unfolding spend
spend-IsBounded s buf calls p batch admitted few v =
    let live = length p.subs + p.flight.pending_subs in
    let noted =
      note_calls_lem p.flight.inflight live calls no_calls batch p.flight admitted
        (Follows-start p.flight.inflight) in
    let grown = noted.0 in
    let bound = noted.1 (omega (arith, v.live)) in
    let p' = refill s.now p in
    let refused = rpc_error s (limited (first_id calls) "Rate limit exceeded") p' in
    if-IsBounded _ refused (forward s buf (spent calls p'))
      (rpc_error-IsBounded s (limited (first_id calls) "Rate limit exceeded") p'
        (record { counted = v.counted; live = v.live; requests = v.requests; waiting = v.waiting }))
      (forward-IsBounded s buf (spent calls p') (record {
        counted = omega (arith, grown.more_pending, grown.more_subs, v.counted);
        live = omega (arith, grown.more_pending, bound);
        requests = omega (arith, grown.more_requests);
        waiting = v.waiting;
      }))

answer_batch-IsBounded :
    (s : Surroundings) (buf : Bytes) (calls : List Json) (p : Proxy) (r : RpcError ⊎ Batch)
    → admit_all p.flight.inflight (length p.subs + p.flight.pending_subs) calls no_calls ≡ r
    → IsBounded p
    → IsBounded (answer_batch s buf calls p r).0
unfolding answer_batch
answer_batch-IsBounded s buf calls p (inl error) e v = rpc_error-IsBounded s error p v
answer_batch-IsBounded s buf calls p (inr batch) e v =
    let refusal = limited (first_id calls) "Too many pending requests" in
    ground (arith, rpc_error-IsBounded s refusal p v, spend-IsBounded s buf calls p batch e)

pub gate-IsBounded :
    (s : Surroundings) (buf : Bytes) (calls : List Json) (p : Proxy)
    → IsBounded p
    → IsBounded (gate s buf calls p).0
unfolding gate
gate-IsBounded s buf calls p v =
    let admitted =
      admit_all p.flight.inflight (length p.subs + p.flight.pending_subs) calls no_calls in
    if-IsBounded (length calls == 0 || ltb max_batch (length calls)) (rpc_error s (invalid none) p)
      (answer_batch s buf calls p admitted) (rpc_error-IsBounded s (invalid none) p v)
      (answer_batch-IsBounded s buf calls p admitted refl v)
