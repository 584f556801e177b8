-- ===== src/Realtime/Proxy/State.antt =====
-- A connection of handleRpcProxyConnection, and what it notes of its upstream.
use playkaboom.Common.{
  ℕ, ◌-◌, ◌*◌, ◌||◌, Bool, true, false, not, Option, none, some, List, [], ◌∷◌, ◌++◌, leb, ◌==◌,
  if◌then◌else◌, codes,
}
use playkaboom.Common.Int.{ℤ, pos}
use playkaboom.Sdk.Buffer.{Bytes, bytes_eq}
use playkaboom.Realtime.Json.{Json, boolean, text, member, same_value}
use playkaboom.Realtime.Proxy.Gate.{
  max_buffered, burst, is_subscribe, is_unsubscribe, IdKey, id_key, Request, request_of,
  delete_request, RpcError, Flight,
}

-- The variables of a connection. `tokens` counts thousandths, so that the refill of a millisecond
-- is a whole number.
pub record Proxy : Type 0 where
  pub active : Bool
  pub pending : List Bytes
  pub upstream_open : Bool
  pub closed : Bool
  pub flight : Flight
  pub subs : List Json
  pub tokens : ℤ
  pub last_refill : ℕ

-- What the sockets and the clock say while a handler runs.
pub record Surroundings : Type 0 where
  pub now : ℕ
  pub client_ready : Bool
  pub upstream_ready : Bool
  pub buffered_amount : ℕ
  pub client_send_throws : Bool
  pub upstream_send_throws : Bool

pub data Effect : Type 0 where
  answer : RpcError → Effect
  to_client : Bytes → (is_binary : Bool) → Effect
  to_upstream : Bytes → Effect
  close_client : (code : ℕ) → (reason : Bytes) → Effect
  terminate_client : Effect
  close_upstream : (code : ℕ) → (reason : Bytes) → Effect
  terminate_upstream : Effect

unfoldable pub start : (now : ℕ) → Proxy
start now = record {
  active = true;
  pending = [];
  upstream_open = false;
  closed = false;
  flight = record { pending_subs = 0; inflight = [] };
  subs = [];
  tokens = pos (burst * 1000);
  last_refill = now;
}

unfoldable pub close_both : Surroundings → ℕ → Bytes → Proxy → Proxy × List Effect
close_both s code reason p =
    let sent = if code == 1005 || code == 1006 then 1000 else code in
    if p.closed then (p, []) else (
      record p { closed = true; active = false },
      (if s.client_ready then close_client sent reason else terminate_client)
          ∷ (if s.upstream_ready then close_upstream sent reason else terminate_upstream)
          ∷ [],
    )

-- `backedUp()` before a rest that sends to the client
unfoldable pub unless_backed_up :
    Surroundings → Proxy → (rest : Proxy × List Effect) → Proxy × List Effect
unfolding close_both
unless_backed_up s p rest =
    if leb s.buffered_amount max_buffered
    then rest
    else close_both s 1013 (codes "client too slow") p

unfoldable pub rpc_error : Surroundings → RpcError → Proxy → Proxy × List Effect
unfolding unless_backed_up
rpc_error s error p =
    if s.client_ready
    then unless_backed_up s p (p, if s.client_send_throws then [] else answer error ∷ [])
    else (p, [])

-- `subs.delete(value)` and `subs.add(value)`
unfoldable pub remove_value : List Json → Option Json → List Json
remove_value subs none = subs
remove_value [] (some value) = []
remove_value (v ∷ vs) (some value) =
    if same_value v value then vs else v ∷ remove_value vs (some value)

unfoldable pub has_value : List Json → Json → Bool
has_value [] value = false
has_value (v ∷ vs) value = same_value v value || has_value vs value

unfoldable pub add_value : List Json → Json → List Json
unfolding has_value
add_value subs value = if has_value subs value then subs else subs ++ value ∷ []

-- `m.params?.result?.value !== "receivedSignature"`
unfoldable pub is_final : Json → Bool
is_final m = elim (member (codes "params") m) [
  | none ↦ true
  | some params ↦ elim (member (codes "result") params) [
    | none ↦ true
    | some result ↦ elim (member (codes "value") result) [
      | some (text t) ↦ not (bytes_eq t (codes "receivedSignature"))
      | _ ↦ true
    ]
  ]
]

unfoldable pub notified_subscription : Json → Option Json
notified_subscription m = elim (member (codes "params") m) [
  | none ↦ none
  | some params ↦ member (codes "subscription") params
]

unfoldable pub is_signature_notification : Json → Bool
is_signature_notification m = elim (member (codes "method") m) [
  | some (text t) ↦ bytes_eq t (codes "signatureNotification")
  | _ ↦ false
]

-- The subscriptions after the answer to an unsubscription, and after that to a subscription
unfoldable pub unsubscribed : Json → Option Json → List Json → List Json
unfolding remove_value
unsubscribed m unsub_id subs = elim (member (codes "result") m) [
  | some (boolean true) ↦ remove_value subs unsub_id
  | _ ↦ subs
]

unfoldable pub subscribed : Json → List Json → List Json
unfolding add_value
subscribed m subs = elim (member (codes "error") m) [
  | some error ↦ subs
  | none ↦ elim (member (codes "result") m) [ none ↦ subs | some result ↦ add_value subs result ]
]

-- The answer to a request that was in flight
unfoldable pub note_answer : Json → IdKey → Request → Proxy → Proxy
unfolding unsubscribed subscribed
note_answer m key call p =
    let rest = delete_request p.flight.inflight key in
    if is_unsubscribe call.method
    then record p {
      flight = record { pending_subs = p.flight.pending_subs; inflight = rest };
      subs = unsubscribed m call.unsub_id p.subs;
    }
    else if is_subscribe call.method
    then record p {
      flight = record { pending_subs = p.flight.pending_subs - 1; inflight = rest };
      subs = subscribed m p.subs;
    }
    else record p { flight = record { pending_subs = p.flight.pending_subs; inflight = rest } }

-- One message of what the upstream sent
unfoldable pub note_message : Json → Proxy → Proxy
unfolding note_answer is_final notified_subscription is_signature_notification
note_message m p =
    if is_signature_notification m
    then (if is_final m
        then record p { subs = remove_value p.subs (notified_subscription m) }
        else p)
    else elim (id_key (member (codes "id") m)) [
      | none ↦ p
      | some key ↦ elim (request_of p.flight.inflight key) [
        | none ↦ p
        | some call ↦ note_answer m key call p
      ]
    ]

unfoldable pub note_messages : List Json → Proxy → Proxy
note_messages [] p = p
note_messages (m ∷ ms) p = note_messages ms (note_message m p)
