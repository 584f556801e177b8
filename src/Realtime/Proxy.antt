-- ===== src/Realtime/Proxy.antt =====
-- apps/realtime/src/index.ts, handleRpcProxyConnection: one connection of the `/rpc-ws` proxy. A
-- handler takes the connection's state to the next one and to what it does to the two sockets.
pub mod Gate
pub mod Flights
pub mod Subscriptions
pub mod Rate
pub mod State
use playkaboom.Common.{
  ℕ, suc, ◌+◌, ◌-◌, ◌*◌, ◌&&◌, ◌||◌, Bool, true, false, not, ◌⊎◌, inl, inr, Option, none, some,
  List, [], ◌∷◌, ◌++◌, map, ltb, leb, ◌==◌, if◌then◌else◌, length, is_some, codes, String,
}
use playkaboom.Common.Int.{ℤ, pos, negsuc, ◌+ℤ◌, ◌-ℤ◌, ◌*ℤ◌, ltb_ℤ, leb_ℤ}
use playkaboom.Sdk.Buffer.{Bytes, bytes_eq}
use playkaboom.Realtime.Json.{Json, Items, boolean, text, array, member, calls_of, same_value}
use Gate.{
  max_buffered, per_second, burst, max_frame, max_batch, max_pending, is_subscribe, is_unsubscribe,
  IdKey, id_key, Request, request_of, delete_request, RpcError, invalid, limited, Batch, admit_all,
  Flight, note_calls,
}
use State.{
  Proxy, Surroundings, Effect, to_client, to_upstream, close_both, unless_backed_up, rpc_error,
  note_messages,
}

-- The bucket after the refill of the time that passed
unfoldable pub refill : ℕ → Proxy → Proxy
refill now p =
    let full = p.tokens +ℤ (pos now -ℤ pos p.last_refill) *ℤ pos per_second in
    record p {
      tokens = if leb_ℤ (pos (burst * 1000)) full then pos (burst * 1000) else full;
      last_refill = now;
    }

-- `(calls[0] as { id?: unknown })?.id`
unfoldable pub first_id : List Json → Option Json
first_id [] = none
first_id (call ∷ calls) = member (codes "id") call

-- The frame goes to the upstream, or waits until that is open.
unfoldable pub forward : Surroundings → Bytes → Proxy → Proxy × List Effect
unfolding close_both
forward s buf p =
    if p.upstream_open
    then (if s.upstream_send_throws
        then close_both s 1011 (codes "upstream send error") p
        else (p, to_upstream buf ∷ []))
    else if leb max_pending (length p.pending)
    then close_both s 1013 (codes "too many buffered requests") p
    else (record p { pending = p.pending ++ buf ∷ [] }, [])

-- The tokens are taken, and the calls noted.
unfoldable pub spent : List Json → Proxy → Proxy
spent calls p = record p {
  tokens = p.tokens -ℤ pos (length calls * 1000);
  flight = note_calls calls p.flight;
}

-- The rate budget, and what follows for a frame that is within it
unfoldable pub spend : Surroundings → Bytes → List Json → Proxy → Proxy × List Effect
unfolding refill rpc_error forward first_id spent
spend s buf calls p =
    let p' = refill s.now p in
    if ltb_ℤ p'.tokens (pos (length calls * 1000))
    then rpc_error s (limited (first_id calls) "Rate limit exceeded") p'
    else forward s buf (spent calls p')

-- What follows the loop over a frame's calls
unfoldable pub answer_batch :
    Surroundings → Bytes → List Json → Proxy → RpcError ⊎ Batch → Proxy × List Effect
unfolding rpc_error spend first_id
answer_batch s buf calls p (inl error) = rpc_error s error p
answer_batch s buf calls p (inr batch) =
    if ltb max_pending (length p.flight.inflight + length batch.keys)
    then rpc_error s (limited (first_id calls) "Too many pending requests") p
    else spend s buf calls p

abbrev pub no_calls : Batch
no_calls = record { keys = []; new_subs = 0 }

-- The gate for a frame of some calls
unfoldable pub gate : Surroundings → Bytes → List Json → Proxy → Proxy × List Effect
unfolding rpc_error answer_batch
gate s buf calls p =
    let live = length p.subs + p.flight.pending_subs in
    if length calls == 0 || ltb max_batch (length calls)
    then rpc_error s (invalid none) p
    else answer_batch s buf calls p (admit_all p.flight.inflight live calls no_calls)

-- What a connection is told, in the order in which the process's loop tells it.
pub data Event : Type 0 where
  client_message : Bytes → (is_binary : Bool) → Event
  upstream_message : Bytes → (is_binary : Bool) → Event
  upstream_opened : Event
  closed_by : (code : ℕ) → (reason : Bytes) → Event
  upstream_error : Event
  client_error : Event

-- `json_parse` is JSON.parse of the text of some bytes.
module _ (json_parse : Bytes → Option Json) where
  unfoldable pub on_client_message : Surroundings → Bytes → Bool → Proxy → Proxy × List Effect
  unfolding gate rpc_error
  on_client_message s buf is_binary p =
      if is_binary || ltb max_frame (length buf)
      then rpc_error s (invalid none) p
      else elim (json_parse buf) [
        | none ↦
            rpc_error s (record { id = none; error_code = negsuc 32699; message = "Parse error" }) p
        | some parsed ↦ gate s buf (calls_of parsed) p
      ]

  unfoldable pub note_upstream : Bytes → Proxy → Proxy
  unfolding note_messages
  note_upstream bytes p = elim (json_parse bytes) [
    | none ↦ p
    | some parsed ↦ note_messages (calls_of parsed) p
  ]

  unfoldable pub pass_down : Surroundings → Bytes → Bool → Proxy → Proxy × List Effect
  unfolding close_both
  pass_down s bytes is_binary p =
      if s.client_send_throws
      then close_both s 1011 (codes "client send error") p
      else (p, to_client bytes is_binary ∷ [])

  unfoldable pub on_upstream_message : Surroundings → Bytes → Bool → Proxy → Proxy × List Effect
  unfolding unless_backed_up note_upstream pass_down
  on_upstream_message s bytes is_binary p =
      if s.client_ready
      then unless_backed_up s p (pass_down s bytes is_binary (note_upstream bytes p))
      else (p, [])

  unfoldable pub handle : Surroundings → Event → Proxy → Proxy × List Effect
  unfolding on_client_message on_upstream_message close_both
  handle s (client_message buf is_binary) p = on_client_message s buf is_binary p
  handle s (upstream_message bytes is_binary) p = on_upstream_message s bytes is_binary p
  handle s upstream_opened p =
      (record p { upstream_open = true; pending = [] }, map to_upstream p.pending)
  handle s (closed_by code reason) p = close_both s code reason p
  handle s upstream_error p = close_both s 1011 (codes "upstream error") p
  handle s client_error p = close_both s 1011 (codes "client error") p

  -- The handlers of some events, one after the other
  unfoldable pub run : List (Surroundings × Event) → Proxy → Proxy × List Effect
  unfolding handle
  run [] p = (p, [])
  run ((s, event) ∷ events) p =
      let (p', effects) = handle s event p in
      let (p'', effects') = run events p' in (p'', effects ++ effects')
