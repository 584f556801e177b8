-- ===== src/Realtime/Proxy/Subscriptions/Handlers.antt =====
-- The bounds of a connection are kept by its handlers.
use playkaboom.Common.{arith, Bool, inl, inr, Option, none, codes, Option-cases}
use playkaboom.Realtime.Json.{Json, calls_of}
use playkaboom.Sdk.Buffer.{Bytes}
use playkaboom.Realtime.Proxy.State.{Proxy, Surroundings, unless_backed_up}
use playkaboom.Realtime.Proxy.{
  client_message, upstream_message, upstream_opened, closed_by, upstream_error, client_error, Event,
  on_client_message, note_upstream, pass_down, on_upstream_message, handle,
}
use playkaboom.Realtime.Proxy.Gate.{RpcError, invalid}
use playkaboom.Realtime.Proxy.Subscriptions.Bounds.{
  IsBounded, close_both-IsBounded, rpc_error-IsBounded, note_messages-IsBounded, gate-IsBounded,
}

module _ (json_parse : Bytes → Option Json) where
  pub on_client_message-IsBounded :
      (s : Surroundings) (buf : Bytes) (is_binary : Bool) (p : Proxy)
      → IsBounded p
      → IsBounded (on_client_message json_parse s buf is_binary p).0
  unfolding on_client_message
  on_client_message-IsBounded s buf is_binary p v = elim (Option-cases (json_parse buf)) [
    | inl e ↦ ground (arith, λ (error : RpcError). rpc_error-IsBounded s error p v)
    | inr (parsed, e) ↦ ground (
      arith,
      rpc_error-IsBounded s (invalid none) p v,
      gate-IsBounded s buf (calls_of parsed) p v,
    )
  ]

  note_upstream-IsBounded :
      (bytes : Bytes) (p : Proxy) → IsBounded p → IsBounded (note_upstream json_parse bytes p)
  unfolding note_upstream
  note_upstream-IsBounded bytes p v = elim (Option-cases (json_parse bytes)) [
    | inl e ↦ ground arith
    | inr (parsed, e) ↦ ground (arith, note_messages-IsBounded (calls_of parsed) p v)
  ]

  pub on_upstream_message-IsBounded :
      (s : Surroundings) (bytes : Bytes) (is_binary : Bool) (p : Proxy)
      → IsBounded p
      → IsBounded (on_upstream_message json_parse s bytes is_binary p).0
  unfolding on_upstream_message unless_backed_up pass_down
  on_upstream_message-IsBounded s bytes is_binary p v =
      let p' = note_upstream json_parse bytes p in
      let v' = note_upstream-IsBounded bytes p v in
      ground (
        arith,
        close_both-IsBounded s 1011 (codes "client send error") p' v',
        close_both-IsBounded s 1013 (codes "client too slow") p v,
      )

  pub handle-IsBounded :
      (s : Surroundings) (event : Event) (p : Proxy)
      → IsBounded p
      → IsBounded (handle json_parse s event p).0
  unfolding handle
  handle-IsBounded s (client_message buf is_binary) p v =
      on_client_message-IsBounded s buf is_binary p v
  handle-IsBounded s (upstream_message bytes is_binary) p v =
      on_upstream_message-IsBounded s bytes is_binary p v
  handle-IsBounded s upstream_opened p v = record {
    counted = v.counted;
    live = v.live;
    requests = v.requests;
    waiting = omega arith;
  }
  handle-IsBounded s (closed_by code reason) p v = close_both-IsBounded s code reason p v
  handle-IsBounded s upstream_error p v = close_both-IsBounded s 1011 (codes "upstream error") p v
  handle-IsBounded s client_error p v = close_both-IsBounded s 1011 (codes "client error") p v
