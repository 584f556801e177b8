-- ===== src/Tests/Realtime.antt =====
-- Runs of the relay.
use playkaboom.Common.{
  length, replicate, ◌≤◌, ℕ, ◌≡◌, refl, arith, true, false, none, some, [], ◌∷◌, List, Option,
  codes, if◌then◌else◌,
}
use playkaboom.Sdk.Buffer.{Bytes, bytes_eq}
use playkaboom.Realtime.Json.{Json, field, end}
use playkaboom.Realtime.Proxy.State.{Surroundings}
use playkaboom.Realtime.Proxy.{Event}
use playkaboom.Realtime.Proxy.Subscriptions.{IsCapped, run-IsBounded}
use playkaboom.Realtime.Proxy.Rate.Run.{IsWithinBudget, run_budget}
use playkaboom.Realtime.Connections as Connections
use playkaboom.Realtime.Connections.PerIp.{count}
use playkaboom.Realtime.Logs as Logs
use playkaboom.Realtime.Logs.Fresh.Remembered.{Fresh}
use playkaboom.Realtime.Logs.Fresh.{posts_before, run-IsFresh}
use playkaboom.Realtime.Connections.Limits.{IsLimited, run-IsLimited}

-- A subscription, from the frame `s`, and any other frame is no JSON.
abbrev subscribe : Json
subscribe = Json.object (
    field (codes "id") (Json.number (codes "1"))
      (field (codes "method") (Json.text (codes "slotSubscribe")) end))

abbrev parse : Bytes → Option Json
parse frame = if bytes_eq frame (115 ∷ []) then some subscribe else none

abbrev at : ℕ → Surroundings
at now = record {
  now = now;
  client_ready = true;
  upstream_ready = true;
  buffered_amount = 0;
  client_send_throws = false;
  upstream_send_throws = false;
}

abbrev events : List (Surroundings × Event)
events =
    (at 1000, Event.upstream_opened)
    ∷ (at 1100, Event.client_message (115 ∷ []) false)
    ∷ (at 1200, Event.client_message (115 ∷ []) false)
    ∷ []

run-IsBounded_example : IsCapped parse 1000 events
run-IsBounded_example = run-IsBounded parse 1000 events

run_budget_example : IsWithinBudget parse 1000 events
run_budget_example = run_budget parse 1000 events (omega arith)

abbrev from : Connections.Upgrade
from = record {
  url = codes "/rpc-ws?x";
  origin = some (codes "https://playkaboom.gg");
  forwarded_for = some (codes "10.0.0.1, 10.0.0.2");
  remote_address = none;
}

abbrev asked : List Connections.Event
asked =
    Connections.Event.upgrade from 1 true
    ∷ Connections.Event.upgrade from 2 true
    ∷ Connections.Event.closed 1
    ∷ []

abbrev allowed : List Bytes
allowed = codes "https://playkaboom.gg" ∷ []

run-IsLimited_example : IsLimited (Connections.run allowed asked Connections.no_sockets)
run-IsLimited_example = run-IsLimited allowed asked

-- The socket that is still open counts against its address.
counted :
    count (Connections.run allowed asked Connections.no_sockets).rpc_proxy_per_ip (codes "10.0.0.1")
    ≡ 1
unfolding count Connections.run bytes_eq
counted = refl

-- A notification that is replayed after a reconnection
abbrev signature : Bytes
signature = replicate 88 49

abbrev notification : Json
notification = Json.object (
    field (codes "method") (Json.text (codes "logsNotification")) (
      field (codes "params")
        (Json.object (
          field (codes "result")
            (Json.object (
              field (codes "value")
                (Json.object (field (codes "signature") (Json.text signature) end)) end))
            end))
        end))

abbrev seen : List Logs.Event
seen =
    Logs.Event.timer
    ∷ Logs.Event.opened
    ∷ Logs.Event.message []
    ∷ Logs.Event.closed
    ∷ Logs.Event.timer
    ∷ Logs.Event.message []
    ∷ []

run-IsFresh_example :
    Fresh (posts_before [] (Logs.run (λ raw. some notification) seen Logs.started).1)
    × (length (Logs.run (λ raw. some notification) seen Logs.started).0.recent ≤ 256)
run-IsFresh_example = run-IsFresh (λ raw. some notification) seen
