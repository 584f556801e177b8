-- ===== src/Realtime/Connections.antt =====
-- apps/realtime/src/index.ts: which sockets the relay accepts, and how it counts them by address.

pub mod Limits
pub mod PerIp
use playkaboom.Common.{
  ℕ, zero, suc, ◌+◌, ◌-◌, ◌&&◌, ◌||◌, Bool, true, false, not, Option, none, some, List, [], ◌∷◌,
  ltb, leb, ◌==◌, if◌then◌else◌, length, is_some, codes,
}
use playkaboom.Sdk.Buffer.{Bytes, bytes_eq}
use PerIp.{
  max_rpc_proxy_clients, max_relay_clients, max_relay_per_ip, max_rpc_proxy_per_ip, before,
  trim_start, trim_end, Counts, count, count_open, count_close,
}

-- What an upgrade request says.
pub record Upgrade : Type 0 where
  pub url : Bytes
  pub origin : Option Bytes
  pub forwarded_for : Option Bytes
  pub remote_address : Option Bytes

-- A socket that has not closed: its number, the address it counts against and its path's kind
pub record Socket : Type 0 where
  pub id : ℕ
  pub ip : Bytes
  pub is_proxy : Bool

pub record Relay : Type 0 where
  pub sockets : List Socket
  pub clients : List ℕ
  pub rpc_proxy_active : List ℕ
  pub relay_per_ip : Counts
  pub rpc_proxy_per_ip : Counts

-- `set.delete(id)` and `set.add(id)`
unfoldable pub delete_id : List ℕ → ℕ → List ℕ
delete_id [] id = []
delete_id (i ∷ is) id = let rest = delete_id is id in if i == id then rest else i ∷ rest

unfoldable pub add_id : List ℕ → ℕ → List ℕ
unfolding delete_id
add_id ids id = id ∷ delete_id ids id

-- `text || other`
unfoldable pub or_text : Option Bytes → Bytes → Bytes
or_text none other = other
or_text (some []) other = other
or_text (some (c ∷ cs)) other = c ∷ cs

-- `clientIp`
unfoldable pub client_ip : Upgrade → Bytes
unfolding or_text before trim_start trim_end
client_ip r =
    let remote = or_text r.remote_address (codes "unknown") in
    elim r.forwarded_for [
      | none ↦ remote
      | some hops ↦ or_text (some (trim_start (trim_end (before 44 hops)))) remote
    ]

unfoldable pub includes : List Bytes → Bytes → Bool
includes [] text = false
includes (t ∷ ts) text = bytes_eq t text || includes ts text

-- `isAllowedOrigin`: an empty text counts as absent.
unfoldable pub is_allowed_origin : List Bytes → Option Bytes → Bool
unfolding includes
is_allowed_origin allowed none = true
is_allowed_origin allowed (some []) = true
is_allowed_origin allowed (some (c ∷ cs)) =
    includes allowed (codes "*") || includes allowed (c ∷ cs)

unfoldable pub has_origin : Option Bytes → Bool
has_origin none = false
has_origin (some []) = false
has_origin (some (c ∷ cs)) = true

unfoldable pub is_proxy_path : Upgrade → Bool
unfolding before
is_proxy_path r = bytes_eq (before 63 r.url) (codes "/rpc-ws")

pub data Answer : Type 0 where
  forbidden unavailable upgraded : Answer

-- The caps, before the handshake
unfoldable pub is_full : Bool → Bytes → Relay → Bool
unfolding count
is_full is_proxy ip relay =
    if is_proxy
    then leb max_rpc_proxy_clients (length relay.rpc_proxy_active)
      || leb max_rpc_proxy_per_ip (count relay.rpc_proxy_per_ip ip)
    else leb max_relay_clients (length relay.clients)
      || leb max_relay_per_ip (count relay.relay_per_ip ip)

-- The socket `id` that the handshake opened. `upstream_opens`: the proxy has a URL for its upstream
-- and the socket to it could be made; otherwise the client is closed at once.
unfoldable pub accept : Bool → Bytes → (id : ℕ) → (upstream_opens : Bool) → Relay → Relay
unfolding count_open add_id
accept true ip id upstream_opens relay = record relay {
  sockets = record { id = id; ip = ip; is_proxy = true } ∷ relay.sockets;
  rpc_proxy_per_ip = count_open relay.rpc_proxy_per_ip ip;
  rpc_proxy_active =
      if upstream_opens then add_id relay.rpc_proxy_active id else relay.rpc_proxy_active;
}
accept false ip id upstream_opens relay = record relay {
  sockets = record { id = id; ip = ip; is_proxy = false } ∷ relay.sockets;
  relay_per_ip = count_open relay.relay_per_ip ip;
  clients = add_id relay.clients id;
}

-- The handler of `upgrade`, with the list of allowed origins
unfoldable pub on_upgrade :
    List Bytes → Upgrade → (id : ℕ) → (upstream_opens : Bool) → Relay → Relay × Answer
unfolding is_allowed_origin has_origin is_proxy_path client_ip is_full accept
on_upgrade allowed r id upstream_opens relay =
    let is_proxy = is_proxy_path r in
    let ip = client_ip r in
    if not (is_allowed_origin allowed r.origin) || (is_proxy && not (has_origin r.origin))
    then (relay, forbidden)
    else if is_full is_proxy ip relay
    then (relay, unavailable)
    else (accept is_proxy ip id upstream_opens relay, upgraded)

unfoldable pub socket_of : List Socket → ℕ → Option Socket
socket_of [] id = none
socket_of (s ∷ ss) id = if s.id == id then some s else socket_of ss id

unfoldable pub remove_socket : List Socket → ℕ → List Socket
remove_socket [] id = []
remove_socket (s ∷ ss) id = if s.id == id then ss else s ∷ remove_socket ss id

-- An error, a failed ping or send, a silent client that is reaped, the end of the upstream: the
-- socket leaves the set that it is in, and its close event is still to come.
unfoldable pub forget : ℕ → Relay → Relay
unfolding delete_id
forget id relay = record relay {
  clients = delete_id relay.clients id;
  rpc_proxy_active = delete_id relay.rpc_proxy_active id;
}

-- The handlers of a socket's `close`
unfoldable pub close_socket : Socket → Relay → Relay
unfolding forget remove_socket count_close
close_socket s relay =
    let relay' = forget s.id relay in
    let sockets = remove_socket relay.sockets s.id in
    if s.is_proxy
    then record relay' {
      sockets = sockets;
      rpc_proxy_per_ip = count_close relay.rpc_proxy_per_ip s.ip;
    }
    else record relay' { sockets = sockets; relay_per_ip = count_close relay.relay_per_ip s.ip }

unfoldable pub on_close : ℕ → Relay → Relay
unfolding close_socket socket_of
on_close id relay = elim (socket_of relay.sockets id) [
  | none ↦ relay
  | some s ↦ close_socket s relay
]

pub data Event : Type 0 where
  upgrade : Upgrade → (id : ℕ) → (upstream_opens : Bool) → Event
  forgotten : (id : ℕ) → Event
  closed : (id : ℕ) → Event

unfoldable pub step : List Bytes → Event → Relay → Relay
unfolding on_upgrade forget on_close
step allowed (upgrade r id upstream_opens) relay =
    let (relay', answer) = on_upgrade allowed r id upstream_opens relay in relay'
step allowed (forgotten id) relay = forget id relay
step allowed (closed id) relay = on_close id relay

unfoldable pub run : List Bytes → List Event → Relay → Relay
unfolding step
run allowed [] relay = relay
run allowed (event ∷ events) relay = run allowed events (step allowed event relay)

abbrev pub no_sockets : Relay
no_sockets = record {
  sockets = [];
  clients = [];
  rpc_proxy_active = [];
  relay_per_ip = [];
  rpc_proxy_per_ip = [];
}
