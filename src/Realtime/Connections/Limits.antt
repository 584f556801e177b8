-- ===== src/Realtime/Connections/Limits.antt =====
-- What the relay holds at most, for each address and in all.
use playkaboom.Common.{
  ℕ, suc, ◌+◌, ◌-◌, ◌≤◌, ◌<◌, ◌≡◌, refl, ap, ◌∙◌, arith, ◌&&◌, Bool, true, false, not, inl, inr,
  none, some, List, [], ◌∷◌, if◌then◌else◌, length, Option-cases,
}
use playkaboom.Sdk.Buffer.{Bytes, bytes_eq}
use playkaboom.Sdk.Buffer.Laws.{bytes_eq_refl, bytes_eq_iff}
use playkaboom.Realtime.Connections.PerIp.{
  max_rpc_proxy_clients, max_relay_clients, max_relay_per_ip, max_rpc_proxy_per_ip, Counts,
  get_count, set_count, delete_count, or_else, count, count_open, count_close,
}
use playkaboom.Realtime.Connections.{
  Upgrade, Socket, Relay, delete_id, add_id, is_proxy_path, client_ip, is_full, accept, on_upgrade,
  socket_of, remove_socket, forget, close_socket, on_close, Event, upgrade, forgotten, closed, step,
  run, no_sockets,
}

get_count-set_count :
    (m : Counts) (k j : Bytes) (n : ℕ)
    → get_count (set_count m k n) j ≡ (if bytes_eq k j then some n else get_count m j)
unfolding get_count set_count
get_count-set_count [] k j n = refl
get_count-set_count ((i, v) ∷ m) k j n =
    ground
      (arith, bytes_eq_iff k j, bytes_eq_iff i k, bytes_eq_iff i j, get_count-set_count m k j n)

get_count-delete_count :
    (m : Counts) (k j : Bytes)
    → get_count (delete_count m k) j ≡ (if bytes_eq k j then none else get_count m j)
unfolding get_count delete_count
get_count-delete_count [] k j = ground arith
get_count-delete_count ((i, v) ∷ m) k j =
    ground
      (arith, bytes_eq_iff k j, bytes_eq_iff i k, bytes_eq_iff i j, get_count-delete_count m k j)

count-count_open :
    (m : Counts) (k j : Bytes)
    → count (count_open m k) j ≡ (if bytes_eq k j then suc (count m k) else count m j)
unfolding count count_open or_else
count-count_open m k j = ground (arith, get_count-set_count m k j (count m k + 1))

count-count_close :
    (m : Counts) (k j : Bytes)
    → 0 < count m k
    → count (count_close m k) j ≡ (if bytes_eq k j then count m k - 1 else count m j)
unfolding count count_close or_else
count-count_close m k j h =
    ground (
      arith,
      get_count-set_count m k j (or_else (get_count m k) 1 - 1),
      get_count-delete_count m k j,
    )

-- Whether a socket is of a kind and counts against an address
unfoldable pub counts_for : Bool → Bytes → Socket → Bool
counts_for true ip s = s.is_proxy && bytes_eq s.ip ip
counts_for false ip s = not s.is_proxy && bytes_eq s.ip ip

-- The sockets of a kind that an address holds open
unfoldable pub held : Bool → Bytes → List Socket → ℕ
unfolding counts_for
held kind ip [] = 0
held kind ip (s ∷ ss) =
    let rest = held kind ip ss in if counts_for kind ip s then suc rest else rest

held-remove_socket :
    (kind : Bool) (ip : Bytes) (ss : List Socket) (id : ℕ) (s : Socket)
    → socket_of ss id ≡ some s
    → held kind ip ss ≡ (
        if counts_for kind ip s
        then suc (held kind ip (remove_socket ss id))
        else held kind ip (remove_socket ss id))
unfolding held socket_of remove_socket
held-remove_socket kind ip [] id s h = cc
held-remove_socket kind ip (t ∷ ss) id s h = ground (arith, held-remove_socket kind ip ss id s)

length-delete_id : (ids : List ℕ) (id : ℕ) → length (delete_id ids id) ≤ length ids
unfolding delete_id
length-delete_id [] id = omega arith
length-delete_id (i ∷ is) id = ground (arith, length-delete_id is id)

-- The counts are those of the open sockets, and within the caps.
pub record IsLimited (relay : Relay) : Type 0 where
  pub relay_counted : (ip : Bytes) → count relay.relay_per_ip ip ≡ held false ip relay.sockets
  pub proxy_counted : (ip : Bytes) → count relay.rpc_proxy_per_ip ip ≡ held true ip relay.sockets
  pub relay_share : (ip : Bytes) → held false ip relay.sockets ≤ max_relay_per_ip
  pub proxy_share : (ip : Bytes) → held true ip relay.sockets ≤ max_rpc_proxy_per_ip
  pub relay_total : length relay.clients ≤ max_relay_clients
  pub proxy_total : length relay.rpc_proxy_active ≤ max_rpc_proxy_clients

accept-IsLimited :
    (is_proxy : Bool) (ip : Bytes) (id : ℕ) (upstream_opens : Bool) (relay : Relay)
    → is_full is_proxy ip relay ≡ false
    → IsLimited relay
    → IsLimited (accept is_proxy ip id upstream_opens relay)
unfolding accept is_full held add_id
accept-IsLimited true ip id upstream_opens relay room v = record {
  relay_counted = v.relay_counted;
  proxy_counted = λ j. ground (
    arith,
    v.proxy_counted j,
    v.proxy_counted ip,
    count-count_open relay.rpc_proxy_per_ip ip j,
    bytes_eq_iff ip j,
  );
  relay_share = v.relay_share;
  proxy_share = λ j. ground (arith, v.proxy_share j, v.proxy_counted ip, bytes_eq_iff ip j);
  relay_total = v.relay_total;
  proxy_total = ground (arith, length-delete_id relay.rpc_proxy_active id, v.proxy_total);
}
accept-IsLimited false ip id upstream_opens relay room v = record {
  relay_counted = λ j. ground (
    arith,
    v.relay_counted j,
    v.relay_counted ip,
    count-count_open relay.relay_per_ip ip j,
    bytes_eq_iff ip j,
  );
  proxy_counted = v.proxy_counted;
  relay_share = λ j. ground (arith, v.relay_share j, v.relay_counted ip, bytes_eq_iff ip j);
  proxy_share = v.proxy_share;
  relay_total = ground (arith, length-delete_id relay.clients id, v.relay_total);
  proxy_total = v.proxy_total;
}

forget-IsLimited : (id : ℕ) (relay : Relay) → IsLimited relay → IsLimited (forget id relay)
unfolding forget
forget-IsLimited id relay v = record {
  relay_counted = v.relay_counted;
  proxy_counted = v.proxy_counted;
  relay_share = v.relay_share;
  proxy_share = v.proxy_share;
  relay_total = omega (arith, length-delete_id relay.clients id, v.relay_total);
  proxy_total = omega (arith, length-delete_id relay.rpc_proxy_active id, v.proxy_total);
}

close_socket-IsLimited :
    (s : Socket) (relay : Relay)
    → socket_of relay.sockets s.id ≡ some s
    → IsLimited relay
    → IsLimited (close_socket s relay)
unfolding close_socket counts_for
close_socket-IsLimited s relay found v =
    let left = forget-IsLimited s.id relay v in
    let shorter =
      λ (kind : Bool) (ip : Bytes). held-remove_socket kind ip relay.sockets s.id s found in
    record {
      relay_counted = λ j. ground (
        arith,
        v.relay_counted j,
        v.relay_counted s.ip,
        shorter false j,
        shorter false s.ip,
        count-count_close relay.relay_per_ip s.ip j,
        bytes_eq_iff s.ip j,
        bytes_eq_refl s.ip,
      );
      proxy_counted = λ j. ground (
        arith,
        v.proxy_counted j,
        v.proxy_counted s.ip,
        shorter true j,
        shorter true s.ip,
        count-count_close relay.rpc_proxy_per_ip s.ip j,
        bytes_eq_iff s.ip j,
        bytes_eq_refl s.ip,
      );
      relay_share = λ j. ground (arith, v.relay_share j, shorter false j);
      proxy_share = λ j. ground (arith, v.proxy_share j, shorter true j);
      relay_total = ground (arith, left.relay_total);
      proxy_total = ground (arith, left.proxy_total);
    }

socket_of-id : (ss : List Socket) (id : ℕ) (s : Socket) → socket_of ss id ≡ some s → s.id ≡ id
unfolding socket_of
socket_of-id [] id s h = cc
socket_of-id (t ∷ ss) id s h = ground (arith, socket_of-id ss id s)

on_upgrade-IsLimited :
    (allowed : List Bytes) (r : Upgrade) (id : ℕ) (upstream_opens : Bool) (relay : Relay)
    → IsLimited relay
    → IsLimited (on_upgrade allowed r id upstream_opens relay).0
unfolding on_upgrade
on_upgrade-IsLimited allowed r id upstream_opens relay v =
    ground (arith, accept-IsLimited (is_proxy_path r) (client_ip r) id upstream_opens relay)

on_close-IsLimited : (id : ℕ) (relay : Relay) → IsLimited relay → IsLimited (on_close id relay)
unfolding on_close
on_close-IsLimited id relay v = elim (Option-cases (socket_of relay.sockets id)) [
  | inl gone ↦ rw (gone, on_close) v
  | inr (s, found) ↦
      rw (found, on_close)
        (close_socket-IsLimited s relay
          (ap (λ i. socket_of relay.sockets i) (socket_of-id relay.sockets id s found) ∙ found) v)
]

step-IsLimited :
    (allowed : List Bytes) (event : Event) (relay : Relay)
    → IsLimited relay
    → IsLimited (step allowed event relay)
unfolding step
step-IsLimited allowed (upgrade r id upstream_opens) relay v =
    on_upgrade-IsLimited allowed r id upstream_opens relay v
step-IsLimited allowed (forgotten id) relay v = forget-IsLimited id relay v
step-IsLimited allowed (closed id) relay v = on_close-IsLimited id relay v

run_keeps :
    (allowed : List Bytes) (events : List Event) (relay : Relay)
    → IsLimited relay
    → IsLimited (run allowed events relay)
unfolding run
run_keeps allowed [] relay v = v
run_keeps allowed (event ∷ events) relay v =
    run_keeps allowed events (step allowed event relay) (step-IsLimited allowed event relay v)

-- However sockets are asked for, fail and close, each address holds at most 20 sockets of the feed
-- and 5 of the proxy, the counts of an address are those of its open sockets, and the relay has at
-- most 2000 clients of the feed and 150 of the proxy.
pub run-IsLimited :
    (allowed : List Bytes) (events : List Event) → IsLimited (run allowed events no_sockets)
unfolding held count get_count or_else
run-IsLimited allowed events = run_keeps allowed events no_sockets (record {
  relay_counted = λ ip. refl;
  proxy_counted = λ ip. refl;
  relay_share = λ ip. omega arith;
  proxy_share = λ ip. omega arith;
  relay_total = omega arith;
  proxy_total = omega arith;
})
