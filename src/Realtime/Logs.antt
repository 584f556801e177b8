-- ===== src/Realtime/Logs.antt =====
-- apps/realtime/src/alchemy-logs.ts: the subscription to the program's logs, which posts each
-- signature that it sees. What a handler does to the socket, the timer and the ingest endpoint is an
-- effect; pings and log lines are left out.
pub mod Fresh
use playkaboom.Common.{
  ℕ, ◌+◌, ◌*◌, ◌^◌, min, Bool, true, false, ◌||◌, Option, none, some, List, [], ◌∷◌, ◌++◌, ltb,
  if◌then◌else◌, length, codes,
}
use playkaboom.Sdk.Buffer.{Bytes, bytes_eq}
use playkaboom.Realtime.Json.{Json, null, text, member}

abbrev pub reconnect_base_ms : ℕ
reconnect_base_ms = 1000

abbrev pub reconnect_cap_ms : ℕ
reconnect_cap_ms = 60000

abbrev pub recent_sig_cache : ℕ
recent_sig_cache = 256

-- The variables of the subscriber, with `recent` in the order of its insertions
pub record Subscriber : Type 0 where
  pub reconnect_attempt : ℕ
  pub stopped : Bool
  pub connected : Bool
  pub recent : List Bytes
  pub recent_order : List Bytes

pub data Effect : Type 0 where
  open_socket : Effect
  subscribe : Effect
  post_signature : Bytes → Effect
  connect_in : (delay : ℕ) → Effect
  close_socket : Effect
  -- The handler throws.
  throws : Effect

-- `recent.has(sig)` and `recent.delete(sig)`
unfoldable pub has_sig : List Bytes → Bytes → Bool
has_sig [] sig = false
has_sig (s ∷ ss) sig = bytes_eq s sig || has_sig ss sig

unfoldable pub delete_sig : List Bytes → Bytes → List Bytes
delete_sig [] sig = []
delete_sig (s ∷ ss) sig = let rest = delete_sig ss sig in if bytes_eq s sig then ss else s ∷ rest

-- `recentOrder.shift()`, and the deletion of what it returned: no signature is empty.
unfoldable pub evict : Subscriber → List Bytes → Subscriber
unfolding delete_sig
evict l [] = l
evict l (oldest ∷ rest) = record l { recent = delete_sig l.recent oldest; recent_order = rest }

-- `remember`, where the signature is new
unfoldable pub remember_new : Bytes → Subscriber → Subscriber
unfolding evict
remember_new sig l =
    let order = l.recent_order ++ sig ∷ [] in
    let added = record l { recent = l.recent ++ sig ∷ []; recent_order = order } in
    if ltb recent_sig_cache (length order) then evict added order else added

unfoldable pub on_signature : Bytes → Subscriber → Subscriber × List Effect
unfolding has_sig remember_new
on_signature sig l =
    if ltb (length sig) 64
    then (l, [])
    else if has_sig l.recent sig
    then (l, [])
    else (remember_new sig l, post_signature sig ∷ [])

-- `value?.name` of a value that may be missing
unfoldable pub member_of : Bytes → Option Json → Option Json
member_of name none = none
member_of name (some value) = member name value

unfoldable pub signature_of : Json → Option Json
unfolding member_of
signature_of notif =
    member_of (codes "signature")
      (member_of (codes "value") (member_of (codes "result") (member (codes "params") notif)))

unfoldable pub is_notification : Json → Bool
is_notification msg = elim (member (codes "method") msg) [
  | some (text t) ↦ bytes_eq t (codes "logsNotification")
  | _ ↦ false
]

unfoldable pub on_notification : Option Json → Subscriber → Subscriber × List Effect
unfolding on_signature
on_notification (some (text sig)) l = on_signature sig l
on_notification _ l = (l, [])

unfoldable pub on_value : Json → Subscriber → Subscriber × List Effect
unfolding on_notification signature_of is_notification
on_value msg l = if is_notification msg then on_notification (signature_of msg) l else (l, [])

-- A message that is JSON: reading a member of `null` throws.
unfoldable pub on_parsed : Json → Subscriber → Subscriber × List Effect
unfolding on_value
on_parsed null l = (l, throws ∷ [])
on_parsed msg l = on_value msg l

-- What JSON.parse gives, or nothing where it throws
unfoldable pub on_read : Option Json → Subscriber → Subscriber × List Effect
unfolding on_parsed
on_read none l = (l, [])
on_read (some msg) l = on_parsed msg l

-- `connect`
unfoldable pub connect : Subscriber → Subscriber × List Effect
connect l = if l.stopped then (l, []) else (l, open_socket ∷ [])

unfoldable pub reconnect_delay : (attempt : ℕ) → ℕ
reconnect_delay attempt = min reconnect_cap_ms (reconnect_base_ms * 2 ^ attempt)

unfoldable pub on_close : Subscriber → Subscriber × List Effect
unfolding reconnect_delay
on_close l =
    let down = record l { connected = false } in
    if l.stopped then (down, []) else (
      record down { reconnect_attempt = min (l.reconnect_attempt + 1) 8 },
      connect_in (reconnect_delay l.reconnect_attempt) ∷ [],
    )

pub data Event : Type 0 where
  opened : Event
  message : Bytes → Event
  closed : Event
  timer : Event
  stop : Event

abbrev pub started : Subscriber
started = record {
  reconnect_attempt = 0;
  stopped = false;
  connected = false;
  recent = [];
  recent_order = [];
}

-- `json_parse` is JSON.parse of the text of some bytes.
module _ (json_parse : Bytes → Option Json) where
  unfoldable pub on_message : Bytes → Subscriber → Subscriber × List Effect
  unfolding on_read
  on_message raw l = on_read (json_parse raw) l

  unfoldable pub handle : Event → Subscriber → Subscriber × List Effect
  unfolding on_message connect on_close
  handle opened l = (record l { connected = true; reconnect_attempt = 0 }, subscribe ∷ [])
  handle (message raw) l = on_message raw l
  handle closed l = on_close l
  handle timer l = connect l
  handle stop l = (record l { stopped = true }, close_socket ∷ [])

  unfoldable pub run : List Event → Subscriber → Subscriber × List Effect
  unfolding handle
  run [] l = (l, [])
  run (event ∷ events) l =
      let (l', effects) = handle event l in
      let (l'', effects') = run events l' in (l'', effects ++ effects')
