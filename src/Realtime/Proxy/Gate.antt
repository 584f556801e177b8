-- ===== src/Realtime/Proxy/Gate.antt =====
-- handleRpcProxyConnection: the requests in flight, and what a client's frame must be to be
-- forwarded upstream.
use playkaboom.Common.{
  ℕ, suc, ◌+◌, ◌||◌, Bool, false, ◌⊎◌, inl, inr, Option, none, some, List, [], ◌∷◌, ltb,
  if◌then◌else◌, is_some, codes, String,
}
use playkaboom.Common.Int.{ℤ, negsuc}
use playkaboom.Sdk.Buffer.{Bytes, bytes_eq}
use playkaboom.Realtime.Json.{Json, number, text, array, cons, member, ends_with}

abbrev pub max_buffered : ℕ
max_buffered = 1048576

abbrev pub per_second : ℕ
per_second = 12

abbrev pub burst : ℕ
burst = 40

abbrev pub max_frame : ℕ
max_frame = 65536

abbrev pub max_batch : ℕ
max_batch = 10

abbrev pub max_pending : ℕ
max_pending = 50

abbrev pub max_subscriptions : ℕ
max_subscriptions = 32

-- `WS_ALLOWED_METHODS`
unfoldable pub allowed_methods : List String
allowed_methods =
    "accountSubscribe" ∷ "accountUnsubscribe" ∷ "signatureSubscribe" ∷ "signatureUnsubscribe"
    ∷ "logsSubscribe" ∷ "logsUnsubscribe" ∷ "programSubscribe" ∷ "programUnsubscribe"
    ∷ "slotSubscribe" ∷ "slotUnsubscribe" ∷ "rootSubscribe" ∷ "rootUnsubscribe" ∷ "getAccountInfo"
    ∷ "getMultipleAccounts" ∷ "getBalance" ∷ "getBlockHeight" ∷ "getSlot" ∷ "getLatestBlockhash"
    ∷ "getFeeForMessage" ∷ "getRecentPrioritizationFees" ∷ "getSignatureStatuses"
    ∷ "getSignaturesForAddress" ∷ "getTransaction" ∷ "getMinimumBalanceForRentExemption"
    ∷ "getEpochInfo" ∷ "getVersion" ∷ "getHealth" ∷ []

unfoldable pub one_of : List String → Bytes → Bool
one_of [] method = false
one_of (name ∷ names) method = bytes_eq method (codes name) || one_of names method

unfoldable pub is_allowed : Bytes → Bool
unfolding one_of allowed_methods
is_allowed method = one_of allowed_methods method

unfoldable pub is_subscribe : Bytes → Bool
is_subscribe method = ends_with method (codes "Subscribe")

unfoldable pub is_unsubscribe : Bytes → Bool
is_unsubscribe method = ends_with method (codes "Unsubscribe")

-- `idKey`: JSON.stringify prints a number and a text, and different ones differently.
pub data IdKey : Type 0 where
  number_key : Bytes → IdKey
  text_key : Bytes → IdKey

unfoldable pub id_key : Option Json → Option IdKey
id_key (some (number n)) = some (number_key n)
id_key (some (text s)) = some (text_key s)
id_key _ = none

unfoldable pub key_eq : IdKey → IdKey → Bool
key_eq (number_key a) (number_key b) = bytes_eq a b
key_eq (text_key a) (text_key b) = bytes_eq a b
key_eq _ _ = false

-- An entry of `inflight`
pub record Request : Type 0 where
  pub key : IdKey
  pub method : Bytes
  pub unsub_id : Option Json

-- `inflight.get(key)`
unfoldable pub request_of : List Request → IdKey → Option Request
request_of [] key = none
request_of (r ∷ rs) key = if key_eq r.key key then some r else request_of rs key

-- `inflight.delete(key)`
unfoldable pub delete_request : List Request → IdKey → List Request
delete_request [] key = []
delete_request (r ∷ rs) key = if key_eq r.key key then rs else r ∷ delete_request rs key

-- `inflight.set(key, request)`
unfoldable pub set_request : List Request → Request → List Request
set_request [] request = request ∷ []
set_request (r ∷ rs) request =
    if key_eq r.key request.key then request ∷ rs else r ∷ set_request rs request

unfoldable pub has_key : List IdKey → IdKey → Bool
has_key [] key = false
has_key (k ∷ ks) key = key_eq k key || has_key ks key

-- The error object that answers a request, with the `id` of the request.
pub record RpcError : Type 0 where
  pub id : Option Json
  pub error_code : ℤ
  pub message : String

abbrev pub invalid : Option Json → RpcError
invalid id = record { id = id; error_code = negsuc 32599; message = "Invalid request" }

abbrev pub not_allowed : Option Json → RpcError
not_allowed id = record { id = id; error_code = negsuc 32600; message = "Method not allowed" }

abbrev pub limited : Option Json → String → RpcError
limited id message = record { id = id; error_code = negsuc 32004; message = message }

-- `batchKeys` and `newSubs` of the loop over a frame's calls
pub record Batch : Type 0 where
  pub keys : List IdKey
  pub new_subs : ℕ

-- A call with a subscription or without, whose key is new
unfoldable pub count_call : (live : ℕ) (id : Option Json) (is_sub : Bool) → Batch → RpcError ⊎ Batch
count_call live id is_sub batch =
    if is_sub
    then (if ltb max_subscriptions (live + suc batch.new_subs)
        then inl (limited id "Too many subscriptions")
        else inr (record batch { new_subs = suc batch.new_subs }))
    else inr batch

unfoldable pub admit_key :
    List Request → (live : ℕ) → (id : Option Json) → Bool → Option IdKey → Batch → RpcError ⊎ Batch
unfolding count_call
admit_key inflight live id is_sub none batch =
    if is_sub then inl (invalid id) else count_call live id is_sub batch
admit_key inflight live id is_sub (some key) batch =
    if is_some (request_of inflight key) || has_key batch.keys key
    then inl (invalid id)
    else count_call live id is_sub (record batch { keys = key ∷ batch.keys })

unfoldable pub admit_method :
    List Request → (live : ℕ) → (id : Option Json) → Option Json → Batch → RpcError ⊎ Batch
unfolding admit_key
admit_method inflight live id (some (text method)) batch =
    if is_allowed method
    then admit_key inflight live id (is_subscribe method) (id_key id) batch
    else inl (not_allowed id)
admit_method inflight live id _ batch = inl (not_allowed id)

-- One round of the loop over a frame's calls: an error that answers the frame, or the batch.
-- `live` is `subs.size + pendingSubs`.
unfoldable pub admit : List Request → (live : ℕ) → Json → Batch → RpcError ⊎ Batch
unfolding admit_method
admit inflight live call batch =
    admit_method inflight live (member (codes "id") call) (member (codes "method") call) batch

unfoldable pub admit_all : List Request → (live : ℕ) → List Json → Batch → RpcError ⊎ Batch
admit_all inflight live [] batch = inr batch
admit_all inflight live (call ∷ calls) batch = elim (admit inflight live call batch) [
  | inl error ↦ inl error
  | inr batch' ↦ admit_all inflight live calls batch'
]

-- `call.params[0]` of an unsubscription whose parameters are an array
unfoldable pub first_param : Json → Option Json
first_param call = elim (member (codes "params") call) [
  | some (array (cons value rest)) ↦ some value
  | _ ↦ none
]

unfoldable pub text_of : Option Json → Bytes
text_of (some (text t)) = t
text_of _ = []

unfoldable pub method_of : Json → Bytes
unfolding text_of
method_of call = text_of (member (codes "method") call)

-- `pendingSubs` and `inflight`
pub record Flight : Type 0 where
  pub pending_subs : ℕ
  pub inflight : List Request

-- The loop that notes the admitted calls: each has a text for its method.
unfoldable pub note_key : Json → Option IdKey → Flight → Flight
note_key call none flight = flight
note_key call (some key) flight =
    let method = method_of call in
    record {
      pending_subs = if is_subscribe method then suc flight.pending_subs else flight.pending_subs;
      inflight = set_request flight.inflight (record {
        key = key;
        method = method;
        unsub_id = if is_unsubscribe method then first_param call else none;
      });
    }

unfoldable pub note_call : Json → Flight → Flight
unfolding note_key
note_call call flight = note_key call (id_key (member (codes "id") call)) flight

unfoldable pub note_calls : List Json → Flight → Flight
note_calls [] flight = flight
note_calls (call ∷ calls) flight = note_calls calls (note_call call flight)
