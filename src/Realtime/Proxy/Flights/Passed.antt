-- ===== src/Realtime/Proxy/Flights/Passed.antt =====
-- What the gate lets through.
use playkaboom.Common.{
  ℕ, suc, ◌+◌, ◌≤◌, ◌≡◌, refl, arith, Bool, true, false, ◌||◌, ◌⊎◌, inl, inr, Option, none, some,
  List, [], ◌∷◌, ◌++◌, length, is_some, if◌then◌else◌, codes,
}
use playkaboom.Realtime.Json.{Json, member}
use playkaboom.Realtime.Proxy.Gate.{
  max_subscriptions, is_subscribe, IdKey, id_key, key_eq, Request, request_of, delete_request,
  set_request, has_key, Batch, count_call, method_of, Flight,
}

abbrev pub one_if : Bool → ℕ
one_if true = 1
one_if false = 0

-- How many of the requests are subscriptions
unfoldable pub count_subs : List Request → ℕ
count_subs [] = 0
count_subs (r ∷ rs) = one_if (is_subscribe r.method) + count_subs rs

pub count_subs-append :
    (rs ss : List Request) → count_subs (rs ++ ss) ≡ count_subs rs + count_subs ss
unfolding count_subs
count_subs-append [] ss = omega arith
count_subs-append (r ∷ rs) ss = omega (arith, count_subs-append rs ss)

pub delete_request_lem :
    (rs : List Request) (key : IdKey) (r : Request)
    → request_of rs key ≡ some r
    → (length rs ≡ suc (length (delete_request rs key)))
      × (count_subs rs ≡ one_if (is_subscribe r.method) + count_subs (delete_request rs key))
unfolding request_of delete_request count_subs
delete_request_lem [] key r h = cc
delete_request_lem (q ∷ rs) key r h = ground (arith, delete_request_lem rs key r)

pub set_request-new :
    (rs : List Request) (r : Request)
    → is_some (request_of rs r.key) ≡ false
    → set_request rs r ≡ rs ++ r ∷ []
unfolding request_of set_request
set_request-new [] r h = refl
set_request-new (q ∷ rs) r h = ground (arith, set_request-new rs r)

pub request_of-append :
    (rs : List Request) (r : Request) (key : IdKey)
    → is_some (request_of (rs ++ r ∷ []) key) ≡ is_some (request_of rs key) || key_eq r.key key
unfolding request_of
request_of-append [] r key = ground arith
request_of-append (q ∷ rs) r key = ground (arith, request_of-append rs r key)

-- What is in flight after some calls of a frame: what was, and the keys of the batch.
abbrev pub Follows : List Request → List IdKey → List Request → Type 0
Follows inflight keys inflight' =
    (key : IdKey)
    → is_some (request_of inflight' key) ≡ is_some (request_of inflight key) || has_key keys key

pub Follows-start : (inflight : List Request) → Follows inflight [] inflight
unfolding has_key
Follows-start inflight key = ground arith

-- What the note of calls adds to the requests, as the batch counts it.
pub record Grows (flight flight' : Flight) (batch batch' : Batch) : Type 0 where
  pub more_requests :
      length flight'.inflight + length batch.keys ≡ length flight.inflight + length batch'.keys
  pub more_pending : flight'.pending_subs + batch.new_subs ≡ flight.pending_subs + batch'.new_subs
  pub more_subs :
      count_subs flight'.inflight + batch.new_subs ≡ count_subs flight.inflight + batch'.new_subs

-- What `admit` asks of a call that it admits: no subscription and nothing new in flight, or a new
-- key.
pub data Admitted (inflight : List Request) (live : ℕ) (call : Json) (batch batch' : Batch)
    : Type 0 where
  unkeyed :
      id_key (member (codes "id") call) ≡ none
      → is_subscribe (method_of call) ≡ false
      → batch' ≡ batch
      → Admitted inflight live call batch batch'
  keyed :
      (key : IdKey)
      → id_key (member (codes "id") call) ≡ some key
      → is_some (request_of inflight key) || has_key batch.keys key ≡ false
      → batch'.keys ≡ key ∷ batch.keys
      → batch'.new_subs ≡ one_if (is_subscribe (method_of call)) + batch.new_subs
      → (live + batch.new_subs ≤ max_subscriptions → live + batch'.new_subs ≤ max_subscriptions)
      → Admitted inflight live call batch batch'

pub count_call_lem :
    (live : ℕ) (id : Option Json) (is_sub : Bool) (batch batch' : Batch)
    → count_call live id is_sub batch ≡ inr batch'
    → (batch'.keys ≡ batch.keys)
      × (batch'.new_subs ≡ one_if is_sub + batch.new_subs)
      × (live + batch.new_subs ≤ max_subscriptions → live + batch'.new_subs ≤ max_subscriptions)
unfolding count_call
count_call_lem live id true batch batch' h = (ground arith, ground arith, λ k. ground arith)
count_call_lem live id false batch batch' h = (ground arith, ground arith, λ k. ground arith)

pub else-inr {ℓ κ} :
    {A : Type ℓ} {B : Type κ} (test : Bool) (a : A) (r : A ⊎ B) (b : B)
    → (if test then inl a else r) ≡ inr b
    → (test ≡ false) × (r ≡ inr b)
else-inr true a r b h = cc
else-inr false a r b h = (refl, h)

pub then-inr {ℓ κ} :
    {A : Type ℓ} {B : Type κ} (test : Bool) (a : A) (r : A ⊎ B) (b : B)
    → (if test then r else inl a) ≡ inr b
    → (test ≡ true) × (r ≡ inr b)
then-inr true a r b h = (refl, h)
then-inr false a r b h = cc
