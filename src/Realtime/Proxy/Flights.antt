-- ===== src/Realtime/Proxy/Flights.antt =====
-- The requests in flight, before and after an admitted frame is noted.
pub mod Passed
use playkaboom.Common.{
  Either-cases, ℕ, suc, ◌+◌, ◌≤◌, ◌≡◌, refl, ap, ◌∙◌, arith, Bool, true, false, ◌||◌, ◌⊎◌, inl, inr,
  Option, none, some, List, [], ◌∷◌, ◌++◌, length, length-append, All, is_some, if◌then◌else◌,
  codes,
}
use playkaboom.Realtime.Json.{Json, text, member}
use playkaboom.Realtime.Proxy.Gate.{
  max_subscriptions, is_subscribe, is_allowed, IdKey, id_key, key_eq, Request, request_of,
  is_unsubscribe, first_param, delete_request, set_request, has_key, Batch, invalid, not_allowed,
  count_call, admit_key, admit_method, admit, admit_all, text_of, method_of, note_key, Flight,
  note_call, note_calls,
}
use Passed.{
  one_if, count_subs, count_subs-append, set_request-new, request_of-append, Follows, Grows,
  Admitted, unkeyed, keyed, count_call_lem, else-inr, then-inr,
}

module _ (inflight : List Request) (live : ℕ) (batch batch' : Batch) where
  admit_key_lem :
      (call : Json) (key : Option IdKey)
      → id_key (member (codes "id") call) ≡ key
      → admit_key inflight live (member (codes "id") call) (is_subscribe (method_of call)) key batch
        ≡ inr batch'
      → Admitted inflight live call batch batch'
  unfolding admit_key
  admit_key_lem call none is_key h =
      unkeyed is_key (ground arith) (ground (arith, count_call_lem live (member (codes "id") call)))
  admit_key_lem call (some key) is_key h =
      let new : Batch = record batch { keys = key ∷ batch.keys } in
      let id = member (codes "id") call in
      let is_sub = is_subscribe (method_of call) in
      let split = else-inr _ (invalid id) (count_call live id is_sub new) batch' h in
      let counts = count_call_lem live id is_sub new batch' split.1 in
      keyed key is_key split.0 counts.0 counts.1 counts.2

  admit_method_lem :
      (call : Json) (method : Option Json)
      → method_of call ≡ text_of method
      → admit_method inflight live (member (codes "id") call) method batch ≡ inr batch'
      → is_allowed (method_of call) ≡ true × Admitted inflight live call batch batch'
  unfolding admit_method text_of
  admit_method_lem call (some (text method)) e h =
      let id = member (codes "id") call in
      let split =
        then-inr (is_allowed method) (not_allowed id)
          (admit_key inflight live id (is_subscribe method) (id_key id) batch) batch' h in
      (rw e split.0, admit_key_lem call (id_key id) refl (rw e split.1))
  admit_method_lem call _ e h = cc

  pub admit_lem :
      (call : Json)
      → admit inflight live call batch ≡ inr batch'
      → (is_allowed (method_of call) ≡ true) × Admitted inflight live call batch batch'
  unfolding admit method_of
  admit_lem call h = admit_method_lem call (member (codes "method") call) refl h

-- A request that is put behind those in flight, as an admitted call is
put_lem :
    (inflight inflight' : List Request) (keys : List IdKey) (r : Request)
    → Follows inflight keys inflight'
    → is_some (request_of inflight r.key) || has_key keys r.key ≡ false
    → (set_request inflight' r ≡ inflight' ++ r ∷ [])
      × Follows inflight (r.key ∷ keys) (inflight' ++ r ∷ [])
unfolding has_key
put_lem inflight inflight' keys r follows fresh = (
  set_request-new inflight' r (follows r.key ∙ fresh),
  λ key. ground (arith, request_of-append inflight' r key, follows key),
)

pending_lem :
    (is_sub : Bool) (pending : ℕ)
    → (if is_sub then suc pending else pending) ≡ one_if is_sub + pending
pending_lem true pending = omega arith
pending_lem false pending = omega arith

module _ (inflight : List Request) (live : ℕ) (batch batch' : Batch) where
  note_key_lem :
      (call : Json) (key : IdKey) (flight : Flight)
      → is_some (request_of inflight key) || has_key batch.keys key ≡ false
      → batch'.keys ≡ key ∷ batch.keys
      → batch'.new_subs ≡ one_if (is_subscribe (method_of call)) + batch.new_subs
      → Follows inflight batch.keys flight.inflight
      → Follows inflight batch'.keys (note_key call (some key) flight).inflight
        × Grows flight (note_key call (some key) flight) batch batch'
  unfolding note_key count_subs
  note_key_lem call key flight fresh keys subs follows =
      let method = method_of call in
      let r : Request = record {
        key = key;
        method = method;
        unsub_id = if is_unsubscribe method then first_param call else none;
      } in
      let put = put_lem inflight flight.inflight batch.keys r follows fresh in
      rw (put.0, keys)
        (
          put.1,
          record {
            more_requests = omega (arith, length-append flight.inflight (r ∷ []), ap length keys);
            more_pending = omega (arith, pending_lem (is_subscribe method) flight.pending_subs);
            more_subs = omega (arith, count_subs-append flight.inflight (r ∷ []));
          },
        )

  pub note_call_lem :
      (call : Json) (flight : Flight)
      → Admitted inflight live call batch batch'
      → Follows inflight batch.keys flight.inflight
      → Follows inflight batch'.keys (note_call call flight).inflight
        × Grows flight (note_call call flight) batch batch'
        × (live + batch.new_subs ≤ max_subscriptions → live + batch'.new_subs ≤ max_subscriptions)
  unfolding note_call note_key
  note_call_lem call flight (unkeyed is_key no_sub same) follows =
      rw (is_key, same)
        (follows, record { more_requests = refl; more_pending = refl; more_subs = refl }, λ h. h)
  note_call_lem call flight (keyed key is_key fresh keys subs bound) follows =
      let noted = note_key_lem call key flight fresh keys subs follows in
      rw is_key (noted.0, noted.1, bound)

Grows-trans : (f g h : Flight) (a b c : Batch) → Grows f g a b → Grows g h b c → Grows f h a c
Grows-trans f g h a b c first second = record {
  more_requests = omega (arith, first.more_requests, second.more_requests);
  more_pending = omega (arith, first.more_pending, second.more_pending);
  more_subs = omega (arith, first.more_subs, second.more_subs);
}

-- What a whole frame adds, where each of its calls is admitted
pub note_calls_lem :
    (inflight : List Request) (live : ℕ) (calls : List Json) (batch batch' : Batch)
    (flight : Flight)
    → admit_all inflight live calls batch ≡ inr batch'
    → Follows inflight batch.keys flight.inflight
    → Grows flight (note_calls calls flight) batch batch'
      × (live + batch.new_subs ≤ max_subscriptions → live + batch'.new_subs ≤ max_subscriptions)
      × All (λ call. is_allowed (method_of call) ≡ true) calls
unfolding admit_all note_calls
note_calls_lem inflight live [] batch batch' flight h follows =
    let same : batch ≡ batch' = cc in
    (
      record {
        more_requests = ground arith;
        more_pending = ground arith;
        more_subs = ground arith;
      },
      λ k. ground arith,
      tt,
    )
note_calls_lem inflight live (call ∷ calls) batch batch' flight h follows =
    elim (Either-cases (admit inflight live call batch)) [
      | inl (error, e) ↦ absurd (ground arith)
      | inr (middle, e) ↦
          let rest : admit_all inflight live calls middle ≡ inr batch' = ground arith in
          let admitted = admit_lem inflight live batch middle call e in
          let noted = note_call_lem inflight live batch middle call flight admitted.1 follows in
          let flight' = note_call call flight in
          let ih = note_calls_lem inflight live calls middle batch' flight' rest noted.0 in
          (
            Grows-trans flight flight' (note_calls calls flight') batch middle batch' noted.1 ih.0,
            λ k. ih.1 (noted.2 k),
            (admitted.0, ih.2),
          )
    ]
