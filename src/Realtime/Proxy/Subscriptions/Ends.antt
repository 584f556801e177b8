-- ===== src/Realtime/Proxy/Subscriptions/Ends.antt =====
-- How many subscriptions and requests the messages of an upstream can end.
use playkaboom.Common.{
  ◌⊎◌, ℕ, ◌+◌, ◌≤◌, ◌≡◌, arith, Bool, true, ◌&&◌, ◌||◌, inl, inr, Option, none, some, List, [], ◌∷◌,
  ◌++◌, length, length-append, codes, Bool-cases, Option-cases, if◌then◌else◌,
}
use playkaboom.Realtime.Json.{Json, boolean, member, same_value}
use playkaboom.Realtime.Proxy.State.{
  remove_value, has_value, add_value, is_final, is_signature_notification, unsubscribed, subscribed,
}
use playkaboom.Realtime.Proxy.Flights.Passed.{one_if}
use playkaboom.Realtime.Proxy.Subscriptions.Asked.{has_id}

-- `true`, which answers an unsubscription, or a result that was given before
unfoldable pub is_old : (given : List Json) → Json → Bool
is_old given (boolean true) = true
is_old given v = has_value given v

-- An answer that does not give a new subscription: it reports an error, has no result, has the
-- result `true` of an unsubscription, or one that was given before.
unfoldable pub gives_none : (given : List Json) → Json → Bool
gives_none given m = elim (member (codes "error") m) [
  | some error ↦ true
  | none ↦ elim (member (codes "result") m) [ none ↦ true | some result ↦ is_old given result ]
]

-- A message that can end a subscription: the last notification of a signature's, or an answer that
-- gives no new one.
unfoldable pub can_end : (given : List Json) → Json → Bool
can_end given m = if is_signature_notification m then is_final m else has_id m && gives_none given m

-- The results that were given, after a message
unfoldable pub given_after : List Json → Json → List Json
given_after given m = elim (member (codes "result") m) [ none ↦ given | some v ↦ v ∷ given ]

unfoldable pub given_after_all : List Json → List Json → List Json
given_after_all given [] = given
given_after_all given (m ∷ ms) = given_after_all (given_after given m) ms

-- How many of the messages can end a subscription
unfoldable pub ends : (given : List Json) → List Json → ℕ
ends given [] = 0
ends given (m ∷ ms) = one_if (can_end given m) + ends (given_after given m) ms

-- How many of the messages are answers
unfoldable pub answers : List Json → ℕ
answers [] = 0
answers (m ∷ ms) = one_if (has_id m) + answers ms

-- Each subscription that is held was given.
abbrev pub Held : (given subs : List Json) → Type 0
Held given subs = (v : Json) → has_value subs v ≡ true → has_value given v ≡ true

has_value-append :
    (subs : List Json) (u v : Json)
    → has_value (subs ++ u ∷ []) v ≡ has_value subs v || same_value u v
unfolding has_value
has_value-append [] u v = ground arith
has_value-append (s ∷ subs) u v = ground (arith, has_value-append subs u v)

has_value-remove :
    (subs : List Json) (o : Option Json) (v : Json)
    → has_value (remove_value subs o) v ≡ true
    → has_value subs v ≡ true
unfolding has_value remove_value
has_value-remove subs none v h = h
has_value-remove [] (some u) v h = h
has_value-remove (s ∷ subs) (some u) v h = ground (arith, has_value-remove subs (some u) v)

pub length-remove_least :
    (subs : List Json) (o : Option Json) → length subs ≤ length (remove_value subs o) + 1
unfolding remove_value
length-remove_least subs none = omega arith
length-remove_least [] (some u) = omega arith
length-remove_least (s ∷ subs) (some u) = ground (arith, length-remove_least subs (some u))

add_value_lem :
    (given subs : List Json) (u : Json)
    → Held given subs
    → (length subs + 1 ≤ length (add_value subs u) + one_if (has_value given u))
      × Held (u ∷ given) (add_value subs u)
unfolding add_value has_value
add_value_lem given subs u held = elim (Bool-cases (has_value subs u)) [
  | inl known ↦ rw (known, held u known) (omega arith, λ v h. ground (arith, held v h))
  | inr new ↦ rw new (
    omega (arith, length-append subs (u ∷ [])),
    λ v h. ground (arith, held v, has_value-append subs u v),
  )
]

unsubscribed_cases :
    (m : Json) (o : Option Json) (subs : List Json)
    → (unsubscribed m o subs ≡ subs)
      ⊎ ((member (codes "result") m ≡ some (boolean true))
          × (unsubscribed m o subs ≡ remove_value subs o))
unfolding unsubscribed
unsubscribed_cases m o subs = ground arith

is_old_lem : (given : List Json) (v : Json) → one_if (has_value given v) ≤ one_if (is_old given v)
unfolding is_old
is_old_lem given v = ground arith

pub Held-after :
    (given subs : List Json) (m : Json) → Held given subs → Held (given_after given m) subs
unfolding given_after has_value
Held-after given subs m held v h = ground (arith, held v h)

pub Held-remove :
    (given subs : List Json) (o : Option Json) → Held given subs → Held given (remove_value subs o)
Held-remove given subs o held v h = held v (has_value-remove subs o v h)

pub unsubscribed_lem :
    (given subs : List Json) (m : Json) (o : Option Json)
    → Held given subs
    → (length subs ≤ length (unsubscribed m o subs) + one_if (gives_none given m))
      × Held (given_after given m) (unsubscribed m o subs)
unfolding gives_none is_old
unsubscribed_lem given subs m o held = elim (unsubscribed_cases m o subs) [
  | inl same ↦ rw same (omega arith, Held-after given subs m held)
  | inr (is_true, removed) ↦ rw removed (
    ground (arith, length-remove_least subs o),
    Held-after given (remove_value subs o) m (Held-remove given subs o held),
  )
]

pub subscribed_lem :
    (given subs : List Json) (m : Json)
    → Held given subs
    → (length subs + 1 ≤ length (subscribed m subs) + one_if (gives_none given m))
      × Held (given_after given m) (subscribed m subs)
unfolding subscribed gives_none given_after
subscribed_lem given subs m held = elim (Option-cases (member (codes "result") m)) [
  | inl missing ↦ (ground arith, λ v h. ground (arith, held v))
  | inr (u, e) ↦
      let added = add_value_lem given subs u held in
      elim (Option-cases (member (codes "error") m)) [
        | inr (error, e') ↦
            (ground arith, rw (subscribed, e') (λ v h. Held-after given subs m held v h))
        | inl fine ↦ (
          ground (arith, added.0, is_old_lem given u),
          rw (subscribed, given_after, fine, e) added.1,
        )
      ]
]

pub Held-after_all :
    (given ms subs : List Json) → Held given subs → Held (given_after_all given ms) subs
unfolding given_after_all
Held-after_all given [] subs held = held
Held-after_all given (m ∷ ms) subs held =
    Held-after_all (given_after given m) ms subs (Held-after given subs m held)

pub ends-append :
    (given ms ns : List Json)
    → ends given (ms ++ ns) ≡ ends given ms + ends (given_after_all given ms) ns
unfolding ends given_after_all
ends-append given [] ns = omega arith
ends-append given (m ∷ ms) ns = omega (arith, ends-append (given_after given m) ms ns)

pub answers-append : (ms ns : List Json) → answers (ms ++ ns) ≡ answers ms + answers ns
unfolding answers
answers-append [] ns = omega arith
answers-append (m ∷ ms) ns = omega (arith, answers-append ms ns)
