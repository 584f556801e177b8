-- ===== src/Web/Cron/VrfPasses/Sound.antt =====
-- Each transaction of a pass has its reason, and the passes keep to their cap.
use playkaboom.Common.{
  ℕ, ◌+◌, ◌≤◌, ◌≡◌, arith, Bool, true, false, inl, inr, List, [], ◌∷◌, ◌++◌, leb, if◌then◌else◌,
  All, Bool-cases,
}
use playkaboom.Sdk.Web3.{Web3}
use playkaboom.Web.Cron.VrfPasses.Activity.{max_tx_per_kind}
use playkaboom.Web.Cron.VrfPasses.{
  Chain, Kind, settle, refund, force, Act, Pass, settle_due, one_if_sent, send_refund, send_settle,
  send_force,
}

unfoldable pub same_kind : Kind → Kind → Bool
same_kind settle settle = true
same_kind refund refund = true
same_kind force force = true
same_kind _ _ = false

-- How many transactions of a kind were sent
unfoldable pub sent_of : {K : Type 0} → Kind → List (Act K) → ℕ
sent_of kind [] = 0
sent_of kind (act ∷ acts) =
    (if same_kind kind act.kind then one_if_sent act.sent else 0) + sent_of kind acts

sent_of-append :
    {K : Type 0} (kind : Kind) (acts : List (Act K)) (act : Act K)
    → sent_of kind (acts ++ act ∷ [])
      ≡ sent_of kind acts + (if same_kind kind act.kind then one_if_sent act.sent else 0)
unfolding sent_of
sent_of-append kind [] act = omega arith
sent_of-append kind (a ∷ acts) act = omega (arith, sent_of-append kind acts act)

one_if_sent-le : (sent : Bool) → one_if_sent sent ≤ 1
unfolding one_if_sent
one_if_sent-le true = omega arith
one_if_sent-le false = omega arith

module _ (w : Web3) where
  open w use {PublicKey, equals}

  module _ (P : Act PublicKey → Type 0) where
    All-append :
        (acts : List (Act PublicKey)) (act : Act PublicKey)
        → All P acts
        → P act
        → All P (acts ++ act ∷ [])
    All-append [] act h k = (k, tt)
    All-append (a ∷ acts) act (h, hs) k = (h, All-append acts act hs k)

    -- Every act has its reason, and what was sent of each kind is counted and within the cap.
    pub record IsSound (p : Pass PublicKey) : Type 0 where
      pub reasons : All P p.acts
      pub settles : sent_of settle p.acts ≡ p.settled
      pub refunds : sent_of refund p.acts ≡ p.refunded
      pub forces : sent_of force p.acts ≡ p.forced
      pub few_settles : p.settled ≤ max_tx_per_kind
      pub few_refunds : p.refunded ≤ max_tx_per_kind
      pub few_forces : p.forced ≤ max_tx_per_kind

    module _ (c : Chain PublicKey) (p : Pass PublicKey) (v : IsSound p) where
      pub send_refund-IsSound :
          (player : PublicKey)
          → P (record { kind = refund; player = player; sent = c.refund_sends player })
          → IsSound (send_refund w c player p)
      unfolding send_refund same_kind
      send_refund-IsSound player reason =
          let act : Act PublicKey = record {
            kind = refund;
            player = player;
            sent = c.refund_sends player;
          } in
          let one = one_if_sent-le (c.refund_sends player) in
          elim (Bool-cases (leb max_tx_per_kind p.refunded)) [
            | inl full ↦ rw full v
            | inr room ↦ rw room (record {
              reasons = All-append p.acts act v.reasons reason;
              settles = omega (arith, sent_of-append settle p.acts act, v.settles);
              refunds = omega (arith, sent_of-append refund p.acts act, v.refunds);
              forces = omega (arith, sent_of-append force p.acts act, v.forces);
              few_settles = v.few_settles;
              few_refunds = ground arith;
              few_forces = v.few_forces;
            })
          ]

      pub send_settle-IsSound :
          (game player : PublicKey) (start_slot : ℕ)
          → (settle_due w c game start_slot ≡ true
              → P (record { kind = settle; player = player; sent = c.settle_sends player }))
          → IsSound (send_settle w c game player start_slot p)
      unfolding send_settle same_kind
      send_settle-IsSound game player start_slot reason =
          let act : Act PublicKey = record {
            kind = settle;
            player = player;
            sent = c.settle_sends player;
          } in
          let one = one_if_sent-le (c.settle_sends player) in
          elim (Bool-cases (leb max_tx_per_kind p.settled)) [
            | inl full ↦ rw full v
            | inr room ↦ elim (Bool-cases (settle_due w c game start_slot)) [
              | inr early ↦ rw (room, early) v
              | inl due ↦
                  rw (room, due)
                    (record {
                      reasons = All-append p.acts act v.reasons (reason due);
                      settles = omega (arith, sent_of-append settle p.acts act, v.settles);
                      refunds = omega (arith, sent_of-append refund p.acts act, v.refunds);
                      forces = omega (arith, sent_of-append force p.acts act, v.forces);
                      few_settles = ground arith;
                      few_refunds = v.few_refunds;
                      few_forces = v.few_forces;
                    })
            ]
          ]

      pub send_force-IsSound :
          (player : PublicKey)
          → leb max_tx_per_kind p.forced ≡ false
          → P (record { kind = force; player = player; sent = c.force_sends player })
          → IsSound (send_force w c player p)
      unfolding send_force same_kind
      send_force-IsSound player room reason =
          let act : Act PublicKey = record {
            kind = force;
            player = player;
            sent = c.force_sends player;
          } in
          let one = one_if_sent-le (c.force_sends player) in
          record {
            reasons = All-append p.acts act v.reasons reason;
            settles = omega (arith, sent_of-append settle p.acts act, v.settles);
            refunds = omega (arith, sent_of-append refund p.acts act, v.refunds);
            forces = omega (arith, sent_of-append force p.acts act, v.forces);
            few_settles = v.few_settles;
            few_refunds = v.few_refunds;
            few_forces = ground arith;
          }

    -- A change of what is no act
    pub same-IsSound :
        (p q : Pass PublicKey)
        → IsSound p
        → q.acts ≡ p.acts
        → q.settled ≡ p.settled
        → q.refunded ≡ p.refunded
        → q.forced ≡ p.forced
        → IsSound q
    same-IsSound p q v acts settled refunded forced = record {
      reasons = rw acts v.reasons;
      settles = rw (acts, settled) v.settles;
      refunds = rw (acts, refunded) v.refunds;
      forces = rw (acts, forced) v.forces;
      few_settles = rw settled v.few_settles;
      few_refunds = rw refunded v.few_refunds;
      few_forces = rw forced v.few_forces;
    }
