-- ===== src/Web/Cron/VrfPasses/Reasons.antt =====
-- What must hold of a game and its claim for the house to send a transaction for it.
use playkaboom.Common.{
  Listed, ◌≡◌, ◌≢◌, refl, arith, true, false, not, ◌&&◌, ◌⊎◌, inl, inr, some, List, [], ◌∷◌, ◌++◌,
  Result, ok, err, ◌==◌, All, Bool-cases, Option-cases,
}
use playkaboom.Sdk.Buffer.{Bytes}
use playkaboom.Sdk.Web3.{Web3}
use playkaboom.Sdk.Pdas.{derive_vrf_game_pda}
use playkaboom.Sdk.Vrf.{
  VrfStatus, playing, won, lost, void, VrfClaimAccount, VrfGameAccount, decode_vrf_game,
}
use playkaboom.Web.Cron.VrfPasses.Activity.{settled_idle_ms, age_at_least}
use playkaboom.Web.Cron.VrfPasses.{
  Chain, Kind, settle, refund, force, Act, Pass, should_force, claim_of, l1_claimed, l1_game,
  l1_pass, send_refund, send_settle, er_game, is_delegated,
}
use playkaboom.Web.Cron.VrfPasses.Idle.{HadTime, settle_due_lem}
use playkaboom.Web.Cron.VrfPasses.Sound.{
  IsSound, send_refund-IsSound, send_settle-IsSound, same-IsSound,
}

module _ (w : Web3) (c : Chain w.PublicKey) (program_id : w.PublicKey)
    (claims : List (VrfClaimAccount w.PublicKey)) (games : List (w.PublicKey × Bytes)) where
  open w use {PublicKey, equals}

  -- A game of the program on Solana whose player has an unsettled claim
  pub record OnSolana (player : PublicKey) : Type 0 where
    pub game : PublicKey
    pub account : Bytes
    pub listed : Listed (game, account) games
    pub state : VrfGameAccount PublicKey
    pub decoded : decode_vrf_game w account ≡ ok state
    pub owned : state.player ≡ player
    pub claim : VrfClaimAccount PublicKey
    pub claimed : claim_of w claims player ≡ some claim

  -- A player's claim whose game is on the rollup, and not among those on Solana
  pub record OnRollup (player : PublicKey) : Type 0 where
    pub claim : VrfClaimAccount PublicKey
    pub listed : Listed claim claims
    pub owned : claim.player ≡ player
    pub state : VrfGameAccount PublicKey
    pub game : PublicKey
    pub derived : game ≡ (derive_vrf_game_pda w program_id player).0
    pub delegated : is_delegated w c game ≡ true
    pub decoded : er_game w c game ≡ some state
    pub elsewhere :
        All
          (λ (entry : PublicKey × Bytes).
            (g : VrfGameAccount PublicKey) → decode_vrf_game w entry.1 ≡ ok g → g.player ≢ player)
          games

  -- What a transaction is for: a settlement, a refund or a return from the rollup
  abbrev pub Reason : Kind → PublicKey → Type 0
  Reason settle player =
      (s : OnSolana player) × ((s.state.status ≡ won) ⊎ (s.state.status ≡ lost))
      × HadTime w c s.game s.claim.start_slot
  Reason refund player =
      (s : OnSolana player) × ((s.state.status ≡ void)
        ⊎ ((s.state.status ≡ playing)
            × (s.state.safe_reveals ≡ 0)
            × (s.state.pending ≡ false)
            × (age_at_least c.slot s.claim.start_slot c.slot_ms settled_idle_ms ≡ true)))
  Reason force player = (s : OnRollup player) × (should_force w c s.game s.claim s.state ≡ true)

  abbrev pub HasReason : Act PublicKey → Type 0
  HasReason act = Reason act.kind act.player

  module _ (game : PublicKey) (account : Bytes) (listed : Listed (game, account) games)
      (g : VrfGameAccount PublicKey) (decoded : decode_vrf_game w account ≡ ok g)
      (claim : VrfClaimAccount PublicKey) (claimed : claim_of w claims g.player ≡ some claim) where
    on_solana : OnSolana g.player
    on_solana = record {
      game = game;
      account = account;
      listed = listed;
      state = g;
      decoded = decoded;
      owned = refl;
      claim = claim;
      claimed = claimed;
    }

    l1_claimed-IsSound :
        (status : VrfStatus) (p : Pass PublicKey)
        → g.status ≡ status
        → IsSound w HasReason p
        → IsSound w HasReason (l1_claimed w c game g claim status p)
    unfolding l1_claimed on_solana
    l1_claimed-IsSound won p e v =
        send_settle-IsSound w HasReason c p v game g.player claim.start_slot
          (λ due. (on_solana, inl e, settle_due_lem w c game claim.start_slot due))
    l1_claimed-IsSound lost p e v =
        send_settle-IsSound w HasReason c p v game g.player claim.start_slot
          (λ due. (on_solana, inr e, settle_due_lem w c game claim.start_slot due))
    l1_claimed-IsSound void p e v =
        send_refund-IsSound w HasReason c p v g.player (on_solana, inl e)
    l1_claimed-IsSound playing p e v = elim (Bool-cases (g.safe_reveals == 0 && not g.pending)) [
      | inr progress ↦ rw progress (
          same-IsSound w HasReason p (record p { needs_review = p.needs_review ++ g.player ∷ [] }) v
            refl refl refl refl)
      | inl fresh ↦
          elim (Bool-cases (age_at_least c.slot claim.start_slot c.slot_ms settled_idle_ms)) [
            | inr young ↦ rw (fresh, young) v
            | inl old ↦
                rw (fresh, old)
                  (send_refund-IsSound w HasReason c p v g.player
                    (on_solana, inr (e, ground arith, ground arith, old)))
          ]
    ]

  l1_game-IsSound :
      (game : PublicKey) (account : Bytes) (r : Result (VrfGameAccount PublicKey))
      (p : Pass PublicKey)
      → Listed (game, account) games
      → decode_vrf_game w account ≡ r
      → IsSound w HasReason p
      → IsSound w HasReason (l1_game w c claims game r p)
  unfolding l1_game
  l1_game-IsSound game account (err error) p listed e v = v
  l1_game-IsSound game account (ok g) p listed e v =
      let p' : Pass PublicKey = record p { on_l1 = g.player ∷ p.on_l1 } in
      let v' = same-IsSound w HasReason p p' v refl refl refl refl in
      elim (Option-cases (claim_of w claims g.player)) [
        | inl orphan ↦ rw (orphan, l1_game) v'
        | inr (claim, claimed) ↦
            rw (claimed, l1_game)
              (l1_claimed-IsSound game account listed g e claim claimed g.status p' refl v')
      ]

  pub l1_pass-IsSound :
      (rest : List (PublicKey × Bytes)) (p : Pass PublicKey)
      → ((entry : PublicKey × Bytes) → Listed entry rest → Listed entry games)
      → IsSound w HasReason p
      → IsSound w HasReason (l1_pass w c claims rest p)
  unfolding l1_pass
  l1_pass-IsSound [] p within v = v
  l1_pass-IsSound ((game, account) ∷ rest) p within v =
      l1_pass-IsSound rest (l1_game w c claims game (decode_vrf_game w account) p)
        (λ entry listed. within entry (inr listed))
        (l1_game-IsSound game account (decode_vrf_game w account) p
          (within (game, account) (inl refl)) refl v)

  -- Every player of a game on Solana is noted, and none is forgotten.
  l1_claimed-on_l1 :
      (game : PublicKey) (g : VrfGameAccount PublicKey) (claim : VrfClaimAccount PublicKey)
      (status : VrfStatus) (p : Pass PublicKey)
      → (l1_claimed w c game g claim status p).on_l1 ≡ p.on_l1
  unfolding l1_claimed send_settle send_refund
  l1_claimed-on_l1 game g claim won p = ground arith
  l1_claimed-on_l1 game g claim lost p = ground arith
  l1_claimed-on_l1 game g claim void p = ground arith
  l1_claimed-on_l1 game g claim playing p = ground arith

  pub l1_game-on_l1 :
      (game : PublicKey) (g : VrfGameAccount PublicKey) (p : Pass PublicKey)
      → (l1_game w c claims game (ok g) p).on_l1 ≡ g.player ∷ p.on_l1
  unfolding l1_game
  l1_game-on_l1 game g p =
      let p' : Pass PublicKey = record p { on_l1 = g.player ∷ p.on_l1 } in
      elim (Option-cases (claim_of w claims g.player)) [
        | inl orphan ↦ rw (orphan, l1_game) refl
        | inr (claim, claimed) ↦ rw (claimed, l1_game) (l1_claimed-on_l1 game g claim g.status p')
      ]
