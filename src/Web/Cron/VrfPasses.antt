-- ===== src/Web/Cron/VrfPasses.antt =====
-- apps/web/src/server/cron/vrf-passes.ts: which VRF games the house settles, refunds and forces
-- back. Log lines and error texts are left out.
pub mod Idle
pub mod Sound
pub mod Reasons
pub mod Safe
pub mod Activity
use playkaboom.Common.{
  ℕ, zero, suc, ◌+◌, ◌-◌, ◌*◌, ◌≡◌, Bool, true, false, not, ◌&&◌, ◌||◌, Option, none, some, List,
  [], ◌∷◌, ◌++◌, Result, Error, ok, err, ltb, leb, ◌==◌, if◌then◌else◌, is_some,
}
use playkaboom.Common.Int.{ℤ, pos, ◌-ℤ◌, ◌*ℤ◌, leb_ℤ}
use playkaboom.Sdk.Buffer.{Bytes}
use playkaboom.Sdk.Web3.{Web3}
use playkaboom.Sdk.Pdas.{derive_vrf_game_pda, delegation_program}
use playkaboom.Sdk.Vrf.{
  VrfStatus, playing, won, lost, void, VrfClaimAccount, VrfGameAccount, decode_vrf_claim,
  decode_vrf_game,
}
use Activity.{
  settled_idle_ms, force_age_ms, force_idle_ms, max_tx_per_kind, SlotMs, age_at_least,
  SignatureInfo, settle_idle, force_idle, is_playing,
}

-- What a pass reads: the slot and its length, and for an account the recent signatures on Solana
-- and on the rollup, the time at which they are checked, the owner on Solana, the data on the
-- rollup, and whether a transaction for a player goes through.
pub record Chain (K : Type 0) : Type 0 where
  pub slot : ℕ
  pub slot_ms : SlotMs
  pub l1_signatures : K → Result (List SignatureInfo)
  pub er_signatures : K → Result (List SignatureInfo)
  pub now_at : K → ℕ
  pub l1_owner : K → Option K
  pub er_data : K → Option Bytes
  pub settle_sends : K → Bool
  pub refund_sends : K → Bool
  pub force_sends : K → Bool

pub data Kind : Type 0 where
  settle refund force : Kind

-- A transaction that was sent for a player's game, or that failed
pub record Act (K : Type 0) : Type 0 where
  pub kind : Kind
  pub player : K
  pub sent : Bool

-- `res` and `onL1`
pub record Pass (K : Type 0) : Type 0 where
  pub settled : ℕ
  pub refunded : ℕ
  pub forced : ℕ
  pub acts : List (Act K)
  pub needs_review : List K
  pub on_l1 : List K

-- What a send adds to the count of its kind: nothing where it failed
unfoldable pub one_if_sent : Bool → ℕ
one_if_sent true = 1
one_if_sent false = 0

module _ (w : Web3) where
  open w use {PublicKey, equals}

  -- `settleDue`
  unfoldable pub settle_due : Chain PublicKey → PublicKey → (start_slot : ℕ) → Bool
  unfolding settle_idle
  settle_due c game start_slot =
      if age_at_least c.slot start_slot c.slot_ms force_age_ms
      then true
      else settle_idle (c.now_at game) (c.l1_signatures game)

  -- `shouldForce`
  unfoldable pub should_force :
      Chain PublicKey → PublicKey → VrfClaimAccount PublicKey → VrfGameAccount PublicKey → Bool
  unfolding force_idle is_playing
  should_force c game claim g =
      let idle = if is_playing g.status then force_idle_ms else settled_idle_ms in
      if is_playing g.status && g.pending
      then false
      else if age_at_least c.slot claim.start_slot c.slot_ms force_age_ms
      then true
      else force_idle (c.now_at game) idle (age_at_least c.slot claim.start_slot c.slot_ms idle)
          (c.er_signatures game)

  -- `claims`: the unsettled claims, one for each player, the last that was read
  unfoldable pub set_claim :
      List (VrfClaimAccount PublicKey)
      → VrfClaimAccount PublicKey
      → List (VrfClaimAccount PublicKey)
  set_claim [] claim = claim ∷ []
  set_claim (c ∷ cs) claim =
      let rest = set_claim cs claim in if equals c.player claim.player then claim ∷ cs else c ∷ rest

  unfoldable pub add_claim :
      List (VrfClaimAccount PublicKey)
      → Result (VrfClaimAccount PublicKey)
      → List (VrfClaimAccount PublicKey)
  unfolding set_claim
  add_claim claims (err e) = claims
  add_claim claims (ok claim) = if claim.settled then claims else set_claim claims claim

  unfoldable pub read_claims :
      List (VrfClaimAccount PublicKey) → List Bytes → List (VrfClaimAccount PublicKey)
  unfolding add_claim
  read_claims claims [] = claims
  read_claims claims (account ∷ accounts) =
      read_claims (add_claim claims (decode_vrf_claim w account)) accounts

  unfoldable pub claim_of :
      List (VrfClaimAccount PublicKey) → PublicKey → Option (VrfClaimAccount PublicKey)
  claim_of [] player = none
  claim_of (c ∷ cs) player = if equals c.player player then some c else claim_of cs player

  unfoldable pub has_player : List PublicKey → PublicKey → Bool
  has_player [] player = false
  has_player (p ∷ ps) player = equals p player || has_player ps player

  unfoldable pub send_refund : Chain PublicKey → PublicKey → Pass PublicKey → Pass PublicKey
  unfolding one_if_sent
  send_refund c player p = if leb max_tx_per_kind p.refunded then p else record p {
    refunded = p.refunded + one_if_sent (c.refund_sends player);
    acts = p.acts ++ record { kind = refund; player = player; sent = c.refund_sends player } ∷ [];
  }

  unfoldable pub send_settle :
      Chain PublicKey
      → (game player : PublicKey) → (start_slot : ℕ) → Pass PublicKey
      → Pass PublicKey
  unfolding one_if_sent settle_due
  send_settle c game player start_slot p =
      if leb max_tx_per_kind p.settled
      then p
      else if settle_due c game start_slot
      then record p {
        settled = p.settled + one_if_sent (c.settle_sends player);
        acts =
            p.acts ++ record { kind = settle; player = player; sent = c.settle_sends player } ∷ [];
      }
      else p

  -- A game on Solana that has a claim, by its status
  unfoldable pub l1_claimed :
      Chain PublicKey
      → PublicKey
      → VrfGameAccount PublicKey
      → VrfClaimAccount PublicKey
      → VrfStatus
      → Pass PublicKey
      → Pass PublicKey
  unfolding send_refund send_settle
  l1_claimed c game g claim won p = send_settle c game g.player claim.start_slot p
  l1_claimed c game g claim lost p = send_settle c game g.player claim.start_slot p
  l1_claimed c game g claim void p = send_refund c g.player p
  l1_claimed c game g claim playing p =
      if g.safe_reveals == 0 && not g.pending
      then (if age_at_least c.slot claim.start_slot c.slot_ms settled_idle_ms
          then send_refund c g.player p
          else p)
      else record p { needs_review = p.needs_review ++ g.player ∷ [] }

  unfoldable pub l1_game :
      Chain PublicKey
      → List (VrfClaimAccount PublicKey)
      → PublicKey
      → Result (VrfGameAccount PublicKey)
      → Pass PublicKey
      → Pass PublicKey
  unfolding l1_claimed claim_of
  l1_game c claims game (err e) p = p
  l1_game c claims game (ok g) p =
      let p' = record p { on_l1 = g.player ∷ p.on_l1 } in
      elim (claim_of claims g.player) [
        | none ↦ p'
        | some claim ↦ l1_claimed c game g claim g.status p'
      ]

  -- The first loop, over the program's VrfGame accounts on Solana
  unfoldable pub l1_pass :
      Chain PublicKey
      → List (VrfClaimAccount PublicKey)
      → List (PublicKey × Bytes)
      → Pass PublicKey
      → Pass PublicKey
  unfolding l1_game
  l1_pass c claims [] p = p
  l1_pass c claims ((game, account) ∷ rest) p =
      l1_pass c claims rest (l1_game c claims game (decode_vrf_game w account) p)

  unfoldable pub send_force : Chain PublicKey → PublicKey → Pass PublicKey → Pass PublicKey
  unfolding one_if_sent
  send_force c player p = record p {
    forced = p.forced + one_if_sent (c.force_sends player);
    acts = p.acts ++ record { kind = force; player = player; sent = c.force_sends player } ∷ [];
  }

  -- `info ? decodeOr(decodeVrfGame, info.data) : null`
  unfoldable pub er_game : Chain PublicKey → PublicKey → Option (VrfGameAccount PublicKey)
  er_game c game = elim (c.er_data game) [
    | none ↦ none
    | some account ↦ elim (decode_vrf_game w account) [ err e ↦ none | ok g ↦ some g ]
  ]

  unfoldable pub er_claimed :
      Chain PublicKey
      → PublicKey
      → VrfClaimAccount PublicKey
      → Option (VrfGameAccount PublicKey)
      → Pass PublicKey
      → Pass PublicKey
  unfolding send_force should_force
  er_claimed c game claim none p = p
  er_claimed c game claim (some g) p =
      if leb max_tx_per_kind p.forced
      then p
      else if should_force c game claim g
      then send_force c claim.player p
      else p

  -- The game is delegated: its account on Solana belongs to the delegation program.
  unfoldable pub is_delegated : Chain PublicKey → PublicKey → Bool
  is_delegated c game = elim (c.l1_owner game) [
    | none ↦ false
    | some owner ↦ equals owner (delegation_program w)
  ]

  unfoldable pub er_claim :
      Chain PublicKey
      → (program_id : PublicKey) → VrfClaimAccount PublicKey
      → Pass PublicKey
      → Pass PublicKey
  unfolding er_claimed has_player er_game is_delegated
  er_claim c program_id claim p =
      let game = (derive_vrf_game_pda w program_id claim.player).0 in
      if has_player p.on_l1 claim.player || not (is_delegated c game)
      then p
      else er_claimed c game claim (er_game c game) p

  -- The second loop, over the claims whose game is not among those of the first
  unfoldable pub er_pass :
      Chain PublicKey
      → (program_id : PublicKey) → List (VrfClaimAccount PublicKey)
      → Pass PublicKey
      → Pass PublicKey
  unfolding er_claim
  er_pass c program_id [] p = p
  er_pass c program_id (claim ∷ claims) p =
      er_pass c program_id claims (er_claim c program_id claim p)

  abbrev pub nothing_done : Pass PublicKey
  nothing_done = record {
    settled = 0;
    refunded = 0;
    forced = 0;
    acts = [];
    needs_review = [];
    on_l1 = [];
  }

  -- `runVrfPasses`, of the accounts that the two scans returned; none where the mode is disabled
  unfoldable pub run_vrf_passes :
      (enabled : Bool)
      → Chain PublicKey
      → (program_id : PublicKey) (claim_accounts : List Bytes)
        (game_accounts : List (PublicKey × Bytes))
      → Option (Pass PublicKey)
  unfolding read_claims l1_pass er_pass
  run_vrf_passes enabled c program_id claim_accounts game_accounts =
      let claims = read_claims [] claim_accounts in
      if enabled
      then some (er_pass c program_id claims (l1_pass c claims game_accounts nothing_done))
      else none
