-- ===== src/Web/Cron/VrfPasses/Safe.antt =====
-- The two loops of a pass, and the whole pass.
use playkaboom.Common.{
  Listed, ◌≡◌, ◌≢◌, refl, sym, ap, ◌∙◌, arith, Bool, true, false, not, ◌||◌, inl, inr, some, List,
  [], ◌∷◌, Result, ok, err, leb, All, Bool-cases, Option-cases,
}
use playkaboom.Sdk.Buffer.{Bytes}
use playkaboom.Sdk.Web3.{Web3, IsWeb3}
use playkaboom.Sdk.Pdas.{derive_vrf_game_pda}
use playkaboom.Sdk.Vrf.{VrfClaimAccount, VrfGameAccount, decode_vrf_game}
use playkaboom.Web.Cron.VrfPasses.Activity.{max_tx_per_kind}
use playkaboom.Web.Cron.VrfPasses.{
  Chain, force, Pass, should_force, read_claims, has_player, l1_game, l1_pass, send_force, er_game,
  er_claimed, is_delegated, er_claim, er_pass, nothing_done, run_vrf_passes,
}
use playkaboom.Web.Cron.VrfPasses.Sound.{sent_of, IsSound, send_force-IsSound}
use playkaboom.Web.Cron.VrfPasses.Reasons.{HasReason, l1_pass-IsSound, l1_game-on_l1}

module _ (w : Web3) (web3 : IsWeb3 w) (c : Chain w.PublicKey) (program_id : w.PublicKey)
    (claims : List (VrfClaimAccount w.PublicKey)) where
  open w use {PublicKey, equals}

  l1_game_keeps :
      (game player : PublicKey) (r : Result (VrfGameAccount PublicKey)) (p : Pass PublicKey)
      → has_player w p.on_l1 player ≡ true
      → has_player w (l1_game w c claims game r p).on_l1 player ≡ true
  unfolding has_player
  l1_game_keeps game player (err e) p h = unfold l1_game in h
  l1_game_keeps game player (ok g) p h =
      rw (l1_game-on_l1 w c program_id claims [] game g p) (ground arith)

  l1_pass_keeps :
      (player : PublicKey) (rest : List (PublicKey × Bytes)) (p : Pass PublicKey)
      → has_player w p.on_l1 player ≡ true
      → has_player w (l1_pass w c claims rest p).on_l1 player ≡ true
  unfolding l1_pass
  l1_pass_keeps player [] p h = h
  l1_pass_keeps player ((game, account) ∷ rest) p h =
      l1_pass_keeps player rest (l1_game w c claims game (decode_vrf_game w account) p)
        (l1_game_keeps game player (decode_vrf_game w account) p h)

  -- The players of the games that were read are noted.
  abbrev Noted : List PublicKey → List (PublicKey × Bytes) → Type 0
  Noted on_l1 games =
      All
        (λ (entry : PublicKey × Bytes).
          (g : VrfGameAccount PublicKey)
          → decode_vrf_game w entry.1 ≡ ok g
          → has_player w on_l1 g.player ≡ true)
        games

  l1_game-noted :
      (game : PublicKey) (r : Result (VrfGameAccount PublicKey)) (p : Pass PublicKey)
      (g : VrfGameAccount PublicKey)
      → r ≡ ok g
      → has_player w (l1_game w c claims game r p).on_l1 g.player ≡ true
  unfolding has_player
  l1_game-noted game r p g e =
      let self = (web3.equals_iff g.player g.player).1 refl in
      rw (e, l1_game-on_l1 w c program_id claims [] game g p, self) refl

  l1_pass-Noted :
      (rest : List (PublicKey × Bytes)) (p : Pass PublicKey)
      → Noted (l1_pass w c claims rest p).on_l1 rest
  unfolding l1_pass
  l1_pass-Noted [] p = tt
  l1_pass-Noted ((game, account) ∷ rest) p =
      let p' = l1_game w c claims game (decode_vrf_game w account) p in
      (
        λ g e.
            l1_pass_keeps g.player rest p' (l1_game-noted game (decode_vrf_game w account) p g e),
        l1_pass-Noted rest p',
      )

  unnoted :
      (on_l1 : List PublicKey) (player : PublicKey) (games : List (PublicKey × Bytes))
      → Noted on_l1 games
      → has_player w on_l1 player ≡ false
      → All
          (λ (entry : PublicKey × Bytes).
            (g : VrfGameAccount PublicKey) → decode_vrf_game w entry.1 ≡ ok g → g.player ≢ player)
          games
  unnoted on_l1 player [] noted away = tt
  unnoted on_l1 player (entry ∷ games) (h, hs) away = (
    λ g e same. cc (sym (h g e), ap (λ k. has_player w on_l1 k) same, away),
    unnoted on_l1 player games hs away,
  )

  module _ (games : List (PublicKey × Bytes)) (on_l1 : List PublicKey)
      (noted : Noted on_l1 games) where
    -- What holds during the second loop
    record IsSearching (p : Pass PublicKey) : Type 0 where
      sound : IsSound w (HasReason w c program_id claims games) p
      noting : p.on_l1 ≡ on_l1

    er_claimed-IsSearching :
        (game : PublicKey) (claim : VrfClaimAccount PublicKey) (g : VrfGameAccount PublicKey)
        (p : Pass PublicKey)
        → (should_force w c game claim g ≡ true
            → HasReason w c program_id claims games
                (record { kind = force; player = claim.player; sent = c.force_sends claim.player }))
        → IsSearching p
        → IsSearching (er_claimed w c game claim (some g) p)
    unfolding er_claimed
    er_claimed-IsSearching game claim g p reason v =
        elim (Bool-cases (leb max_tx_per_kind p.forced)) [
          | inl full ↦ rw full v
          | inr room ↦ elim (Bool-cases (should_force w c game claim g)) [
            | inr not_now ↦ rw (room, not_now) v
            | inl now ↦
                rw (room, now)
                  (record {
                    sound =
                        send_force-IsSound w (HasReason w c program_id claims games) c p v.sound
                          claim.player room (reason now);
                    noting = unfold send_force in v.noting;
                  })
          ]
        ]

    er_claim-IsSearching :
        (claim : VrfClaimAccount PublicKey) (p : Pass PublicKey)
        → Listed claim claims
        → IsSearching p
        → IsSearching (er_claim w c program_id claim p)
    unfolding er_claim
    er_claim-IsSearching claim p listed v =
        let game = (derive_vrf_game_pda w program_id claim.player).0 in
        elim (Bool-cases (has_player w p.on_l1 claim.player || not (is_delegated w c game))) [
          | inl away ↦ rw away v
          | inr here ↦ elim (Option-cases (er_game w c game)) [
            | inl unread ↦ rw (here, unread) (unfold er_claimed in v)
            | inr (g, read) ↦
                let absent : has_player w p.on_l1 claim.player ≡ false = ground arith in
                let delegated : is_delegated w c game ≡ true = ground arith in
                let elsewhere =
                  unnoted on_l1 claim.player games noted
                    (ap (λ ks. has_player w ks claim.player) (sym v.noting) ∙ absent) in
                rw (here, read)
                  (er_claimed-IsSearching game claim g p
                    (λ now. (
                      record {
                        claim = claim;
                        listed = listed;
                        owned = refl;
                        state = g;
                        game = game;
                        derived = refl;
                        delegated = delegated;
                        decoded = read;
                        elsewhere = elsewhere;
                      },
                      now,
                    ))
                    v)
          ]
        ]

    er_pass-IsSearching :
        (rest : List (VrfClaimAccount PublicKey)) (p : Pass PublicKey)
        → ((claim : VrfClaimAccount PublicKey) → Listed claim rest → Listed claim claims)
        → IsSearching p
        → IsSearching (er_pass w c program_id rest p)
    unfolding er_pass
    er_pass-IsSearching [] p within v = v
    er_pass-IsSearching (claim ∷ rest) p within v =
        er_pass-IsSearching rest (er_claim w c program_id claim p)
          (λ k listed. within k (inr listed))
          (er_claim-IsSearching claim p (within claim (inl refl)) v)

both_passes-IsSound :
    (w : Web3) (web3 : IsWeb3 w) (c : Chain w.PublicKey) (program_id : w.PublicKey)
    (claim_accounts : List Bytes) (games : List (w.PublicKey × Bytes))
    → let claims = read_claims w [] claim_accounts in
      IsSound w
        (HasReason w c program_id claims games)
        (er_pass w c program_id claims (l1_pass w c claims games (nothing_done w)))
unfolding sent_of
both_passes-IsSound w web3 c program_id claim_accounts games =
    let claims = read_claims w [] claim_accounts in
    let first = l1_pass w c claims games (nothing_done w) in
    let start : IsSound w (HasReason w c program_id claims games) (nothing_done w) = record {
      reasons = tt;
      settles = refl;
      refunds = refl;
      forces = refl;
      few_settles = omega arith;
      few_refunds = omega arith;
      few_forces = omega arith;
    } in
    let sound =
      l1_pass-IsSound w c program_id claims games games (nothing_done w) (λ entry listed. listed)
        start in
    let noted = l1_pass-Noted w web3 c program_id claims games (nothing_done w) in
    let searched =
      er_pass-IsSearching w web3 c program_id claims games first.on_l1 noted claims first
        (λ claim listed. listed) (record { sound = sound; noting = refl }) in
    searched.sound

-- Every transaction of a pass has its reason. A settlement is of a finished game whose claim is half
-- an hour old, or whose transactions the node listed: of those, where it lists them from the newest
-- on and each with its time, none that went through is later than a minute ago. A refund is of a
-- void game, or of one without reveals that was started a minute ago. Only a delegated game that
-- `shouldForce` accepts is forced, of a player with no game on Solana. Of each kind at most fifteen
-- are sent, and none where the mode is disabled.
pub run_vrf_passes-IsSound :
    (w : Web3) (web3 : IsWeb3 w) (enabled : Bool) (c : Chain w.PublicKey) (program_id : w.PublicKey)
    (claim_accounts : List Bytes) (games : List (w.PublicKey × Bytes)) (p : Pass w.PublicKey)
    → run_vrf_passes w enabled c program_id claim_accounts games ≡ some p
    → (enabled ≡ true)
      × IsSound w (HasReason w c program_id (read_claims w [] claim_accounts) games) p
unfolding run_vrf_passes
run_vrf_passes-IsSound w web3 true c program_id claim_accounts games p h =
    let sound = both_passes-IsSound w web3 c program_id claim_accounts games in
    let same : er_pass w c program_id (read_claims w [] claim_accounts)
          (l1_pass w c (read_claims w [] claim_accounts) games (nothing_done w))
        ≡ p =
      cc in
    (refl, rw (← same) sound)
run_vrf_passes-IsSound w web3 false c program_id claim_accounts games p h = cc
