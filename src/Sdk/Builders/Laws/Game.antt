-- ===== src/Sdk/Builders/Laws/Game.antt =====
-- The builders of the legacy game and of the referral programme.
use playkaboom.Common.{
  ℕ, ◌<◌, ◌≡◌, ◌≢◌, refl, sym, arith, Bool, true, false, Option, List, [], ◌∷◌, ◌++◌, Result, ok,
  String, if◌then◌else◌, length, Bool-cases, inl, inr,
}
use mathlib.Core.List.{append-nil}
use playkaboom.Sdk.Buffer.{Bytes, le_bytes, write_le}
use playkaboom.Sdk.Buffer.Laws.{copy_next, write_le_next}
use playkaboom.Sdk.Web3.{Web3, IsWeb3}
use playkaboom.Sdk.Discriminator.{ix_discriminator, length-ix_discriminator}
use playkaboom.Sdk.Accounts.Layout.{layout, bool_bytes, IsU8, IsU16, IsU64}
use playkaboom.Sdk.Builders.Instruction.{TransactionInstruction}
use playkaboom.Sdk.Builders.Game.{
  build_start_game, build_set_referrer, build_claim_referral, build_repair_referral,
  build_reveal_tile, build_cash_out, build_settle_game, build_refund_expired, build_expire_game,
  build_close_game, build_close_unsettled_game,
}
use playkaboom.Sdk.Builders.Laws.Writes.{
  IsBuilt, start_data_lem, start_data_all, length_next, regroup,
}

-- A call of one of the builders, with its arguments in the order of the source.
pub data Call (K : Type 0) : Type 0 where
  start_game : K → ℕ → ℕ → Bytes → Call K
  set_referrer : K → K → Call K
  claim_referral : K → Call K
  repair_referral : K → K → Call K
  reveal_tile : K → K → ℕ → Bool → Call K
  cash_out : K → Call K
  settle_game : K → K → K → ℕ → Bytes → Option K → Call K
  refund_expired : K → Call K
  expire_game : K → Call K
  close_game : K → Call K
  close_unsettled_game : K → Call K

module _ {K : Type 0} where
  -- The name of the program's instruction.
  abbrev pub name : Call K → String
  name (start_game _ _ _ _) = "start_game"
  name (set_referrer _ _) = "set_referrer"
  name (claim_referral _) = "claim_referral"
  name (repair_referral _ _) = "repair_referral"
  name (reveal_tile _ _ _ _) = "reveal_tile"
  name (cash_out _) = "cash_out"
  name (settle_game _ _ _ _ _ _) = "settle_game"
  name (refund_expired _) = "refund_expired"
  name (expire_game _) = "expire_game"
  name (close_game _) = "close_game"
  name (close_unsettled_game _) = "close_unsettled_game"

  -- The arguments as the program reads them.
  abbrev pub arguments : Call K → Bytes
  arguments (start_game _ mines bet commitment) =
      layout (le_bytes 1 mines ∷ le_bytes 8 bet ∷ commitment ∷ [])
  arguments (reveal_tile _ _ tile is_mine) = layout (le_bytes 1 tile ∷ bool_bytes is_mine ∷ [])
  arguments (settle_game _ _ _ mine_layout salt _) = layout (le_bytes 2 mine_layout ∷ salt ∷ [])
  arguments _ = []

  -- The arguments that the builder accepts.
  abbrev pub Fits : Call K → Type 0
  Fits (start_game _ mines bet commitment) = IsU8 mines × IsU64 bet × (length commitment ≡ 32)
  Fits (set_referrer player referrer) = player ≢ referrer
  Fits (reveal_tile _ _ tile _) = IsU8 tile
  Fits (settle_game _ _ _ mine_layout salt _) = IsU16 mine_layout × (length salt ≡ 32)
  Fits _ = Unit

  -- Whose signature the instruction asks for.
  abbrev pub authority : Call K → List K
  authority (start_game player _ _ _) = player ∷ []
  authority (set_referrer player _) = player ∷ []
  authority (claim_referral referrer) = referrer ∷ []
  authority (repair_referral owner _) = owner ∷ []
  authority (reveal_tile _ house _ _) = house ∷ []
  authority (cash_out player) = player ∷ []
  authority (settle_game _ house _ _ _ _) = house ∷ []
  authority (refund_expired player) = player ∷ []
  authority (expire_game _) = []
  authority (close_game player) = player ∷ []
  authority (close_unsettled_game player) = player ∷ []

module _ (w : Web3) where
  open w use {PublicKey}

  unfoldable pub build : PublicKey → Call PublicKey → Result (TransactionInstruction PublicKey)
  build program_id (start_game player mines bet commitment) =
      build_start_game w program_id player mines bet commitment
  build program_id (set_referrer player referrer) = build_set_referrer w program_id player referrer
  build program_id (claim_referral referrer) = build_claim_referral w program_id referrer
  build program_id (repair_referral owner referrer) =
      build_repair_referral w program_id owner referrer
  build program_id (reveal_tile player house tile is_mine) =
      build_reveal_tile w program_id player house tile is_mine
  build program_id (cash_out player) = build_cash_out w program_id player
  build program_id (settle_game player house treasury mine_layout salt referrer) =
      build_settle_game w program_id player house treasury mine_layout salt referrer
  build program_id (refund_expired player) = build_refund_expired w program_id player
  build program_id (expire_game player) = build_expire_game w program_id player
  build program_id (close_game player) = build_close_game w program_id player
  build program_id (close_unsettled_game player) = build_close_unsettled_game w program_id player

bit-lt : (b : Bool) → (if b then 1 else 0) < 256
bit-lt true = omega arith
bit-lt false = omega arith

module _ {w : Web3} (h : IsWeb3 w) where
  open w use {PublicKey, equals}

  equals-ne : (k j : PublicKey) → k ≢ j → equals k j ≡ false
  equals-ne k j ne = elim (Bool-cases (equals k j)) [
    | inl e ↦ absurd (ne ((h.equals_iff k j).0 e))
    | inr e ↦ e
  ]

  -- Where the arguments are acceptable, each builder of the legacy game and of the referrals builds
  -- an instruction of the program whose data is the instruction's discriminator and the arguments in
  -- the program's layout, and which asks for no signature but the one of its authority;
  -- `expire_game` asks for none.
  pub build_game_lem :
      (program_id : PublicKey) (c : Call PublicKey)
      → Fits c
      → IsBuilt
          (build w program_id c)
          program_id
          (ix_discriminator w (name c) ++ arguments c)
          (authority c)
  unfolding build build_start_game build_set_referrer build_claim_referral build_repair_referral
      build_reveal_tile build_cash_out build_settle_game build_refund_expired build_expire_game
      build_close_game build_close_unsettled_game
  build_game_lem p (start_game player mines bet commitment) (fm, fb, fc) =
      let disc = ix_discriminator w "start_game" in
      let eight = length-ix_discriminator h "start_game" in
      let one = disc ++ le_bytes 1 mines in
      let nine = length_next 1 mines disc 8 eight in
      rw
        (
          fc,
          start_data_lem h "start_game" 41,
          write_le_next 1 mines disc 40 8 eight fm,
          write_le_next 8 bet one 32 9 nine fb,
          copy_next commitment (one ++ le_bytes 8 bet) 32 0 17 fc (length_next 8 bet one 9 nine),
        )
        (refl, simp regroup, refl)
  build_game_lem p (set_referrer player referrer) f =
      rw (equals-ne player referrer f, start_data_all h "set_referrer") (refl, refl, refl)
  build_game_lem p (claim_referral _) f = rw (start_data_all h "claim_referral") (refl, refl, refl)
  build_game_lem p (repair_referral _ _) f =
      rw (start_data_all h "repair_referral") (refl, refl, refl)
  build_game_lem p (reveal_tile player house tile is_mine) f =
      let disc = ix_discriminator w "reveal_tile" in
      let eight = length-ix_discriminator h "reveal_tile" in
      rw
        (
          start_data_lem h "reveal_tile" 2,
          write_le_next 1 tile disc 1 8 eight f,
          write_le_next 1 (if is_mine then 1 else 0) (disc ++ le_bytes 1 tile) 0 9
              (length_next 1 tile disc 8 eight) (bit-lt is_mine),
        )
        (refl, simp regroup, refl)
  build_game_lem p (cash_out _) f = rw (start_data_all h "cash_out") (refl, refl, refl)
  build_game_lem p (settle_game player house treasury mine_layout salt referrer) (fl, fs) =
      let disc = ix_discriminator w "settle_game" in
      let eight = length-ix_discriminator h "settle_game" in
      rw
        (
          fs,
          start_data_lem h "settle_game" 34,
          write_le_next 2 mine_layout disc 32 8 eight fl,
          copy_next salt (disc ++ le_bytes 2 mine_layout) 32 0 10 fs
              (length_next 2 mine_layout disc 8 eight),
        )
        (refl, simp regroup, ground arith)
  build_game_lem p (refund_expired _) f = rw (start_data_all h "refund_expired") (refl, refl, refl)
  build_game_lem p (expire_game _) f =
      (refl, sym (append-nil (ix_discriminator w "expire_game")), refl)
  build_game_lem p (close_game _) f = rw (start_data_all h "close_game") (refl, refl, refl)
  build_game_lem p (close_unsettled_game _) f =
      (refl, sym (append-nil (ix_discriminator w "close_unsettled_game")), refl)

  -- Each of these builders returns only where its arguments are acceptable.
  pub build_game-Fits :
      (program_id : PublicKey) (c : Call PublicKey) {ix : TransactionInstruction PublicKey}
      → build w program_id c ≡ ok ix
      → Fits c
  unfolding build build_start_game build_set_referrer build_reveal_tile build_settle_game write_le
  build_game-Fits p (start_game player mines bet commitment) e =
      (ground arith, ground arith, ground arith)
  build_game-Fits p (set_referrer player referrer) e = ground (arith, h.equals_iff player referrer)
  build_game-Fits p (reveal_tile player house tile is_mine) e = ground arith
  build_game-Fits p (settle_game player house treasury mine_layout salt referrer) e =
      (ground arith, ground arith)
  build_game-Fits p _ e = tt
