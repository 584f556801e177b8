-- ===== src/Sdk/Builders/Laws/Vrf.antt =====
-- The builders of vrf.ts.
use playkaboom.Common.{
  ℕ, ◌%◌, ◌≡◌, refl, sym, arith, Option, List, [], ◌∷◌, ◌++◌, Result, ok, String,
}
use mathlib.Core.List.{append-nil}
use playkaboom.Sdk.Buffer.{Bytes, le_bytes, write_le}
use playkaboom.Sdk.Buffer.Laws.{copy_next, write_le_next}
use playkaboom.Sdk.Web3.{Web3, IsWeb3}
use playkaboom.Sdk.Discriminator.{ix_discriminator, length-ix_discriminator}
use playkaboom.Sdk.Accounts.Layout.{layout, IsU8, IsU64}
use playkaboom.Sdk.Builders.Instruction.{TransactionInstruction}
use playkaboom.Sdk.Builders.Vrf.{
  build_start_game_vrf, build_admin_release_vrf_claim, build_delegate_vrf,
  build_admin_close_orphaned_game_v2, build_reveal_request_vrf, build_cash_out_vrf,
  build_settle_and_undelegate_vrf, build_force_undelegate_vrf, build_settle_vrf,
  build_refund_stalled_vrf,
}
use playkaboom.Sdk.Builders.Laws.Writes.{
  IsBuilt, start_data_lem, start_data_all, length_next, regroup,
}

-- A call of one of the builders, with its arguments in the order of the source.
pub data Call (K : Type 0) : Type 0 where
  start_game_vrf : K → ℕ → ℕ → K → Call K
  admin_release_vrf_claim : K → K → Call K
  delegate_vrf : K → Call K
  admin_close_orphaned_game_v2 : K → K → Call K
  reveal_request_vrf : K → K → ℕ → ℕ → Option K → Call K
  cash_out_vrf : K → K → Call K
  settle_and_undelegate_vrf : K → K → Call K
  force_undelegate_vrf : K → K → Call K
  settle_vrf : K → K → K → Option K → Call K
  refund_stalled_vrf : K → K → Call K

module _ {K : Type 0} where
  -- The name of the program's instruction.
  abbrev pub name : Call K → String
  name (start_game_vrf _ _ _ _) = "start_game_vrf"
  name (admin_release_vrf_claim _ _) = "admin_release_vrf_claim"
  name (delegate_vrf _) = "delegate_vrf"
  name (admin_close_orphaned_game_v2 _ _) = "admin_close_orphaned_game_v2"
  name (reveal_request_vrf _ _ _ _ _) = "reveal_request_vrf"
  name (cash_out_vrf _ _) = "cash_out_vrf"
  name (settle_and_undelegate_vrf _ _) = "settle_and_undelegate_vrf"
  name (force_undelegate_vrf _ _) = "force_undelegate_vrf"
  name (settle_vrf _ _ _ _) = "settle_vrf"
  name (refund_stalled_vrf _ _) = "refund_stalled_vrf"

  -- The arguments that the builder accepts.
  abbrev pub Fits : Call K → Type 0
  Fits (start_game_vrf _ mines bet _) = IsU8 mines × IsU64 bet
  Fits (reveal_request_vrf _ _ tile _ _) = IsU8 tile
  Fits _ = Unit

  -- Whose signature the instruction asks for.
  abbrev pub authority : Call K → List K
  authority (start_game_vrf player _ _ _) = player ∷ []
  authority (admin_release_vrf_claim owner _) = owner ∷ []
  authority (delegate_vrf player) = player ∷ []
  authority (admin_close_orphaned_game_v2 owner _) = owner ∷ []
  authority (reveal_request_vrf _ session _ _ _) = session ∷ []
  authority (cash_out_vrf _ signer) = signer ∷ []
  authority (settle_and_undelegate_vrf _ payer) = payer ∷ []
  authority (force_undelegate_vrf _ house) = house ∷ []
  authority (settle_vrf _ payer _ _) = payer ∷ []
  authority (refund_stalled_vrf _ caller) = caller ∷ []

module _ (w : Web3) where
  open w use {PublicKey, to_bytes}

  -- The arguments as the program reads them.
  abbrev pub arguments : Call PublicKey → Bytes
  arguments (start_game_vrf _ mines bet session_key) =
      layout (le_bytes 1 mines ∷ le_bytes 8 bet ∷ to_bytes session_key ∷ [])
  arguments (reveal_request_vrf _ _ tile seed _) =
      layout (le_bytes 1 tile ∷ le_bytes 1 (seed % 256) ∷ [])
  arguments _ = []

  unfoldable pub build : PublicKey → Call PublicKey → Result (TransactionInstruction PublicKey)
  build program_id (start_game_vrf player mines bet session_key) =
      build_start_game_vrf w program_id player mines bet session_key
  build program_id (admin_release_vrf_claim owner player) =
      build_admin_release_vrf_claim w program_id owner player
  build program_id (delegate_vrf player) = build_delegate_vrf w program_id player
  build program_id (admin_close_orphaned_game_v2 owner player) =
      build_admin_close_orphaned_game_v2 w program_id owner player
  build program_id (reveal_request_vrf player session tile seed queue) =
      build_reveal_request_vrf w program_id player session tile seed queue
  build program_id (cash_out_vrf player signer) = build_cash_out_vrf w program_id player signer
  build program_id (settle_and_undelegate_vrf player payer) =
      build_settle_and_undelegate_vrf w program_id player payer
  build program_id (force_undelegate_vrf player house) =
      build_force_undelegate_vrf w program_id player house
  build program_id (settle_vrf player payer treasury referral_pda) =
      build_settle_vrf w program_id player payer treasury referral_pda
  build program_id (refund_stalled_vrf player caller) =
      build_refund_stalled_vrf w program_id player caller

module _ {w : Web3} (h : IsWeb3 w) where
  open w use {PublicKey, to_bytes}

  -- Where the numbers fit their fields, each builder of the VRF mode builds an instruction of the
  -- program whose data is the instruction's discriminator and the arguments in the program's
  -- layout, and which asks for its authority's signature alone: the session key's at a reveal.
  pub build_vrf_lem :
      (program_id : PublicKey) (c : Call PublicKey)
      → Fits c
      → IsBuilt
          (build w program_id c)
          program_id
          (ix_discriminator w (name c) ++ arguments w c)
          (authority c)
  unfolding build build_start_game_vrf build_admin_release_vrf_claim build_delegate_vrf
      build_admin_close_orphaned_game_v2 build_reveal_request_vrf build_cash_out_vrf
      build_settle_and_undelegate_vrf build_force_undelegate_vrf build_settle_vrf
      build_refund_stalled_vrf
  build_vrf_lem p (start_game_vrf player mines bet session_key) (fm, fb) =
      let disc = ix_discriminator w "start_game_vrf" in
      let eight = length-ix_discriminator h "start_game_vrf" in
      let one = disc ++ le_bytes 1 mines in
      let nine = length_next 1 mines disc 8 eight in
      rw
        (
          start_data_lem h "start_game_vrf" 41,
          write_le_next 1 mines disc 40 8 eight fm,
          write_le_next 8 bet one 32 9 nine fb,
          copy_next (to_bytes session_key) (one ++ le_bytes 8 bet) 32 0 17
              (h.length-to_bytes session_key) (length_next 8 bet one 9 nine),
        )
        (refl, simp regroup, refl)
  build_vrf_lem p (admin_release_vrf_claim _ _) f =
      rw (start_data_all h "admin_release_vrf_claim") (refl, refl, refl)
  build_vrf_lem p (delegate_vrf _) f = rw (start_data_all h "delegate_vrf") (refl, refl, refl)
  build_vrf_lem p (admin_close_orphaned_game_v2 _ _) f =
      rw (start_data_all h "admin_close_orphaned_game_v2") (refl, refl, refl)
  build_vrf_lem p (reveal_request_vrf player session tile seed queue) f =
      let disc = ix_discriminator w "reveal_request_vrf" in
      let eight = length-ix_discriminator h "reveal_request_vrf" in
      rw
        (
          start_data_lem h "reveal_request_vrf" 2,
          write_le_next 1 tile disc 1 8 eight f,
          write_le_next 1 (seed % 256) (disc ++ le_bytes 1 tile) 0 9
              (length_next 1 tile disc 8 eight) (omega arith),
        )
        (refl, simp regroup, refl)
  build_vrf_lem p (cash_out_vrf _ _) f = rw (start_data_all h "cash_out_vrf") (refl, refl, refl)
  build_vrf_lem p (settle_and_undelegate_vrf _ _) f =
      rw (start_data_all h "settle_and_undelegate_vrf") (refl, refl, refl)
  build_vrf_lem p (force_undelegate_vrf _ _) f =
      (refl, sym (append-nil (ix_discriminator w "force_undelegate_vrf")), refl)
  build_vrf_lem p (settle_vrf player payer treasury referral_pda) f =
      rw (start_data_all h "settle_vrf") (refl, refl, ground arith)
  build_vrf_lem p (refund_stalled_vrf _ _) f =
      rw (start_data_all h "refund_stalled_vrf") (refl, refl, refl)

  -- Each builder of the VRF mode returns only where the numbers fit their fields.
  pub build_vrf-Fits :
      (program_id : PublicKey) (c : Call PublicKey) {ix : TransactionInstruction PublicKey}
      → build w program_id c ≡ ok ix
      → Fits c
  unfolding build build_start_game_vrf build_reveal_request_vrf write_le
  build_vrf-Fits p (start_game_vrf player mines bet session_key) e = (ground arith, ground arith)
  build_vrf-Fits p (reveal_request_vrf player session tile seed queue) e = ground arith
  build_vrf-Fits p _ e = tt
