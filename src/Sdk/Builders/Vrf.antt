-- ===== src/Sdk/Builders/Vrf.antt =====
-- The builders of vrf.ts: a game whose reveals are drawn in the rollup.
use playkaboom.Common.{
  ℕ, ◌+◌, ◌%◌, true, false, Option, none, some, List, [], ◌∷◌, ◌++◌, Result, ok, ◌>>=◌,
}
use mathlib.Core.Option.{get_or}
use playkaboom.Sdk.Buffer.{Bytes, copy, write_le}
use playkaboom.Sdk.Web3.{Web3}
use playkaboom.Sdk.Discriminator.{ix_discriminator}
use playkaboom.Sdk.Pdas.{
  derive_vault_pda, derive_v2_state_pda, derive_player_stats_pda, derive_vrf_claim_pda,
  derive_vrf_game_pda, derive_orphaned_game_pda, delegation_program, vrf_program, magic_program,
  magic_context, default_vrf_queue, derive_delegation_buffer, derive_delegation_record,
  derive_delegation_metadata, derive_vrf_program_identity,
}
use playkaboom.Sdk.Builders.Instruction.{
  AccountMeta, TransactionInstruction, writable, readonly, start_data,
}

module _ (w : Web3) (program_id : w.PublicKey) where
  open w use {PublicKey, to_bytes, system_program, slot_hashes}

  abbrev Built : Type 0
  Built = Result (TransactionInstruction PublicKey)

  abbrev vault : PublicKey
  vault = (derive_vault_pda w program_id).0

  abbrev v2_state : PublicKey
  v2_state = (derive_v2_state_pda w program_id).0

  abbrev instruction : List (AccountMeta PublicKey) → Bytes → Built
  instruction keys ix_data = ok (record { program_id = program_id; keys = keys; ix_data = ix_data })

  abbrev claim : PublicKey → PublicKey
  claim player = (derive_vrf_claim_pda w program_id player).0

  abbrev game : PublicKey → PublicKey
  game player = (derive_vrf_game_pda w program_id player).0

  abbrev stats : PublicKey → PublicKey
  stats player = (derive_player_stats_pda w program_id player).0

  unfoldable pub build_start_game_vrf : PublicKey → ℕ → ℕ → PublicKey → Built
  build_start_game_vrf player mine_count bet_lamports session_key = do
    with_count ← write_le 1 mine_count (start_data w "start_game_vrf" (8 + 1 + 8 + 32)) 8
    with_bet ← write_le 8 bet_lamports with_count 9
    instruction
        (writable player true
          ∷ writable vault false
          ∷ writable v2_state false
          ∷ writable (claim player) false
          ∷ writable (game player) false
          ∷ writable (stats player) false
          ∷ readonly system_program false
          ∷ [])
        (copy (to_bytes session_key) with_bet 17)

  unfoldable pub build_admin_release_vrf_claim : PublicKey → PublicKey → Built
  build_admin_release_vrf_claim owner player =
      instruction
        (readonly owner true
          ∷ writable player false
          ∷ writable (claim player) false
          ∷ writable vault false
          ∷ writable v2_state false
          ∷ [])
        (start_data w "admin_release_vrf_claim" 8)

  unfoldable pub build_delegate_vrf : PublicKey → Built
  build_delegate_vrf player =
      instruction
        (writable player true
          ∷ writable (derive_delegation_buffer w program_id (game player)) false
          ∷ writable (derive_delegation_record w (game player)) false
          ∷ writable (derive_delegation_metadata w (game player)) false
          ∷ writable (game player) false
          ∷ readonly v2_state false
          ∷ readonly program_id false
          ∷ readonly (delegation_program w) false
          ∷ readonly system_program false
          ∷ [])
        (start_data w "delegate_vrf" 8)

  unfoldable pub build_admin_close_orphaned_game_v2 : PublicKey → PublicKey → Built
  build_admin_close_orphaned_game_v2 owner player =
      instruction
        (readonly owner true
          ∷ writable player false
          ∷ writable (derive_orphaned_game_pda w program_id player).0 false
          ∷ writable vault false
          ∷ writable v2_state false
          ∷ [])
        (start_data w "admin_close_orphaned_game_v2" 8)

  -- `clientSeed & 0xff` keeps the low byte.
  unfoldable pub build_reveal_request_vrf : PublicKey → PublicKey → ℕ → ℕ → Option PublicKey → Built
  build_reveal_request_vrf player session tile_index client_seed oracle_queue = do
    with_tile ← write_le 1 tile_index (start_data w "reveal_request_vrf" (8 + 1 + 1)) 8
    with_seed ← write_le 1 (client_seed % 256) with_tile 9
    instruction
        (writable session true
          ∷ writable (game player) false
          ∷ writable (get_or oracle_queue (default_vrf_queue w)) false
          ∷ readonly (derive_vrf_program_identity w program_id) false
          ∷ readonly (vrf_program w) false
          ∷ readonly slot_hashes false
          ∷ readonly system_program false
          ∷ [])
        with_seed

  unfoldable pub build_cash_out_vrf : PublicKey → PublicKey → Built
  build_cash_out_vrf player signer =
      instruction (writable signer true ∷ writable (game player) false ∷ [])
        (start_data w "cash_out_vrf" 8)

  unfoldable pub build_settle_and_undelegate_vrf : PublicKey → PublicKey → Built
  build_settle_and_undelegate_vrf player payer =
      instruction
        (writable payer true
          ∷ writable (game player) false
          ∷ readonly (magic_program w) false
          ∷ writable (magic_context w) false
          ∷ [])
        (start_data w "settle_and_undelegate_vrf" 8)

  unfoldable pub build_force_undelegate_vrf : PublicKey → PublicKey → Built
  build_force_undelegate_vrf player house =
      instruction
        (writable house true
          ∷ writable (game player) false
          ∷ readonly (magic_program w) false
          ∷ writable (magic_context w) false
          ∷ readonly vault false
          ∷ [])
        (ix_discriminator w "force_undelegate_vrf")

  unfoldable pub build_settle_vrf : PublicKey → PublicKey → PublicKey → Option PublicKey → Built
  build_settle_vrf player payer treasury referral_pda =
      instruction
        ((writable payer true
            ∷ writable player false
            ∷ writable (claim player) false
            ∷ writable (game player) false
            ∷ writable vault false
            ∷ writable v2_state false
            ∷ writable treasury false
            ∷ writable (stats player) false
            ∷ readonly system_program false
            ∷ [])
          ++ elim referral_pda [ none ↦ [] | some k ↦ writable k false ∷ [] ])
        (start_data w "settle_vrf" 8)

  unfoldable pub build_refund_stalled_vrf : PublicKey → PublicKey → Built
  build_refund_stalled_vrf player caller =
      instruction
        (readonly caller true
          ∷ writable player false
          ∷ writable (claim player) false
          ∷ writable (game player) false
          ∷ writable vault false
          ∷ writable v2_state false
          ∷ [])
        (start_data w "refund_stalled_vrf" 8)
