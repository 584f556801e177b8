-- ===== src/Sdk/Builders/Vault.antt =====
-- The owner's builders: the vault, its allowlist, its configuration and its ownership.
use playkaboom.Common.{ℕ, ◌+◌, Bool, true, false, Option, List, [], ◌∷◌, Result, ok, ◌>>=◌}
use playkaboom.Sdk.Buffer.{Bytes, copy, write_le}
use playkaboom.Sdk.Web3.{Web3}
use playkaboom.Sdk.Discriminator.{ix_discriminator}
use playkaboom.Sdk.Pdas.{derive_vault_pda, derive_v2_state_pda}
use playkaboom.Sdk.Builders.Instruction.{
  AccountMeta, TransactionInstruction, writable, readonly, start_data, concat, write_u16, write_u64,
  write_bool, encode_option,
}

module _ (w : Web3) (program_id : w.PublicKey) where
  open w use {PublicKey, to_bytes, system_program, slot_hashes}

  abbrev Built : Type 0
  Built = Result (TransactionInstruction PublicKey)

  abbrev vault : PublicKey
  vault = (derive_vault_pda w program_id).0

  abbrev v2_state : PublicKey
  v2_state = (derive_v2_state_pda w program_id).0

  abbrev instruction : List (AccountMeta PublicKey) → Bytes → Built
  instruction keys ix_data = ok (record { program_id = program_id; keys = keys; ix_data = ix_data })

  unfoldable pub build_initialize_vault : PublicKey → PublicKey → PublicKey → ℕ → ℕ → ℕ → Built
  build_initialize_vault owner house_authority treasury house_edge_bps max_bet_bps max_payout_bps =
      do
        with_edge ← write_le 2 house_edge_bps (start_data w "initialize_vault" (8 + 2 + 2 + 2)) 8
        with_bet ← write_le 2 max_bet_bps with_edge 10
        with_payout ← write_le 2 max_payout_bps with_bet 12
        instruction
            (writable vault false
              ∷ readonly house_authority false
              ∷ readonly treasury false
              ∷ writable owner true
              ∷ readonly system_program false
              ∷ [])
            with_payout

  unfoldable pub build_fund_vault : PublicKey → ℕ → Built
  build_fund_vault funder amount = do
    with_amount ← write_le 8 amount (start_data w "fund_vault" (8 + 8)) 8
    instruction (writable vault false ∷ writable funder true ∷ readonly system_program false ∷ [])
        with_amount

  unfoldable pub build_unlock_operator_position : PublicKey → PublicKey → Built
  build_unlock_operator_position owner destination =
      instruction
        (writable vault false
          ∷ writable v2_state false
          ∷ readonly owner true
          ∷ writable destination false
          ∷ [])
        (ix_discriminator w "unlock_operator_position")

  unfoldable pub build_withdraw_to_treasury : PublicKey → PublicKey → ℕ → Built
  build_withdraw_to_treasury treasury destination amount = do
    with_amount ← write_le 8 amount (start_data w "withdraw_to_treasury" (8 + 8)) 8
    instruction (writable vault false ∷ readonly treasury true ∷ writable destination false ∷ [])
        with_amount

  unfoldable pub build_allowlist_add : PublicKey → PublicKey → Built
  build_allowlist_add owner address =
      instruction (writable vault false ∷ readonly owner true ∷ [])
        (copy (to_bytes address) (start_data w "allowlist_add" (8 + 32)) 8)

  unfoldable pub build_allowlist_remove : PublicKey → PublicKey → Built
  build_allowlist_remove owner address =
      instruction (writable vault false ∷ readonly owner true ∷ [])
        (copy (to_bytes address) (start_data w "allowlist_remove" (8 + 32)) 8)

  unfoldable pub build_update_vault :
      PublicKey
      → Option ℕ
      → Option ℕ
      → Option ℕ
      → Option ℕ
      → Option Bool
      → Option PublicKey
      → Option PublicKey
      → Built
  build_update_vault owner house_edge_bps max_bet_bps max_payout_bps treasury_split_bps paused
        new_house_authority new_treasury =
      do
        edge ← encode_option house_edge_bps write_u16
        bet ← encode_option max_bet_bps write_u16
        payout ← encode_option max_payout_bps write_u16
        split ← encode_option treasury_split_bps write_u16
        pause ← encode_option paused write_bool
        house ← encode_option new_house_authority (λ k. ok (to_bytes k))
        treasury ← encode_option new_treasury (λ k. ok (to_bytes k))
        instruction (writable vault false ∷ readonly owner true ∷ []) (
            concat (
              ix_discriminator w "update_vault"
              ∷ edge
              ∷ bet
              ∷ payout
              ∷ split
              ∷ pause
              ∷ house
              ∷ treasury
              ∷ []))

  unfoldable pub build_initialize_v2 : PublicKey → Built
  build_initialize_v2 owner =
      instruction
        (readonly vault false
          ∷ writable v2_state false
          ∷ writable owner true
          ∷ readonly system_program false
          ∷ [])
        (ix_discriminator w "initialize_v2")

  unfoldable pub build_update_v2_config :
      PublicKey
      → Option ℕ
      → Option ℕ
      → Option ℕ
      → Option ℕ
      → Option ℕ
      → Option Bool
      → Option PublicKey
      → Option ℕ
      → Built
  build_update_v2_config owner min_house_share_bps max_user_position_bps min_health_bps
        withdraw_cooldown_slots min_lp_deposit vrf_mode_enabled vrf_validator vrf_max_payout_bps =
      do
        share ← encode_option min_house_share_bps write_u16
        position ← encode_option max_user_position_bps write_u16
        health ← encode_option min_health_bps write_u16
        cooldown ← encode_option withdraw_cooldown_slots write_u64
        deposit ← encode_option min_lp_deposit write_u64
        enabled ← encode_option vrf_mode_enabled write_bool
        validator ← encode_option vrf_validator (λ k. ok (to_bytes k))
        payout ← encode_option vrf_max_payout_bps write_u16
        instruction (readonly vault false ∷ writable v2_state false ∷ readonly owner true ∷ []) (
            concat (
              ix_discriminator w "update_v2_config"
              ∷ share
              ∷ position
              ∷ health
              ∷ cooldown
              ∷ deposit
              ∷ enabled
              ∷ validator
              ∷ payout
              ∷ []))

  unfoldable pub build_propose_owner : PublicKey → PublicKey → Built
  build_propose_owner owner new_owner =
      instruction (writable vault false ∷ readonly owner true ∷ [])
        (concat (ix_discriminator w "propose_owner" ∷ to_bytes new_owner ∷ []))

  unfoldable pub build_cancel_proposed_owner : PublicKey → Built
  build_cancel_proposed_owner owner =
      instruction (writable vault false ∷ readonly owner true ∷ [])
        (ix_discriminator w "cancel_proposed_owner")

  unfoldable pub build_accept_ownership : PublicKey → Built
  build_accept_ownership new_owner =
      instruction (writable vault false ∷ readonly new_owner true ∷ [])
        (ix_discriminator w "accept_ownership")
