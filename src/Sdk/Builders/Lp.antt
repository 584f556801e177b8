-- ===== src/Sdk/Builders/Lp.antt =====
-- The builders of the liquidity providers and of the house's own position.
use playkaboom.Common.{
  ℕ, Bool, true, false, Option, none, some, List, [], ◌∷◌, Result, ok, ◌>>=◌, String,
}
use mathlib.Core.Option.{get_or}
use playkaboom.Sdk.Buffer.{Bytes}
use playkaboom.Sdk.Web3.{Web3}
use playkaboom.Sdk.Discriminator.{ix_discriminator}
use playkaboom.Sdk.Pdas.{derive_vault_pda, derive_v2_state_pda, derive_lp_position_pda}
use playkaboom.Sdk.Builders.Instruction.{
  AccountMeta, TransactionInstruction, writable, readonly, concat, write_u64, write_u128,
}

module _ (w : Web3) (program_id : w.PublicKey) where
  open w use {PublicKey, to_bytes, system_program, slot_hashes}

  abbrev Built : Type 0
  Built = Result (TransactionInstruction PublicKey)

  abbrev vault : PublicKey
  vault = (derive_vault_pda w program_id).0

  abbrev v2_state : PublicKey
  v2_state = (derive_v2_state_pda w program_id).0

  abbrev instruction : List (AccountMeta PublicKey) → Bytes → Built
  instruction keys ix_data = ok (record { program_id = program_id; keys = keys; ix_data = ix_data })

  abbrev position : PublicKey → PublicKey
  position user = (derive_lp_position_pda w program_id user).0

  unfoldable pub build_lp_deposit : PublicKey → ℕ → Built
  build_lp_deposit user amount_lamports = do
    amount ← write_u64 amount_lamports
    instruction
        (writable vault false
          ∷ writable v2_state false
          ∷ writable (position user) false
          ∷ writable user true
          ∷ readonly system_program false
          ∷ [])
        (concat (ix_discriminator w "lp_deposit" ∷ amount ∷ []))

  -- `buildUserLpAction`
  unfoldable pub build_user_lp_action : String → PublicKey → Option Bytes → Bool → Built
  build_user_lp_action name user extra user_signs =
      instruction
        (writable vault false
          ∷ writable v2_state false
          ∷ writable (position user) false
          ∷ writable user user_signs
          ∷ [])
        (elim extra [
          | some b ↦ concat (ix_discriminator w name ∷ b ∷ [])
          | none ↦ ix_discriminator w name
        ])

  unfoldable pub build_request_withdraw : PublicKey → ℕ → Built
  unfolding build_user_lp_action
  build_request_withdraw user units = do
    extra ← write_u128 units
    build_user_lp_action "request_withdraw" user (some extra) true

  unfoldable pub build_cancel_withdraw : PublicKey → Built
  unfolding build_user_lp_action
  build_cancel_withdraw user = build_user_lp_action "cancel_withdraw" user none true

  -- `userSigns ?? true`
  unfoldable pub build_complete_withdraw : PublicKey → Option Bool → Built
  unfolding build_user_lp_action
  build_complete_withdraw user user_signs =
      build_user_lp_action "complete_withdraw" user none (get_or user_signs true)

  unfoldable pub build_close_lp_position : PublicKey → Built
  build_close_lp_position user =
      instruction (writable (position user) false ∷ writable user true ∷ [])
        (ix_discriminator w "close_lp_position")

  unfoldable pub build_house_deposit : PublicKey → ℕ → Built
  build_house_deposit owner amount_lamports = do
    amount ← write_u64 amount_lamports
    instruction
        (writable vault false
          ∷ writable v2_state false
          ∷ writable owner true
          ∷ readonly system_program false
          ∷ [])
        (concat (ix_discriminator w "house_deposit" ∷ amount ∷ []))

  -- `buildHouseLpAction`
  unfoldable pub build_house_lp_action : String → PublicKey → Option Bytes → Built
  build_house_lp_action name owner extra =
      instruction (writable vault false ∷ writable v2_state false ∷ writable owner true ∷ [])
        (elim extra [
          | some b ↦ concat (ix_discriminator w name ∷ b ∷ [])
          | none ↦ ix_discriminator w name
        ])

  unfoldable pub build_house_request_withdraw : PublicKey → ℕ → Built
  unfolding build_house_lp_action
  build_house_request_withdraw owner units = do
    extra ← write_u128 units
    build_house_lp_action "house_request_withdraw" owner (some extra)

  unfoldable pub build_house_cancel_withdraw : PublicKey → Built
  unfolding build_house_lp_action
  build_house_cancel_withdraw owner = build_house_lp_action "house_cancel_withdraw" owner none

  unfoldable pub build_house_complete_withdraw : PublicKey → Built
  unfolding build_house_lp_action
  build_house_complete_withdraw owner = build_house_lp_action "house_complete_withdraw" owner none
