-- ===== src/Sdk/Builders/Game.antt =====
-- The builders of the legacy game and of the referral programme.
use playkaboom.Common.{
  ℕ, ◌+◌, Bool, true, false, not, Option, none, some, List, [], ◌∷◌, ◌++◌, Result, ok, ◌>>=◌, ◌>>◌,
  guard, thrown, ◌==◌, length, if◌then◌else◌,
}
use playkaboom.Sdk.Buffer.{Bytes, copy, write_le}
use playkaboom.Sdk.Web3.{Web3}
use playkaboom.Sdk.Discriminator.{ix_discriminator}
use playkaboom.Sdk.Pdas.{
  derive_vault_pda, derive_v2_state_pda, derive_game_pda, derive_player_stats_pda,
  derive_referral_pda,
}
use playkaboom.Sdk.Builders.Instruction.{
  AccountMeta, TransactionInstruction, writable, readonly, start_data,
}

module _ (w : Web3) (program_id : w.PublicKey) where
  open w use {PublicKey, to_bytes, equals, system_program}

  abbrev Built : Type 0
  Built = Result (TransactionInstruction PublicKey)

  abbrev vault : PublicKey
  vault = (derive_vault_pda w program_id).0

  abbrev v2_state : PublicKey
  v2_state = (derive_v2_state_pda w program_id).0

  abbrev game : PublicKey → PublicKey
  game player = (derive_game_pda w program_id player).0

  abbrev stats : PublicKey → PublicKey
  stats player = (derive_player_stats_pda w program_id player).0

  abbrev referral : PublicKey → PublicKey
  referral referrer = (derive_referral_pda w program_id referrer).0

  abbrev instruction : List (AccountMeta PublicKey) → Bytes → Built
  instruction keys ix_data = ok (record { program_id = program_id; keys = keys; ix_data = ix_data })

  unfoldable pub build_start_game : PublicKey → ℕ → ℕ → Bytes → Built
  build_start_game player mine_count bet_lamports commitment = do
    guard (length commitment == 32) (thrown "commitment must be 32 bytes")
    with_count ← write_le 1 mine_count (start_data w "start_game" (8 + 1 + 8 + 32)) 8
    with_bet ← write_le 8 bet_lamports with_count 9
    instruction
        (writable vault false
          ∷ writable v2_state false
          ∷ writable (game player) false
          ∷ writable (stats player) false
          ∷ writable player true
          ∷ readonly system_program false
          ∷ [])
        (copy commitment with_bet 17)

  unfoldable pub build_set_referrer : PublicKey → PublicKey → Built
  build_set_referrer player referrer = do
    guard (not (equals player referrer)) (thrown "cannot self-refer")
    instruction
        (writable (stats player) false
          ∷ readonly referrer false
          ∷ writable (referral referrer) false
          ∷ writable player true
          ∷ readonly system_program false
          ∷ [])
        (start_data w "set_referrer" 8)

  unfoldable pub build_claim_referral : PublicKey → Built
  build_claim_referral referrer =
      instruction (writable (referral referrer) false ∷ writable referrer true ∷ [])
        (start_data w "claim_referral" 8)

  unfoldable pub build_repair_referral : PublicKey → PublicKey → Built
  build_repair_referral owner referrer =
      instruction
        (readonly vault false
          ∷ readonly referrer false
          ∷ writable (referral referrer) false
          ∷ readonly owner true
          ∷ [])
        (start_data w "repair_referral" 8)

  unfoldable pub build_reveal_tile : PublicKey → PublicKey → ℕ → Bool → Built
  build_reveal_tile player house_authority tile_index is_mine = do
    with_tile ← write_le 1 tile_index (start_data w "reveal_tile" (8 + 1 + 1)) 8
    with_mine ← write_le 1 (if is_mine then 1 else 0) with_tile 9
    instruction
        (readonly vault false ∷ writable (game player) false ∷ readonly house_authority true ∷ [])
        with_mine

  unfoldable pub build_cash_out : PublicKey → Built
  build_cash_out player =
      instruction
        (writable vault false
          ∷ writable v2_state false
          ∷ writable (game player) false
          ∷ writable player true
          ∷ [])
        (start_data w "cash_out" 8)

  -- The referral account is passed where the player has a referrer.
  unfoldable pub build_settle_game :
      PublicKey → PublicKey → PublicKey → ℕ → Bytes → Option PublicKey → Built
  build_settle_game player house_authority treasury mine_layout salt referrer = do
    guard (length salt == 32) (thrown "salt must be 32 bytes")
    with_layout ← write_le 2 mine_layout (start_data w "settle_game" (8 + 2 + 32)) 8
    instruction
        ((writable vault false
            ∷ writable v2_state false
            ∷ writable (game player) false
            ∷ writable (stats player) false
            ∷ readonly house_authority true
            ∷ writable treasury false
            ∷ [])
          ++ elim referrer [ none ↦ [] | some r ↦ writable (referral r) false ∷ [] ])
        (copy salt with_layout 10)

  unfoldable pub build_refund_expired : PublicKey → Built
  build_refund_expired player =
      instruction
        (writable vault false
          ∷ writable v2_state false
          ∷ writable (game player) false
          ∷ writable player true
          ∷ [])
        (start_data w "refund_expired" 8)

  -- Anyone may send it: the player does not sign.
  unfoldable pub build_expire_game : PublicKey → Built
  build_expire_game player =
      instruction
        (writable vault false
          ∷ writable v2_state false
          ∷ writable (game player) false
          ∷ writable player false
          ∷ [])
        (ix_discriminator w "expire_game")

  unfoldable pub build_close_game : PublicKey → Built
  build_close_game player =
      instruction (writable (game player) false ∷ writable player true ∷ [])
        (start_data w "close_game" 8)

  unfoldable pub build_close_unsettled_game : PublicKey → Built
  build_close_unsettled_game player =
      instruction
        (writable v2_state false ∷ writable (game player) false ∷ writable player true ∷ [])
        (ix_discriminator w "close_unsettled_game")
