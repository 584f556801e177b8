-- ===== src/Sdk/Pdas.antt =====
-- packages/sdk/src/pdas.ts, and the derivations of vrf.ts: the program's derived addresses.
use playkaboom.Common.{ℕ, [], ◌∷◌, codes}
use playkaboom.Sdk.Web3.{Web3}

module _ (w : Web3) where
  open w use {PublicKey, to_bytes, find_program_address, from_base58}

  unfoldable pub derive_vault_pda : PublicKey → PublicKey × ℕ
  derive_vault_pda program_id = find_program_address (codes "kaboom_vault" ∷ []) program_id

  unfoldable pub derive_v2_state_pda : PublicKey → PublicKey × ℕ
  derive_v2_state_pda program_id = find_program_address (codes "kaboom_v2_state" ∷ []) program_id

  unfoldable pub derive_lp_position_pda : PublicKey → PublicKey → PublicKey × ℕ
  derive_lp_position_pda program_id user =
      find_program_address (codes "kaboom_lp" ∷ to_bytes user ∷ []) program_id

  unfoldable pub derive_game_pda : PublicKey → PublicKey → PublicKey × ℕ
  derive_game_pda program_id player =
      find_program_address (codes "kaboom_game" ∷ to_bytes player ∷ []) program_id

  unfoldable pub derive_player_stats_pda : PublicKey → PublicKey → PublicKey × ℕ
  derive_player_stats_pda program_id player =
      find_program_address (codes "kaboom_stats" ∷ to_bytes player ∷ []) program_id

  unfoldable pub derive_referral_pda : PublicKey → PublicKey → PublicKey × ℕ
  derive_referral_pda program_id referrer =
      find_program_address (codes "kaboom_referral" ∷ to_bytes referrer ∷ []) program_id

  unfoldable pub derive_vrf_claim_pda : PublicKey → PublicKey → PublicKey × ℕ
  derive_vrf_claim_pda program_id player =
      find_program_address (codes "kaboom_vrf_claim" ∷ to_bytes player ∷ []) program_id

  unfoldable pub derive_vrf_game_pda : PublicKey → PublicKey → PublicKey × ℕ
  derive_vrf_game_pda program_id player =
      find_program_address (codes "kaboom_vrf_game" ∷ to_bytes player ∷ []) program_id

  unfoldable pub derive_orphaned_game_pda : PublicKey → PublicKey → PublicKey × ℕ
  derive_orphaned_game_pda program_id player =
      find_program_address (codes "game_v2" ∷ to_bytes player ∷ []) program_id

  unfoldable pub delegation_program : PublicKey
  delegation_program = from_base58 "DELeGGvXpWV2fqJUhqcF5ZSYMS4JTLjteaAMARRSaeSh"

  unfoldable pub vrf_program : PublicKey
  vrf_program = from_base58 "Vrf1RNUjXmQGjmQrQLvJHs9SNkvDJEsRVFPkfSQUwGz"

  unfoldable pub magic_program : PublicKey
  magic_program = from_base58 "Magic11111111111111111111111111111111111111"

  unfoldable pub magic_context : PublicKey
  magic_context = from_base58 "MagicContext1111111111111111111111111111111"

  unfoldable pub default_vrf_queue : PublicKey
  default_vrf_queue = from_base58 "5hBR571xnXppuCPveTrctfTU7tJLSN94nq7kv7FRK5Tc"

  unfoldable pub derive_delegation_buffer : PublicKey → PublicKey → PublicKey
  derive_delegation_buffer program_id game =
      (find_program_address (codes "buffer" ∷ to_bytes game ∷ []) program_id).0

  unfoldable pub derive_delegation_record : PublicKey → PublicKey
  derive_delegation_record game =
      (find_program_address (codes "delegation" ∷ to_bytes game ∷ []) delegation_program).0

  unfoldable pub derive_delegation_metadata : PublicKey → PublicKey
  derive_delegation_metadata game =
      (find_program_address (codes "delegation-metadata" ∷ to_bytes game ∷ []) delegation_program).0

  unfoldable pub derive_vrf_program_identity : PublicKey → PublicKey
  derive_vrf_program_identity program_id =
      (find_program_address (codes "identity" ∷ []) program_id).0
