-- ===== src/Sdk/Web3.antt =====
-- @solana/web3.js and @noble/hashes, which the SDK imports: public keys, derived addresses, SHA-256.
use playkaboom.Common.{ℕ, ◌≡◌, ◌↔◌, Bool, true, List, String, Result, ok, length, replicate}
use playkaboom.Sdk.Buffer.{Bytes}

pub record Web3 : Type 1 where
  pub PublicKey : Type 0
  -- `new PublicKey(bytes)`, which may throw
  pub from_bytes : Bytes → Result PublicKey
  -- `new PublicKey(text)` at the base58 texts that the source writes out
  pub from_base58 : String → PublicKey
  -- `key.toBuffer()`, `key.toBytes()`
  pub to_bytes : PublicKey → Bytes
  pub equals : PublicKey → PublicKey → Bool
  -- `PublicKey.findProgramAddressSync(seeds, programId)`
  pub find_program_address : List Bytes → PublicKey → PublicKey × ℕ
  -- `PublicKey.default`
  pub default_key : PublicKey
  -- `SystemProgram.programId`
  pub system_program : PublicKey
  -- `SYSVAR_SLOT_HASHES_PUBKEY`
  pub slot_hashes : PublicKey
  pub sha256 : Bytes → Bytes

-- What the documentation of the two packages states, as far as it is used.
pub record IsWeb3 (w : Web3) : Type 0 where
  pub length-to_bytes : (k : w.PublicKey) → length (w.to_bytes k) ≡ 32
  pub from_bytes-to_bytes : (k : w.PublicKey) → w.from_bytes (w.to_bytes k) ≡ ok k
  pub to_bytes-default_key : w.to_bytes w.default_key ≡ replicate 32 0
  pub equals_iff : (k j : w.PublicKey) → (w.equals k j ≡ true) ↔ (k ≡ j)
  pub length-sha256 : (b : Bytes) → length (w.sha256 b) ≡ 32
