-- ===== src/Sdk/Builders/Instruction.antt =====
-- The instruction type of @solana/web3.js, and the helpers of instructions.ts.
use playkaboom.Common.{
  ℕ, ◌/◌, ◌%◌, ◌^◌, Bool, true, false, Option, none, some, List, [], ◌∷◌, ◌++◌, Result, ok, ◌>>=◌,
  String, if◌then◌else◌,
}
use playkaboom.Sdk.Buffer.{Bytes, alloc, copy, write_le}
use playkaboom.Sdk.Web3.{Web3}
use playkaboom.Sdk.Discriminator.{ix_discriminator}

pub record AccountMeta (K : Type 0) : Type 0 where
  pub pubkey : K
  pub is_signer : Bool
  pub is_writable : Bool

pub record TransactionInstruction (K : Type 0) : Type 0 where
  pub program_id : K
  pub keys : List (AccountMeta K)
  pub ix_data : Bytes

abbrev pub writable : {K : Type 0} → K → Bool → AccountMeta K
writable pubkey is_signer = record { pubkey = pubkey; is_signer = is_signer; is_writable = true }

abbrev pub readonly : {K : Type 0} → K → Bool → AccountMeta K
readonly pubkey is_signer = record { pubkey = pubkey; is_signer = is_signer; is_writable = false }

-- `Buffer.concat(parts)`
abbrev pub concat : List Bytes → Bytes
concat [] = []
concat (b ∷ bs) = b ++ concat bs

unfoldable pub write_u16 : ℕ → Result Bytes
write_u16 v = write_le 2 v (alloc 2) 0

unfoldable pub write_u64 : ℕ → Result Bytes
write_u64 v = write_le 8 v (alloc 8) 0

-- The low 64 bits, then the next 64; what is above is masked off.
unfoldable pub write_u128 : ℕ → Result Bytes
write_u128 v = do b ← write_le 8 (v % 2 ^ 64) (alloc 16) 0; write_le 8 (v / 2 ^ 64 % 2 ^ 64) b 8

unfoldable pub write_bool : Bool → Result Bytes
write_bool b = ok ((if b then 1 else 0) ∷ [])

unfoldable pub encode_option {ℓ} : {T : Type ℓ} → Option T → (T → Result Bytes) → Result Bytes
encode_option none encode = ok (0 ∷ [])
encode_option (some v) encode = do b ← encode v; ok (1 ∷ b)

module _ (w : Web3) where
  -- `const data = Buffer.alloc(size); ixDiscriminator(name).copy(data, 0)`
  unfoldable pub start_data : String → ℕ → Bytes
  start_data name size = copy (ix_discriminator w name) (alloc size) 0
