-- ===== src/Sdk/Builders/Laws/Writes.antt =====
-- Laws of the helpers by which the builders write their data.
use playkaboom.Common.{
  ℕ, ◌+◌, ◌/◌, ◌%◌, ◌^◌, ◌<◌, ◌≡◌, refl, ◌∙◌, ap, arith, Bool, true, false, Option, none, some,
  List, [], ◌∷◌, ◌++◌, Result, ok, err, >>=-eq-ok, String, length, length-append,
}
use mathlib.Core.List.{append-nil, append_assoc}
use playkaboom.Sdk.Buffer.{Bytes, alloc, le_bytes, u128_bytes, write_le}
use playkaboom.Sdk.Buffer.Laws.{copy_next, write_le_next, length-le_bytes}
use playkaboom.Sdk.Web3.{Web3, IsWeb3}
use playkaboom.Sdk.Discriminator.{ix_discriminator, length-ix_discriminator}
use playkaboom.Sdk.Builders.Instruction.{
  AccountMeta, TransactionInstruction, start_data, write_u16, write_u64, write_u128, encode_option,
}

-- The keys whose signatures an instruction asks for.
abbrev signer_of : {K : Type 0} → Bool → K → List K → List K
signer_of true k rest = k ∷ rest
signer_of false k rest = rest

abbrev pub signers : {K : Type 0} → List (AccountMeta K) → List K
signers [] = []
signers (m ∷ ms) = signer_of m.is_signer m.pubkey (signers ms)

-- The builder returns, and what it returns is an instruction of the program with the given data,
-- which asks for the given signatures.
abbrev pub IsBuilt : {K : Type 0} → Result (TransactionInstruction K) → K → Bytes → List K → Type 0
IsBuilt (err e) program_id content authority = ⊥
IsBuilt (ok ix) program_id content authority =
    (ix.program_id ≡ program_id) × (ix.ix_data ≡ content) × (signers ix.keys ≡ authority)

pub start_data_lem :
    {w : Web3} (h : IsWeb3 w) (name : String) (n : ℕ)
    → start_data w name (8 + n) ≡ ix_discriminator w name ++ alloc n
unfolding start_data
start_data_lem {w} h name n =
    copy_next (ix_discriminator w name) [] 8 n 0 (length-ix_discriminator h name) refl

pub start_data_all :
    {w : Web3} (h : IsWeb3 w) (name : String) → start_data w name 8 ≡ ix_discriminator w name ++ []
start_data_all h name = start_data_lem h name 0

-- How far the data is written after one more number.
pub length_next :
    (n v : ℕ) (done : Bytes) (at : ℕ) → length done ≡ at → length (done ++ le_bytes n v) ≡ at + n
length_next n v done at h = omega (arith, h, length-append done (le_bytes n v), length-le_bytes n v)

pub ruleset regroup = (append_assoc, append-nil)

-- A write succeeds only for a value in range.
pub write_le_fits :
    (n v : ℕ) (b : Bytes) (at : ℕ) {b' : Bytes} → write_le n v b at ≡ ok b' → v < 256 ^ n
unfolding write_le
write_le_fits n v b at e = ground arith

pub write_whole : (n v : ℕ) → v < 256 ^ n → write_le n v (alloc (n + 0)) 0 ≡ ok (le_bytes n v)
write_whole n v h = write_le_next n v [] 0 0 refl h ∙ ap ok (append-nil (le_bytes n v))

pub write_u16_lem : (v : ℕ) → v < 2 ^ 16 → write_u16 v ≡ ok (le_bytes 2 v)
unfolding write_u16
write_u16_lem v h = write_whole 2 v h

pub write_u64_lem : (v : ℕ) → v < 2 ^ 64 → write_u64 v ≡ ok (le_bytes 8 v)
unfolding write_u64
write_u64_lem v h = write_whole 8 v h

-- `writeU128` never throws: it writes the low 128 bits.
pub write_u128_lem : (v : ℕ) → write_u128 v ≡ ok (u128_bytes (v % 2 ^ 128))
unfolding write_u128 u128_bytes
write_u128_lem v =
    let lo = v % 2 ^ 64 in
    let hi = v / 2 ^ 64 % 2 ^ 64 in
    let low : v % 2 ^ 128 % 2 ^ 64 ≡ lo = omega arith in
    let high : v % 2 ^ 128 / 2 ^ 64 ≡ hi = omega arith in
    rw (
      low,
      high,
      write_le_next 8 lo [] 8 0 refl (omega arith),
      write_le_next 8 hi (le_bytes 8 lo) 0 8 (length-le_bytes 8 lo) (omega arith),
      append-nil (le_bytes 8 lo ++ le_bytes 8 hi),
    )

-- An optional argument: a tag, and the value where there is one.
abbrev pub optional {ℓ} : {A : Type ℓ} → (A → Bytes) → Option A → Bytes
optional enc none = 0 ∷ []
optional enc (some a) = 1 ∷ enc a

abbrev pub AllSome {ℓ} : {A : Type ℓ} → (A → Type 0) → Option A → Type 0
AllSome P none = Unit {0}
AllSome P (some a) = P a

pub encode_option_lem {ℓ} :
    {A : Type ℓ} (P : A → Type 0) (enc : A → Bytes) (write : A → Result Bytes)
    → ((a : A) → P a → write a ≡ ok (enc a))
    → (o : Option A) → AllSome P o
    → encode_option o write ≡ ok (optional enc o)
unfolding encode_option
encode_option_lem P enc write h none f = refl
encode_option_lem P enc write h (some a) f = rw (h a f)

pub encode_option_fits {ℓ} :
    {A : Type ℓ} (P : A → Type 0) (write : A → Result Bytes)
    → ((a : A) (b : Bytes) → write a ≡ ok b → P a)
    → (o : Option A) {b : Bytes} → encode_option o write ≡ ok b
    → AllSome P o
unfolding encode_option
encode_option_fits P write h none e = tt
encode_option_fits P write h (some a) e =
    let (b, written, _) = >>=-eq-ok (write a) (λ b. ok (1 ∷ b)) e in h a b written
