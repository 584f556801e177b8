-- ===== src/Sdk/Builders/Laws/Lp.antt =====
-- The builders of the liquidity providers and of the house's own position.
use playkaboom.Common.{
  ℕ, ◌%◌, ◌^◌, ◌≡◌, refl, sym, arith, Bool, true, Option, List, [], ◌∷◌, ◌++◌, Result, ok,
  >>=-eq-ok, String, if◌then◌else◌,
}
use mathlib.Core.List.{append-nil}
use mathlib.Core.Option.{get_or}
use playkaboom.Sdk.Buffer.{Bytes, alloc, le_bytes, u128_bytes}
use playkaboom.Sdk.Web3.{Web3, IsWeb3}
use playkaboom.Sdk.Discriminator.{ix_discriminator}
use playkaboom.Sdk.Accounts.Layout.{layout, IsU64}
use playkaboom.Sdk.Builders.Instruction.{TransactionInstruction, write_u64}
use playkaboom.Sdk.Builders.Lp.{
  build_lp_deposit, build_request_withdraw, build_cancel_withdraw, build_complete_withdraw,
  build_close_lp_position, build_house_deposit, build_house_request_withdraw,
  build_house_cancel_withdraw, build_house_complete_withdraw,
}
use playkaboom.Sdk.Builders.Laws.Writes.{IsBuilt, write_le_fits, write_u64_lem, write_u128_lem}

-- A call of one of the builders, with its arguments in the order of the source.
pub data Call (K : Type 0) : Type 0 where
  lp_deposit : K → ℕ → Call K
  request_withdraw : K → ℕ → Call K
  cancel_withdraw : K → Call K
  complete_withdraw : K → Option Bool → Call K
  close_lp_position : K → Call K
  house_deposit : K → ℕ → Call K
  house_request_withdraw : K → ℕ → Call K
  house_cancel_withdraw : K → Call K
  house_complete_withdraw : K → Call K

module _ {K : Type 0} where
  -- The name of the program's instruction.
  abbrev pub name : Call K → String
  name (lp_deposit _ _) = "lp_deposit"
  name (request_withdraw _ _) = "request_withdraw"
  name (cancel_withdraw _) = "cancel_withdraw"
  name (complete_withdraw _ _) = "complete_withdraw"
  name (close_lp_position _) = "close_lp_position"
  name (house_deposit _ _) = "house_deposit"
  name (house_request_withdraw _ _) = "house_request_withdraw"
  name (house_cancel_withdraw _) = "house_cancel_withdraw"
  name (house_complete_withdraw _) = "house_complete_withdraw"

  -- The arguments that the builder accepts.
  abbrev pub Fits : Call K → Type 0
  Fits (lp_deposit _ amount) = IsU64 amount
  Fits (house_deposit _ amount) = IsU64 amount
  Fits _ = Unit

  -- Whose signature the instruction asks for.
  abbrev pub authority : Call K → List K
  authority (lp_deposit who _) = who ∷ []
  authority (request_withdraw who _) = who ∷ []
  authority (cancel_withdraw who) = who ∷ []
  authority (complete_withdraw who signs) = if get_or signs true then who ∷ [] else []
  authority (close_lp_position who) = who ∷ []
  authority (house_deposit who _) = who ∷ []
  authority (house_request_withdraw who _) = who ∷ []
  authority (house_cancel_withdraw who) = who ∷ []
  authority (house_complete_withdraw who) = who ∷ []

module _ (w : Web3) where
  open w use {PublicKey, to_bytes}

  -- The arguments as the program reads them.
  abbrev pub arguments : Call PublicKey → Bytes
  arguments (lp_deposit _ amount) = layout (le_bytes 8 amount ∷ [])
  arguments (request_withdraw _ units) = layout (u128_bytes (units % 2 ^ 128) ∷ [])
  arguments (house_deposit _ amount) = layout (le_bytes 8 amount ∷ [])
  arguments (house_request_withdraw _ units) = layout (u128_bytes (units % 2 ^ 128) ∷ [])
  arguments _ = []

  unfoldable pub build : PublicKey → Call PublicKey → Result (TransactionInstruction PublicKey)
  build program_id (lp_deposit who amount) = build_lp_deposit w program_id who amount
  build program_id (request_withdraw who units) = build_request_withdraw w program_id who units
  build program_id (cancel_withdraw who) = build_cancel_withdraw w program_id who
  build program_id (complete_withdraw who signs) = build_complete_withdraw w program_id who signs
  build program_id (close_lp_position who) = build_close_lp_position w program_id who
  build program_id (house_deposit who amount) = build_house_deposit w program_id who amount
  build program_id (house_request_withdraw who units) =
      build_house_request_withdraw w program_id who units
  build program_id (house_cancel_withdraw who) = build_house_cancel_withdraw w program_id who
  build program_id (house_complete_withdraw who) = build_house_complete_withdraw w program_id who

module _ {w : Web3} (h : IsWeb3 w) where
  open w use {PublicKey, to_bytes}

  -- Where a deposited amount fits 64 bits, each of these builders builds an instruction of the
  -- program whose data is the instruction's discriminator and the arguments in the program's layout,
  -- and which asks for the signature of its position's owner alone, or of none where
  -- `complete_withdraw` is called for another. Requested units are taken modulo 2 ^ 128.
  pub build_lp_lem :
      (program_id : PublicKey) (c : Call PublicKey)
      → Fits c
      → IsBuilt
          (build w program_id c)
          program_id
          (ix_discriminator w (name c) ++ arguments w c)
          (authority c)
  unfolding build build_lp_deposit build_request_withdraw build_cancel_withdraw
      build_complete_withdraw build_close_lp_position build_house_deposit
      build_house_request_withdraw build_house_cancel_withdraw build_house_complete_withdraw
  build_lp_lem p (lp_deposit who amount) f = rw (write_u64_lem amount f) (refl, refl, refl)
  build_lp_lem p (request_withdraw who units) f = rw (write_u128_lem units) (refl, refl, refl)
  build_lp_lem p (cancel_withdraw _) f =
      (refl, sym (append-nil (ix_discriminator w "cancel_withdraw")), refl)
  build_lp_lem p (complete_withdraw who signs) f =
      (refl, sym (append-nil (ix_discriminator w "complete_withdraw")), ground arith)
  build_lp_lem p (close_lp_position _) f =
      (refl, sym (append-nil (ix_discriminator w "close_lp_position")), refl)
  build_lp_lem p (house_deposit who amount) f = rw (write_u64_lem amount f) (refl, refl, refl)
  build_lp_lem p (house_request_withdraw who units) f = rw (write_u128_lem units) (refl, refl, refl)
  build_lp_lem p (house_cancel_withdraw _) f =
      (refl, sym (append-nil (ix_discriminator w "house_cancel_withdraw")), refl)
  build_lp_lem p (house_complete_withdraw _) f =
      (refl, sym (append-nil (ix_discriminator w "house_complete_withdraw")), refl)

  -- The deposits' builders return only where the amount fits 64 bits.
  pub build_lp-Fits :
      (program_id : PublicKey) (c : Call PublicKey) {ix : TransactionInstruction PublicKey}
      → build w program_id c ≡ ok ix
      → Fits c
  unfolding build build_lp_deposit build_house_deposit write_u64
  build_lp-Fits p (lp_deposit who amount) e =
      write_le_fits 8 amount (alloc 8) 0 (>>=-eq-ok (write_u64 amount) _ e).1
  build_lp-Fits p (house_deposit who amount) e =
      write_le_fits 8 amount (alloc 8) 0 (>>=-eq-ok (write_u64 amount) _ e).1
  build_lp-Fits p _ e = tt
