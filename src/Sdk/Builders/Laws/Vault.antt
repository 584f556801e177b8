-- ===== src/Sdk/Builders/Laws/Vault.antt =====
-- The owner's builders.
use playkaboom.Common.{
  ℕ, ◌≡◌, refl, sym, arith, Bool, true, false, Option, none, some, List, [], ◌∷◌, ◌++◌, Result, ok,
  >>=-eq-ok, String,
}
use mathlib.Core.List.{append-nil}
use playkaboom.Sdk.Buffer.{Bytes, alloc, le_bytes, write_le}
use playkaboom.Sdk.Buffer.Laws.{copy_next, write_le_next}
use playkaboom.Sdk.Web3.{Web3, IsWeb3}
use playkaboom.Sdk.Discriminator.{ix_discriminator, length-ix_discriminator}
use playkaboom.Sdk.Accounts.Layout.{layout, bool_bytes, IsU16, IsU64}
use playkaboom.Sdk.Builders.Instruction.{
  TransactionInstruction, write_u16, write_u64, write_bool, encode_option,
}
use playkaboom.Sdk.Builders.Vault.{
  build_initialize_vault, build_fund_vault, build_unlock_operator_position,
  build_withdraw_to_treasury, build_allowlist_add, build_allowlist_remove, build_update_vault,
  build_initialize_v2, build_update_v2_config, build_propose_owner, build_cancel_proposed_owner,
  build_accept_ownership,
}
use playkaboom.Sdk.Builders.Laws.Writes.{
  IsBuilt, start_data_lem, length_next, regroup, write_le_fits, write_u16_lem, write_u64_lem,
  optional, AllSome, encode_option_lem, encode_option_fits,
}

-- A call of one of the builders, with its arguments in the order of the source.
pub data Call (K : Type 0) : Type 0 where
  initialize_vault : K → K → K → ℕ → ℕ → ℕ → Call K
  fund_vault : K → ℕ → Call K
  unlock_operator_position : K → K → Call K
  withdraw_to_treasury : K → K → ℕ → Call K
  allowlist_add : K → K → Call K
  allowlist_remove : K → K → Call K
  update_vault :
      K → Option ℕ → Option ℕ → Option ℕ → Option ℕ → Option Bool → Option K → Option K → Call K
  initialize_v2 : K → Call K
  update_v2_config :
      K
      → Option ℕ
      → Option ℕ
      → Option ℕ
      → Option ℕ
      → Option ℕ
      → Option Bool
      → Option K
      → Option ℕ
      → Call K
  propose_owner : K → K → Call K
  cancel_proposed_owner : K → Call K
  accept_ownership : K → Call K

module _ {K : Type 0} where
  -- The name of the program's instruction.
  abbrev pub name : Call K → String
  name (initialize_vault _ _ _ _ _ _) = "initialize_vault"
  name (fund_vault _ _) = "fund_vault"
  name (unlock_operator_position _ _) = "unlock_operator_position"
  name (withdraw_to_treasury _ _ _) = "withdraw_to_treasury"
  name (allowlist_add _ _) = "allowlist_add"
  name (allowlist_remove _ _) = "allowlist_remove"
  name (update_vault _ _ _ _ _ _ _ _) = "update_vault"
  name (initialize_v2 _) = "initialize_v2"
  name (update_v2_config _ _ _ _ _ _ _ _ _) = "update_v2_config"
  name (propose_owner _ _) = "propose_owner"
  name (cancel_proposed_owner _) = "cancel_proposed_owner"
  name (accept_ownership _) = "accept_ownership"

  -- The arguments that the builder accepts.
  abbrev pub Fits : Call K → Type 0
  Fits (initialize_vault _ _ _ edge bet payout) = IsU16 edge × IsU16 bet × IsU16 payout
  Fits (fund_vault _ amount) = IsU64 amount
  Fits (withdraw_to_treasury _ _ amount) = IsU64 amount
  Fits (update_vault _ edge bet payout split _ _ _) =
      AllSome IsU16 edge × AllSome IsU16 bet × AllSome IsU16 payout × AllSome IsU16 split
  Fits (update_v2_config _ share position health cooldown deposit _ _ payout) =
      AllSome IsU16 share
      × AllSome IsU16 position
      × AllSome IsU16 health
      × AllSome IsU64 cooldown
      × AllSome IsU64 deposit
      × AllSome IsU16 payout
  Fits _ = Unit

  -- Whose signature the instruction asks for.
  abbrev pub authority : Call K → List K
  authority (initialize_vault owner _ _ _ _ _) = owner ∷ []
  authority (fund_vault funder _) = funder ∷ []
  authority (unlock_operator_position owner _) = owner ∷ []
  authority (withdraw_to_treasury treasury _ _) = treasury ∷ []
  authority (allowlist_add owner _) = owner ∷ []
  authority (allowlist_remove owner _) = owner ∷ []
  authority (update_vault owner _ _ _ _ _ _ _) = owner ∷ []
  authority (initialize_v2 owner) = owner ∷ []
  authority (update_v2_config owner _ _ _ _ _ _ _ _) = owner ∷ []
  authority (propose_owner owner _) = owner ∷ []
  authority (cancel_proposed_owner owner) = owner ∷ []
  authority (accept_ownership new_owner) = new_owner ∷ []

module _ (w : Web3) where
  open w use {PublicKey, to_bytes}

  -- The arguments as the program reads them.
  abbrev pub arguments : Call PublicKey → Bytes
  arguments (initialize_vault _ _ _ edge bet payout) =
      layout (le_bytes 2 edge ∷ le_bytes 2 bet ∷ le_bytes 2 payout ∷ [])
  arguments (fund_vault _ amount) = layout (le_bytes 8 amount ∷ [])
  arguments (withdraw_to_treasury _ _ amount) = layout (le_bytes 8 amount ∷ [])
  arguments (allowlist_add _ address) = layout (to_bytes address ∷ [])
  arguments (allowlist_remove _ address) = layout (to_bytes address ∷ [])
  arguments (update_vault _ edge bet payout split paused house treasury) = layout (
      optional (le_bytes 2) edge
      ∷ optional (le_bytes 2) bet
      ∷ optional (le_bytes 2) payout
      ∷ optional (le_bytes 2) split
      ∷ optional bool_bytes paused
      ∷ optional to_bytes house
      ∷ optional to_bytes treasury
      ∷ [])
  arguments (update_v2_config _ share position health cooldown deposit enabled validator payout) =
      layout (
        optional (le_bytes 2) share
        ∷ optional (le_bytes 2) position
        ∷ optional (le_bytes 2) health
        ∷ optional (le_bytes 8) cooldown
        ∷ optional (le_bytes 8) deposit
        ∷ optional bool_bytes enabled
        ∷ optional to_bytes validator
        ∷ optional (le_bytes 2) payout
        ∷ [])
  arguments (propose_owner _ new_owner) = layout (to_bytes new_owner ∷ [])
  arguments _ = []

  unfoldable pub build : PublicKey → Call PublicKey → Result (TransactionInstruction PublicKey)
  build program_id (initialize_vault owner house treasury edge bet payout) =
      build_initialize_vault w program_id owner house treasury edge bet payout
  build program_id (fund_vault funder amount) = build_fund_vault w program_id funder amount
  build program_id (unlock_operator_position owner destination) =
      build_unlock_operator_position w program_id owner destination
  build program_id (withdraw_to_treasury treasury destination amount) =
      build_withdraw_to_treasury w program_id treasury destination amount
  build program_id (allowlist_add owner address) = build_allowlist_add w program_id owner address
  build program_id (allowlist_remove owner address) =
      build_allowlist_remove w program_id owner address
  build program_id (update_vault owner edge bet payout split paused house treasury) =
      build_update_vault w program_id owner edge bet payout split paused house treasury
  build program_id (initialize_v2 owner) = build_initialize_v2 w program_id owner
  build program_id
        (update_v2_config owner share position health cooldown deposit enabled validator payout) =
      build_update_v2_config w program_id owner share position health cooldown deposit enabled
        validator payout
  build program_id (propose_owner owner new_owner) =
      build_propose_owner w program_id owner new_owner
  build program_id (cancel_proposed_owner owner) = build_cancel_proposed_owner w program_id owner
  build program_id (accept_ownership new_owner) = build_accept_ownership w program_id new_owner

option_u16 :
    (o : Option ℕ) → AllSome IsU16 o → encode_option o write_u16 ≡ ok (optional (le_bytes 2) o)
option_u16 = encode_option_lem IsU16 (le_bytes 2) write_u16 write_u16_lem

option_u64 :
    (o : Option ℕ) → AllSome IsU64 o → encode_option o write_u64 ≡ ok (optional (le_bytes 8) o)
option_u64 = encode_option_lem IsU64 (le_bytes 8) write_u64 write_u64_lem

option_bool : (o : Option Bool) → encode_option o write_bool ≡ ok (optional bool_bytes o)
unfolding encode_option write_bool le_bytes
option_bool none = refl
option_bool (some true) = refl
option_bool (some false) = refl

option_key {ℓ} :
    {K : Type ℓ} (enc : K → Bytes) (o : Option K)
    → encode_option o (λ k. ok (enc k)) ≡ ok (optional enc o)
unfolding encode_option
option_key enc none = refl
option_key enc (some k) = refl

fits-IsU16 : (o : Option ℕ) {b : Bytes} → encode_option o write_u16 ≡ ok b → AllSome IsU16 o
unfolding write_u16
fits-IsU16 = encode_option_fits IsU16 write_u16 (λ v b e. write_le_fits 2 v (alloc 2) 0 e)

fits-IsU64 : (o : Option ℕ) {b : Bytes} → encode_option o write_u64 ≡ ok b → AllSome IsU64 o
unfolding write_u64
fits-IsU64 = encode_option_fits IsU64 write_u64 (λ v b e. write_le_fits 8 v (alloc 8) 0 e)

module _ {w : Web3} (h : IsWeb3 w) where
  open w use {PublicKey, to_bytes}

  -- Where the numbers fit their fields, each of the owner's builders builds an instruction of the
  -- program whose data is the instruction's discriminator and the arguments in the program's
  -- layout, an optional one as a tag and its value, and which asks for its authority's signature
  -- alone.
  pub build_vault_lem :
      (program_id : PublicKey) (c : Call PublicKey)
      → Fits c
      → IsBuilt
          (build w program_id c)
          program_id
          (ix_discriminator w (name c) ++ arguments w c)
          (authority c)
  unfolding build build_initialize_vault build_fund_vault build_unlock_operator_position
      build_withdraw_to_treasury build_allowlist_add build_allowlist_remove build_update_vault
      build_initialize_v2 build_update_v2_config build_propose_owner build_cancel_proposed_owner
      build_accept_ownership
  build_vault_lem p (initialize_vault owner house treasury edge bet payout) (fe, fb, fp) =
      let disc = ix_discriminator w "initialize_vault" in
      let eight = length-ix_discriminator h "initialize_vault" in
      let one = disc ++ le_bytes 2 edge in
      let ten = length_next 2 edge disc 8 eight in
      rw
        (
          start_data_lem h "initialize_vault" 6,
          write_le_next 2 edge disc 4 8 eight fe,
          write_le_next 2 bet one 2 10 ten fb,
          write_le_next 2 payout (one ++ le_bytes 2 bet) 0 12 (length_next 2 bet one 10 ten) fp,
        )
        (refl, simp regroup, refl)
  build_vault_lem p (fund_vault funder amount) f =
      rw
        (
          start_data_lem h "fund_vault" 8,
          write_le_next 8 amount (ix_discriminator w "fund_vault") 0 8
              (length-ix_discriminator h "fund_vault") f,
        )
        (refl, simp regroup, refl)
  build_vault_lem p (unlock_operator_position _ _) f =
      (refl, sym (append-nil (ix_discriminator w "unlock_operator_position")), refl)
  build_vault_lem p (withdraw_to_treasury treasury destination amount) f =
      rw
        (
          start_data_lem h "withdraw_to_treasury" 8,
          write_le_next 8 amount (ix_discriminator w "withdraw_to_treasury") 0 8
              (length-ix_discriminator h "withdraw_to_treasury") f,
        )
        (refl, simp regroup, refl)
  build_vault_lem p (allowlist_add owner address) f =
      rw
        (
          start_data_lem h "allowlist_add" 32,
          copy_next (to_bytes address) (ix_discriminator w "allowlist_add") 32 0 8
              (h.length-to_bytes address) (length-ix_discriminator h "allowlist_add"),
        )
        (refl, simp regroup, refl)
  build_vault_lem p (allowlist_remove owner address) f =
      rw
        (
          start_data_lem h "allowlist_remove" 32,
          copy_next (to_bytes address) (ix_discriminator w "allowlist_remove") 32 0 8
              (h.length-to_bytes address) (length-ix_discriminator h "allowlist_remove"),
        )
        (refl, simp regroup, refl)
  build_vault_lem p (update_vault owner edge bet payout split paused house treasury)
        (fe, fb, fp, fs) =
      rw
        (
          option_u16 edge fe,
          option_u16 bet fb,
          option_u16 payout fp,
          option_u16 split fs,
          option_bool paused,
          option_key to_bytes house,
          option_key to_bytes treasury,
        )
        (refl, refl, refl)
  build_vault_lem p (initialize_v2 _) f =
      (refl, sym (append-nil (ix_discriminator w "initialize_v2")), refl)
  build_vault_lem p
        (update_v2_config owner share position health cooldown deposit enabled validator payout)
        (fs, fp, fh, fc, fd, fv) =
      rw
        (
          option_u16 share fs,
          option_u16 position fp,
          option_u16 health fh,
          option_u64 cooldown fc,
          option_u64 deposit fd,
          option_bool enabled,
          option_key to_bytes validator,
          option_u16 payout fv,
        )
        (refl, refl, refl)
  build_vault_lem p (propose_owner owner new_owner) f = (refl, refl, refl)
  build_vault_lem p (cancel_proposed_owner _) f =
      (refl, sym (append-nil (ix_discriminator w "cancel_proposed_owner")), refl)
  build_vault_lem p (accept_ownership _) f =
      (refl, sym (append-nil (ix_discriminator w "accept_ownership")), refl)

  -- Each of these builders returns only where every number that is given fits its field.
  pub build_vault-Fits :
      (program_id : PublicKey) (c : Call PublicKey) {ix : TransactionInstruction PublicKey}
      → build w program_id c ≡ ok ix
      → Fits c
  unfolding build build_initialize_vault build_fund_vault build_withdraw_to_treasury
      build_update_vault build_update_v2_config write_le
  build_vault-Fits p (initialize_vault owner house treasury edge bet payout) e =
      (ground arith, ground arith, ground arith)
  build_vault-Fits p (fund_vault funder amount) e = ground arith
  build_vault-Fits p (withdraw_to_treasury treasury destination amount) e = ground arith
  build_vault-Fits p (update_vault owner edge bet payout split paused house treasury) e =
      let (_, e0, r0) = >>=-eq-ok (encode_option edge write_u16) _ e in
      let (_, e1, r1) = >>=-eq-ok (encode_option bet write_u16) _ r0 in
      let (_, e2, r2) = >>=-eq-ok (encode_option payout write_u16) _ r1 in
      let (_, e3, r3) = >>=-eq-ok (encode_option split write_u16) _ r2 in
      (fits-IsU16 edge e0, fits-IsU16 bet e1, fits-IsU16 payout e2, fits-IsU16 split e3)
  build_vault-Fits p
        (update_v2_config owner share position health cooldown deposit enabled validator payout) e =
      let (_, e0, r0) = >>=-eq-ok (encode_option share write_u16) _ e in
      let (_, e1, r1) = >>=-eq-ok (encode_option position write_u16) _ r0 in
      let (_, e2, r2) = >>=-eq-ok (encode_option health write_u16) _ r1 in
      let (_, e3, r3) = >>=-eq-ok (encode_option cooldown write_u64) _ r2 in
      let (_, e4, r4) = >>=-eq-ok (encode_option deposit write_u64) _ r3 in
      let (_, e5, r5) = >>=-eq-ok (encode_option enabled write_bool) _ r4 in
      let (_, e6, r6) = >>=-eq-ok (encode_option validator (λ k. ok (to_bytes k))) _ r5 in
      let (_, e7, r7) = >>=-eq-ok (encode_option payout write_u16) _ r6 in
      (
        fits-IsU16 share e0,
        fits-IsU16 position e1,
        fits-IsU16 health e2,
        fits-IsU64 cooldown e3,
        fits-IsU64 deposit e4,
        fits-IsU16 payout e7,
      )
  build_vault-Fits p _ e = tt
