-- ===== src/Web/VerifyVrf/Settlement.antt =====
-- `settleVrfAccounts`: the one settlement that a transaction is made of.
pub mod Sole
use playkaboom.Common.{
  ℕ, ◌≡◌, refl, ap, Bool, true, false, not, ◌&&◌, ◌||◌, ◌⊎◌, inl, inr, Option, none, some, List, [],
  ◌∷◌, ◌++◌, if◌then◌else◌, get_elem?, is_some, All, Bool-cases, Option-cases,
}
use playkaboom.Sdk.Buffer.{Bytes, subarray, bytes_eq}
use playkaboom.Sdk.Web3.{Web3}
use playkaboom.Sdk.Discriminator.{ix_discriminator}

-- A compiled instruction: its program and accounts are indexes into the message's keys.
pub record CompiledInstruction : Type 0 where
  pub program_index : ℕ
  pub account_indexes : List ℕ
  pub ix_data : Bytes

-- `meta` says whether the transaction failed.
pub record VrfSettleTx (K : Type 0) : Type 0 where
  pub meta : Option Bool
  pub account_keys : List K
  pub compiled_instructions : List CompiledInstruction

pub record SettleAccounts (K : Type 0) : Type 0 where
  pub refund : Bool
  pub player : K
  pub claim : K
  pub game : K
  pub treasury : Option K
  pub referral : Option K

module _ {K : Type 0} where
  -- `ix.accountKeyIndexes.map((i) => keys[i])`, none where a key is missing
  unfoldable pub accounts_at : List K → List ℕ → Option (List K)
  accounts_at keys [] = some []
  accounts_at keys (i ∷ is) = elim (get_elem? keys i) [
    | none ↦ none
    | some k ↦ elim (accounts_at keys is) [ none ↦ none | some ks ↦ some (k ∷ ks) ]
  ]

  -- At least nine accounts of a settle, and the tenth where there is one.
  unfoldable pub pick_settle : List K → Option (SettleAccounts K)
  pick_settle (_ ∷ player ∷ claim ∷ game ∷ _ ∷ _ ∷ treasury ∷ _ ∷ _ ∷ rest) = some (record {
    refund = false;
    player = player;
    claim = claim;
    game = game;
    treasury = some treasury;
    referral = get_elem? rest 0;
  })
  pick_settle _ = none

  -- At least six accounts of a refund.
  unfoldable pub pick_refund : List K → Option (SettleAccounts K)
  pick_refund (_ ∷ player ∷ claim ∷ game ∷ _ ∷ _ ∷ rest) = some (record {
    refund = true;
    player = player;
    claim = claim;
    game = game;
    treasury = none;
    referral = none;
  })
  pick_refund _ = none

-- `compute_budget` is ComputeBudgetProgram.programId, of @solana/web3.js.
module _ (w : Web3) (compute_budget program_id : w.PublicKey) where
  open w use {PublicKey, equals}

  -- `prog?.equals(key)`
  unfoldable pub runs : List PublicKey → PublicKey → CompiledInstruction → Bool
  runs keys key ix = elim (get_elem? keys ix.program_index) [
    | none ↦ false
    | some prog ↦ equals prog key
  ]

  -- The accounts of one instruction of the program: a settle's, a refund's or none.
  unfoldable pub settlement_of :
      List PublicKey → CompiledInstruction → Option (SettleAccounts PublicKey)
  settlement_of keys ix =
      let disc = subarray 0 8 ix.ix_data in
      elim (accounts_at keys ix.account_indexes) [
        | none ↦ none
        | some a ↦
            elim (if bytes_eq disc (ix_discriminator w "settle_vrf") then pick_settle a else none) [
              | some found ↦ some found
              | none ↦
                  if bytes_eq disc (ix_discriminator w "refund_stalled_vrf")
                  then pick_refund a
                  else none
            ]
      ]

  unfoldable pub settle_loop :
      List PublicKey
      → Option (SettleAccounts PublicKey)
      → List CompiledInstruction
      → Option (SettleAccounts PublicKey)
  settle_loop keys found [] = found
  settle_loop keys found (ix ∷ ixs) =
      if runs keys compute_budget ix
      then settle_loop keys found ixs
      else if is_some found || not (runs keys program_id ix)
      then none
      else elim (settlement_of keys ix) [
        | none ↦ none
        | some accounts ↦ settle_loop keys (some accounts) ixs
      ]

  unfoldable pub settle_vrf_accounts : VrfSettleTx PublicKey → Option (SettleAccounts PublicKey)
  settle_vrf_accounts tx = elim tx.meta [
    | none ↦ none
    | some failed ↦
        if failed then none else settle_loop tx.account_keys none tx.compiled_instructions
  ]
