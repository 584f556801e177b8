-- ===== src/Web/VerifyVrf/Settlement/Sole.antt =====
-- `settleVrfAccounts` over the instructions of a transaction.
use playkaboom.Common.{
  ℕ, zero, suc, sym, if◌then◌else◌, ◌≢◌, ◌⊎◌, Option, get_elem?, arith, ◌≡◌, refl, ap, ◌∙◌, true,
  false, inl, inr, none, some, List, [], ◌∷◌, ◌++◌, All, Bool-cases, Option-cases,
}
use playkaboom.Sdk.Buffer.{subarray, bytes_eq}
use playkaboom.Sdk.Buffer.Laws.{bytes_eq_iff}
use playkaboom.Sdk.Discriminator.{ix_discriminator}
use playkaboom.Sdk.Web3.{Web3}
use playkaboom.Web.VerifyVrf.Settlement.{
  CompiledInstruction, VrfSettleTx, SettleAccounts, runs, settlement_of, settle_loop,
  settle_vrf_accounts, accounts_at, pick_settle, pick_refund,
}

some_not_none : {A : Type 0} (a : A) → none ≡ some a → ⊥
some_not_none a e = cc

module _ {K : Type 0} where
  -- The key that an instruction names at a position
  abbrev pub account_at : List K → CompiledInstruction → ℕ → Option K
  account_at keys ix i = elim (get_elem? ix.account_indexes i) [
    | none ↦ none
    | some k ↦ get_elem? keys k
  ]

  elem_at :
      (keys : List K) (k : ℕ) (is : List ℕ) (key : K) (rest : List K)
      → get_elem? keys k ≡ some key
      → ((i : ℕ)
          → get_elem? rest i ≡ elim (get_elem? is i) [ none ↦ none | some j ↦ get_elem? keys j ])
      → (i : ℕ)
      → get_elem? (key ∷ rest) i
        ≡ elim (get_elem? (k ∷ is) i) [ none ↦ none | some j ↦ get_elem? keys j ]
  elem_at keys k is key rest here others zero = sym here
  elem_at keys k is key rest here others (suc i) = others i

  accounts_at_lem :
      (keys : List K) (is : List ℕ) (a : List K) (i : ℕ)
      → accounts_at keys is ≡ some a
      → get_elem? a i ≡ elim (get_elem? is i) [ none ↦ none | some k ↦ get_elem? keys k ]
  unfolding accounts_at
  accounts_at_lem keys [] a i e = let nothing : [] ≡ a = cc in rw (← nothing) refl
  accounts_at_lem keys (k ∷ is) a i e = elim (Option-cases (get_elem? keys k)) [
    | inl missing ↦ absurd (some_not_none a (rw (accounts_at, missing) at e))
    | inr (key, here) ↦ elim (Option-cases (accounts_at keys is)) [
      | inl missing ↦ absurd (some_not_none a (rw (accounts_at, here, missing) at e))
      | inr (rest, read) ↦
          let whole : some (key ∷ rest) ≡ some a = rw (accounts_at, here, read) at e in
          let same : key ∷ rest ≡ a = cc in
          rw (← same) (elem_at keys k is key rest here (λ j. accounts_at_lem keys is rest j read) i)
    ]
  ]

  -- The accounts of a `settle_vrf` instruction, by its layout: the player, the claim and the game
  -- from the second on, the treasury in the seventh place, and the referral, where there is one, in
  -- the tenth.
  pub record IsSettleAt (at : ℕ → Option K) (found : SettleAccounts K) : Type 0 where
    pub no_refund : found.refund ≡ false
    pub player : at 1 ≡ some found.player
    pub claim : at 2 ≡ some found.claim
    pub game : at 3 ≡ some found.game
    pub treasury : (at 6 ≡ found.treasury) × (found.treasury ≢ none)
    pub referral : at 9 ≡ found.referral

  -- Those of a `refund_stalled_vrf` instruction
  pub record IsRefundAt (at : ℕ → Option K) (found : SettleAccounts K) : Type 0 where
    pub is_refund : found.refund ≡ true
    pub player : at 1 ≡ some found.player
    pub claim : at 2 ≡ some found.claim
    pub game : at 3 ≡ some found.game
    pub treasury : found.treasury ≡ none
    pub referral : found.referral ≡ none

  pick_settle_lem :
      (at : ℕ → Option K) (a : List K) (found : SettleAccounts K)
      → ((i : ℕ) → get_elem? a i ≡ at i)
      → pick_settle a ≡ some found
      → IsSettleAt at found
  unfolding pick_settle
  pick_settle_lem at [] found places e = absurd (some_not_none found e)
  pick_settle_lem at (x0 ∷ []) found places e = absurd (some_not_none found e)
  pick_settle_lem at (x0 ∷ x1 ∷ []) found places e = absurd (some_not_none found e)
  pick_settle_lem at (x0 ∷ x1 ∷ x2 ∷ []) found places e = absurd (some_not_none found e)
  pick_settle_lem at (x0 ∷ x1 ∷ x2 ∷ x3 ∷ []) found places e = absurd (some_not_none found e)
  pick_settle_lem at (x0 ∷ x1 ∷ x2 ∷ x3 ∷ x4 ∷ []) found places e = absurd (some_not_none found e)
  pick_settle_lem at (x0 ∷ x1 ∷ x2 ∷ x3 ∷ x4 ∷ x5 ∷ []) found places e =
      absurd (some_not_none found e)
  pick_settle_lem at (x0 ∷ x1 ∷ x2 ∷ x3 ∷ x4 ∷ x5 ∷ x6 ∷ []) found places e =
      absurd (some_not_none found e)
  pick_settle_lem at (x0 ∷ x1 ∷ x2 ∷ x3 ∷ x4 ∷ x5 ∷ x6 ∷ x7 ∷ []) found places e =
      absurd (some_not_none found e)
  pick_settle_lem at (x0 ∷ x1 ∷ x2 ∷ x3 ∷ x4 ∷ x5 ∷ x6 ∷ x7 ∷ x8 ∷ rest) found places e =
      let picked : SettleAccounts K = record {
        refund = false;
        player = x1;
        claim = x2;
        game = x3;
        treasury = some x6;
        referral = get_elem? rest 0;
      } in
      let same : picked ≡ found = cc in
      rw (← same) (record {
        no_refund = refl;
        player = sym (places 1);
        claim = sym (places 2);
        game = sym (places 3);
        treasury = (sym (places 6), λ e'. cc);
        referral = sym (places 9);
      })

  pick_refund_lem :
      (at : ℕ → Option K) (a : List K) (found : SettleAccounts K)
      → ((i : ℕ) → get_elem? a i ≡ at i)
      → pick_refund a ≡ some found
      → IsRefundAt at found
  unfolding pick_refund
  pick_refund_lem at [] found places e = absurd (some_not_none found e)
  pick_refund_lem at (x0 ∷ []) found places e = absurd (some_not_none found e)
  pick_refund_lem at (x0 ∷ x1 ∷ []) found places e = absurd (some_not_none found e)
  pick_refund_lem at (x0 ∷ x1 ∷ x2 ∷ []) found places e = absurd (some_not_none found e)
  pick_refund_lem at (x0 ∷ x1 ∷ x2 ∷ x3 ∷ []) found places e = absurd (some_not_none found e)
  pick_refund_lem at (x0 ∷ x1 ∷ x2 ∷ x3 ∷ x4 ∷ []) found places e = absurd (some_not_none found e)
  pick_refund_lem at (x0 ∷ x1 ∷ x2 ∷ x3 ∷ x4 ∷ x5 ∷ rest) found places e =
      let picked : SettleAccounts K = record {
        refund = true;
        player = x1;
        claim = x2;
        game = x3;
        treasury = none;
        referral = none;
      } in
      let same : picked ≡ found = cc in
      rw (← same) (record {
        is_refund = refl;
        player = sym (places 1);
        claim = sym (places 2);
        game = sym (places 3);
        treasury = refl;
        referral = refl;
      })

module _ (w : Web3) (compute_budget program_id : w.PublicKey) where
  open w use {PublicKey, equals}

  -- The program that an instruction is of
  abbrev pub IsRunBy : List PublicKey → PublicKey → CompiledInstruction → Type 0
  IsRunBy keys key ix =
      (prog : PublicKey) × (get_elem? keys ix.program_index ≡ some prog) × (equals prog key ≡ true)

  -- A settlement or a refund, by the name that the instruction's first eight bytes spell
  abbrev pub IsSettlement : List PublicKey → SettleAccounts PublicKey → CompiledInstruction → Type 0
  IsSettlement keys found ix =
      ((subarray 0 8 ix.ix_data ≡ ix_discriminator w "settle_vrf")
        × IsSettleAt (account_at keys ix) found)
      ⊎ ((subarray 0 8 ix.ix_data ≡ ix_discriminator w "refund_stalled_vrf")
          × IsRefundAt (account_at keys ix) found)

  module _ (keys : List PublicKey) where
    runs-IsRunBy :
        (key : PublicKey) (ix : CompiledInstruction)
        → runs w compute_budget program_id keys key ix ≡ true
        → IsRunBy keys key ix
    unfolding runs
    runs-IsRunBy key ix h = elim (Option-cases (get_elem? keys ix.program_index)) [
      | inl missing ↦ absurd (ground arith)
      | inr (prog, here) ↦ (prog, here, ground arith)
    ]

    refund-IsSettlement :
        (found : SettleAccounts PublicKey) (ix : CompiledInstruction) (a : List PublicKey)
        → ((i : ℕ) → get_elem? a i ≡ account_at keys ix i)
        → (if bytes_eq (subarray 0 8 ix.ix_data) (ix_discriminator w "refund_stalled_vrf")
            then pick_refund a
            else none)
          ≡ some found
        → IsSettlement keys found ix
    refund-IsSettlement found ix a places e =
        let disc = subarray 0 8 ix.ix_data in
        let refund = ix_discriminator w "refund_stalled_vrf" in
        elim (Bool-cases (bytes_eq disc refund)) [
          | inl same ↦ inr (
            (bytes_eq_iff disc refund).0 same,
            pick_refund_lem (account_at keys ix) a found places (rw same at e),
          )
          | inr other ↦ absurd (some_not_none found (rw other at e))
        ]

    settlement_of-IsSettlement :
        (found : SettleAccounts PublicKey) (ix : CompiledInstruction)
        → settlement_of w compute_budget program_id keys ix ≡ some found
        → IsSettlement keys found ix
    unfolding settlement_of
    settlement_of-IsSettlement found ix e =
        let disc = subarray 0 8 ix.ix_data in
        let settle = ix_discriminator w "settle_vrf" in
        elim (Option-cases (accounts_at keys ix.account_indexes)) [
          | inl missing ↦ absurd (some_not_none found (rw (settlement_of, missing) at e))
          | inr (a, read) ↦
              let places : (i : ℕ) → get_elem? a i ≡ account_at keys ix i =
                λ i. accounts_at_lem keys ix.account_indexes a i read in
              elim (Bool-cases (bytes_eq disc settle)) [
                | inl same ↦ elim (Option-cases (pick_settle a)) [
                  | inl few ↦
                      refund-IsSettlement found ix a places
                        (rw (settlement_of, read, same, few) at e)
                  | inr (accounts, is) ↦
                      let whole : some accounts ≡ some found =
                        rw (settlement_of, read, same, is) at e in
                      inl (
                        (bytes_eq_iff disc settle).0 same,
                        pick_settle_lem (account_at keys ix) a found places (is ∙ whole),
                      )
                ]
                | inr other ↦
                    refund-IsSettlement found ix a places (rw (settlement_of, read, other) at e)
              ]
        ]

    abbrev pub OnlyBudget : List CompiledInstruction → Type 0
    OnlyBudget = All (IsRunBy keys compute_budget)

    after_found :
        (accounts found : SettleAccounts PublicKey) (ixs : List CompiledInstruction)
        → settle_loop w compute_budget program_id keys (some accounts) ixs ≡ some found
        → (accounts ≡ found) × OnlyBudget ixs
    unfolding settle_loop
    after_found accounts found [] e = (cc, tt)
    after_found accounts found (ix ∷ ixs) e =
        elim (Bool-cases (runs w compute_budget program_id keys compute_budget ix)) [
          | inl budget ↦
              let (same, rest) = after_found accounts found ixs (rw budget at e) in
              (same, (runs-IsRunBy compute_budget ix budget, rest))
          | inr another ↦ absurd (some_not_none found (rw another at e))
        ]

    -- One settlement among instructions of the compute budget.
    pub record IsSole (found : SettleAccounts PublicKey) (ixs : List CompiledInstruction)
        : Type 0 where
      pub before : List CompiledInstruction
      pub settlement : CompiledInstruction
      pub after : List CompiledInstruction
      pub whole : ixs ≡ before ++ settlement ∷ after
      pub budget_before : OnlyBudget before
      pub budget_after : OnlyBudget after
      pub of_program : IsRunBy keys program_id settlement
      pub accounts : IsSettlement keys found settlement

    IsSole-budget :
        (found : SettleAccounts PublicKey) (ix : CompiledInstruction)
        (ixs : List CompiledInstruction)
        → IsRunBy keys compute_budget ix
        → IsSole found ixs
        → IsSole found (ix ∷ ixs)
    IsSole-budget found ix ixs budget s = record {
      before = ix ∷ s.before;
      settlement = s.settlement;
      after = s.after;
      whole = ap (λ rest. ix ∷ rest) s.whole;
      budget_before = (budget, s.budget_before);
      budget_after = s.budget_after;
      of_program = s.of_program;
      accounts = s.accounts;
    }

    settle_loop-IsSole :
        (found : SettleAccounts PublicKey) (ixs : List CompiledInstruction)
        → settle_loop w compute_budget program_id keys none ixs ≡ some found
        → IsSole found ixs
    unfolding settle_loop
    settle_loop-IsSole found [] e = absurd (some_not_none found e)
    settle_loop-IsSole found (ix ∷ ixs) e =
        elim (Bool-cases (runs w compute_budget program_id keys compute_budget ix)) [
          | inl budget ↦
              IsSole-budget found ix ixs (runs-IsRunBy compute_budget ix budget)
                (settle_loop-IsSole found ixs (rw budget at e))
          | inr another ↦ elim (Bool-cases (runs w compute_budget program_id keys program_id ix)) [
            | inr foreign ↦ absurd (some_not_none found (rw (another, foreign) at e))
            | inl ours ↦ elim (Option-cases (settlement_of w compute_budget program_id keys ix)) [
              | inl nothing ↦ absurd (some_not_none found (rw (another, ours, nothing) at e))
              | inr (accounts, is) ↦
                  let (same, rest) = after_found accounts found ixs (rw (another, ours, is) at e) in
                  record {
                    before = [];
                    settlement = ix;
                    after = ixs;
                    whole = refl;
                    budget_before = tt;
                    budget_after = rest;
                    of_program = runs-IsRunBy program_id ix ours;
                    accounts = settlement_of-IsSettlement found ix (is ∙ ap some same);
                  }
            ]
          ]
        ]

  -- `settleVrfAccounts` returns accounts only for a transaction that did not fail and that is one
  -- instruction of the program among instructions that are all the compute budget's. That one begins
  -- with the discriminator of `settle_vrf` or of `refund_stalled_vrf`, and the accounts are the ones
  -- that it names at the places of that instruction.
  pub settle_vrf_accounts-IsSole :
      (tx : VrfSettleTx PublicKey) (found : SettleAccounts PublicKey)
      → settle_vrf_accounts w compute_budget program_id tx ≡ some found
      → (tx.meta ≡ some false) × IsSole tx.account_keys found tx.compiled_instructions
  unfolding settle_vrf_accounts
  settle_vrf_accounts-IsSole tx found e = elim (Option-cases tx.meta) [
    | inl missing ↦ absurd (some_not_none found (rw missing at e))
    | inr (true, failed) ↦ absurd (some_not_none found (rw failed at e))
    | inr (false, fine) ↦
        (fine, settle_loop-IsSole tx.account_keys found tx.compiled_instructions (rw fine at e))
  ]
