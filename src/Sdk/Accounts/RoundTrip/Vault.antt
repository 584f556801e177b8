-- ===== src/Sdk/Accounts/RoundTrip/Vault.antt =====
-- The decoder of the vault account over its layout, with its allowlist and its pending owner.
use playkaboom.Common.{
  ℕ, ◌<◌, ◌^◌, ◌≡◌, refl, arith, true, none, some, List, [], ◌∷◌, ◌++◌, if◌then◌else◌, ok, zero,
  suc, take, map, length, length-append, take-append_length, Option-cases, inl, inr,
}
use mathlib.Core.Option.{get_or}
use playkaboom.Sdk.Buffer.{Bytes, alloc}
use playkaboom.Sdk.Web3.{Web3, IsWeb3}
use playkaboom.Sdk.Discriminator.{account_discriminator}
use playkaboom.Sdk.Reader.{Read, pk}
use playkaboom.Sdk.Reader.Reads.{
  Reads, Reads-bind, Reads-map, Reads-pure, Reads-uint, Reads-bool_eq_one, Reads-pk,
}
use playkaboom.Sdk.Accounts.{VaultAccount}
use playkaboom.Sdk.Accounts.Decode.{all_zero, read_list, vault_body, decode_vault}
use playkaboom.Sdk.Accounts.Layout.{layout, FitsVault, vault_layout}
use playkaboom.Sdk.Accounts.RoundTrip.{decode_as_lem}

Reads-list {ℓ} :
    {A : Type ℓ} (enc : A → Bytes) (m : Read A)
    → ((a : A) → Reads m (enc a) a)
    → (n : ℕ) (xs : List A) → length xs ≡ n
    → Reads (read_list n m) (layout (map enc xs)) xs
unfolding read_list
Reads-list enc m hm zero [] e = Reads-pure []
Reads-list enc m hm zero (x ∷ xs) e = absurd (omega arith)
Reads-list enc m hm (suc n) [] e = absurd (omega arith)
Reads-list enc m hm (suc n) (x ∷ xs) e =
    Reads-bind _ _ (hm x) (Reads-map _ _ (Reads-list enc m hm n xs (omega arith)))

all_zero-alloc : (n : ℕ) → all_zero (alloc n) ≡ true
unfolding all_zero
all_zero-alloc zero = refl
all_zero-alloc (suc n) = all_zero-alloc n

module _ {w : Web3} (h : IsWeb3 w) where
  open w use {PublicKey, to_bytes}

  count-IsU8 :
      (a : VaultAccount PublicKey) (spare : List PublicKey)
      → FitsVault w a spare
      → a.allowlist_count < 256 ^ 1
  count-IsU8 a spare f =
      omega (arith, f.allowlist_count, f.allowlist_slots, length-append a.withdraw_allowlist spare)

  take-allowlist :
      (a : VaultAccount PublicKey) (spare : List PublicKey)
      → FitsVault w a spare
      → take a.allowlist_count (a.withdraw_allowlist ++ spare) ≡ a.withdraw_allowlist
  take-allowlist a spare f =
      rw (← f.allowlist_count) (take-append_length a.withdraw_allowlist spare)

  pending-eq :
      (a : VaultAccount PublicKey) (spare : List PublicKey)
      → FitsVault w a spare
      → (let k = get_or a.pending_owner w.default_key in
          if all_zero (to_bytes k) then none else some k)
        ≡ a.pending_owner
  pending-eq a spare f = elim (Option-cases a.pending_owner) [
    | inl e ↦ rw (e, h.to_bytes-default_key, all_zero-alloc 32)
    | inr (k, e) ↦ rw (e, f.pending_owner k e)
  ]

  Reads-vault :
      (a : VaultAccount PublicKey) (spare : List PublicKey)
      → FitsVault w a spare
      → Reads (vault_body w) (vault_layout w a spare) a
  unfolding vault_body
  Reads-vault a spare f = Reads-bind _ _ (Reads-pk w h a.owner) (
      Reads-bind _ _ (Reads-pk w h a.house_authority) (
        Reads-bind _ _ (Reads-pk w h a.treasury) (
          Reads-bind _ _ (Reads-uint 1 a.bump f.bump) (
            Reads-bind _ _ (Reads-uint 2 a.house_edge_bps f.house_edge_bps) (
              Reads-bind _ _ (Reads-uint 2 a.max_bet_bps f.max_bet_bps) (
                Reads-bind _ _ (Reads-uint 2 a.max_payout_bps f.max_payout_bps) (
                  Reads-bind _ _ (Reads-uint 2 a.treasury_split_bps f.treasury_split_bps) (
                    Reads-bind _ _ (Reads-uint 8 a.total_games f.total_games) (
                      Reads-bind _ _ (Reads-uint 8 a.total_wagered f.total_wagered) (
                        Reads-bind _ _ (Reads-uint 8 a.total_payouts f.total_payouts) (
                          Reads-bind _ _ (Reads-bool_eq_one a.paused) (
                            Reads-bind _ _ (Reads-uint 1 a.version f.version) (
                              Reads-bind _ _ (Reads-uint 1 a.allowlist_count (count-IsU8 a spare f))
                                (Reads-bind _ _
                                  (Reads-list to_bytes (pk w) (Reads-pk w h) 8
                                    (a.withdraw_allowlist ++ spare) f.allowlist_slots)
                                  (Reads-bind _ _
                                    (Reads-pk w h (get_or a.pending_owner w.default_key))
                                    (rw (take-allowlist a spare f, pending-eq a spare f)
                                      (Reads-pure a)))))))))))))))))

  -- `decodeVault` returns the vault account whose fields, each in its range, stand in the program's
  -- layout behind the discriminator, whatever fills the allowlist slots behind the counted ones and
  -- whatever follows; 32 zeros for the pending owner read as `null`.
  pub decode_vault-layout :
      (a : VaultAccount PublicKey) (spare : List PublicKey) (rest : Bytes)
      → FitsVault w a spare
      → decode_vault w (account_discriminator w "Vault" ++ (vault_layout w a spare ++ rest)) ≡ ok a
  unfolding decode_vault
  decode_vault-layout a spare rest f = decode_as_lem h _ _ _ rest (Reads-vault a spare f)
