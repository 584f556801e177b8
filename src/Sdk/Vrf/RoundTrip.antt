-- ===== src/Sdk/Vrf/RoundTrip.antt =====
-- The decoders of vrf.ts over the layout of each account.
use playkaboom.Common.{
  ℕ, zero, suc, ◌<◌, ◌≡◌, refl, arith, List, [], ◌∷◌, ◌++◌, ok, map, length, All,
}
use playkaboom.Sdk.Buffer.{Bytes, le_bytes}
use playkaboom.Sdk.Web3.{Web3, IsWeb3}
use playkaboom.Sdk.Discriminator.{account_discriminator}
use playkaboom.Sdk.Reader.{Read, pure, ◌>>=◌}
use playkaboom.Sdk.Reader.Reads.{
  Reads, Reads-bind, Reads-map, Reads-pure, Reads-uint, Reads-bytes, Reads-bool_ne_zero, Reads-pk,
}
use playkaboom.Sdk.Accounts.Decode.{read_list}
use playkaboom.Sdk.Accounts.Layout.{layout, bool_bytes, IsU8, IsU16, IsU64}
use playkaboom.Sdk.Accounts.RoundTrip.{decode_as_lem}
use playkaboom.Sdk.Vrf.{
  VrfStatus, playing, won, lost, void, VrfClaimAccount, VrfRevealRecord, VrfGameAccount, vrf_status,
  reveal_record, vrf_claim_body, decode_vrf_claim, vrf_game_body, decode_vrf_game,
}

unfoldable pub vrf_status_byte : VrfStatus → ℕ
vrf_status_byte playing = 0
vrf_status_byte won = 1
vrf_status_byte lost = 2
vrf_status_byte void = 3

vrf_status-byte : (s : VrfStatus) → vrf_status (vrf_status_byte s) ≡ pure s
unfolding vrf_status vrf_status_byte
vrf_status-byte playing = refl
vrf_status-byte won = refl
vrf_status-byte lost = refl
vrf_status-byte void = refl

vrf_status_byte-lt : (s : VrfStatus) → vrf_status_byte s < 256
unfolding vrf_status_byte
vrf_status_byte-lt s = ground arith

abbrev pub reveal_bytes : VrfRevealRecord → Bytes
reveal_bytes a = layout (le_bytes 1 a.tile ∷ a.randomness ∷ [])

pub record FitsReveal (a : VrfRevealRecord) : Type 0 where
  pub tile : IsU8 a.tile
  pub randomness : length a.randomness ≡ 32

pub record FitsVrfClaim {K : Type 0} (a : VrfClaimAccount K) : Type 0 where
  pub bet : IsU64 a.bet
  pub reserved : IsU64 a.reserved
  pub mine_count : IsU8 a.mine_count
  pub house_edge_bps : IsU16 a.house_edge_bps
  pub start_slot : IsU64 a.start_slot
  pub bump : IsU8 a.bump

pub record FitsVrfGame {K : Type 0} (a : VrfGameAccount K) : Type 0 where
  pub bump : IsU8 a.bump
  pub mine_count : IsU8 a.mine_count
  pub house_edge_bps : IsU16 a.house_edge_bps
  pub safe_reveals : IsU8 a.safe_reveals
  pub reveal_count : IsU8 a.reveal_count
  pub pending_tile : IsU8 a.pending_tile
  pub revealed_mask : IsU16 a.revealed_mask
  pub mine_mask : IsU16 a.mine_mask
  pub multiplier_bps : IsU64 a.multiplier_bps
  pub reveals : All FitsReveal a.reveals
  pub slots : length a.reveals ≡ 16

Reads-reveal : (a : VrfRevealRecord) → FitsReveal a → Reads reveal_record (reveal_bytes a) a
unfolding reveal_record
Reads-reveal a f =
    Reads-bind _ _ (Reads-uint 1 a.tile f.tile)
      (Reads-bind _ _ (Reads-bytes 32 a.randomness f.randomness) (Reads-pure a))

Reads-reveals :
    (n : ℕ) (xs : List VrfRevealRecord)
    → length xs ≡ n
    → All FitsReveal xs
    → Reads (read_list n reveal_record) (layout (map reveal_bytes xs)) xs
unfolding read_list
Reads-reveals zero [] e f = Reads-pure []
Reads-reveals zero (x ∷ xs) e f = absurd (omega arith)
Reads-reveals (suc n) [] e f = absurd (omega arith)
Reads-reveals (suc n) (x ∷ xs) e f =
    Reads-bind _ _ (Reads-reveal x f.0) (Reads-map _ _ (Reads-reveals n xs (omega arith) f.1))

Reads-pure_bind {ℓ κ} :
    {A : Type ℓ} {B : Type κ} (a : A) (k : A → Read B) {bs : Bytes} {b : B}
    → Reads (k a) bs b
    → Reads (pure a >>= k) bs b
Reads-pure_bind a k h = Reads-bind _ _ (Reads-pure a) h

module _ (w : Web3) where
  open w use {PublicKey, to_bytes}

  abbrev pub vrf_claim_layout : VrfClaimAccount PublicKey → Bytes
  vrf_claim_layout a = layout (
      to_bytes a.player
      ∷ le_bytes 8 a.bet
      ∷ le_bytes 8 a.reserved
      ∷ le_bytes 1 a.mine_count
      ∷ le_bytes 2 a.house_edge_bps
      ∷ le_bytes 8 a.start_slot
      ∷ bool_bytes a.settled
      ∷ le_bytes 1 a.bump
      ∷ [])

  abbrev pub vrf_game_layout : VrfGameAccount PublicKey → Bytes
  vrf_game_layout a = layout (
      le_bytes 1 (vrf_status_byte a.status)
      ∷ to_bytes a.player
      ∷ to_bytes a.session_key
      ∷ le_bytes 1 a.bump
      ∷ le_bytes 1 a.mine_count
      ∷ le_bytes 2 a.house_edge_bps
      ∷ le_bytes 1 a.safe_reveals
      ∷ le_bytes 1 a.reveal_count
      ∷ bool_bytes a.pending
      ∷ le_bytes 1 a.pending_tile
      ∷ le_bytes 2 a.revealed_mask
      ∷ le_bytes 2 a.mine_mask
      ∷ le_bytes 8 a.multiplier_bps
      ∷ layout (map reveal_bytes a.reveals)
      ∷ [])

module _ {w : Web3} (h : IsWeb3 w) where
  open w use {PublicKey}

  Reads-vrf_claim :
      (a : VrfClaimAccount PublicKey)
      → FitsVrfClaim a
      → Reads (vrf_claim_body w) (vrf_claim_layout w a) a
  unfolding vrf_claim_body
  Reads-vrf_claim a f = Reads-bind _ _ (Reads-pk w h a.player) (
      Reads-bind _ _ (Reads-uint 8 a.bet f.bet) (
        Reads-bind _ _ (Reads-uint 8 a.reserved f.reserved) (
          Reads-bind _ _ (Reads-uint 1 a.mine_count f.mine_count) (
            Reads-bind _ _ (Reads-uint 2 a.house_edge_bps f.house_edge_bps) (
              Reads-bind _ _ (Reads-uint 8 a.start_slot f.start_slot) (
                Reads-bind _ _ (Reads-bool_ne_zero a.settled)
                  (Reads-bind _ _ (Reads-uint 1 a.bump f.bump) (Reads-pure a))))))))

  -- `decodeVrfClaim` returns the VrfClaim account whose fields, each in its range, stand in the
  -- program's layout behind the discriminator, whatever follows them.
  pub decode_vrf_claim-layout :
      (a : VrfClaimAccount PublicKey) (rest : Bytes)
      → FitsVrfClaim a
      → decode_vrf_claim w (account_discriminator w "VrfClaim" ++ (vrf_claim_layout w a ++ rest))
        ≡ ok a
  unfolding decode_vrf_claim
  decode_vrf_claim-layout a rest f = decode_as_lem h _ _ _ rest (Reads-vrf_claim a f)

  Reads-vrf_game :
      (a : VrfGameAccount PublicKey)
      → FitsVrfGame a
      → Reads (vrf_game_body w) (vrf_game_layout w a) a
  unfolding vrf_game_body
  Reads-vrf_game a f =
      Reads-bind _ _ (Reads-uint 1 (vrf_status_byte a.status) (vrf_status_byte-lt a.status)) (
        rw (vrf_status-byte a.status) (
          Reads-pure_bind a.status _ (
            Reads-bind _ _ (Reads-pk w h a.player) (
              Reads-bind _ _ (Reads-pk w h a.session_key) (
                Reads-bind _ _ (Reads-uint 1 a.bump f.bump) (
                  Reads-bind _ _ (Reads-uint 1 a.mine_count f.mine_count) (
                    Reads-bind _ _ (Reads-uint 2 a.house_edge_bps f.house_edge_bps) (
                      Reads-bind _ _ (Reads-uint 1 a.safe_reveals f.safe_reveals) (
                        Reads-bind _ _ (Reads-uint 1 a.reveal_count f.reveal_count) (
                          Reads-bind _ _ (Reads-bool_ne_zero a.pending) (
                            Reads-bind _ _ (Reads-uint 1 a.pending_tile f.pending_tile) (
                              Reads-bind _ _ (Reads-uint 2 a.revealed_mask f.revealed_mask) (
                                Reads-bind _ _ (Reads-uint 2 a.mine_mask f.mine_mask) (
                                  Reads-bind _ _ (Reads-uint 8 a.multiplier_bps f.multiplier_bps) (
                                    Reads-bind _ _ (Reads-reveals 16 a.reveals f.slots f.reveals)
                                      (Reads-pure a))))))))))))))))

  -- `decodeVrfGame` returns the VrfGame account whose fields, each in its range, stand in the
  -- program's layout behind the discriminator, whatever follows them.
  pub decode_vrf_game-layout :
      (a : VrfGameAccount PublicKey) (rest : Bytes)
      → FitsVrfGame a
      → decode_vrf_game w (account_discriminator w "VrfGame" ++ (vrf_game_layout w a ++ rest))
        ≡ ok a
  unfolding decode_vrf_game
  decode_vrf_game-layout a rest f = decode_as_lem h _ _ _ rest (Reads-vrf_game a f)
