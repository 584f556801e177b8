-- ===== src/Sdk/Vrf.antt =====
-- packages/sdk/src/vrf.ts: the accounts of the per-click VRF mode and their decoders.
pub mod RoundTrip
use playkaboom.Common.{
  ℕ, zero, suc, Bool, List, Result, ok, err, Error, thrown, codes, String, if◌then◌else◌, ◌==◌, ◌%◌,
  ◌+◌,
}
use playkaboom.Sdk.Buffer.{Bytes, read_le}
use playkaboom.Sdk.Web3.{Web3}
use playkaboom.Sdk.Reader.{Reader, Read, pure, raise, ◌>>=◌, u8, u16, u64, bytes, bool_ne_zero, pk}
use playkaboom.Sdk.Accounts.Decode.{decode_as, read_list}

-- `Void` ends a game without progress, which is refunded.
pub data VrfStatus : Type 0 where
  playing won lost void : VrfStatus

pub record VrfClaimAccount (K : Type 0) : Type 0 where
  pub player : K
  pub bet : ℕ
  pub reserved : ℕ
  pub mine_count : ℕ
  pub house_edge_bps : ℕ
  pub start_slot : ℕ
  pub settled : Bool
  pub bump : ℕ

pub record VrfRevealRecord : Type 0 where
  pub tile : ℕ
  pub randomness : Bytes

pub record VrfGameAccount (K : Type 0) : Type 0 where
  pub status : VrfStatus
  pub player : K
  pub session_key : K
  pub bump : ℕ
  pub mine_count : ℕ
  pub house_edge_bps : ℕ
  pub safe_reveals : ℕ
  pub reveal_count : ℕ
  pub pending : Bool
  pub pending_tile : ℕ
  pub revealed_mask : ℕ
  pub mine_mask : ℕ
  pub multiplier_bps : ℕ
  pub reveals : List VrfRevealRecord

-- `VRF_STATUS[byte]`, which throws where it is undefined (the message has the byte as well)
unfoldable pub vrf_status : ℕ → Read VrfStatus
vrf_status zero = pure playing
vrf_status (suc zero) = pure won
vrf_status (suc (suc zero)) = pure lost
vrf_status (suc (suc (suc zero))) = pure void
vrf_status _ = raise (thrown "unknown VrfGame status")

unfoldable pub reveal_record : Read VrfRevealRecord
reveal_record = do
  tile ← u8
  randomness ← bytes 32
  pure (record { tile = tile; randomness = randomness })

-- `readVrfGameStatusByte`
unfoldable pub read_vrf_game_status_byte : Bytes → Result ℕ
read_vrf_game_status_byte content = read_le 1 content 8

module _ (w : Web3) where
  open w use {PublicKey}

  unfoldable pub vrf_claim_body : Read (VrfClaimAccount PublicKey)
  vrf_claim_body = do
    player ← pk w
    bet ← u64
    reserved ← u64
    mine_count ← u8
    house_edge_bps ← u16
    start_slot ← u64
    settled ← bool_ne_zero
    bump ← u8
    pure (record {
      player = player;
      bet = bet;
      reserved = reserved;
      mine_count = mine_count;
      house_edge_bps = house_edge_bps;
      start_slot = start_slot;
      settled = settled;
      bump = bump;
    })

  unfoldable pub decode_vrf_claim : Bytes → Result (VrfClaimAccount PublicKey)
  unfolding vrf_claim_body
  decode_vrf_claim = decode_as w "VrfClaim" "not a VrfClaim account" vrf_claim_body

  unfoldable pub vrf_game_body : Read (VrfGameAccount PublicKey)
  vrf_game_body = do
    status_byte ← u8
    status ← vrf_status status_byte
    player ← pk w
    session_key ← pk w
    bump ← u8
    mine_count ← u8
    house_edge_bps ← u16
    safe_reveals ← u8
    reveal_count ← u8
    pending ← bool_ne_zero
    pending_tile ← u8
    revealed_mask ← u16
    mine_mask ← u16
    multiplier_bps ← u64
    reveals ← read_list 16 reveal_record
    pure (record {
      status = status;
      player = player;
      session_key = session_key;
      bump = bump;
      mine_count = mine_count;
      house_edge_bps = house_edge_bps;
      safe_reveals = safe_reveals;
      reveal_count = reveal_count;
      pending = pending;
      pending_tile = pending_tile;
      revealed_mask = revealed_mask;
      mine_mask = mine_mask;
      multiplier_bps = multiplier_bps;
      reveals = reveals;
    })

  unfoldable pub decode_vrf_game : Bytes → Result (VrfGameAccount PublicKey)
  unfolding vrf_game_body
  decode_vrf_game = decode_as w "VrfGame" "not a VrfGame account" vrf_game_body
