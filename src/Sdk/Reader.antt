-- ===== src/Sdk/Reader.antt =====
-- The `Reader` classes of accounts.ts, vrf.ts and events.ts: a buffer with a place in it. A method
-- throws where the buffer throws, and moves the place on.
pub mod Reads
use playkaboom.Common.{
  ℕ, ◌+◌, ◌-◌, ◌*◌, ◌^◌, Bool, true, false, not, Option, none, some, Result, ok, err, Error, ltb,
  ◌==◌, if◌then◌else◌, take, drop, map,
}
use playkaboom.Common
use playkaboom.Common.Int.{ℤ, pos, negsuc}
use playkaboom.Sdk.Buffer.{Bytes, subarray, read_le}
use playkaboom.Sdk.Web3.{Web3}

pub record Reader : Type 0 where
  pub content : Bytes
  pub offset : ℕ

abbrev pub Read {ℓ} : Type ℓ → Type ℓ
Read A = Reader → Result (A × Reader)

unfoldable pub pure {ℓ} : {A : Type ℓ} → A → Read A
pure a r = ok (a, r)

-- `throw`
unfoldable pub raise {ℓ} : {A : Type ℓ} → Error → Read A
raise e r = err e

infixl 5 ◌>>=◌
unfoldable pub ◌>>=◌ {ℓ κ} : {A : Type ℓ} {B : Type κ} → Read A → (A → Read B) → Read B
unfolding pure
◌>>=◌ m f r = elim (m r) [ ok (a, r') ↦ f a r' | err e ↦ err e ]

-- What a decoder returns: the place is forgotten.
unfoldable pub run {ℓ} : {A : Type ℓ} → Read A → Reader → Result A
unfolding ◌>>=◌
run m r = elim (m r) [ ok (a, r') ↦ ok a | err e ↦ err e ]

-- `u8`, `u16`, `u32`, `u64` are `uint 1`, `uint 2`, `uint 4`, `uint 8`.
unfoldable pub uint : ℕ → Read ℕ
uint n r =
    Common.◌>>=◌ (read_le n r.content r.offset) (λ v. ok (v, record r { offset = r.offset + n }))

abbrev pub u8 : Read ℕ
u8 = uint 1

abbrev pub u16 : Read ℕ
u16 = uint 2

abbrev pub u32 : Read ℕ
u32 = uint 4

abbrev pub u64 : Read ℕ
u64 = uint 8

-- `readBigInt64LE`
abbrev pub signed64 : ℕ → ℤ
signed64 v = if ltb v (2 ^ 63) then pos v else negsuc (2 ^ 64 - v - 1)

unfoldable pub i64 : Read ℤ
i64 = u64 >>= λ v. pure (signed64 v)

-- `(hi << 64n) | lo`, both read at the place, which then moves on by 16
unfoldable pub u128 : Read ℕ
u128 r = Common.◌>>=◌ (read_le 8 r.content r.offset) (λ lo.
    Common.◌>>=◌ (read_le 8 r.content (r.offset + 8))
      (λ hi. ok (hi * 2 ^ 64 + lo, record r { offset = r.offset + 16 })))

-- `bytes(n)`: `subarray` clamps, so this never throws.
unfoldable pub bytes : ℕ → Read Bytes
bytes n r = ok (subarray r.offset (r.offset + n) r.content, record r { offset = r.offset + n })

-- `bool()` of accounts.ts and events.ts
unfoldable pub bool_eq_one : Read Bool
bool_eq_one = u8 >>= λ v. pure (v == 1)

-- `bool()` of vrf.ts
unfoldable pub bool_ne_zero : Read Bool
bool_ne_zero = u8 >>= λ v. pure (not (v == 0))

module _ (w : Web3) where
  open w use {PublicKey, from_bytes}

  unfoldable pub pk : Read PublicKey
  pk r =
      Common.◌>>=◌ (from_bytes (subarray r.offset (r.offset + 32) r.content))
        (λ k. ok (k, record r { offset = r.offset + 32 }))

  -- `optionPk`: a zero tag skips 32 bytes, and any other tag is read as "some".
  unfoldable pub option_pk : Read (Option PublicKey)
  option_pk = u8 >>= λ tag.
      if tag == 0
      then (λ r. ok (none, record r { offset = r.offset + 32 }))
      else (pk >>= λ k. pure (some k))
