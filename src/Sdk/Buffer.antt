-- ===== src/Sdk/Buffer.antt =====
-- Node's `Buffer`, as far as the SDK uses it: a list of bytes with bounds-checked little-endian
-- reads and writes. A read or write that does not fit throws ERR_OUT_OF_RANGE; `subarray` and
-- `copy` clamp.
pub mod Laws
use playkaboom.Common.{
  ℕ, zero, suc, ◌+◌, ◌-◌, ◌*◌, ◌/◌, ◌%◌, ◌^◌, ◌<◌, Bool, true, false, ◌&&◌, List, [], ◌∷◌, ◌++◌,
  Result, ok, err, out_of_range, ltb, leb, ◌==◌, if◌then◌else◌, length, take, drop, replicate,
}

abbrev pub Bytes : Type 0
Bytes = List ℕ

-- `Buffer.alloc(n)`
abbrev pub alloc : ℕ → Bytes
alloc n = replicate n 0

-- `b.subarray(from, to)`
abbrev pub subarray : ℕ → ℕ → Bytes → Bytes
subarray from to b = take (to - from) (drop from b)

-- `a.equals(b)`
unfoldable pub bytes_eq : Bytes → Bytes → Bool
bytes_eq [] [] = true
bytes_eq (x ∷ xs) (y ∷ ys) = x == y && bytes_eq xs ys
bytes_eq _ _ = false

-- The number that little-endian bytes stand for, and the `n` bytes of a number.
unfoldable pub le_value : Bytes → ℕ
le_value [] = 0
le_value (b ∷ bs) = b + 256 * le_value bs

unfoldable pub le_bytes : ℕ → ℕ → Bytes
le_bytes zero v = []
le_bytes (suc n) v = v % 256 ∷ le_bytes n (v / 256)

-- A u128 is stored as its low and its high 64 bits.
unfoldable pub u128_bytes : ℕ → Bytes
u128_bytes v = le_bytes 8 (v % 2 ^ 64) ++ le_bytes 8 (v / 2 ^ 64)

-- `readUInt8`, `readUInt16LE`, `readUInt32LE`, `readBigUInt64LE` for n = 1, 2, 4, 8
unfoldable pub read_le : ℕ → Bytes → ℕ → Result ℕ
read_le n b offset =
    let s = take n (drop offset b) in if length s == n then ok (le_value s) else err out_of_range

-- `source.copy(target, at)`: what does not fit is left out.
unfoldable pub copy : Bytes → Bytes → ℕ → Bytes
copy source target at =
    take at target ++ (take (length target - at) source ++ drop (at + length source) target)

-- `writeUInt8`, `writeUInt16LE`, `writeBigUInt64LE` for n = 1, 2, 8
unfoldable pub write_le : ℕ → ℕ → Bytes → ℕ → Result Bytes
unfolding copy
write_le n v b offset =
    if ltb v (256 ^ n) && leb (offset + n) (length b)
    then ok (copy (le_bytes n v) b offset)
    else err out_of_range
