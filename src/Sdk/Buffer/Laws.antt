-- ===== src/Sdk/Buffer/Laws.antt =====
-- Laws of the buffer operations.
use playkaboom.Common.{
  ℕ, zero, suc, ◌+◌, ◌-◌, ◌*◌, ◌/◌, ◌^◌, ◌<◌, ◌≤◌, ◌≡◌, ◌↔◌, refl, ap, arith, true, [], ◌∷◌, ◌++◌,
  ok, ltb, leb, length, take, drop, All, length-append, length-replicate, take-append_length,
  drop-append_length, drop-add,
}
use mathlib.Core.List.{append_assoc}
use native.Mathlib.Nat.{pow-suc}
use playkaboom.Sdk.Buffer.{Bytes, alloc, bytes_eq, le_value, le_bytes, read_le, copy, write_le}

abbrev pub IsByte : ℕ → Type 0
IsByte b = b < 256

pub length-le_bytes : (n v : ℕ) → length (le_bytes n v) ≡ n
unfolding le_bytes
length-le_bytes zero v = refl
length-le_bytes (suc n) v = ap suc (length-le_bytes n (v / 256))

pub le_bytes-IsByte : (n v : ℕ) → All IsByte (le_bytes n v)
unfolding le_bytes
le_bytes-IsByte zero v = tt
le_bytes-IsByte (suc n) v = (omega arith, le_bytes-IsByte n (v / 256))

pub le_value-le_bytes : (n v : ℕ) → v < 256 ^ n → le_value (le_bytes n v) ≡ v
unfolding le_value le_bytes
le_value-le_bytes zero v h = omega arith
le_value-le_bytes (suc n) v h =
    let small : v < 256 ^ n * 256 = rw pow-suc at h in
    omega (arith, le_value-le_bytes n (v / 256) (omega arith))

pub bytes_eq_refl : (b : Bytes) → bytes_eq b b ≡ true
unfolding bytes_eq
bytes_eq_refl [] = refl
bytes_eq_refl (x ∷ xs) = ground (arith, bytes_eq_refl xs)

pub bytes_eq_sound : (a b : Bytes) → bytes_eq a b ≡ true → a ≡ b
unfolding bytes_eq
bytes_eq_sound [] [] h = refl
bytes_eq_sound (x ∷ xs) (y ∷ ys) h = ground (arith, bytes_eq_sound xs ys)
bytes_eq_sound [] (y ∷ ys) h = cc
bytes_eq_sound (x ∷ xs) [] h = cc

pub bytes_eq_iff : (a b : Bytes) → (bytes_eq a b ≡ true) ↔ (a ≡ b)
bytes_eq_iff a b = (bytes_eq_sound a b, λ e. rw e (bytes_eq_refl b))

pub take-append : (n : ℕ) (xs ys : Bytes) → length xs ≡ n → take n (xs ++ ys) ≡ xs
take-append n xs ys h = rw (← h) (take-append_length xs ys)

pub drop-append : (n : ℕ) (xs ys : Bytes) → length xs ≡ n → drop n (xs ++ ys) ≡ ys
drop-append n xs ys h = rw (← h) (drop-append_length xs ys)

-- A read at the place where the bytes of a number stand returns the number.
pub read_le_lem :
    (n v : ℕ) (b rest : Bytes) (offset : ℕ)
    → v < 256 ^ n
    → drop offset b ≡ le_bytes n v ++ rest
    → read_le n b offset ≡ ok v
unfolding read_le
read_le_lem n v b rest offset h e =
    rw (e, take-append n (le_bytes n v) rest (length-le_bytes n v))
      (ground (arith, length-le_bytes n v, le_value-le_bytes n v h))

take_all : (n : ℕ) (xs : Bytes) → length xs ≤ n → take n xs ≡ xs
take_all zero [] h = refl
take_all zero (x ∷ xs) h = absurd (omega arith)
take_all (suc n) [] h = refl
take_all (suc n) (x ∷ xs) h = ap (λ t. x ∷ t) (take_all n xs (omega arith))

drop-replicate : (m k : ℕ) → drop m (alloc (m + k)) ≡ alloc k
drop-replicate zero k = ap alloc (omega arith)
drop-replicate (suc m) k =
    let e : suc m + k ≡ suc (m + k) = omega arith in rw e (drop-replicate m k)

length-alloc : (n : ℕ) → length (alloc n) ≡ n
length-alloc n = length-replicate n 0

-- A copy at the end of what is written already, into the zeros of `Buffer.alloc`.
pub copy_next :
    (source done : Bytes) (n k at : ℕ)
    → length source ≡ n
    → length done ≡ at
    → copy source (done ++ alloc (n + k)) at ≡ (done ++ source) ++ alloc k
unfolding copy
copy_next source done n k at hs h =
    let room : n ≤ length (done ++ alloc (n + k)) - at =
      omega (arith, length-append done (alloc (n + k)), length-alloc (n + k)) in
    rw (
      hs,
      take-append at done (alloc (n + k)) h,
      drop-add at n (done ++ alloc (n + k)),
      drop-append at done (alloc (n + k)) h,
      drop-replicate n k,
      take_all (length (done ++ alloc (n + k)) - at) source (omega arith),
      append_assoc done source (alloc k),
    )

-- The same for the write of a number.
pub write_le_next :
    (n v : ℕ) (done : Bytes) (k at : ℕ)
    → length done ≡ at
    → v < 256 ^ n
    → write_le n v (done ++ alloc (n + k)) at ≡ ok ((done ++ le_bytes n v) ++ alloc k)
unfolding write_le
write_le_next n v done k at h small =
    let fits : ltb v (256 ^ n) ≡ true = ground arith in
    let room : leb (at + n) (length (done ++ alloc (n + k))) ≡ true =
      ground (arith, length-append done (alloc (n + k)), length-alloc (n + k)) in
    rw (fits, room) (ap ok (copy_next (le_bytes n v) done n k at (length-le_bytes n v) h))
