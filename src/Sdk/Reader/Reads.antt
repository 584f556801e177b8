-- ===== src/Sdk/Reader/Reads.antt =====
-- What a reader returns where the bytes of a value stand, and where it leaves the place.
use playkaboom.Common.{
  ℕ, ◌+◌, ◌-◌, ◌/◌, ◌%◌, ◌^◌, ◌<◌, ◌≡◌, ◌≢◌, refl, ap, ◌∙◌, arith, Bool, true, false, none, some,
  [], ◌++◌, ok, ◌==◌, if◌then◌else◌, length, drop, drop-add,
}
use mathlib.Core.List.{append_assoc, append-nil}
use playkaboom.Sdk.Buffer.{Bytes, le_bytes, u128_bytes}
use playkaboom.Sdk.Buffer.Laws.{read_le_lem, take-append, drop-append, length-le_bytes}
use playkaboom.Sdk.Web3.{Web3, IsWeb3}
use playkaboom.Sdk.Reader.{
  Reader, Read, pure, ◌>>=◌, run, uint, signed64, i64, u128, bytes, bool_eq_one, bool_ne_zero, pk,
  option_pk,
}

-- The bytes that are still to be read.
abbrev pub remaining : Reader → Bytes
remaining r = drop r.offset r.content

-- Where `bs` stands next, `m` returns `a` and moves on behind `bs`.
pub record Reads {ℓ} {A : Type ℓ} (m : Read A) (bs : Bytes) (a : A) : Type ℓ where
  pub at :
      (r : Reader) (rest : Bytes)
      → remaining r ≡ bs ++ rest
      → (r' : Reader) × (m r ≡ ok (a, r')) × (remaining r' ≡ rest)

pub Reads-pure {ℓ} : {A : Type ℓ} (a : A) → Reads (pure a) [] a
unfolding pure
Reads-pure a = record { at = λ r rest e. (r, refl, e) }

pub Reads-bind {ℓ κ} :
    {A : Type ℓ} {B : Type κ} (m : Read A) (f : A → Read B) {bs cs : Bytes} {a : A} {b : B}
    → Reads m bs a
    → Reads (f a) cs b
    → Reads (m >>= f) (bs ++ cs) b
unfolding ◌>>=◌
Reads-bind m f {bs} {cs} hm hf = record {
  at = λ r rest e.
      let (r', done, left) = hm.at r (cs ++ rest) (e ∙ append_assoc bs cs rest) in
      let (r'', done', left') = hf.at r' rest left in (r'', rw (done, ◌>>=◌) done', left');
}

pub Reads-map {ℓ κ} :
    {A : Type ℓ} {B : Type κ} (m : Read A) (f : A → B) {bs : Bytes} {a : A}
    → Reads m bs a
    → Reads (m >>= λ x. pure (f x)) bs (f a)
Reads-map m f {bs} {a} h = rw append-nil at (Reads-bind m (λ x. pure (f x)) h (Reads-pure (f a)))

skip :
    (n : ℕ) (r : Reader) (bs rest : Bytes)
    → length bs ≡ n
    → remaining r ≡ bs ++ rest
    → drop (r.offset + n) r.content ≡ rest
skip n r bs rest h e = drop-add r.offset n r.content ∙ ap (drop n) e ∙ drop-append n bs rest h

pub Reads-uint : (n v : ℕ) → v < 256 ^ n → Reads (uint n) (le_bytes n v) v
unfolding uint
Reads-uint n v h = record {
  at = λ r rest e. (
    record r { offset = r.offset + n },
    rw (read_le_lem n v r.content rest r.offset h e),
    skip n r (le_bytes n v) rest (length-le_bytes n v) e,
  );
}

width : (n offset : ℕ) → offset + n - offset ≡ n
width n offset = omega arith

pub Reads-bytes : (n : ℕ) (bs : Bytes) → length bs ≡ n → Reads (bytes n) bs bs
unfolding bytes
Reads-bytes n bs h = record {
  at = λ r rest e. (
    record r { offset = r.offset + n },
    rw (e, width n r.offset, take-append n bs rest h),
    skip n r bs rest h e,
  );
}

pub Reads-u128 : (v : ℕ) → v < 2 ^ 128 → Reads u128 (u128_bytes v) v
unfolding u128 u128_bytes
Reads-u128 v h = record {
  at = λ r rest e.
      let lo = v % 2 ^ 64 in
      let hi = v / 2 ^ 64 in
      let e' = e ∙ append_assoc (le_bytes 8 lo) (le_bytes 8 hi) rest in
      let after = skip 8 r (le_bytes 8 lo) (le_bytes 8 hi ++ rest) (length-le_bytes 8 lo) e' in
      let end =
        skip 8 (record r { offset = r.offset + 8 }) (le_bytes 8 hi) rest (length-le_bytes 8 hi)
          after in
      (
        record r { offset = r.offset + 16 },
        rw
            (
              read_le_lem 8 lo r.content (le_bytes 8 hi ++ rest) r.offset (omega arith) e',
              read_le_lem 8 hi r.content rest (r.offset + 8) (omega arith) after,
            )
            (ground arith),
        ap (λ o. drop o r.content) (omega arith) ∙ end,
      );
}

module _ (w : Web3) (h : IsWeb3 w) where
  open w use {PublicKey, to_bytes}

  pub Reads-pk : (k : PublicKey) → Reads (pk w) (to_bytes k) k
  unfolding pk
  Reads-pk k = record {
    at = λ r rest e. (
      record r { offset = r.offset + 32 },
      rw (
        e,
        width 32 r.offset,
        take-append 32 (to_bytes k) rest (h.length-to_bytes k),
        h.from_bytes-to_bytes k,
      ),
      skip 32 r (to_bytes k) rest (h.length-to_bytes k) e,
    );
  }

  -- The program allots a tag and 32 bytes; the bytes behind a zero tag may be any.
  pub Reads-option_pk-some :
      (k : PublicKey) (t : ℕ)
      → t ≢ 0
      → t < 256
      → Reads (option_pk w) (le_bytes 1 t ++ (to_bytes k ++ [])) (some k)
  unfolding option_pk
  Reads-option_pk-some k t ne h = Reads-bind _ _ (Reads-uint 1 t (omega arith)) (
      let e : (t == 0) ≡ false = ground arith in
      rw e (Reads-bind _ _ (Reads-pk k) (Reads-pure (some k))))

  pub Reads-option_pk-none :
      (bs : Bytes) → length bs ≡ 32 → Reads (option_pk w) (le_bytes 1 0 ++ bs) none
  unfolding option_pk
  Reads-option_pk-none bs h = Reads-bind _ _ (Reads-uint 1 0 (omega arith)) (record {
    at = λ r rest e. (record r { offset = r.offset + 32 }, refl, skip 32 r bs rest h e);
  })

pub Reads-bool_eq_one : (b : Bool) → Reads bool_eq_one (le_bytes 1 (if b then 1 else 0)) b
unfolding bool_eq_one
Reads-bool_eq_one true = Reads-map _ _ (Reads-uint 1 1 (omega arith))
Reads-bool_eq_one false = Reads-map _ _ (Reads-uint 1 0 (omega arith))

pub Reads-bool_ne_zero : (b : Bool) → Reads bool_ne_zero (le_bytes 1 (if b then 1 else 0)) b
unfolding bool_ne_zero
Reads-bool_ne_zero true = Reads-map _ _ (Reads-uint 1 1 (omega arith))
Reads-bool_ne_zero false = Reads-map _ _ (Reads-uint 1 0 (omega arith))

pub Reads-i64 : (v : ℕ) → v < 2 ^ 64 → Reads i64 (le_bytes 8 v) (signed64 v)
unfolding i64
Reads-i64 v h = Reads-map _ _ (Reads-uint 8 v h)

-- A decoder that runs over exactly the bytes of a value returns it.
pub run-Reads {ℓ} :
    {A : Type ℓ} (m : Read A) {bs : Bytes} {a : A} (rest : Bytes)
    → Reads m bs a
    → run m (record { content = bs ++ rest; offset = 0 }) ≡ ok a
unfolding run
run-Reads m {bs} rest h =
    let (r', done, left) = h.at (record { content = bs ++ rest; offset = 0 }) rest refl in
    rw (done, run)
