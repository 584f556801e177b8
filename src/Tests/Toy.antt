-- ===== src/Tests/Toy.antt =====
-- A concrete library of public keys: a few keys, named by the byte that their 32 bytes repeat.
use playkaboom.Common.{
  ℕ, ◌+◌, ◌*◌, ◌≡◌, refl, arith, ◌↔◌, Bool, true, [], ◌∷◌, Result, ok, err, range_error, length,
  replicate, ◌==◌, if◌then◌else◌,
}
use playkaboom.Sdk.Buffer.{Bytes, le_bytes}
use playkaboom.Sdk.Buffer.Laws.{length-le_bytes}
use playkaboom.Sdk.Web3.{Web3, IsWeb3}

pub data Key : Type 0 where
  zero_key program_key player_key house_key : Key

abbrev number : Key → ℕ
number zero_key = 0
number program_key = 1
number player_key = 2
number house_key = 3

abbrev to_bytes : Key → Bytes
to_bytes k = replicate 32 (number k)

abbrev key_of : ℕ → Result Key
key_of n =
    if n == 0
    then ok zero_key
    else if n == 1
    then ok program_key
    else if n == 2
    then ok player_key
    else if n == 3
    then ok house_key
    else err (range_error "no such key")

abbrev from_bytes : Bytes → Result Key
from_bytes [] = err (range_error "no such key")
from_bytes (b ∷ bs) = key_of b

abbrev equals : Key → Key → Bool
equals k j = number k == number j

-- A sum that tells the short texts of the names apart.
abbrev hash : Bytes → ℕ
hash [] = 7
hash (b ∷ bs) = b + 257 * hash bs

abbrev pub toy : Web3
toy = record {
  PublicKey = Key;
  from_bytes = from_bytes;
  from_base58 = λ text. program_key;
  to_bytes = to_bytes;
  equals = equals;
  find_program_address = λ seeds program_id. (house_key, 255);
  default_key = zero_key;
  system_program = program_key;
  slot_hashes = program_key;
  sha256 = λ b. le_bytes 32 (hash b);
}

length-to_bytes : (k : Key) → length (to_bytes k) ≡ 32
length-to_bytes k = refl

from_bytes-to_bytes : (k : Key) → from_bytes (to_bytes k) ≡ ok k
from_bytes-to_bytes zero_key = refl
from_bytes-to_bytes program_key = refl
from_bytes-to_bytes player_key = refl
from_bytes-to_bytes house_key = refl

equals_iff : (k j : Key) → (equals k j ≡ true) ↔ (k ≡ j)
equals_iff k j = ground arith

pub toy-IsWeb3 : IsWeb3 toy
toy-IsWeb3 = record {
  length-to_bytes = length-to_bytes;
  from_bytes-to_bytes = from_bytes-to_bytes;
  to_bytes-default_key = refl;
  equals_iff = equals_iff;
  length-sha256 = λ b. length-le_bytes 32 (hash b);
}
