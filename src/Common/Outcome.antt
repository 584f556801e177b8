-- ===== src/Common/Outcome.antt =====
-- What a JavaScript function returns or throws, as a value.
use Prim.Native.String.{String}
use mathlib.Core.Path.{◌≡◌, refl}
use mathlib.Core.Logic.{◌⊎◌, inl, inr}
use mathlib.Core.Bool.{Bool, true, false}

-- What is thrown. `out_of_range` is Node's ERR_OUT_OF_RANGE for a Buffer access or value.
pub data Error : Type 0 where
  out_of_range : Error
  range_error : String → Error
  thrown : String → Error

pub data Result {ℓ} (T : Type ℓ) : Type ℓ where
  err : (thrown_value : Error) → Result T
  ok : (returned : T) → Result T

infixl 5 ◌>>◌
-- The rest runs only where the first returns.
module _ {ℓ κ} {T : Type ℓ} {S : Type κ} where
  infixl 5 ◌>>=◌
  abbrev pub ◌>>=◌ : Result T → (T → Result S) → Result S
  err thrown_value >>= rest = err thrown_value
  ok returned >>= rest = rest returned

  pub >>=-eq-ok :
      (first : Result T) (rest : T → Result S) {s : S}
      → (first >>= rest) ≡ ok s
      → (t : T) × (first ≡ ok t) × (rest t ≡ ok s)
  >>=-eq-ok (err thrown_value) rest e = cc
  >>=-eq-ok (ok t) rest e = (t, refl, e)

-- `if (!holds) throw error`
abbrev pub guard : (holds : Bool) → Error → Result (Unit {0})
guard false error = err error
guard true error = ok tt

abbrev pub ◌>>◌ {ℓ} : {S : Type ℓ} → Result (Unit {0}) → Result S → Result S
err thrown_value >> rest = err thrown_value
ok returned >> rest = rest

pub Result-cases {ℓ} :
    {T : Type ℓ} (r : Result T)
    → ((error : Error) × (r ≡ err error)) ⊎ ((value : T) × (r ≡ ok value))
Result-cases (err error) = inl (error, refl)
Result-cases (ok value) = inr (value, refl)
