-- ===== src/Base/Result.antt =====
-- Python exceptions as values: the classes that the modelled code raises or catches.
use mathlib.Core.Bool.{Bool, true, false}
use mathlib.Core.Path.{◌≡◌, refl}
use mathlib.Core.Logic.{◌⊎◌, inl, inr}

pub data Exception : Type 0 where
  value_error eof_error struct_error os_error key_error : Exception
  type_error null_error index_error overflow_error assertion_error system_error attribute_error
        runtime_error :
      Exception

pub data Result {ℓ} (A : Type ℓ) : Type ℓ where
  ok : A → Result A
  err : Exception → Result A

-- `if not b: raise e`
abbrev pub guard : Bool → Exception → Result (Unit {0})
guard false e = err e
guard true e = ok tt

-- The rest of a call runs unless its first part raised.
module _ {ℓ κ} {A : Type ℓ} {B : Type κ} where
  infixl 5 ◌>>=◌
  abbrev pub ◌>>=◌ : Result A → (A → Result B) → Result B
  err raised >>= rest = err raised
  ok value >>= rest = rest value

module _ {ℓ} {B : Type ℓ} where
  infixl 5 ◌>>◌
  abbrev pub ◌>>◌ : Result (Unit {0}) → Result B → Result B
  first >> rest = first >>= λ _. rest

pub answered : (r : Result (Unit {0})) → (r ≡ ok tt) ⊎ ((e : Exception) × (r ≡ err e))
answered (ok tt) = inl refl
answered (err e) = inr (e, refl)
