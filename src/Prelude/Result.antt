-- ===== src/Prelude/Result.antt =====
-- What a Go call comes to: a value with a nil error, an error, or a panic.
use Prim.Native.String.{String}
use mathlib.Core.Path.{◌≡◌, refl}
use mathlib.Core.Bool.{Bool, true, false}

pub data Result {ℓ} (A : Type ℓ) : Type ℓ where
  ok : A → Result A
  err : String → Result A
  panic : Result A

-- `if test { return errors.New(message) }`
abbrev pub fail_if : Bool → String → Result (Unit {0})
fail_if true e = err e
fail_if false e = ok tt

-- `if err != nil { return errors.New(message) }`: the error is replaced
abbrev pub with_message {ℓ} : {A : Type ℓ} → String → Result A → Result A
with_message m (ok a) = ok a
with_message m (err e) = err m
with_message m panic = panic

module _ {ℓ κ} {A : Type ℓ} {B : Type κ} where
  infixl 5 ◌>>=◌
  -- The rest runs on a value; an error or a panic ends it.
  abbrev pub ◌>>=◌ : Result A → (A → Result B) → Result B
  panic >>= rest = panic
  err message >>= rest = err message
  ok value >>= rest = rest value

  pub >>=-eq-ok :
      (m : Result A) (rest : A → Result B) {result : B}
      → (m >>= rest) ≡ ok result
      → (value : A) × (m ≡ ok value) × (rest value ≡ ok result)
  >>=-eq-ok panic rest h = cc
  >>=-eq-ok (err message) rest h = cc
  >>=-eq-ok (ok value) rest h = (value, refl, h)

infixl 5 ◌>>◌
abbrev pub ◌>>◌ {κ} : {B : Type κ} → Result (Unit {0}) → Result B → Result B
check >> rest = check >>= (λ passed. rest)
