-- ===== src/Prelude/Errors.antt =====
-- Python's exceptions as values. `http` is fastapi's HTTPException with its status code, its
-- detail and the seconds of its Retry-After header.
use Prim.Native.Nat.{ℕ}
use Prim.Native.String.{String}
use mathlib.Core.Path.{◌≡◌, refl, ap}
use mathlib.Core.Bool.{Bool, true, false}
use mathlib.Core.Logic.{◌⊎◌, inl, inr}
use mathlib.Core.Option.{Option, none}

pub data Error : Type 0 where
  http : ℕ → String → Option ℕ → Error
  runtime_error : String → Error
  value_error : String → Error
  zero_division : Error

abbrev pub http_error : ℕ → String → Error
http_error code detail = http code detail none

-- What a call ends with: the exception it raised or the value it returned.
pub data Result {ℓ} (V : Type ℓ) : Type ℓ where
  err : Error → Result V
  ok : V → Result V

module _ {ℓ κ} {V : Type ℓ} {W : Type κ} where
  infixl 5 ◌>>=◌
  abbrev pub ◌>>=◌ : Result V → (V → Result W) → Result W
  err raised >>= next = err raised
  ok value >>= next = next value

  -- Code that went through: what its first call returned, and that the rest went through.
  pub >>=-eq-ok :
      (first : Result V) (next : V → Result W) {last : W}
      → (first >>= next) ≡ ok last
      → (value : V) × (first ≡ ok value) × (next value ≡ ok last)
  >>=-eq-ok (err raised) next went = cc
  >>=-eq-ok (ok value) next went = (value, refl, went)

module _ {ℓ} {W : Type ℓ} where
  infixl 5 ◌>>◌
  abbrev pub ◌>>◌ : Result (Unit {0}) → Result W → Result W
  ◌>>◌ check rest = check >>= (λ done. rest)

-- if test: raise error
abbrev pub reject_if : Bool → Error → Result (Unit {0})
reject_if true e = err e
reject_if false e = ok tt

-- A check that was passed, and what follows it.
pub passed {ℓ} :
    {B : Type ℓ} (test : Bool) (e : Error) (k : Result B) {b : B}
    → (reject_if test e >> k) ≡ ok b
    → (test ≡ false) × (k ≡ ok b)
passed false e k h = (refl, h)
passed true e k h = cc

pub Result-cases {ℓ} :
    {B : Type ℓ} (r : Result B) → ((e : Error) × (r ≡ err e)) ⊎ ((b : B) × (r ≡ ok b))
Result-cases (err e) = inl (e, refl)
Result-cases (ok b) = inr (b, refl)

pub ok_inj {ℓ} : {B : Type ℓ} {a b : B} → ok a ≡ ok b → a ≡ b
ok_inj {a} h = ap (λ r. elim r [ err e ↦ a | ok v ↦ v ]) h
