-- ===== src/Base/Result.antt =====
-- Python's exceptions: a fallible function returns a `Result`; a method that changes the state
-- `S` and may raise is an action `Exec S A`, where what was written before a raise stays written.
use Prim.Native.String.{String}
use mathlib.Core.Path.{◌≡◌, refl}
use mathlib.Core.Logic.{◌⊎◌, inl, inr}
use mathlib.Core.Bool.{Bool, true, false}

-- The exceptions of the program. Each carries its text, which `str(exc)` returns; the text of
-- `integrity_error`, raised by the database, is reduced to the name of the violated constraint.
pub data Exception : Type 0 where
  value_error : String → Exception
  key_error : String → Exception
  integrity_error : String → Exception
  api_error : String → Exception

abbrev pub str : Exception → String
str (value_error text) = text
str (key_error text) = text
str (integrity_error text) = text
str (api_error text) = text

pub data Result {ℓ} (A : Type ℓ) : Type ℓ where
  ok : A → Result A
  raise : Exception → Result A

infixl 5 ◌>>=◌ ◌>>◌
-- The next step of a block, which runs where the step before has returned.
abbrev pub ◌>>=◌ {κ ℓ} :
    {B : Type ℓ} {A : Type κ} (step : Result A) (next : (value : A) → Result B) → Result B
ok value >>= next = next value
raise exc >>= next = raise exc

abbrev pub ◌>>◌ {ℓ} : {B : Type ℓ} (step : Result (Unit {0})) (later : Result B) → Result B
step >> later = step >>= (λ done. later)

-- `if test: raise exc`
abbrev pub raise_if : Bool → Exception → Result (Unit {0})
raise_if true exc = raise exc
raise_if false exc = ok tt

-- A result is an exception or a value.
pub Result-cases {ℓ} :
    {A : Type ℓ} (result : Result A)
    → ((exc : Exception) × (result ≡ raise exc)) ⊎ ((value : A) × (result ≡ ok value))
Result-cases (raise exc) = inl (exc, refl)
Result-cases (ok value) = inr (value, refl)

-- A block that returned has returned from its first step.
pub >>=-eq-ok {κ ℓ} :
    {B : Type ℓ} {A : Type κ} (step : Result A) (next : A → Result B) {result : B}
    → step >>= next ≡ ok result
    → (value : A) × (step ≡ ok value) × (next value ≡ ok result)
>>=-eq-ok (raise exc) next returned = cc
>>=-eq-ok (ok value) next returned = (value, refl, returned)

abbrev pub is_ok {ℓ} : {A : Type ℓ} → Result A → Bool
is_ok (ok a) = true
is_ok (raise e) = false

abbrev pub Exec {ℓ κ} : Type ℓ → Type κ → Type (ℓ ⊔ κ)
Exec S A = S → Result A × S
