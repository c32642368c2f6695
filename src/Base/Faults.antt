-- ===== src/Base/Faults.antt =====
-- Fallible code: `assert`, the exceptions that the program throws, and the chain of such calls.
use mathlib.Core.Path.{◌≡◌, refl}
use mathlib.Core.Bool.{Bool, true, false}

-- `assertion` is a failed `assert`; `memory` an access outside a buffer; `division` one by zero.
pub data Fault : Type 0 where
  assertion invalid_argument runtime_error memory division : Fault

pub data Result {ℓ} (Value : Type ℓ) : Type ℓ where
  err : Fault → Result Value
  ok : Value → Result Value

-- What follows a `throw` is not run.
infixl 5 ◌>>=◌ ◌>>◌
abbrev pub ◌>>=◌ {ℓ κ} :
    {Value : Type ℓ} {Next : Type κ} → Result Value → (Value → Result Next) → Result Next
err fault >>= next = err fault
ok value >>= next = next value

abbrev pub ◌>>◌ {ℓ} : {Next : Type ℓ} → Result (Unit {0}) → Result Next → Result Next
run >> rest = run >>= λ done. rest

-- `assert`, or a test whose failure is thrown.
abbrev pub guard : Bool → Fault → Result (Unit {0})
guard false fault = err fault
guard true fault = ok tt

-- A chain that ended well has gone through its first call.
pub >>=-eq-ok {ℓ κ} :
    {Value : Type ℓ} {Next : Type κ} (run : Result Value) (next : Value → Result Next)
    {result : Next}
    → (run >>= next) ≡ ok result
    → (value : Value) × (run ≡ ok value) × (next value ≡ ok result)
>>=-eq-ok (err fault) next h = cc
>>=-eq-ok (ok value) next h = (value, refl, h)

pub ok_injective {ℓ} : {A : Type ℓ} {a b : A} → ok a ≡ ok b → a ≡ b
ok_injective e = cc
