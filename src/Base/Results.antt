-- ===== src/Base/Results.antt =====
-- Results of Go functions that return a value and an error.
use mathlib.Core.Path.{◌≡◌, refl}
use mathlib.Core.Bool.{Bool, true, false}
use mathlib.Core.Logic.{◌⊎◌, inl, inr}

pub data Result {ℓ κ} (Fault : Type ℓ) (Value : Type κ) : Type (ℓ ⊔ κ) where
  err : Fault → Result Fault Value
  ok : Value → Result Fault Value

-- A result is one or the other, with the equation that says which.
pub Result-cases {ℓ κ} :
    {Fault : Type ℓ} {Value : Type κ} (r : Result Fault Value)
    → ((v : Value) × (r ≡ ok v)) ⊎ ((e : Fault) × (r ≡ err e))
Result-cases (err e) = inr (e, refl)
Result-cases (ok v) = inl (v, refl)

-- `if err != nil { return err }` between a call and what follows it.
infixl 5 ◌>>=◌
abbrev pub ◌>>=◌ {ℓ κ η} :
    {Fault : Type ℓ} {Value : Type κ} {Next : Type η}
    → Result Fault Value
    → (Value → Result Fault Next)
    → Result Fault Next
err fault >>= next = err fault
ok value >>= next = next value

-- Both parts of a chain that succeeds have succeeded.
pub >>=-eq-ok {ℓ κ η} :
    {Fault : Type ℓ} {Value : Type κ} {Next : Type η} (first : Result Fault Value)
    (next : Value → Result Fault Next) {b : Next}
    → (first >>= next) ≡ ok b
    → (v : Value) × (first ≡ ok v) × (next v ≡ ok b)
>>=-eq-ok (err e) next h = cc
>>=-eq-ok (ok v) next h = (v, refl, h)

-- A test that returns the error where it is false.
abbrev pub guard {ℓ} : {Fault : Type ℓ} → Bool → Fault → Result Fault (Unit {0})
guard passes fault = elim passes [ true ↦ ok tt | false ↦ err fault ]

infixl 5 ◌>>◌
abbrev pub ◌>>◌ {ℓ κ} :
    {Fault : Type ℓ} {Next : Type κ}
    → Result Fault (Unit {0})
    → Result Fault Next
    → Result Fault Next
first >> next = first >>= λ _. next
