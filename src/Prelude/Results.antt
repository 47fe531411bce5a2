-- ===== src/Prelude/Results.antt =====
-- What a call that may raise comes back with.
use mathlib.Core.Path.{◌≡◌, refl}
use mathlib.Core.Logic.{◌⊎◌, inl, inr}

-- An exception, or the value that was returned.
pub data Result {ℓ} (Raised Value : Type ℓ) : Type ℓ where
  err : Raised → Result Raised Value
  ok : Value → Result Raised Value

module _ {ℓ} {Raised : Type ℓ} where
  -- To split on a call and keep the equation.
  pub Result-cases :
      {Value : Type ℓ} (call : Result Raised Value)
      → ((v : Value) × (call ≡ ok v)) ⊎ ((x : Raised) × (call ≡ err x))
  Result-cases (err x) = inr (x, refl)
  Result-cases (ok v) = inl (v, refl)

  infixl 5 ◌>>=◌
  abbrev pub ◌>>=◌ :
      {Value Next : Type ℓ}
      → Result Raised Value
      → (Value → Result Raised Next)
      → Result Raised Next
  ◌>>=◌ (err x) next = err x
  ◌>>=◌ (ok v) next = next v

  -- A sequence that returned: its first call did, and so did the rest.
  pub >>=-eq-ok :
      {Value Next : Type ℓ} (call : Result Raised Value) (next : Value → Result Raised Next)
      {n : Next}
      → (call >>= next) ≡ ok n
      → (v : Value) × (call ≡ ok v) × (next v ≡ ok n)
  >>=-eq-ok (err x) next returned = cc
  >>=-eq-ok (ok v) next returned = (v, refl, returned)
