-- ===== src/Prelude/Errors.antt =====
-- What a Python function that may raise returns: its value, or the exception with its message.
use Prim.Native.Nat.{ℕ}
use mathlib.Core.List.{List}
use mathlib.Core.Path.{◌≡◌, refl}
use mathlib.Core.Logic.{◌⊎◌, inl, inr}

-- `other` is an exception of a class that no modelled handler names.
pub data Error : Type 0 where
  value_error key_error index_error other : List ℕ → Error

-- `str(exc)`
abbrev pub message : Error → List ℕ
message (value_error m) = m
message (key_error m) = m
message (other m) = m
message (index_error m) = m

-- A returned value, or a raised exception.
pub data Result {ℓ} (Value : Type ℓ) : Type ℓ where
  err : (raised : Error) → Result Value
  ok : (returned : Value) → Result Value

pub Result-cases {ℓ} :
    {Value : Type ℓ} (r : Result Value) → ((v : Value) × (r ≡ ok v)) ⊎ ((e : Error) × (r ≡ err e))
Result-cases (err e) = inr (e, refl)
Result-cases (ok v) = inl (v, refl)

infixl 5 ◌>>◌ ◌>>=◌
-- A call for its exception only.
abbrev pub ◌>>◌ {κ} : {Next : Type κ} → Result (Unit {0}) → Result Next → Result Next
err e >> rest = err e
ok done >> rest = rest

abbrev pub ◌>>=◌ {κ ℓ} :
    {Next : Type κ} {Value : Type ℓ} → Result Value → (Value → Result Next) → Result Next
err e >>= rest = err e
ok v >>= rest = rest v

pub ok-returned {ℓ} : {Value : Type ℓ} {v w : Value} → ok v ≡ ok w → v ≡ w
ok-returned h = cc
