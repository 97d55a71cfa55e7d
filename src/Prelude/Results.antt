-- ===== src/Prelude/Results.antt =====
-- What a Python function raises, as a value, and the chain of calls that may raise.
use Prim.Native.String.{String}
use mathlib.Core.Path.{◌≡◌, refl}
use native.Mathlib.Omega.{arith}
use mathlib.Core.Logic.{◌⊎◌, inl, inr}
use mathlib.Core.Bool.{Bool, true, false}
use mathlib.Core.Option.{Option, none, some}
use analysis_loop.Prelude.Text.{Message}

pub data Error : Type 0 where
  value_error : Message → Error
  assertion : Error
  key_error : String → Error
  type_error : Error

-- A value, or what was raised in its place.
pub data Result {ℓ} (Value : Type ℓ) : Type ℓ where
  err : Error → Result Value
  ok : Value → Result Value

abbrev pub is_ok {ℓ} : {Value : Type ℓ} → Result Value → Bool
is_ok (err _) = false
is_ok (ok _) = true

-- `if test: raise ValueError(message)`.
abbrev pub raise_if : Bool → Message → Result (Unit {0})
raise_if false m = ok tt
raise_if true m = err (value_error m)

-- `assert test`.
abbrev pub assert : Bool → Result (Unit {0})
assert false = err assertion
assert true = ok tt

-- `assert value is not None`.
abbrev pub require {ℓ} : {Value : Type ℓ} → Option Value → Result Value
require (some v) = ok v
require none = err assertion

-- The rest of a body runs only when the call before it has returned.
infixl 5 ◌>>=◌
abbrev pub ◌>>=◌ {ℓ κ} : {V : Type ℓ} {W : Type κ} → Result V → (V → Result W) → Result W
err raised >>= rest = err raised
ok v >>= rest = rest v

-- The same for a call without a value.
infixl 5 ◌>>◌
abbrev pub ◌>>◌ {ℓ} : {W : Type ℓ} → Result (Unit {0}) → Result W → Result W
call >> rest = call >>= λ _. rest

pub ok_inj {ℓ} : {V : Type ℓ} (v w : V) → ok v ≡ ok w → v ≡ w
ok_inj v w h = ground arith

-- A chain that returns has returned at each of its calls.
pub bind_ok {ℓ κ} :
    {V : Type ℓ} {W : Type κ} (r : Result V) (f : V → Result W) (w : W)
    → (r >>= f) ≡ ok w
    → (v : V) × (r ≡ ok v) × (f v ≡ ok w)
bind_ok (ok v) f w h = (v, refl, h)
bind_ok (err e) f w h = absurd (ground arith)

pub raise_ok {ℓ} :
    {W : Type ℓ} (b : Bool) (m : Message) (r : Result W) (w : W)
    → (raise_if b m >> r) ≡ ok w
    → (b ≡ false) × (r ≡ ok w)
raise_ok false m r w h = (refl, h)
raise_ok true m r w h = absurd (ground arith)

pub Result-cases {ℓ} :
    {V : Type ℓ} (r : Result V) → ((v : V) × (r ≡ ok v)) ⊎ ((e : Error) × (r ≡ err e))
Result-cases (ok v) = inl (v, refl)
Result-cases (err e) = inr (e, refl)
