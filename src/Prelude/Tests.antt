-- ===== src/Prelude/Tests.antt =====
-- Boolean tests on the native numbers, on options and on integers, and the conditional.
use Prim.Native.Nat.{ℕ, ◌-◌, compare, Ordering}
use Prim.Native.String.{String}
use mathlib.Core.Path.{◌≡◌, refl}
use mathlib.Core.Logic.{◌↔◌, ◌⊎◌, inl, inr}
use mathlib.Core.Bool.{Bool, true, false}
use mathlib.Core.Option.{Option, none, some}
use native.Mathlib.Omega.{arith}
use text.Mathlib.Text.{◌==◌}
use text.Mathlib.TextEquality.{eq_iff}

abbrev pub ltb : ℕ → ℕ → Bool
ltb a b = elim (compare a b) [ Ordering.lt ↦ true | _ ↦ false ]

abbrev pub leb : ℕ → ℕ → Bool
leb a b = elim (compare a b) [ Ordering.gt ↦ false | _ ↦ true ]

abbrev pub eqb : ℕ → ℕ → Bool
eqb a b = elim (compare a b) [ Ordering.eq ↦ true | _ ↦ false ]

infix 1 if◌then◌else◌
abbrev pub if◌then◌else◌ {ℓ} : {A : Type ℓ} → Bool → A → A → A
if true then x else y = x
if false then x else y = y

-- What holds on both branches, each with its test, holds of the conditional.
pub if_elim {ℓ κ} :
    {A : Type ℓ} (P : A → Type κ) (b : Bool) (x y : A)
    → (b ≡ true → P x)
    → (b ≡ false → P y)
    → P (if b then x else y)
if_elim P true x y f g = f refl
if_elim P false x y f g = g refl

pub Bool-cases : (b : Bool) → (b ≡ true) ⊎ (b ≡ false)
Bool-cases true = inl refl
Bool-cases false = inr refl

pub bool_eq : (a b : Bool) → (a ≡ true → b ≡ true) → (b ≡ true → a ≡ true) → a ≡ b
bool_eq a b f g = ground arith

pub Option-cases {ℓ} : {A : Type ℓ} (o : Option A) → (o ≡ none) ⊎ ((a : A) × (o ≡ some a))
Option-cases none = inl refl
Option-cases (some a) = inr (a, refl)

abbrev pub is_some {ℓ} : {A : Type ℓ} → Option A → Bool
is_some none = false
is_some (some _) = true

-- `==` on `str | None`.
abbrev pub opt_eq : Option String → Option String → Bool
opt_eq none none = true
opt_eq (some a) (some b) = a == b
opt_eq _ _ = false

pub opt_eq_iff : (a b : Option String) → (opt_eq a b ≡ true) ↔ (a ≡ b)
opt_eq_iff none none = ground arith
opt_eq_iff none (some b) = ground arith
opt_eq_iff (some a) none = ground arith
opt_eq_iff (some a) (some b) = ground (arith, eq_iff a b)

-- The truth of `str | None`: `None` and the empty text count as false.
abbrev pub truthy : Option String → Bool
truthy none = false
truthy (some s) = elim (s == "") [ true ↦ false | false ↦ true ]

-- Integers: `negsuc n` is -(n + 1).
pub data ℤ : Type 0 where
  pos : ℕ → ℤ
  negsuc : ℕ → ℤ

-- a - b, as an integer.
abbrev pub sub_ℕ : ℕ → ℕ → ℤ
sub_ℕ a b = if leb b a then pos (a - b) else negsuc (b - a - 1)

abbrev pub leb_ℤ : ℤ → ℤ → Bool
leb_ℤ (pos a) (pos b) = leb a b
leb_ℤ (pos _) (negsuc _) = false
leb_ℤ (negsuc _) (pos _) = true
leb_ℤ (negsuc a) (negsuc b) = leb b a

abbrev pub ltb_ℤ : ℤ → ℤ → Bool
ltb_ℤ (pos a) (pos b) = ltb a b
ltb_ℤ (pos _) (negsuc _) = false
ltb_ℤ (negsuc _) (pos _) = true
ltb_ℤ (negsuc a) (negsuc b) = ltb b a

-- `max(0, z)`.
abbrev pub clip : ℤ → ℕ
clip (pos n) = n
clip (negsuc _) = 0
