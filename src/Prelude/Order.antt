-- ===== src/Prelude/Order.antt =====
-- `sorted(set(xs))` is a canonical form: it depends on the elements of `xs` alone.
use Prim.Native.String.{String}
use mathlib.Core.Path.{◌≡◌, refl, ap₂, sym, ◌∙◌, subst}
use mathlib.Core.Bool.{true, false}
use mathlib.Core.List.{List, [], ◌∷◌}
use mathlib.Core.Logic.{inl, inr}
use Prim.Native.Nat.{ℕ}
use native.Mathlib.Omega.{arith}
use text.Mathlib.Text.{◌==◌}
use text.Mathlib.TextEquality.{eq_iff, Char-path}
use analysis_loop.Prelude.Tests.{Bool-cases}
use analysis_loop.Prelude.Lists.{All, All-map}
use analysis_loop.Prelude.Text.{codes, codes_leb, ◌<>◌}
use text.Mathlib.TextLemmas.{append-eq-nil_iff}
use analysis_loop.Prelude.Sets.{contains, leb_str, insert, sorted_set, contains-sorted_set}

codes_leb_total : (xs ys : List ℕ) → codes_leb xs ys ≡ false → codes_leb ys xs ≡ true
codes_leb_total [] ys h = cc
codes_leb_total (x ∷ xs) [] h = refl
codes_leb_total (x ∷ xs) (y ∷ ys) h = ground (arith, codes_leb_total xs ys)

codes_leb_antisym : (xs ys : List ℕ) → codes_leb xs ys ≡ true → codes_leb ys xs ≡ true → xs ≡ ys
codes_leb_antisym [] [] h k = refl
codes_leb_antisym [] (y ∷ ys) h k = cc
codes_leb_antisym (x ∷ xs) [] h k = cc
codes_leb_antisym (x ∷ xs) (y ∷ ys) h k = ground (arith, codes_leb_antisym xs ys)

codes_leb_trans :
    (xs ys zs : List ℕ) → codes_leb xs ys ≡ true → codes_leb ys zs ≡ true → codes_leb xs zs ≡ true
codes_leb_trans [] ys zs h k = refl
codes_leb_trans (x ∷ xs) [] zs h k = cc
codes_leb_trans (x ∷ xs) (y ∷ ys) [] h k = cc
codes_leb_trans (x ∷ xs) (y ∷ ys) (z ∷ zs) h k = ground (arith, codes_leb_trans xs ys zs)

codes_injective : (s t : String) → codes s ≡ codes t → s ≡ t
codes_injective String.[] String.[] h = refl
codes_injective String.[] (String.◌∷◌ d t) h = cc
codes_injective (String.◌∷◌ c s) String.[] h = cc
codes_injective (String.◌∷◌ c s) (String.◌∷◌ d t) h =
    ap₂ String.◌∷◌ (Char-path c d (cc)) (codes_injective s t (cc))

pub leb_str_total : (a b : String) → leb_str a b ≡ false → leb_str b a ≡ true
leb_str_total a b h = codes_leb_total (codes a) (codes b) h

pub leb_str_antisym : (a b : String) → leb_str a b ≡ true → leb_str b a ≡ true → a ≡ b
leb_str_antisym a b h k = codes_injective a b (codes_leb_antisym (codes a) (codes b) h k)

leb_str_trans : (a b c : String) → leb_str a b ≡ true → leb_str b c ≡ true → leb_str a c ≡ true
leb_str_trans a b c h k = codes_leb_trans (codes a) (codes b) (codes c) h k

abbrev Below : String → String → Type 0
Below a b = (leb_str a b ≡ true) × ((a == b) ≡ false)

abbrev IsSorted : List String → Type 0
IsSorted [] = Unit {0}
IsSorted (x ∷ xs) = All (Below x) xs × IsSorted xs

Below-trans : (a b c : String) → Below a b → Below b c → Below a c
Below-trans a b c h k =
    (leb_str_trans a b c h.0 k.0, ground (arith, eq_iff a c, eq_iff a b, leb_str_antisym a b))

Below-insert :
    (a b : String) (xs : List String) → Below a b → All (Below a) xs → All (Below a) (insert b xs)
unfolding insert
Below-insert a b [] h hs = (h, tt)
Below-insert a b (x ∷ xs) h hs = ground (arith, Below-insert a b xs)

insert-IsSorted : (a : String) (xs : List String) → IsSorted xs → IsSorted (insert a xs)
unfolding insert
insert-IsSorted a [] h = (tt, tt)
insert-IsSorted a (x ∷ xs) h = elim (Bool-cases (a == x)) [
  | inl same ↦ rw same h
  | inr differ ↦ elim (Bool-cases (leb_str a x)) [
    | inl le ↦
        rw (differ, le)
          (
            (
              (le, differ),
              All-map (Below x) (Below a) (λ c k. Below-trans a x c (le, differ) k) xs h.0,
            ),
            h,
          )
    | inr gt ↦
        rw (differ, gt)
          (
            Below-insert x a xs (leb_str_total a x gt, ground (arith, eq_iff a x, eq_iff x a)) h.0,
            insert-IsSorted a xs h.1,
          )
  ]
]

sorted_set-IsSorted : (xs : List String) → IsSorted (sorted_set xs)
unfolding sorted_set
sorted_set-IsSorted [] = tt
sorted_set-IsSorted (x ∷ xs) = insert-IsSorted x (sorted_set xs) (sorted_set-IsSorted xs)

Below-contains :
    (a b : String) (xs : List String) → All (Below a) xs → contains xs b ≡ true → Below a b
Below-contains a b [] h k = cc
Below-contains a b (x ∷ xs) h k = ground (arith, eq_iff x b, Below-contains a b xs h.1)

not_contains : (a : String) (xs : List String) → All (Below a) xs → contains xs a ≡ false
not_contains a xs h = elim (Bool-cases (contains xs a)) [
  | inl yes_ ↦ ground (arith, Below-contains a a xs h yes_, eq_iff a a)
  | inr no_ ↦ no_
]

-- Two sets with the same elements.
abbrev pub SameElements : List String → List String → Type 0
SameElements xs ys = (a : String) → contains xs a ≡ contains ys a

-- The first elements agree: otherwise each would lie below the other.
heads_agree :
    (x y : String) (xs ys : List String)
    → All (Below x) xs
    → All (Below y) ys
    → SameElements (x ∷ xs) (y ∷ ys)
    → x ≡ y
heads_agree x y xs ys hx hy h = elim (Bool-cases (x == y)) [
  | inl same ↦ (eq_iff x y).0 same
  | inr differ ↦ ground (
    arith,
    h x,
    h y,
    eq_iff x x,
    eq_iff y y,
    eq_iff x y,
    eq_iff y x,
    Below-contains y x ys hy,
    Below-contains x y xs hx,
    leb_str_antisym x y,
  )
]

tails_agree :
    (x : String) (xs ys : List String)
    → All (Below x) xs
    → All (Below x) ys
    → SameElements (x ∷ xs) (x ∷ ys)
    → SameElements xs ys
tails_agree x xs ys hx hy h a =
    ground (arith, h a, eq_iff x a, not_contains x xs hx, not_contains x ys hy)

sorted_unique : (xs ys : List String) → IsSorted xs → IsSorted ys → SameElements xs ys → xs ≡ ys
sorted_unique [] [] hx hy h = refl
sorted_unique [] (y ∷ ys) hx hy h = ground (arith, h y, eq_iff y y)
sorted_unique (x ∷ xs) [] hx hy h = ground (arith, h x, eq_iff x x)
sorted_unique (x ∷ xs) (y ∷ ys) hx hy h =
    let e : x ≡ y = heads_agree x y xs ys hx.0 hy.0 h in
    let h' : SameElements (x ∷ xs) (x ∷ ys) =
      subst (λ z. SameElements (x ∷ xs) (z ∷ ys)) (sym e) h in
    let hy' : All (Below x) ys = subst (λ z. All (Below z) ys) (sym e) hy.0 in
    ap₂ ◌∷◌ e (sorted_unique xs ys hx.1 hy.1 (tails_agree x xs ys hx.0 hy' h'))

-- `sorted(set(xs))` depends only on which texts occur in `xs`.
pub sorted_set_canonical :
    (xs ys : List String) → SameElements xs ys → sorted_set xs ≡ sorted_set ys
sorted_set_canonical xs ys h =
    sorted_unique (sorted_set xs) (sorted_set ys) (sorted_set-IsSorted xs) (sorted_set-IsSorted ys)
      (λ a. contains-sorted_set xs a ∙ h a ∙ sym (contains-sorted_set ys a))

-- A text that begins with a character is not empty.
pub append-ne-empty : (s t : String) → (s == "") ≡ false → ((s <> t) == "") ≡ false
append-ne-empty s t h = elim (Bool-cases ((s <> t) == "")) [
  | inl e ↦
      ground (arith, (append-eq-nil_iff {p = s} {q = t}).0 ((eq_iff (s <> t) "").0 e), eq_iff s "")
  | inr n ↦ n
]
