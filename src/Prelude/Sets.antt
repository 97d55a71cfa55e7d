-- ===== src/Prelude/Sets.antt =====
-- Python's sets of texts as lists, read only by membership, and `sorted(set(xs))`.
use Prim.Native.String.{String}
use mathlib.Core.Path.{◌≡◌, refl, ap, subst}
use mathlib.Core.Logic.{inl, inr}
use mathlib.Core.Bool.{Bool, true, false, not, ◌||◌, ◌&&◌}
use mathlib.Core.List.{List, [], ◌∷◌, ◌++◌}
use native.Mathlib.Omega.{arith}
use text.Mathlib.Text.{◌==◌}
use text.Mathlib.TextEquality.{eq_iff}
use analysis_loop.Prelude.Tests.{if◌then◌else◌, Bool-cases}
use analysis_loop.Prelude.Lists.{filter, all, any, All}
use analysis_loop.Prelude.Text.{codes, codes_leb}

-- `a in xs`.
abbrev pub contains : List String → String → Bool
contains [] a = false
contains (x ∷ xs) a = x == a || contains xs a

-- `xs - ys`.
abbrev pub minus : List String → List String → List String
minus xs ys = filter (λ x. not (contains ys x)) xs

-- `xs <= ys`.
abbrev pub subset : List String → List String → Bool
subset xs ys = all (contains ys) xs

-- `bool(xs & ys)`.
abbrev pub meets : List String → List String → Bool
meets xs ys = any (contains ys) xs

-- `xs == ys`, as sets.
abbrev pub same_set : List String → List String → Bool
same_set xs ys = subset xs ys && subset ys xs

abbrev pub leb_str : String → String → Bool
leb_str a b = codes_leb (codes a) (codes b)

-- A new element goes to its place, one that is there already is dropped.
unfoldable pub insert : String → List String → List String
insert a [] = a ∷ []
insert a (x ∷ xs) = if a == x then x ∷ xs else if leb_str a x then a ∷ x ∷ xs else x ∷ insert a xs

-- `sorted(set(xs))`.
unfoldable pub sorted_set : List String → List String
unfolding insert
sorted_set [] = []
sorted_set (x ∷ xs) = insert x (sorted_set xs)

-- `list(dict.fromkeys(xs))`: the first of each, in order.
pub first_of_each : List String → List String → List String
first_of_each seen [] = []
first_of_each seen (x ∷ xs) =
    let rest = first_of_each (x ∷ seen) xs in
    let skip = first_of_each seen xs in if contains seen x then skip else x ∷ rest

unfoldable pub unique : List String → List String
unfolding first_of_each
unique xs = first_of_each [] xs

-- A set holds at most one element.
pub contains-append :
    (xs ys : List String) (a : String) → contains (xs ++ ys) a ≡ (contains xs a || contains ys a)
contains-append [] ys a = refl
contains-append (x ∷ xs) ys a = ground (arith, contains-append xs ys a)

-- A sorted set has the elements of its list.
pub contains-insert :
    (a b : String) (xs : List String) → contains (insert a xs) b ≡ (a == b || contains xs b)
unfolding insert
contains-insert a b [] = ground arith
contains-insert a b (x ∷ xs) =
    ground (arith, contains-insert a b xs, eq_iff a x, eq_iff a b, eq_iff x b)

pub contains-sorted_set :
    (xs : List String) (b : String) → contains (sorted_set xs) b ≡ contains xs b
unfolding sorted_set
contains-sorted_set [] b = refl
contains-sorted_set (x ∷ xs) b =
    ground (arith, contains-insert x b (sorted_set xs), contains-sorted_set xs b)

-- What is left of a set without another.
pub contains-minus :
    (xs ys : List String) (c : String)
    → contains (minus xs ys) c ≡ (contains xs c && not (contains ys c))
contains-minus [] ys c = refl
contains-minus (x ∷ xs) ys c = elim (Bool-cases (x == c)) [
  | inl e ↦ ground (arith, contains-minus xs ys c, e, ap (contains ys) ((eq_iff x c).0 e))
  | inr e ↦ ground (arith, contains-minus xs ys c, e)
]

contains-first_of_each :
    (seen xs : List String) (c : String)
    → contains (first_of_each seen xs) c ≡ (contains xs c && not (contains seen c))
unfolding first_of_each
contains-first_of_each seen [] c = refl
contains-first_of_each seen (x ∷ xs) c = elim (Bool-cases (x == c)) [
  | inl e ↦ ground (
    arith,
    contains-first_of_each seen xs c,
    contains-first_of_each (x ∷ seen) xs c,
    e,
    ap (contains seen) ((eq_iff x c).0 e),
  )
  | inr e ↦
      ground (arith, contains-first_of_each seen xs c, contains-first_of_each (x ∷ seen) xs c, e)
]

pub contains-unique : (xs : List String) (c : String) → contains (unique xs) c ≡ contains xs c
unfolding unique
contains-unique xs c = ground (arith, contains-first_of_each [] xs c)

-- What holds of every element of a list holds of what it contains, and the other way round.
pub All_at :
    (P : String → Type 0) (xs : List String) → All P xs → (c : String) → contains xs c ≡ true → P c
All_at P [] h c m = absurd (ground arith)
All_at P (x ∷ xs) h c m = elim (Bool-cases (x == c)) [
  | inl e ↦ subst P ((eq_iff x c).0 e) h.0
  | inr e ↦ All_at P xs h.1 c (ground arith)
]

pub All-elements :
    (P : String → Type 0) (xs : List String)
    → ((c : String) → contains xs c ≡ true → P c)
    → All P xs
All-elements P [] f = tt
All-elements P (x ∷ xs) f =
    (f x (ground (arith, (eq_iff x x).1 refl)), All-elements P xs (λ c m. f c (ground arith)))
