-- ===== src/Json.antt =====
-- JSON values as Python holds them, and `==` between two of them: `True == 1 == 1.0`, and the order
-- of a dict's keys does not count. A finite float is the dyadic fraction m / 2 ^ k that it stands for.
use Prim.Native.Nat.{◌^◌}
use analysis_loop.Prelude.{
  ℕ, suc, ◌+◌, ◌-◌, ◌*◌, ℤ, pos, negsuc, String, Bool, true, false, ◌&&◌, Option, none, some, eqb,
  ◌==◌, if◌then◌else◌,
}

pub data Float : Type 0 where
  finite : ℤ → ℕ → Float
  infinite : Bool → Float
  nan : Float

mutual
  pub data Json : Type 0 where
    null : Json
    bool : Bool → Json
    int : ℤ → Json
    float : Float → Json
    str : String → Json
    arr : Items → Json
    obj : Fields → Json

  pub data Items : Type 0 where
    nil : Items
    cons : Json → Items → Items

  pub data Fields : Type 0 where
    end : Fields
    field : String → Json → Fields → Fields

-- z * n.
scale : ℤ → ℕ → ℤ
scale (pos a) n = pos (a * n)
scale (negsuc a) n = if eqb n 0 then pos 0 else negsuc ((a + 1) * n - 1)

eq_ℤ : ℤ → ℤ → Bool
eq_ℤ (pos a) (pos b) = eqb a b
eq_ℤ (negsuc a) (negsuc b) = eqb a b
eq_ℤ _ _ = false

-- a / 2 ^ k == b / 2 ^ l.
eq_dyadic : ℤ → ℕ → ℤ → ℕ → Bool
unfolding scale eq_ℤ
eq_dyadic a k b l = eq_ℤ (scale a (2 ^ l)) (scale b (2 ^ k))

-- `==` on floats: NaN differs from itself.
unfoldable pub eq_float : Float → Float → Bool
unfolding eq_dyadic
eq_float (finite a k) (finite b l) = eq_dyadic a k b l
eq_float (infinite true) (infinite true) = true
eq_float (infinite false) (infinite false) = true
eq_float _ _ = false

-- `math.isfinite`.
abbrev pub is_finite : Float → Bool
is_finite (finite _ _) = true
is_finite _ = false

abbrev pub as_float : ℤ → Float
as_float z = finite z 0

abbrev pub of_bool : Bool → ℤ
of_bool true = pos 1
of_bool false = pos 0

-- The number that a value counts as under `==`.
abbrev pub number_of : Json → Option Float
number_of (bool b) = some (as_float (of_bool b))
number_of (int z) = some (as_float z)
number_of (float f) = some f
number_of _ = none

unfoldable pub find_field : String → Fields → Option Json
find_field k end = none
find_field k (field j v fs) = if j == k then some v else find_field k fs

-- `not d`, of a dict.
abbrev pub is_end : Fields → Bool
is_end end = true
is_end _ = false

unfoldable pub size_fields : Fields → ℕ
size_fields end = 0
size_fields (field _ _ fs) = suc (size_fields fs)

eq_number : Float → Option Float → Bool
unfolding eq_float
eq_number a none = false
eq_number a (some b) = eq_float a b

unfoldable mutual
  unfolding eq_number find_field size_fields

  pub eq_json : Json → Json → Bool
  eq_json null null = true
  eq_json (bool b) w = eq_number (as_float (of_bool b)) (number_of w)
  eq_json (int z) w = eq_number (as_float z) (number_of w)
  eq_json (float f) w = eq_number f (number_of w)
  eq_json (str s) (str t) = s == t
  eq_json (arr xs) (arr ys) = eq_items xs ys
  eq_json (obj fs) (obj gs) = eqb (size_fields fs) (size_fields gs) && within fs gs
  eq_json _ _ = false

  pub eq_items : Items → Items → Bool
  eq_items nil nil = true
  eq_items (cons x xs) (cons y ys) = eq_json x y && eq_items xs ys
  eq_items _ _ = false

  -- each key has an equal value on the other side
  pub within : Fields → Fields → Bool
  within end gs = true
  within (field k v fs) gs =
      elim (find_field k gs) [ none ↦ false | some w ↦ eq_json v w ] && within fs gs
