-- ===== src/Validation/Numeric/Defs.antt =====
-- validation/numeric.py.
use analysis_loop.Prelude.{
  ℕ, zero, suc, String, Bool, true, false, not, ◌&&◌, Option, none, some, List, [], ◌∷◌, map,
  Result, err, ok, value_error, key_error, ◌>>=◌, ◌>>◌, raise_if, say, lit, arg, ◌==◌,
}
use analysis_loop.Prelude.Sets.{same_set}
use analysis_loop.Json.{
  Json, Items, nil, cons, Fields, end, field, null, bool, int, float, str, arr, obj, Float,
  is_finite, as_float, eq_float, find_field,
}
use analysis_loop.Contracts.Evidence.{EffectEstimate, PathPart, ResultPath}
use analysis_loop.Contracts.Review.{CriticReview}

-- `items[i]`, within its bounds.
abbrev item_at : Items → ℕ → Option Json
item_at nil i = none
item_at (cons x xs) zero = some x
item_at (cons x xs) (suc i) = item_at xs i

-- A text is a key of a dict, a number an index of a list; nothing is converted.
abbrev pub part_of : Json → PathPart → Option Json
part_of (obj fs) (PathPart.key k) = find_field k fs
part_of (arr xs) (PathPart.index i) = item_at xs i
part_of _ _ = none

abbrev part_or_raise : Option Json → Result Json
part_or_raise (some v) = ok v
part_or_raise none = err (value_error (say "원본 결과 경로가 없거나 타입이 다르다"))

unfoldable pub follow_path : Json → ResultPath → Result Json
unfolding find_field
follow_path v [] = ok v
follow_path v (p ∷ ps) = do next ← part_or_raise (part_of v p); follow_path next ps

unfoldable pub resolve_result_path : Json → Option ResultPath → Result Json
unfolding follow_path
resolve_result_path v (some (p ∷ ps)) = follow_path v (p ∷ ps)
resolve_result_path v _ = err (value_error (say "원본 결과 source_path가 필요하다"))

-- An int, or a finite float.
abbrev pub plain_number : Json → Option Float
plain_number (int z) = some (as_float z)
plain_number (float f) = elim (is_finite f) [ true ↦ some f | false ↦ none ]
plain_number _ = none

abbrev same_number : Option Float → Option Float → Bool
same_number (some a) (some b) = eq_float a b
same_number _ _ = false

abbrev keys : Fields → List String
keys end = []
keys (field k v fs) = k ∷ keys fs

abbrev eq_bool : Bool → Bool → Bool
eq_bool true b = b
eq_bool false b = not b

-- `_same_value(claimed, source)`.
unfoldable mutual
  unfolding find_field eq_float

  pub same_value : Json → Json → Bool
  same_value claimed (int z) = same_number (plain_number claimed) (some (as_float z))
  same_value claimed (float f) = same_number (plain_number claimed) (plain_number (float f))
  same_value null null = true
  same_value (bool b) (bool c) = eq_bool b c
  same_value (str s) (str t) = s == t
  same_value (arr xs) (arr ys) = same_items xs ys
  same_value (obj fs) (obj gs) = same_set (keys fs) (keys gs) && same_fields fs gs
  same_value _ _ = false

  pub same_items : Items → Items → Bool
  same_items nil nil = true
  same_items (cons x xs) (cons y ys) = same_value x y && same_items xs ys
  same_items _ _ = false

  pub same_fields : Fields → Fields → Bool
  same_fields fs end = true
  same_fields fs (field k v gs) =
      elim (find_field k fs) [ none ↦ false | some w ↦ same_value w v ] && same_fields fs gs

abbrev pub get_or_null : Option Json → Json
get_or_null none = null
get_or_null (some v) = v

abbrev pub unit_value : Option String → Json
unit_value none = null
unit_value (some u) = str u

unfoldable pub has_same : Json → Option Json → Bool
unfolding same_value
has_same claimed none = false
has_same claimed (some v) = same_value claimed v

-- The fields of `EffectEstimate(**source)`, with the types that the model asks for.
abbrev pub text_field : Option Json → Result String
text_field (some (str s)) = ok s
text_field _ = err (value_error (say "EffectEstimate"))

abbrev pub bool_field : Option Json → Result Bool
bool_field (some (bool b)) = ok b
bool_field _ = err (value_error (say "EffectEstimate"))

abbrev pub number_field : Option Json → Result Float
number_field none = err (value_error (say "EffectEstimate"))
number_field (some v) = elim (plain_number v) [
  | none ↦ err (value_error (say "EffectEstimate"))
  | some f ↦ ok f
]

abbrev pub unit_field : Json → Result (Option String)
unit_field null = ok none
unit_field (str s) = ok (some s)
unit_field _ = err (value_error (say "EffectEstimate"))

unfoldable pub estimate : Fields → Option ResultPath → Result EffectEstimate
unfolding find_field
estimate fs path = do
  column ← text_field (find_field "column" fs)
  metric ← text_field (find_field "metric" fs)
  value ← number_field (find_field "value" fs)
  directional ← bool_field (find_field "directional" fs)
  unit ← unit_field (get_or_null (find_field "unit" fs))
  ok (record {
    column = column;
    metric = metric;
    value = value;
    directional = directional;
    unit = unit;
    source_path = path;
  })

abbrev pub as_dict : Json → Result Fields
as_dict (obj fs) = ok fs
as_dict _ = err (value_error (say "효과 source_path는 효과 객체를 가리켜야 한다"))

unfoldable pub check_field : String → Json → Fields → Result (Unit {0})
unfolding has_same find_field
check_field name claimed fs =
    raise_if (not (has_same claimed (find_field name fs)))
      (lit "효과 " ∷ arg name ∷ lit "가 원본 결과와 다르다" ∷ [])

unfoldable pub bind_effect : Json → EffectEstimate → Result EffectEstimate
unfolding resolve_result_path check_field estimate
bind_effect result effect = do
  source ← resolve_result_path result effect.source_path
  fs ← as_dict source
  check_field "column" (str effect.column) fs
  check_field "metric" (str effect.metric) fs
  check_field "value" (float effect.value) fs
  check_field "directional" (bool effect.directional) fs
  raise_if (not (same_value (unit_value effect.unit) (get_or_null (find_field "unit" fs))))
      (say "효과 unit이 원본 결과와 다르다")
  estimate fs effect.source_path

unfoldable pub bind_effects : Json → List EffectEstimate → Result (List EffectEstimate)
unfolding bind_effect
bind_effects result [] = ok []
bind_effects result (e ∷ es) = do
  bound ← bind_effect result e
  rest ← bind_effects result es
  ok (bound ∷ rest)

abbrev pub path_of : String → List (String × ResultPath) → Result ResultPath
path_of k [] = err (key_error k)
path_of k ((j, path) ∷ rest) = elim (j == k) [ true ↦ ok path | false ↦ path_of k rest ]

-- One item of the summary: what the result has at its path takes the place of what was claimed.
unfoldable pub bind_uncertainty :
    Json → List (String × ResultPath) → String × Json → Result (String × Json)
unfolding resolve_result_path same_value
bind_uncertainty result paths (key, claimed) = do
  path ← path_of key paths
  source ← resolve_result_path result (some path)
  raise_if (not (same_value claimed source)) (lit "불확실성 " ∷ arg key ∷ lit "가 원본 결과와 다르다" ∷ [])
  ok (key, source)

unfoldable pub bind_uncertainties :
    Json → List (String × ResultPath) → List (String × Json) → Result (List (String × Json))
unfolding bind_uncertainty
bind_uncertainties result paths [] = ok []
bind_uncertainties result paths (u ∷ us) = do
  bound ← bind_uncertainty result paths u
  rest ← bind_uncertainties result paths us
  ok (bound ∷ rest)

abbrev pub names {ℓ} : {A : Type ℓ} → List (String × A) → List String
names items = map (λ u. u.0) items

unfoldable pub bind_review_to_result : CriticReview → Json → Result CriticReview
unfolding bind_effects bind_uncertainties
bind_review_to_result review result = do
  effects ← bind_effects result review.effect_summary
  raise_if
      (not (same_set (names review.uncertainty_summary) (names review.uncertainty_source_paths)))
      (say "uncertainty_summary의 모든 항목에 원본 경로가 필요하다")
  uncertainty ← bind_uncertainties result review.uncertainty_source_paths review.uncertainty_summary
  ok (record review { effect_summary = effects; uncertainty_summary = uncertainty })
