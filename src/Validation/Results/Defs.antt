-- ===== src/Validation/Results/Defs.antt =====
-- validation/result_checks.py: the checks themselves.
use analysis_loop.Prelude.{
  ℕ, suc, String, Bool, true, false, not, ◌&&◌, Option, none, some, List, [], ◌∷◌, ◌++◌, map, take,
  if◌then◌else◌, ltb, Message, Piece, say, lit, arg, num, strs, is_empty, ◌==◌,
}
use analysis_loop.Json.{
  Json, Items, nil, cons, Fields, end, field, null, bool, int, float, str, arr, obj, is_finite,
  find_field,
}
use analysis_loop.Contracts.Analysis.{Manifest, SchemaType, mapping, list, number, string, boolean}
use analysis_loop.Validation.References.{Issue, repairable}
use analysis_loop.Validation.Issues.{issue}

abbrev pub max_result_bytes : ℕ
max_result_bytes = 65536

abbrev pub schema_type_of : Json → SchemaType
schema_type_of (obj _) = mapping
schema_type_of (arr _) = list
schema_type_of (bool _) = boolean
schema_type_of (int _) = number
schema_type_of (float _) = number
schema_type_of _ = string

-- `declared == actual`, and the text of a type.
abbrev pub schema_text : SchemaType → String
schema_text mapping = "mapping"
schema_text list = "list"
schema_text number = "number"
schema_text string = "string"
schema_text boolean = "boolean"

-- `not text`, of an f-string.
is_empty_piece : Piece → Bool
is_empty_piece (Piece.lit s) = s == ""
is_empty_piece (Piece.arg s) = s == ""
is_empty_piece _ = false

unfoldable pub is_empty_text : Message → Bool
unfolding is_empty_piece
is_empty_text [] = true
is_empty_text (p ∷ ps) = is_empty_piece p && is_empty_text ps

-- `f"{path}.{key}" if path else str(key)`, and `f"{path}[{index}]"`.
abbrev under_key : Message → String → Message
under_key path key = if is_empty_text path then arg key ∷ [] else path ++ lit "." ∷ arg key ∷ []

abbrev at_index : Message → ℕ → Message
at_index path index = path ++ lit "[" ∷ num index ∷ lit "]" ∷ []

-- `path or "<root>"`.
abbrev or_root : Message → Message
or_root path = if is_empty_text path then say "<root>" else path

unfoldable mutual
  -- The paths of the numbers that are not finite.
  pub non_finite_numbers : Json → Message → List Message
  non_finite_numbers (obj fs) path = non_finite_fields fs path
  non_finite_numbers (arr xs) path = non_finite_items xs path 0
  non_finite_numbers (float f) path = if is_finite f then [] else or_root path ∷ []
  non_finite_numbers _ path = []

  pub non_finite_fields : Fields → Message → List Message
  non_finite_fields end path = []
  non_finite_fields (field k v fs) path =
      non_finite_numbers v (under_key path k) ++ non_finite_fields fs path

  pub non_finite_items : Items → Message → ℕ → List Message
  non_finite_items nil path index = []
  non_finite_items (cons x xs) path index =
      non_finite_numbers x (at_index path index) ++ non_finite_items xs path (suc index)

abbrev type_name : Json → String
type_name null = "NoneType"
type_name (bool _) = "bool"
type_name (int _) = "int"
type_name (float _) = "float"
type_name (str _) = "str"
type_name (arr _) = "list"
type_name (obj _) = "dict"

module _ (print : Message → String) (encoded_size : Json → ℕ) where
  -- One declared output, and what the result has under its key.
  unfoldable pub output_issue : String → SchemaType → Option Json → List Issue
  output_issue key declared none =
      issue print repairable true "missing_declared_output"
        (lit "Manifest가 선언한 출력 키가 결과에 없다: " ∷ arg key ∷ [])
  output_issue key declared (some value) =
      issue print repairable (not (schema_text (schema_type_of value) == schema_text declared))
        "output_type_mismatch"
        (arg key
          ∷ lit "의 타입이 선언("
          ∷ arg (schema_text declared)
          ∷ lit ")과 다르다(실제 "
          ∷ arg (schema_text (schema_type_of value))
          ∷ lit ")."
          ∷ [])

  unfoldable pub declared_issues : Fields → List (String × SchemaType) → List Issue
  unfolding find_field output_issue
  declared_issues fs [] = []
  declared_issues fs ((key, declared) ∷ rest) =
      output_issue key declared (find_field key fs) ++ declared_issues fs rest

  -- `encoded_size` stands for the bytes of json.dumps.
  unfoldable pub check_fields : Fields → Manifest → List Issue
  check_fields fs m =
      let paths = non_finite_numbers (obj fs) [] in
      issue print repairable (ltb max_result_bytes (encoded_size (obj fs))) "result_too_large" (
        lit "결과가 "
        ∷ num (encoded_size (obj fs))
        ∷ lit "바이트다 — 상한 "
        ∷ num max_result_bytes
        ∷ lit ". 고카디널리티 컬럼을 raw로 그룹화했는지 확인하고 집계 수준을 올려라."
        ∷ [])
      ++ (issue print repairable (not (is_empty paths)) "non_finite_number"
            (lit "NaN 또는 Infinity가 결과에 있다(예: " ∷ strs (map print (take 3 paths)) ∷ lit ")." ∷ [])
          ++ declared_issues fs m.expected_output_schema)

  unfoldable pub check_result : Json → Manifest → List Issue
  check_result (obj end) m = issue print repairable true "empty_result" (say "결과가 비어 있다.")
  check_result (obj (field k v fs)) m = check_fields (field k v fs) m
  check_result v m =
      issue print repairable true "result_not_mapping"
        (lit "analyze(df)는 dict를 반환해야 한다(실제 " ∷ arg (type_name v) ∷ lit ")." ∷ [])
