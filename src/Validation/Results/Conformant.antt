-- ===== src/Validation/Results/Conformant.antt =====
-- validation/result_checks.py: what a result without an issue keeps to.
use analysis_loop.Prelude.{
  is_empty-append, ◌≡◌, refl, ap, sym, ◌∙◌, subst, ◌↔◌, ◌≤◌, ℕ, suc, String, true, false, not,
  Option, none, some, List, [], ◌∷◌, All, arith, ltb, if◌then◌else◌, Message, is_empty, ◌==◌,
  eq_iff,
}
use analysis_loop.Json.{
  Json, Items, nil, cons, Fields, end, field, null, bool, int, float, str, arr, obj, is_finite,
  find_field, is_end,
}
use analysis_loop.Contracts.Analysis.{Manifest, SchemaType, mapping, list, number, string, boolean}
use analysis_loop.Validation.References.{repairable}
use analysis_loop.Validation.Issues.{issue, passes, passes_both, passes_when, passes-append}
use analysis_loop.Validation.Results.Defs.{
  max_result_bytes, schema_type_of, schema_text, non_finite_numbers, non_finite_fields,
  non_finite_items, output_issue, declared_issues, check_fields, check_result,
}

-- Every number in a value is finite.
abbrev mutual
  pub AllFinite : Json → Type 0
  AllFinite (obj fs) = FiniteFields fs
  AllFinite (arr xs) = FiniteItems xs
  AllFinite (float f) = is_finite f ≡ true
  AllFinite _ = Unit

  pub FiniteFields : Fields → Type 0
  FiniteFields end = Unit
  FiniteFields (field k v fs) = AllFinite v × FiniteFields fs

  pub FiniteItems : Items → Type 0
  FiniteItems nil = Unit
  FiniteItems (cons x xs) = AllFinite x × FiniteItems xs

-- There is no path to a number that is not finite exactly when every number is finite.
mutual
  unfolding non_finite_numbers

  finite_iff :
      (v : Json) (path : Message) → (is_empty (non_finite_numbers v path) ≡ true) ↔ AllFinite v
  finite_iff (obj fs) path = fields_iff fs path
  finite_iff (arr xs) path = items_iff xs path 0
  finite_iff (float f) path = ground arith
  finite_iff null path = ground arith
  finite_iff (bool b) path = ground arith
  finite_iff (int z) path = ground arith
  finite_iff (str s) path = ground arith

  fields_iff :
      (fs : Fields) (path : Message)
      → (is_empty (non_finite_fields fs path) ≡ true) ↔ FiniteFields fs
  fields_iff end path = ground arith
  fields_iff (field k v fs) path = (
    λ h. let s = (is_empty-append _ _).0 h in ((finite_iff v _).0 s.0, (fields_iff fs path).0 s.1),
    λ h. (is_empty-append _ _).1 ((finite_iff v _).1 h.0, (fields_iff fs path).1 h.1),
  )

  items_iff :
      (xs : Items) (path : Message) (i : ℕ)
      → (is_empty (non_finite_items xs path i) ≡ true) ↔ FiniteItems xs
  items_iff nil path i = ground arith
  items_iff (cons x xs) path i = (
    λ h.
        let s = (is_empty-append _ _).0 h in
        ((finite_iff x _).0 s.0, (items_iff xs path (suc i)).0 s.1),
    λ h. (is_empty-append _ _).1 ((finite_iff x _).1 h.0, (items_iff xs path (suc i)).1 h.1),
  )

-- A type is read back from its text.
read_type : String → Option SchemaType
read_type t =
    if t == "mapping"
    then some mapping
    else if t == "list"
    then some list
    else if t == "number"
    then some number
    else if t == "string"
    then some string
    else some boolean

read_type-schema_text : (a : SchemaType) → read_type (schema_text a) ≡ some a
unfolding read_type
read_type-schema_text mapping = refl
read_type-schema_text list = refl
read_type-schema_text number = refl
read_type-schema_text string = refl
read_type-schema_text boolean = refl

schema_text_iff : (a b : SchemaType) → (schema_text a == schema_text b ≡ true) ↔ (a ≡ b)
schema_text_iff a b = (
  λ h. some_inj (
      sym (read_type-schema_text a)
      ∙ ap read_type ((eq_iff (schema_text a) (schema_text b)).0 h)
      ∙ read_type-schema_text b),
  λ e. (eq_iff (schema_text a) (schema_text b)).1 (ap schema_text e),
)
  where
    some_inj : {x y : SchemaType} → some x ≡ some y → x ≡ y
    some_inj e = ground arith

-- A value of the declared type.
abbrev pub Typed : SchemaType → Option Json → Type 0
Typed declared o = (v : Json) × (o ≡ some v) × (schema_type_of v ≡ declared)

abbrev pub HasOutput : Fields → String × SchemaType → Type 0
HasOutput fs (key, declared) = Typed declared (find_field key fs)

-- A result is a dict that is not empty and not too large; its numbers are finite, and every declared
-- output is in it with its type.
abbrev pub IsConformant : (Json → ℕ) → Manifest → Json → Type 0
IsConformant size m v =
    (fs : Fields) × (v ≡ obj fs)
    × (is_end fs ≡ false)
    × (size v ≤ max_result_bytes)
    × AllFinite v
    × All (HasOutput fs) m.expected_output_schema

obj_inj : {fs gs : Fields} → obj fs ≡ obj gs → gs ≡ fs
obj_inj e = ground arith

module _ (print : Message → String) (encoded_size : Json → ℕ) where
  output_iff :
      (key : String) (declared : SchemaType) (o : Option Json)
      → (passes (output_issue print encoded_size key declared o) ≡ true) ↔ Typed declared o
  unfolding output_issue
  output_iff key declared none =
      passes_when print true _ _ (Typed declared none)
        (λ h. absurd (ground arith), λ h. absurd (ground (arith, h.1)))
  output_iff key declared (some w) =
      passes_when print (not (schema_text (schema_type_of w) == schema_text declared)) _ _
        (Typed declared (some w))
        (
          λ h. (w, refl, ground (arith, schema_text_iff (schema_type_of w) declared)),
          λ h. ground (arith, h.1, h.2, schema_text_iff (schema_type_of w) declared),
        )

  refuted {ℓ} :
      {A : Type ℓ} (code : String) (message : Message)
      → ¬ A
      → (passes (issue print repairable true code message) ≡ true) ↔ A
  refuted {A = A} code message never =
      passes_when print true code message A (λ h. absurd (ground arith), λ a. absurd (never a))

  declared_iff :
      (fs : Fields) (ds : List (String × SchemaType))
      → (passes (declared_issues print encoded_size fs ds) ≡ true) ↔ All (HasOutput fs) ds
  unfolding declared_issues passes
  declared_iff fs [] = ground arith
  declared_iff fs ((key, declared) ∷ ds) =
      let split =
        passes-append (output_issue print encoded_size key declared (find_field key fs))
          (declared_issues print encoded_size fs ds) in
      let head = output_iff key declared (find_field key fs) in
      let tail = declared_iff fs ds in
      (
        λ h. (head.0 (ground (arith, split)), tail.0 (ground (arith, split))),
        λ h. ground (arith, split, head.1 h.0, tail.1 h.1),
      )

  fields_conform :
      (fs : Fields) (m : Manifest)
      → (passes (check_fields print encoded_size fs m) ≡ true) ↔ (
          (encoded_size (obj fs) ≤ max_result_bytes)
          × (AllFinite (obj fs) × All (HasOutput fs) m.expected_output_schema))
  unfolding check_fields
  fields_conform fs m =
      passes_both _ _
        (passes_when print (ltb max_result_bytes (encoded_size (obj fs))) _ _
          (encoded_size (obj fs) ≤ max_result_bytes) (ground arith))
        (passes_both _ _
          (passes_when print (not (is_empty (non_finite_numbers (obj fs) []))) _ _
            (AllFinite (obj fs))
            (
              λ h. (finite_iff (obj fs) []).0 (ground arith),
              λ h. ground (arith, (finite_iff (obj fs) []).1 h),
            ))
          (declared_iff fs m.expected_output_schema))

  -- The result of a program has no issue exactly when it is a dict that is not empty and not larger
  -- than the bound, every number in it at any depth is finite, and every output that the manifest
  -- declares is in it with its type.
  pub check_result_iff :
      (v : Json) (m : Manifest)
      → (passes (check_result print encoded_size v m) ≡ true) ↔ IsConformant encoded_size m v
  unfolding check_result
  check_result_iff (obj end) m = refuted _ _ (λ c. ground (arith, c.1, c.2))
  check_result_iff (obj (field k v fs)) m = (
    λ h.
        let c = (fields_conform (field k v fs) m).0 h in
        (field k v fs, refl, refl, c.0, c.1.0, c.1.1),
    λ c.
        (fields_conform (field k v fs) m).1
          (c.3, (c.4, subst (λ gs. All (HasOutput gs) m.expected_output_schema) (obj_inj c.1) c.5)),
  )
  check_result_iff null m = refuted _ _ (λ c. ground (arith, c.1))
  check_result_iff (bool b) m = refuted _ _ (λ c. ground (arith, c.1))
  check_result_iff (int z) m = refuted _ _ (λ c. ground (arith, c.1))
  check_result_iff (float f) m = refuted _ _ (λ c. ground (arith, c.1))
  check_result_iff (str s) m = refuted _ _ (λ c. ground (arith, c.1))
  check_result_iff (arr xs) m = refuted _ _ (λ c. ground (arith, c.1))
