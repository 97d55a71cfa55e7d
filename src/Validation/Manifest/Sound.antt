-- ===== src/Validation/Manifest/Sound.antt =====
-- validation/manifest_checks.py: what a manifest without a blocking issue keeps to.
use analysis_loop.Prelude.{
  ◌≡◌, refl, subst, ◌↔◌, inl, inr, String, Bool, true, false, not, Option, none, some, List, [],
  ◌∷◌, ◌++◌, arith, Message, is_empty, is_some, truthy, ◌==◌, eq_iff, Bool-cases, filter,
}
use analysis_loop.Prelude.Sets.{contains, minus}
use analysis_loop.Contracts.Data.{DatasetProfile, column_names}
use analysis_loop.Contracts.Analysis.{
  AnalysisProtocol, Manifest, GeneratedAnalysis, available_columns, is_predictive,
}
use analysis_loop.Contracts.Planning.{ResearchIntent}
use analysis_loop.Validation.Program.Tree.{Parsed}
use analysis_loop.Validation.Program.Lint.{extract_referenced_columns}
use analysis_loop.Validation.Issues.{
  passes, passes_both, passes_but, passes_if, passes_when, passes_then, passes-warning,
  passes_quiet,
}
use analysis_loop.Validation.Manifest.Defs.{
  common, is_missing, is_not_true, several, structural_columns, columns_found, columns_issue,
  column_issues, predictive_issues, statistics_issues, check_manifest, check_code_matches_manifest,
}

-- Each column of the one list is in the other, or in none of the two.
abbrev pub Within : List String → List String → Type 0
Within xs ys = (c : String) → contains xs c ≡ true → contains ys c ≡ true

abbrev pub Apart : List String → List String → Type 0
Apart xs ys = (c : String) → contains xs c ≡ true → contains ys c ≡ false

-- What holds of the head and of every column of the tail holds of every column.
within_cons :
    (P : String → Type 0) (x : String) (xs : List String)
    → P x
    → ((c : String) → contains xs c ≡ true → P c)
    → (c : String) → contains (x ∷ xs) c ≡ true
    → P c
within_cons P x xs p f c m = elim (Bool-cases (x == c)) [
  | inl e ↦ subst P ((eq_iff x c).0 e) p
  | inr e ↦ f c (ground arith)
]

-- The list of the columns that fail a test is empty exactly when no column fails it.
none_fails :
    (p : String → Bool) (xs : List String)
    → (is_empty (filter p xs) ≡ true) ↔ ((c : String) → contains xs c ≡ true → p c ≡ false)
none_fails p [] = (λ h c m. absurd (ground arith), λ h. refl)
none_fails p (x ∷ xs) = (
  λ h. within_cons (λ c. p c ≡ false) x xs (ground arith) ((none_fails p xs).0 (ground arith)),
  λ h. ground (
    arith,
    h x (ground (arith, (eq_iff x x).1 refl)),
    (none_fails p xs).1 (λ c m. h c (ground arith)),
  ),
)

minus_none : (xs ys : List String) → (is_empty (minus xs ys) ≡ true) ↔ Within xs ys
minus_none xs ys = (
  λ h c m. ground (arith, (none_fails (λ x. not (contains ys x)) xs).0 h c m),
  λ h. (none_fails (λ x. not (contains ys x)) xs).1 (λ c m. ground (arith, h c m)),
)

common_none : (xs ys : List String) → (is_empty (common xs ys) ≡ true) ↔ Apart xs ys
common_none xs ys = none_fails (contains ys) xs

not_true_iff : (o : Option Bool) → (is_not_true o ≡ false) ↔ (o ≡ some true)
not_true_iff none = ground arith
not_true_iff (some true) = ground arith
not_true_iff (some false) = ground arith

-- The columns are those of the dataset or derived, and serve the intent.
abbrev pub HasSoundColumns : Manifest → ResearchIntent → DatasetProfile → Type 0
HasSoundColumns m intent profile =
    Apart m.derived_columns (column_names profile)
    × (Within m.selected_columns (available_columns m (column_names profile))
        × (Apart m.selected_columns intent.excluded_columns
            × (Within intent.required_columns m.selected_columns
                × Within (structural_columns m) m.selected_columns)))

-- A predictive analysis says how it is evaluated, and guards against leaks.
abbrev pub HasSoundPrediction : Manifest → Type 0
HasSoundPrediction m =
    (is_missing m.split_strategy ≡ false)
    × ((is_missing m.protocol.evaluation_strategy ≡ false)
        × ((is_some m.protocol.evaluation_design ≡ true)
            × ((is_some m.prediction_task ≡ true)
                × ((truthy m.time_column ≡ true → m.protocol.temporal_order_preserved ≡ some true)
                    × ((is_empty m.split_unit_columns ≡ false
                          → m.protocol.group_isolation_preserved ≡ some true)
                        × (is_empty m.transformations ≡ false
                            → is_some m.protocol.preprocessing_fit_scope ≡ true))))))

abbrev pub IsSound : Manifest → ResearchIntent → DatasetProfile → Type 0
IsSound m intent profile =
    HasSoundColumns m intent profile
    × ((is_empty m.expected_output_schema ≡ false)
        × ((is_missing m.protocol.sampling_strategy ≡ false)
            × ((is_predictive m ≡ true → HasSoundPrediction m)
                × (several m.protocol.planned_comparisons ≡ true
                    → is_missing m.protocol.multiple_testing ≡ false))))

module _ (print : Message → String) where
  columns_pass {ℓ} :
      {A : Type ℓ} (code text hint : String) (xs : List String)
      → (is_empty xs ≡ true) ↔ A
      → (passes (columns_issue print code text hint xs) ≡ true) ↔ A
  unfolding columns_issue
  columns_pass {A = A} code text hint xs f =
      passes_when print (columns_found xs) code _ A
        (λ h. f.0 (ground arith), λ h. ground (arith, f.1 h))

  passes-column_issues :
      (m : Manifest) (intent : ResearchIntent) (profile : DatasetProfile)
      → (passes (column_issues print m intent profile) ≡ true) ↔ HasSoundColumns m intent profile
  unfolding column_issues
  passes-column_issues m intent profile =
      passes_both _ _ (columns_pass _ _ _ _ (common_none m.derived_columns (column_names profile)))
        (passes_both _ _
          (columns_pass _ _ _ _
            (minus_none m.selected_columns (available_columns m (column_names profile))))
          (passes_both _ _
            (columns_pass _ _ _ _ (common_none m.selected_columns intent.excluded_columns))
            (passes_both _ _
              (columns_pass _ _ _ _ (minus_none intent.required_columns m.selected_columns))
              (columns_pass _ _ _ _ (minus_none (structural_columns m) m.selected_columns)))))

  passes-predictive_issues :
      (m : Manifest) → (passes (predictive_issues print m) ≡ true) ↔ HasSoundPrediction m
  unfolding predictive_issues
  passes-predictive_issues m =
      passes_both _ _ (passes_when print _ _ _ (is_missing m.split_strategy ≡ false) (ground arith))
        (passes_both _ _
          (passes_when print _ _ _ (is_missing m.protocol.evaluation_strategy ≡ false)
            (ground arith))
          (passes_both _ _
            (passes_when print _ _ _ (is_some m.protocol.evaluation_design ≡ true) (ground arith))
            (passes_both _ _
              (passes_when print _ _ _ (is_some m.prediction_task ≡ true) (ground arith))
              (passes_both _ _
                (passes_when print _ _ _
                  (truthy m.time_column ≡ true → m.protocol.temporal_order_preserved ≡ some true)
                  (ground (arith, not_true_iff m.protocol.temporal_order_preserved)))
                (passes_both _ _
                  (passes_when print _ _ _
                    (is_empty m.split_unit_columns ≡ false
                      → m.protocol.group_isolation_preserved ≡ some true)
                    (ground (arith, not_true_iff m.protocol.group_isolation_preserved)))
                  (passes_then _ _
                    (passes_when print _ _ _
                      (is_empty m.transformations ≡ false
                        → is_some m.protocol.preprocessing_fit_scope ≡ true)
                      (ground arith))
                    (passes_quiet _ _ (passes-warning print _ _ _)
                      (passes-warning print _ _ _))))))))

  passes-statistics_issues :
      (p : AnalysisProtocol)
      → (passes (statistics_issues print p) ≡ true)
        ↔ (several p.planned_comparisons ≡ true → is_missing p.multiple_testing ≡ false)
  unfolding statistics_issues
  passes-statistics_issues p = passes_but _ _ (passes-warning print _ _ _) (
      passes_then _ _
        (passes_when print _ _ _
          (several p.planned_comparisons ≡ true → is_missing p.multiple_testing ≡ false)
          (ground arith))
        (passes-warning print _ _ _))

  -- A manifest has no blocking issue exactly when it is sound: its columns are those of the dataset or
  -- derived and serve the intent, it declares an output and a sampling, an analysis that reports
  -- predictive performance guards its evaluation against leaks, and several comparisons say how they
  -- are corrected.
  pub check_manifest_iff :
      (m : Manifest) (intent : ResearchIntent) (profile : DatasetProfile)
      → (passes (check_manifest print m intent profile) ≡ true) ↔ IsSound m intent profile
  unfolding check_manifest
  check_manifest_iff m intent profile = passes_both _ _ (passes-column_issues m intent profile) (
      passes_both _ _
        (passes_when print (is_empty m.expected_output_schema) _ _
          (is_empty m.expected_output_schema ≡ false) (ground arith))
        (passes_both _ _
          (passes_when print (is_missing m.protocol.sampling_strategy) _ _
            (is_missing m.protocol.sampling_strategy ≡ false) (ground arith))
          (passes_both _ _ (passes_if (is_predictive m) _ (passes-predictive_issues m))
            (passes-statistics_issues m.protocol))))

  -- A program has no blocking issue against its manifest exactly when every column that it is seen to
  -- access is declared, as selected or as derived.
  pub check_code_iff :
      (parse : String → Parsed) (g : GeneratedAnalysis) (profile : DatasetProfile)
      → (passes (check_code_matches_manifest print parse g profile) ≡ true)
        ↔ Within
            (extract_referenced_columns parse g.code
              (available_columns g.manifest (column_names profile)))
            (g.selected_columns ++ g.derived_columns)
  unfolding check_code_matches_manifest
  check_code_iff parse g profile =
      passes_then _ _ (columns_pass _ _ _ _ (minus_none _ _)) (passes-warning print _ _ _)
