-- ===== src/Validation/Manifest/Defs.antt =====
-- validation/manifest_checks.py: the checks themselves.
use analysis_loop.Prelude.{
  String, Bool, true, false, not, ◌&&◌, Option, none, some, List, [], ◌∷◌, ◌++◌, if◌then◌else◌,
  Message, say, lit, strs, is_empty, is_some, filter, ℕ, ltb, truthy, is_blank, opt_eq,
}
use analysis_loop.Prelude.Sets.{contains, minus, sorted_set}
use analysis_loop.Contracts.Data.{DatasetProfile, column_names}
use analysis_loop.Contracts.Analysis.{
  AnalysisProtocol, Manifest, GeneratedAnalysis, available_columns, predictor_columns,
  is_predictive,
}
use analysis_loop.Contracts.Planning.{ResearchIntent}
use analysis_loop.Validation.Program.Tree.{Parsed}
use analysis_loop.Validation.Program.Lint.{extract_referenced_columns}
use analysis_loop.Validation.References.{Issue, repairable, warning}
use analysis_loop.Validation.Issues.{issue}

-- `xs & ys`.
abbrev pub common : List String → List String → List String
common xs ys = filter (contains ys) xs

-- `not (text or "").strip()`.
abbrev pub is_missing : Option String → Bool
is_missing none = true
is_missing (some t) = is_blank t

-- `flag is not True`.
abbrev pub is_not_true : Option Bool → Bool
is_not_true (some true) = false
is_not_true _ = true

-- `number is not None and number > 1`.
abbrev pub several : Option ℕ → Bool
several none = false
several (some n) = ltb 1 n

-- The column that a role names, unless it is None or empty.
abbrev named : Option String → List String
named none = []
named (some c) = if truthy (some c) then c ∷ [] else []

unfoldable pub structural_columns : Manifest → List String
structural_columns m =
    m.group_by
    ++ (predictor_columns m ++ (m.split_unit_columns ++ (named m.target ++ named m.time_column)))

abbrev pub columns_found : List String → Bool
columns_found xs = not (is_empty xs)

module _ (print : Message → String) where
  -- The text says which columns are meant.
  unfoldable pub columns_issue : String → String → String → List String → List Issue
  unfolding issue
  columns_issue code text hint xs =
      issue print repairable (columns_found xs) code
        (lit text ∷ strs (sorted_set xs) ∷ lit hint ∷ [])

  unfoldable pub column_issues : Manifest → ResearchIntent → DatasetProfile → List Issue
  unfolding columns_issue
  column_issues m intent profile =
      let source = column_names profile in
      columns_issue "derived_shadows_source" "원본 컬럼을 derived_columns에 선언했다: " ""
        (common m.derived_columns source)
      ++ (columns_issue "unknown_column" "데이터에 없고 derived_columns에도 없는 컬럼을 선언했다: "
            " — 코드가 만들어낸 컬럼이면 derived_columns에 적어라."
            (minus m.selected_columns (available_columns m source))
          ++ (columns_issue "excluded_column_used" "Intent가 제외한 컬럼을 선언했다: " ""
                (common m.selected_columns intent.excluded_columns)
              ++ (columns_issue "missing_required_column" "Intent가 필수로 지정한 컬럼이 빠졌다: " ""
                    (minus intent.required_columns m.selected_columns)
                  ++ columns_issue "structural_column_not_selected"
                      "target/group_by 컬럼이 selected_columns에 없다: " ""
                      (minus (structural_columns m) m.selected_columns))))

  abbrev gap : Bool → String → String → List Issue
  gap test code text = issue print repairable test code (say text)

  unfoldable pub predictive_issues : Manifest → List Issue
  predictive_issues m =
      gap (is_missing m.split_strategy) "missing_split_strategy"
        "예측 성능을 보고하는 분석은 split_strategy를 선언해야 한다."
      ++ (gap (is_missing m.protocol.evaluation_strategy) "missing_evaluation_strategy"
            "예측 성능을 보고하는 분석은 protocol.evaluation_strategy를 선언해야 한다."
          ++ (gap (not (is_some m.protocol.evaluation_design)) "missing_evaluation_design"
                "예측 성능을 보고하는 분석은 holdout/CV/time/group 등 평가 구조를 선언해야 한다."
              ++ (gap (not (is_some m.prediction_task)) "missing_prediction_task"
                    "예측 분석은 classification/regression/forecasting 등 task 유형을 선언해야 한다."
                  ++ (gap (truthy m.time_column && is_not_true m.protocol.temporal_order_preserved)
                        "temporal_leakage_guard_missing"
                        "time_column이 있는 예측 분석은 temporal_order_preserved=true를 명시해야 한다."
                      ++ (gap
                            (columns_found m.split_unit_columns
                              && is_not_true m.protocol.group_isolation_preserved)
                            "group_leakage_guard_missing"
                            "split_unit_columns가 있으면 train/validation 그룹 격리를 명시해야 한다."
                          ++ (gap
                                (not (is_empty m.transformations)
                                  && not (is_some m.protocol.preprocessing_fit_scope))
                                "missing_preprocessing_fit_scope" "예측 분석의 변환/전처리는 fit 범위를 선언해야 한다."
                              ++ (issue print warning
                                    (opt_eq m.prediction_task (some "classification")
                                      && is_missing m.protocol.class_balance_strategy)
                                    "class_balance_not_recorded"
                                    (say "분류 분석은 불균형 처리 여부를 기록해야 한다(보정 없음도 명시).")
                                  ++ issue print warning
                                      (not (
                                        opt_eq (some m.protocol.interpretation_scope)
                                          (some "predictive")))
                                      "predictive_scope_mismatch"
                                      (say
                                        "model_metric 분석인데 interpretation_scope가 predictive가 아니다."))))))))

  unfoldable pub statistics_issues : AnalysisProtocol → List Issue
  statistics_issues p =
      issue print warning (p.hypothesis_testing && not (is_some p.planned_comparisons))
        "comparison_count_not_recorded" (say "가설 검정을 수행한다면 planned_comparisons를 기록해야 한다.")
      ++ (gap (several p.planned_comparisons && is_missing p.multiple_testing)
            "multiple_testing_decision_missing" "복수 가설 비교에서는 보정 여부와 방법을 multiple_testing에 명시해야 한다."
          ++ issue print warning (several p.repetitions && not (is_some p.random_seed))
              "repeated_analysis_without_seed"
              (say "반복 계산을 선언했지만 random_seed가 없다 — 재현 가능한 경우 seed를 기록하라."))

  unfoldable pub check_manifest : Manifest → ResearchIntent → DatasetProfile → List Issue
  unfolding column_issues predictive_issues statistics_issues
  check_manifest m intent profile =
      column_issues m intent profile
      ++ (gap (is_empty m.expected_output_schema) "no_output_schema"
            "expected_output_schema가 비어 있다 — 결과를 대조할 기준이 없다."
          ++ (gap (is_missing m.protocol.sampling_strategy) "missing_sampling_strategy"
                "protocol.sampling_strategy가 비어 있다 — 전체 행 사용도 명시해야 한다."
              ++ ((if is_predictive m then predictive_issues m else [])
                  ++ statistics_issues m.protocol)))

  -- Columns that the code accesses and the manifest does not declare, and the reverse.
  unfoldable pub check_code_matches_manifest :
      (String → Parsed) → GeneratedAnalysis → DatasetProfile → List Issue
  unfolding columns_issue extract_referenced_columns
  check_code_matches_manifest parse g profile =
      let declared = g.selected_columns ++ g.derived_columns in
      let actual =
        extract_referenced_columns parse g.code
          (available_columns g.manifest (column_names profile)) in
      columns_issue "undeclared_column_access" "Manifest에 없는 컬럼을 코드가 참조한다: "
        " — 선언과 실제가 다르면 결과를 신뢰할 수 없다." (minus actual declared)
      ++ issue print warning (columns_found (minus declared actual)) "declared_but_unused"
          (lit "선언했지만 코드에서 보이지 않는 컬럼: " ∷ strs (sorted_set (minus declared actual)) ∷ [])
