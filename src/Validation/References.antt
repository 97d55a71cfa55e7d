-- ===== src/Validation/References.antt =====
-- contract_models/validation.py and validation/references.py.
use analysis_loop.Prelude.{
  String, Bool, true, false, not, Option, none, some, List, ◌++◌, map, filter, Result, ◌>>◌,
  raise_if, lit, arg, strs, [], ◌∷◌, is_empty,
}
use analysis_loop.Prelude.Sets.{contains, minus, sorted_set}
use analysis_loop.Contracts.Data.{DatasetProfile, column_names}
use analysis_loop.Contracts.Analysis.{GeneratedAnalysis}
use analysis_loop.Contracts.Planning.{ResearchIntent, SubGoal, is_open}
use analysis_loop.Contracts.Review.{CriticReview}
use analysis_loop.State.{ErrorRecord}

pub data Severity : Type 0 where
  fatal repairable warning : Severity

-- `ValidationIssue`, without its category and its detail, which no node reads.
pub record Issue : Type 0 where
  pub code : String
  pub message : String
  pub severity : Severity

abbrev pub is_warning : Issue → Bool
is_warning i = elim i.severity [ warning ↦ true | _ ↦ false ]

-- `issue.model_dump(mode="json")`, as the state keeps it.
abbrev pub dump : Issue → ErrorRecord
dump i = record { code = i.code; message = i.message }

abbrev pub blocking : List Issue → List ErrorRecord
blocking issues = map dump (filter (λ i. not (is_warning i)) issues)

abbrev pub warnings : List Issue → List ErrorRecord
warnings issues = map dump (filter is_warning issues)

abbrev pub intent_columns : ResearchIntent → List String
intent_columns i = i.candidate_columns ++ (i.required_columns ++ i.excluded_columns)

abbrev pub open_goal_ids : List SubGoal → List String
open_goal_ids goals = map (λ g. g.goal_id) (filter is_open goals)

goal_unknown : Option String → List SubGoal → Bool
goal_unknown none goals = false
goal_unknown (some g) goals = not (contains (open_goal_ids goals) g)

abbrev goal_text : Option String → String
goal_text none = "None"
goal_text (some g) = g

unfoldable pub validate_intent_references :
    ResearchIntent → DatasetProfile → List SubGoal → List String → Result (Unit {0})
unfolding sorted_set goal_unknown
validate_intent_references i profile goals evidence_ids = do
  let unknown_columns = minus (intent_columns i) (column_names profile)
  raise_if (not (is_empty unknown_columns))
      (lit "존재하지 않는 데이터 컬럼: " ∷ strs (sorted_set unknown_columns) ∷ [])
  let unknown_evidence = minus (i.parent_evidence_ids ++ i.reuse_evidence_ids) evidence_ids
  raise_if (not (is_empty unknown_evidence))
      (lit "존재하지 않는 evidence 참조: " ∷ strs (sorted_set unknown_evidence) ∷ [])
  raise_if (goal_unknown i.goal_id goals)
      (lit "열려 있지 않은 goal_id: " ∷ arg (goal_text i.goal_id) ∷ [])

abbrev pub referenced : CriticReview → List String
referenced r = r.contradicts ++ (r.revalidates ++ (r.supersedes ++ r.reconciles))

abbrev pub effect_columns : CriticReview → List String
effect_columns r = map (λ e. e.column) r.effect_summary

unfoldable pub validate_critic_references :
    CriticReview → GeneratedAnalysis → List String → Result (Unit {0})
unfolding sorted_set
validate_critic_references r g evidence_ids = do
  let unknown_evidence = minus (referenced r) evidence_ids
  raise_if (not (is_empty unknown_evidence))
      (lit "존재하지 않는 Critic evidence 참조: " ∷ strs (sorted_set unknown_evidence) ∷ [])
  let unknown_columns = minus (effect_columns r) g.selected_columns
  raise_if (not (is_empty unknown_columns))
      (lit "분석에 사용하지 않은 효과 컬럼: " ∷ strs (sorted_set unknown_columns) ∷ [])
