-- ===== src/Report/Writing.antt =====
-- nodes/reporting.py: a report is written as Markdown when it passes its checks, and as JSON otherwise.
use analysis_loop.Prelude.{
  String, Bool, true, false, not, ◌&&◌, Option, none, some, List, [], ◌∷◌, ◌++◌, map, filter,
  if◌then◌else◌, ◌==◌, Message, say, is_empty, Result, ok, err,
}
use analysis_loop.Prelude.Sets.{contains, minus, sorted_set}
use analysis_loop.Json.{
  Json, Items, nil, cons, Fields, end, field, obj, arr, int, float, Float, as_float,
}
use analysis_loop.Contracts.Data.{ArtifactRef}
use analysis_loop.Contracts.Planning.{SubGoal, GoalStatus}
use analysis_loop.Contracts.Evidence.{EvidenceRecord}
use analysis_loop.Contracts.Runtime.{
  StopCode, ServiceResult, ServiceFailure, Role, is_service_unavailable,
}
use analysis_loop.Validation.Results.{is_empty_text}
use analysis_loop.State.{
  State, Assign, Update, current_evidence, pending_agenda_tasks, unresolved_contradictions,
}
use analysis_loop.Orchestration.FailurePolicy.{stops_run}
use analysis_loop.Report.Markers.{citations}
use analysis_loop.Report.Checks.{Support, report_errors}
use analysis_loop.Report.Review.{SemanticReview, validate_semantic_review}

-- What the report node calls; a reviewer that raises is one that answers with an error.
pub record ReportDeps : Type 0 where
  pub read_json : ArtifactRef → Result Json
  -- the critic, when there is one, writes a report
  pub generate_report : Option (List EvidenceRecord → ServiceResult String)
  -- and reviews one, if it can
  pub review_report : Option (String → List EvidenceRecord → Result (ServiceResult SemanticReview))
  pub put_text : String → ArtifactRef
  pub put_json : State → ArtifactRef
  pub numbers_in : String → List String
  pub is_close : String → Float → Bool

mutual
  -- `_collect_numeric_values`.
  pub collect_numbers : Json → List Float
  collect_numbers (int z) = as_float z ∷ []
  collect_numbers (float f) = f ∷ []
  collect_numbers (obj fs) = collect_fields fs
  collect_numbers (arr xs) = collect_items xs
  collect_numbers _ = []

  pub collect_fields : Fields → List Float
  collect_fields end = []
  collect_fields (field k v fs) = collect_numbers v ++ collect_fields fs

  pub collect_items : Items → List Float
  collect_items nil = []
  collect_items (cons x xs) = collect_numbers x ++ collect_items xs

abbrev numbers_of_result : Result Json → List Float
unfolding collect_numbers
numbers_of_result (ok payload) = collect_numbers payload
numbers_of_result (err e) = []

-- `numeric_support`: a later record of an id takes the place of an earlier one.
unfoldable pub numeric_support :
    (ArtifactRef → Result Json)
    → List EvidenceRecord
    → List (String × List Float)
    → List (String × List Float)
unfolding numbers_of_result
numeric_support read [] found = found
numeric_support read (e ∷ es) found =
    numeric_support read es ((e.evidence_id, numbers_of_result (read e.result_ref)) ∷ found)

abbrev is_read : Result Json → Bool
is_read (ok _) = true
is_read (err _) = false

-- The ids whose results could be read.
abbrev pub readable_ids : (ArtifactRef → Result Json) → List EvidenceRecord → List String
readable_ids read es = map (λ e. e.evidence_id) (filter (λ e. is_read (read e.result_ref)) es)

-- The outcome of a review: it passes only when a valid review accepts.
unfoldable pub outcome_of : String → List String → Result (ServiceResult SemanticReview) → Bool
outcome_of markdown ids (err e) = false
outcome_of markdown ids (ok result) = elim result.value [
  | none ↦ false
  | some raw ↦ elim (validate_semantic_review raw markdown ids) [
    | err e ↦ false
    | ok review ↦ review.accepts
  ]
]

-- `review_report`, and whether it passed: every cited result must be readable, and there must be a
-- reviewer; whatever goes wrong is no approval.
unfoldable pub review_passes : ReportDeps → String → List EvidenceRecord → Bool
unfolding outcome_of sorted_set citations
review_passes deps markdown reportable =
    let cited = sorted_set (citations markdown) in
    if not (is_empty (minus cited (readable_ids deps.read_json reportable)))
    then false
    else elim deps.review_report [
      | none ↦ false
      | some review ↦
          outcome_of markdown cited
            (review markdown (filter (λ e. contains cited e.evidence_id) reportable))
    ]

abbrev is_budget_exhausted : Option StopCode → Bool
is_budget_exhausted (some StopCode.budget_exhausted) = true
is_budget_exhausted _ = false

abbrev is_unavailable : Option StopCode → Bool
is_unavailable none = false
is_unavailable (some code) = is_service_unavailable code

abbrev is_critic_failure : Option ServiceFailure → Bool
is_critic_failure none = false
is_critic_failure (some f) = elim f.role [ Role.critic ↦ stops_run f.kind | _ ↦ false ]

-- A run without time, or without its critic, gets no generated report.
unfoldable pub can_generate : State → Bool
can_generate s =
    not (is_budget_exhausted s.stop_code)
    && not (is_unavailable s.stop_code && is_critic_failure s.service_failure)

abbrev pub stop_text : StopCode → String
stop_text StopCode.goal_satisfied = "GOAL_SATISFIED"
stop_text StopCode.budget_exhausted = "BUDGET_EXHAUSTED"
stop_text StopCode.max_iterations_reached = "MAX_ITERATIONS_REACHED"
stop_text StopCode.data_limited = "DATA_LIMITED"
stop_text StopCode.expansion_limit_reached = "EXPANSION_LIMIT_REACHED"
stop_text StopCode.service_unavailable = "SERVICE_UNAVAILABLE"
stop_text StopCode.planner_stuck = "PLANNER_STUCK"
stop_text StopCode.recursion_limit = "RECURSION_LIMIT"
stop_text StopCode.unknown = "UNKNOWN"

abbrev is_converged_goal : SubGoal → Bool
is_converged_goal g = elim g.status [ GoalStatus.converged ↦ true | _ ↦ false ]

-- What a report of the run is checked against; `run_summary` has the same lists.
unfoldable pub support_of_run : ReportDeps → State → Support
unfolding numeric_support current_evidence unresolved_contradictions
support_of_run deps s = record {
  evidence = s.evidence;
  relations = s.evidence_relations;
  allowed_evidence_ids = some (map (λ e. e.evidence_id) (current_evidence s));
  numeric_support = some (numeric_support deps.read_json (current_evidence s) []);
  stop_code = elim s.stop_code [ none ↦ none | some code ↦ some (stop_text code) ];
  incomplete_goal_ids = map (λ g. g.goal_id) (filter (λ g. not (is_converged_goal g)) s.sub_goals);
  pending_task_ids = map (λ t. t.task_id) (pending_agenda_tasks s);
  unresolved_contradictions = unresolved_contradictions s;
}

-- The report that the critic generates; an empty one counts as none.
unfoldable pub generated : ReportDeps → State → Option String
unfolding can_generate current_evidence
generated deps s = elim deps.generate_report [
  | none ↦ none
  | some write ↦
      if can_generate s
      then elim (write (current_evidence s)).value [
        | none ↦ none
        | some markdown ↦ if markdown == "" then none else some markdown
      ]
      else none
]

unfoldable pub accepts_report : ReportDeps → State → String → Bool
unfolding support_of_run report_errors review_passes current_evidence
accepts_report deps s markdown =
    is_empty (report_errors deps.numbers_in deps.is_close (support_of_run deps s) markdown)
    && review_passes deps markdown (current_evidence s)

-- `write_report`: the Markdown, none when the summary is saved instead.
unfoldable pub adopted : ReportDeps → State → Option String
unfolding generated accepts_report
adopted deps s = elim (generated deps s) [
  | none ↦ none
  | some markdown ↦ if accepts_report deps s markdown then some markdown else none
]

unfoldable pub write_report : ReportDeps → State → ArtifactRef
unfolding adopted
write_report deps s = elim (adopted deps s) [
  | none ↦ deps.put_json s
  | some markdown ↦ deps.put_text markdown
]

abbrev reason_or_done : Option Message → Message
reason_or_done none = say "완료"
reason_or_done (some m) = if is_empty_text m then say "완료" else m

abbrev code_or_unknown : Option StopCode → StopCode
code_or_unknown none = StopCode.unknown
code_or_unknown (some c) = c

unfoldable pub finalize : ReportDeps → State → Update
unfolding write_report is_empty_text
finalize deps s =
    Assign.report_ref (some (write_report deps s))
    ∷ Assign.status s.status
    ∷ Assign.stop_code (some (code_or_unknown s.stop_code))
    ∷ Assign.stop_reason (some (reason_or_done s.stop_reason))
    ∷ []
