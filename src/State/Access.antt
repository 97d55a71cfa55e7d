-- ===== src/State/Access.antt =====
-- state.py: `new_state`, terminal and reset updates, and the accessors.
use analysis_loop.Prelude.{
  ℕ, String, Bool, not, ◌&&◌, Option, none, some, List, [], ◌∷◌, map, ℤ, sub_ℕ, ◌==◌, if◌then◌else◌,
  any, filter, is_empty, Result, ok, ◌>>◌, raise_if, say, Message, ◌+◌, eqb, is_blank_message,
}
use analysis_loop.Prelude.Sets.{contains}
use analysis_loop.Contracts.Base.{
  schema_version, DataApplicability, exact_snapshot, revalidation_required, incompatible_schema,
  unknown, is_exact,
}
use analysis_loop.Contracts.Data.{ArtifactRef, DatasetProfile}
use analysis_loop.Contracts.Analysis.{DataLineage}
use analysis_loop.Contracts.Planning.{SubGoal, is_open}
use analysis_loop.Contracts.Agenda.{
  AgendaTask, is_pending, EvidenceRelation, RelationKind, eq_kind, supersedes,
}
use analysis_loop.Contracts.Evidence.{EvidenceRecord}
use analysis_loop.Contracts.Runtime.{RunStatus, running, StopCode}
use analysis_loop.State.Defs.{State, Assign, Update}

-- `new_state`; `now` is `time.time()`.
unfoldable pub new_state : ℕ → String → String → ArtifactRef → ℕ → ℕ → Result State
new_state now run_id objective dataset max_iterations budget = do
  raise_if (eqb max_iterations 0) (say "max_iterations는 0보다 커야 한다")
  raise_if (eqb budget 0) (say "time_budget_seconds는 0보다 커야 한다")
  ok (record {
    run_id = run_id;
    schema = schema_version;
    objective = objective;
    dataset_ref = some dataset;
    profile_ref = none;
    profile = none;
    sub_goals = [];
    goal_expansions = 0;
    deadline_at = now + budget;
    intent = none;
    last_planner_error = none;
    program_ref = none;
    manifest = none;
    candidate_ref = none;
    figure_refs = none;
    static_repairs = 0;
    runtime_repairs = 0;
    validation_errors = [];
    error_streak = none;
    validation_warnings = [];
    review = none;
    agenda = [];
    inspection_ref = none;
    inspection_summary = none;
    inspection_history = [];
    evidence_lookup_summary = [];
    evidence_lookup_history = [];
    evidence = [];
    evidence_relations = [];
    rejected = [];
    issues = [];
    coverage = record { column_usage = []; tested_dedupe_keys = [] };
    execution_delta = none;
    iteration = 0;
    max_iterations = max_iterations;
    status = running;
    service_failure = none;
    stop_code = none;
    stop_reason = none;
    report_ref = none;
  })

-- What `terminal_update` returns when the reason is not blank. Every caller's reason begins with
-- fixed text, and stripping its ends is left out.
abbrev pub terminal : RunStatus → StopCode → Message → Update
terminal st code reason =
    Assign.status st ∷ Assign.stop_code (some code) ∷ Assign.stop_reason (some reason) ∷ []

unfoldable pub terminal_update : RunStatus → StopCode → Message → Result Update
unfolding is_blank_message
terminal_update st code reason = do
  raise_if (is_blank_message reason) (say "종료 사유는 비어 있을 수 없다")
  ok (terminal st code reason)

abbrev pub cycle_reset_update : Update
cycle_reset_update =
    Assign.last_planner_error none
    ∷ Assign.service_failure none
    ∷ Assign.program_ref none
    ∷ Assign.manifest none
    ∷ Assign.candidate_ref none
    ∷ Assign.figure_refs none
    ∷ Assign.review none
    ∷ Assign.validation_errors []
    ∷ Assign.error_streak none
    ∷ Assign.validation_warnings []
    ∷ Assign.static_repairs 0
    ∷ Assign.runtime_repairs 0
    ∷ []

-- `bool(goals) and not any(g.is_open for g in goals)`.
abbrev pub goals_closed : List SubGoal → Bool
goals_closed goals = not (is_empty goals) && not (any is_open goals)

abbrev pub all_goals_closed : State → Bool
all_goals_closed s = goals_closed s.sub_goals

-- The verdict on one record against the current dataset and profile.
applicability : Option ArtifactRef → Option DatasetProfile → DataLineage → DataApplicability
applicability none profile l = unknown
applicability (some dataset) none l =
    if l.dataset_sha256 == dataset.sha256 then exact_snapshot else unknown
applicability (some dataset) (some profile) l =
    if not (l.schema_fingerprint == profile.schema_fingerprint)
    then incompatible_schema
    else if l.dataset_sha256 == dataset.sha256
    then exact_snapshot
    else if l.schema_fingerprint == profile.schema_fingerprint
    then revalidation_required
    else unknown

unfoldable pub evidence_data_applicability : State → EvidenceRecord → DataApplicability
unfolding applicability
evidence_data_applicability s e = applicability s.dataset_ref s.profile e.data_lineage

targets_of_kind : RelationKind → List EvidenceRelation → List String
targets_of_kind k rs = map (λ r. r.target_evidence_id) (filter (λ r. eq_kind r.kind k) rs)

unfoldable pub superseded_evidence_ids : State → List String
unfolding targets_of_kind
superseded_evidence_ids s = targets_of_kind supersedes s.evidence_relations

unfoldable pub active_evidence : State → List EvidenceRecord
active_evidence s =
    filter (λ e. not (contains (superseded_evidence_ids s) e.evidence_id)) s.evidence

unfoldable pub current_evidence : State → List EvidenceRecord
current_evidence s = filter (λ e. is_exact (evidence_data_applicability s e)) (active_evidence s)

abbrev pub pending_agenda_tasks : State → List AgendaTask
pending_agenda_tasks s = filter (λ t. is_pending t.status) s.agenda

-- Below zero the budget is exceeded; `now` is `time.time()`.
abbrev pub remaining_seconds : ℕ → State → ℤ
remaining_seconds now s = sub_ℕ s.deadline_at now
