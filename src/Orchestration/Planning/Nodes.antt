-- ===== src/Orchestration/Planning/Nodes.antt =====
-- orchestration/nodes/planning.py: the nodes that set an intent, and those that answer one without code.
use analysis_loop.Prelude.{
  ◌+◌, String, Bool, true, false, not, ◌&&◌, Option, none, some, List, [], ◌∷◌, ◌++◌, map, any,
  opt_eq, truthy, Result, ok, err, ◌>>=◌, ◌>>◌, require, raise_if, assert, ltb, if◌then◌else◌, say,
  lit, arg, ◌==◌, strip, key_error,
}
use analysis_loop.Prelude.Sets.{unique}
use analysis_loop.Contracts.Base.{is_exact}
use analysis_loop.Contracts.Planning.{ResearchIntent, IntentPayload, ExecutionMode, SubGoal}
use analysis_loop.Contracts.Agenda.{AgendaTask, TaskStatus}
use analysis_loop.Contracts.Data.{DatasetProfile}
use analysis_loop.Contracts.Evidence.{EvidenceRecord}
use analysis_loop.Contracts.Runtime.{
  failed, StopCode, is_service_unavailable, ServiceResult, Role, FailureKind,
}
use analysis_loop.State.{
  State, Assign, Update, apply, terminal, cycle_reset_update, current_evidence,
  pending_agenda_tasks, evidence_data_applicability,
}
use analysis_loop.Orchestration.ReviewEvidence.{by_id}
use analysis_loop.Orchestration.Planning.Verdicts.{Verdict, apply_goal_verdict, goal_progress}
use analysis_loop.Orchestration.Planning.IntentPolicy.{is_compute}
use analysis_loop.Orchestration.Planning.Decisions.{no_intent, rejected_intent}

pub record PlannerProposal : Type 0 where
  pub intent : Option ResearchIntent
  pub verdict : Verdict

abbrev no_verdict : Verdict
no_verdict = record {
  finished = false;
  converged = [];
  abandoned = [];
  unreviewed = [];
  closing_note = "";
}

abbrev pub verdict_of : Option PlannerProposal → Verdict
verdict_of none = no_verdict
verdict_of (some p) = p.verdict

abbrev pub proposed_intent : Option PlannerProposal → Option ResearchIntent
proposed_intent none = none
proposed_intent (some p) = p.intent

-- A task that the intent takes up.
abbrev pub claim : ResearchIntent → AgendaTask → AgendaTask
claim intent t =
    if opt_eq (some t.task_id) intent.task_id
    then record t {
      status = TaskStatus.in_progress;
      selected_intent_id = some intent.intent_id;
      attempt_count = t.attempt_count + 1;
    }
    else t

claim_update : State → ResearchIntent → Update
claim_update s intent =
    if truthy intent.task_id && is_compute intent.execution_mode
    then Assign.agenda (map (claim intent) s.agenda) ∷ []
    else []

abbrev is_lookup : ExecutionMode → Bool
is_lookup ExecutionMode.lookup_evidence = true
is_lookup _ = false

-- The update with an accepted intent.
unfoldable pub accept_intent : State → ResearchIntent → Update → Update
unfolding claim_update
accept_intent s intent goals =
    cycle_reset_update
    ++ (goals
        ++ (Assign.intent (some intent)
            ∷ Assign.iteration (s.iteration + 1)
            ∷ (claim_update s intent
                ++ (if is_lookup intent.execution_mode
                    then []
                    else Assign.evidence_lookup_summary [] ∷ []))))

-- `decision.update["service_failure"]`, when the stop code is that of a missing service.
unfoldable pub with_failure : Option StopCode → Option String → Option FailureKind → Update → Update
with_failure none error kind u = u
with_failure (some code) error kind u =
    if is_service_unavailable code
    then u
      ++ Assign.service_failure (
          some (record {
            role = Role.planner;
            kind = kind;
            message = elim error [ none ↦ "planner 실패" | some e ↦ e ];
          }))
        ∷ []
    else u

-- The stop code that an update sets, none if it sets none.
abbrev pub stop_code_of : State → Update → Option StopCode
stop_code_of s u = (apply (record s { stop_code = none }) u).stop_code

-- A proposed intent: refused, or accepted.
unfoldable pub with_intent :
    (IntentPayload → String)
    → State
    → DatasetProfile
    → List SubGoal
    → Update
    → ResearchIntent
    → Update
unfolding rejected_intent accept_intent
with_intent digest s profile updated goals intent =
    elim (rejected_intent digest s intent profile updated goals) [
      | some u ↦ u
      | none ↦ accept_intent s intent goals
    ]

-- An answer without an intent.
unfoldable pub without_intent :
    State → List SubGoal → Update → ServiceResult PlannerProposal → Update
unfolding no_intent with_failure
without_intent s updated goals result =
    let u = no_intent s (verdict_of result.value) updated goals result.error result.failure_kind in
    with_failure (stop_code_of s u) result.error result.failure_kind u

-- `plan_intent`, behind the planner's answer.
unfoldable pub answer_planner :
    (IntentPayload → String) → State → DatasetProfile → ServiceResult PlannerProposal → Update
unfolding goal_progress apply_goal_verdict with_intent without_intent
answer_planner digest s profile result =
    let verdict = verdict_of result.value in
    let evidence = current_evidence s in
    let pending = pending_agenda_tasks s in
    let goals = goal_progress verdict evidence s.rejected pending s.sub_goals in
    let updated = apply_goal_verdict verdict evidence s.rejected pending s.sub_goals in
    elim (proposed_intent result.value) [
      | none ↦ without_intent s updated goals result
      | some intent ↦ with_intent digest s profile updated goals intent
    ]

-- The context that the planner is given is left out: its answer is an argument, none without a planner.
unfoldable pub plan_intent :
    (IntentPayload → String) → Option (ServiceResult PlannerProposal) → State → Result Update
unfolding answer_planner
plan_intent digest planner s = do
  profile ← require s.profile
  elim planner [
    | none ↦ ok (terminal failed StopCode.service_unavailable (say "planner LLM이 없다"))
    | some result ↦ ok (answer_planner digest s profile result)
  ]

abbrev is_reuse : ExecutionMode → Bool
is_reuse ExecutionMode.reuse_evidence = true
is_reuse _ = false

abbrev is_mark_limited : ExecutionMode → Bool
is_mark_limited ExecutionMode.mark_data_limited = true
is_mark_limited _ = false

-- `[evidence_by_id[id] for id in ids]`.
select : List EvidenceRecord → List String → Result (List EvidenceRecord)
unfolding by_id
select evidence [] = ok []
select evidence (id ∷ ids) =
    let rest = select evidence ids in
    elim (by_id evidence id none) [
      | none ↦ err (key_error id)
      | some e ↦ rest >>= λ es. ok (e ∷ es)
    ]

abbrev reuse_in : String → List String → SubGoal → SubGoal
reuse_in goal ids g =
    if g.goal_id == goal then record g { evidence_ids = unique (g.evidence_ids ++ ids) } else g

unfoldable pub reuse_evidence : State → Result Update
unfolding select unique
reuse_evidence s = do
  intent ← require s.intent
  assert (is_reuse intent.execution_mode)
  goal ← require intent.goal_id
  selected ← select s.evidence intent.reuse_evidence_ids
  raise_if (any (λ e. not (is_exact (evidence_data_applicability s e))) selected)
      (say "현재 데이터 스냅샷에 직접 재사용할 수 없는 Evidence")
  ok (
      Assign.sub_goals (map (reuse_in goal intent.reuse_evidence_ids) s.sub_goals)
      ∷ Assign.intent none
      ∷ [])

-- `intent.rationale.strip() or intent.question`.
unfoldable pub limit_reason : ResearchIntent → String
unfolding strip
limit_reason intent =
    if strip intent.rationale == "" then intent.question else strip intent.rationale

unfoldable pub limit : String → String → AgendaTask → AgendaTask
limit id reason t =
    if t.task_id == id
    then record t {
      status = TaskStatus.data_limited;
      selected_intent_id = none;
      resolution_reason = reason;
    }
    else t

unfoldable pub mark_data_limited : State → Result Update
unfolding limit limit_reason
mark_data_limited s = do
  intent ← require s.intent
  assert (is_mark_limited intent.execution_mode)
  id ← require intent.task_id
  raise_if (any (λ t. t.task_id == id && ltb t.attempt_count 1) s.agenda)
      (say "시도하지 않은 Agenda 작업은 data_limited로 닫을 수 없다")
  raise_if (not (any (λ t. t.task_id == id) s.agenda)) (lit "Agenda task를 찾을 수 없다: " ∷ arg id ∷ [])
  ok (Assign.agenda (map (limit id (limit_reason intent)) s.agenda) ∷ Assign.intent none ∷ [])
