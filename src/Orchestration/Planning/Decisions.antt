-- ===== src/Orchestration/Planning/Decisions.antt =====
-- orchestration/nodes/planner_decision.py: what happens without an intent, or with a refused one. The
-- events are left out.
use analysis_loop.Prelude.{
  ℕ, String, Bool, not, ◌&&◌, Option, none, some, List, [], ◌∷◌, ◌++◌, map, any, take, truthy,
  Result, ok, err, Error, value_error, ltb, if◌then◌else◌, is_empty, Message, say, lit, arg, strs,
  num, ◌==◌, opt_eq,
}
use analysis_loop.Prelude.Sets.{contains}
use analysis_loop.Contracts.Data.{DatasetProfile}
use analysis_loop.Contracts.Planning.{
  ResearchIntent, IntentPayload, ExecutionMode, SubGoal, is_open, dedupe_key,
}
use analysis_loop.Contracts.Agenda.{AgendaTask}
use analysis_loop.Contracts.Runtime.{failed, StopCode, FailureKind}
use analysis_loop.State.{State, Assign, Update, ErrorRecord, terminal, pending_agenda_tasks}
use analysis_loop.Validation.References.{validate_intent_references}
use analysis_loop.Orchestration.FailurePolicy.{stops_run}
use analysis_loop.Orchestration.Shared.{stuck_threshold, bump_error_streak, streak_count}
use analysis_loop.Orchestration.Planning.Verdicts.{Verdict}
use analysis_loop.Orchestration.Planning.IntentPolicy.{
  text_or_empty, Refusal, agenda_intent_error, repeated_action_error, reuse_evidence_error,
}

abbrev pub no_intent_code : String
no_intent_code = "planner_no_intent"

abbrev pub no_intent_errors : List ErrorRecord
no_intent_errors = record { code = no_intent_code; message = "" } ∷ []

abbrev or_none : Option Message → List Message
or_none none = []
or_none (some m) = m ∷ []

-- The end of a run whose planner has failed `count` times.
planner_stuck : State → ℕ → List Message → Update
planner_stuck s count messages =
    Assign.issues (
      record {
        label = no_intent_code;
        count = count;
        iteration = s.iteration;
        intent_id = none;
        question = "";
        messages = messages;
      }
      ∷ [])
    ∷ terminal failed StopCode.planner_stuck
        (lit "플래너가 " ∷ num count ∷ lit "회 연속 분석 의도를 만들지 못했다" ∷ [])

-- `stalled`: one more failure of the planner; the fifth in a row ends the run.
unfoldable pub stalled : State → Update → Message → Option Message → Update
unfolding planner_stuck
stalled s goals reason planner_error =
    let streak = bump_error_streak s no_intent_errors in
    goals
    ++ (Assign.intent none
        ∷ Assign.error_streak streak
        ∷ Assign.last_planner_error planner_error
        ∷ (if ltb (streak_count streak) stuck_threshold
            then []
            else planner_stuck s (streak_count streak) (take 2 (reason ∷ or_none planner_error))))

-- A planner that failed, by the kind of the failure.
unfoldable pub planner_failed : State → Update → Option FailureKind → String → Update
unfolding stalled
planner_failed s goals kind reason =
    if stops_run kind
    then goals
      ++ (Assign.intent none
          ∷ terminal failed StopCode.service_unavailable (lit "planner 실패: " ∷ arg reason ∷ []))
    else stalled s goals (say "플래너 응답이 계약을 어겼다") (some (say reason))

-- `if not reason`.
unfoldable pub failure_update : State → Update → Option String → Option FailureKind → Update
unfolding planner_failed stalled
failure_update s goals none kind = stalled s goals (say "플래너가 의도를 내지 않았다") none
failure_update s goals (some reason) kind =
    if truthy (some reason)
    then planner_failed s goals kind reason
    else stalled s goals (say "플래너가 의도를 내지 않았다") none

-- `no_intent`.
unfoldable pub no_intent :
    State → Verdict → List SubGoal → Update → Option String → Option FailureKind → Update
unfolding failure_update stalled
no_intent s verdict updated_goals goals reason kind =
    if verdict.finished && not (any is_open updated_goals)
    then if not (is_empty (pending_agenda_tasks s))
      then stalled s goals (say "미해결 Agenda 작업이 남아 있는데 종료를 선언했다") (
          some (
            lit "pending task를 먼저 처리하라: "
            ∷ strs (map (λ t. t.task_id) (take 3 (pending_agenda_tasks s)))
            ∷ []))
      else goals ++ (Assign.intent none ∷ Assign.last_planner_error none ∷ [])
    else failure_update s goals reason kind

-- `pending.get(task_id)`: the last task with the id.
unfoldable pub last_task : String → List AgendaTask → Option AgendaTask → Option AgendaTask
last_task id [] found = found
last_task id (t ∷ ts) found = last_task id ts (if t.task_id == id then some t else found)

abbrev error_text : Error → Message
error_text (value_error m) = m
error_text _ = []

reference_error : Result (Unit {0}) → Refusal
reference_error (ok _) = none
reference_error (err e) = some (say "의도가 없는 것을 참조했다", lit "참조 오류로 거부됨: " ∷ error_text e)

-- The task that the intent works on.
task_error : State → ResearchIntent → String → Refusal
unfolding last_task agenda_intent_error
task_error s intent id = elim (last_task id (pending_agenda_tasks s) none) [
  | none ↦
      some (say "존재하지 않거나 이미 완료된 Agenda 작업을 선택했다", lit "task_id=" ∷ arg id ∷ lit "를 다시 선택하라" ∷ [])
  | some task ↦ agenda_intent_error task intent
]

agenda_error : State → ResearchIntent → Option String → Refusal
unfolding task_error
agenda_error s intent none = none
agenda_error s intent (some id) = if truthy (some id) then task_error s intent id else none

-- The goal was closed by the verdict of the same answer.
targets_closed : ResearchIntent → List SubGoal → Update → Bool
targets_closed intent updated_goals goals =
    truthy intent.goal_id
    && not (is_empty goals)
    && any (λ g. not (is_open g) && opt_eq (some g.goal_id) intent.goal_id) updated_goals

mode_error : ExecutionMode → State → ResearchIntent → Refusal
unfolding reuse_evidence_error
mode_error ExecutionMode.reuse_evidence s intent = reuse_evidence_error s intent
mode_error _ s intent = none

infixr 4 ◌or_else◌
-- The first refusal.
abbrev ◌or_else◌ : Refusal → Refusal → Refusal
none or_else r = r
some e or_else r = some e

-- The checks of `rejected_intent`, in order.
unfoldable pub intent_error :
    (IntentPayload → String)
    → State
    → ResearchIntent
    → DatasetProfile
    → List SubGoal
    → Update
    → Refusal
unfolding reference_error validate_intent_references agenda_error repeated_action_error
    targets_closed mode_error dedupe_key
intent_error digest s intent profile updated_goals goals =
    reference_error
      (validate_intent_references intent profile s.sub_goals (map (λ e. e.evidence_id) s.evidence))
    or_else agenda_error s intent intent.task_id
    or_else repeated_action_error s intent
    or_else (if targets_closed intent updated_goals goals
        then some (
          say "닫힌 축을 다시 겨냥했다",
          lit "방금 응답이 이미 판정으로 닫힌 축 "
              ∷ arg (text_or_empty intent.goal_id)
              ∷ lit "를 다시 겨냥했다. 아직 열려 있는 다른 축을 고르거나 goal_id를 비워라"
              ∷ [],
        )
        else none)
    or_else mode_error intent.execution_mode s intent
    or_else (if contains s.coverage.tested_dedupe_keys (dedupe_key digest intent)
        then some (
          say "같은 분석을 다시 제안했다",
          lit "직전과 같은 분석을 다시 제안했다(중복): "
              ∷ arg intent.question
              ∷ lit ". 이미 다룬 목적·축·컬럼 조합이다. 다른 각도를 골라라"
              ∷ [],
        )
        else none)

-- `rejected_intent`: none accepts the intent.
unfoldable pub rejected_intent :
    (IntentPayload → String)
    → State
    → ResearchIntent
    → DatasetProfile
    → List SubGoal
    → Update
    → Option Update
unfolding intent_error stalled
rejected_intent digest s intent profile updated_goals goals =
    elim (intent_error digest s intent profile updated_goals goals) [
      | none ↦ none
      | some (reason, advice) ↦ some (stalled s goals reason (some advice))
    ]
