-- ===== src/Orchestration/Planning/Idle.antt =====
-- orchestration/nodes/planner_decision.py: an answer that sets no intent.
use analysis_loop.Prelude.{
  ◌≡◌, String, Bool, Option, none, some, List, [], ◌∷◌, ◌++◌, arith, any, truthy, subst, sym,
  if_elim, not, is_empty, lit, arg, say, ◌&&◌, if◌then◌else◌, Message,
}
use analysis_loop.Contracts.Planning.{is_open, SubGoal}
use analysis_loop.Contracts.Runtime.{
  failed, StopCode, is_service_unavailable, ServiceResult, ServiceFailure, FailureKind,
}
use analysis_loop.State.{terminal, State, Assign, Update, apply, pending_agenda_tasks}
use analysis_loop.State.Updates.{apply-append}
use analysis_loop.Orchestration.FailurePolicy.{stops_run}
use analysis_loop.Orchestration.Planning.Decisions.{
  planner_failed, failure_update, stalled, no_intent,
}
use analysis_loop.Orchestration.Planning.Verdicts.{Verdict}
use analysis_loop.Orchestration.Planning.Nodes.{
  with_failure, stop_code_of, PlannerProposal, verdict_of, without_intent,
}

-- The update of the goals, when there is one.
abbrev pub goals_if : Bool → List SubGoal → Update
goals_if b goals = if b then Assign.sub_goals goals ∷ [] else []

-- No intent is set; the iteration, the agenda, the evidence and the count of expansions stay.
abbrev pub NoIntent : State → State → Type 0
NoIntent s t =
    (t.intent ≡ none)
    × (t.iteration ≡ s.iteration)
    × (t.agenda ≡ s.agenda)
    × (t.evidence ≡ s.evidence)
    × (t.goal_expansions ≡ s.goal_expansions)
    × (t.max_iterations ≡ s.max_iterations)

pub stalled-NoIntent :
    (s : State) (b : Bool) (goals : List SubGoal) (reason : Message) (advice : Option Message)
    → NoIntent s (apply s (stalled s (goals_if b goals) reason advice))
unfolding stalled
stalled-NoIntent s b goals reason advice = ground arith

stopped-NoIntent :
    (s : State) (b : Bool) (goals : List SubGoal) (message : Message)
    → NoIntent s (
        apply s (
          goals_if b goals
          ++ (Assign.intent none ∷ terminal failed StopCode.service_unavailable message)))
stopped-NoIntent s b goals message = ground arith

finished-NoIntent :
    (s : State) (b : Bool) (goals : List SubGoal)
    → NoIntent s
        (apply s (goals_if b goals ++ (Assign.intent none ∷ Assign.last_planner_error none ∷ [])))
finished-NoIntent s b goals = ground arith

module _ (s : State) (b : Bool) (goals : List SubGoal) where
  abbrev Keeps : Update → Type 0
  Keeps u = NoIntent s (apply s u)

  failed-NoIntent :
      (kind : Option FailureKind) (reason : String)
      → Keeps (planner_failed s (goals_if b goals) kind reason)
  unfolding planner_failed
  failed-NoIntent kind reason =
      if_elim Keeps (stops_run kind) _ _
        (λ stops. stopped-NoIntent s b goals (lit "planner 실패: " ∷ arg reason ∷ []))
        (λ goes. stalled-NoIntent s b goals (say "플래너 응답이 계약을 어겼다") (some (say reason)))

  failure-NoIntent :
      (reason : Option String) (kind : Option FailureKind)
      → Keeps (failure_update s (goals_if b goals) reason kind)
  unfolding failure_update
  failure-NoIntent none kind = stalled-NoIntent s b goals (say "플래너가 의도를 내지 않았다") none
  failure-NoIntent (some reason) kind =
      if_elim Keeps (truthy (some reason)) (planner_failed s (goals_if b goals) kind reason)
        (stalled s (goals_if b goals) (say "플래너가 의도를 내지 않았다") none)
        (λ given. failed-NoIntent kind reason)
        (λ blank. stalled-NoIntent s b goals (say "플래너가 의도를 내지 않았다") none)

  no_intent-NoIntent :
      (verdict : Verdict) (updated : List SubGoal) (reason : Option String)
      (kind : Option FailureKind)
      → Keeps (no_intent s verdict updated (goals_if b goals) reason kind)
  unfolding no_intent
  no_intent-NoIntent verdict updated reason kind =
      if_elim Keeps (verdict.finished && not (any is_open updated)) _
        (failure_update s (goals_if b goals) reason kind)
        (λ done.
          if_elim Keeps (not (is_empty (pending_agenda_tasks s))) _ _
            (λ busy. stalled-NoIntent s b goals _ _) (λ idle. finished-NoIntent s b goals))
        (λ open_goals. failure-NoIntent reason kind)

  failure_added :
      (u : Update) (v : Option ServiceFailure)
      → Keeps u
      → Keeps (u ++ Assign.service_failure v ∷ [])
  failure_added u v h =
      subst (NoIntent s) (sym (apply-append s u (Assign.service_failure v ∷ []))) h

  with_failure-NoIntent :
      (code : Option StopCode) (error : Option String) (kind : Option FailureKind) (u : Update)
      → Keeps u
      → Keeps (with_failure code error kind u)
  unfolding with_failure
  with_failure-NoIntent none error kind u h = h
  with_failure-NoIntent (some code) error kind u h =
      if_elim Keeps (is_service_unavailable code) _ u (λ gone. failure_added u _ h) (λ there. h)

  pub without-NoIntent :
      (updated : List SubGoal) (result : ServiceResult PlannerProposal)
      → Keeps (without_intent s updated (goals_if b goals) result)
  unfolding without_intent
  without-NoIntent updated result =
      let u =
        no_intent s (verdict_of result.value) updated (goals_if b goals) result.error
          result.failure_kind in
      with_failure-NoIntent (stop_code_of s u) result.error result.failure_kind u
        (no_intent-NoIntent (verdict_of result.value) updated result.error result.failure_kind)
