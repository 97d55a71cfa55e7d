-- ===== src/Llm/Planner.antt =====
-- llm/planner_service.py: what the planner makes of the answers of its model.
use analysis_loop.Prelude.{
  String, Bool, true, not, ◌&&◌, Option, none, some, List, [], ◌∷◌, ◌++◌, length, if◌then◌else◌,
  ◌==◌, strip, Result, ok, ◌>>=◌, is_empty, ◌<>◌,
}
use analysis_loop.Prelude.Sets.{subset}
use analysis_loop.Json.{Json, Fields}
use analysis_loop.Contracts.Planning.{SubGoal, ResearchIntent}
use analysis_loop.Contracts.Runtime.{ServiceResult, FailureKind}
use analysis_loop.Orchestration.Planning.Verdicts.{Verdict}
use analysis_loop.Orchestration.Planning.Nodes.{PlannerProposal}
use analysis_loop.Llm.Calls.{Answer, answered, refused, cut, fail, failure_kind}
use analysis_loop.Llm.Goals.{text_at, goal_verdict, parse_goals, open_ids}

abbrev pub failed_as {ℓ} : {A : Type ℓ} → Option A → String → FailureKind → ServiceResult A
failed_as value message kind = record {
  value = value;
  error = some message;
  failure_kind = some kind;
  reason = none;
}

abbrev pub given {ℓ} : {A : Type ℓ} → A → Option String → ServiceResult A
given value reason = record {
  value = some value;
  error = none;
  failure_kind = none;
  reason = reason;
}

abbrev new_goals : List SubGoal → ServiceResult (List SubGoal)
new_goals [] = record {
  value = some [];
  error = some "유효한 목표 축이 없다";
  failure_kind = none;
  reason = none;
}
new_goals (g ∷ gs) = given (g ∷ gs) none

abbrev more_goals : Option String → List SubGoal → ServiceResult (List SubGoal)
more_goals reason [] =
    failed_as none "decision=expand인데 유효한 새 목표 축이 없다" FailureKind.response_invalid
more_goals reason (g ∷ gs) = given (g ∷ gs) reason

abbrev text_or_none : String → Option String
text_or_none s = if s == "" then none else some s

-- Every open goal is closed by the verdict, and there is one.
abbrev pub closes_all : Verdict → List String → Bool
closes_all v ids = not (is_empty ids) && subset ids (v.converged ++ v.abandoned)

abbrev pub proposal : Option ResearchIntent → Verdict → PlannerProposal
proposal intent verdict = record { intent = intent; verdict = verdict }

unfoldable pub without_question : Verdict → List SubGoal → ServiceResult PlannerProposal
without_question verdict goals =
    if closes_all verdict (open_ids goals)
    then given (proposal none (record verdict { finished = true })) none
    else failed_as (some (proposal none verdict)) "플래너 응답에 question이 비어 있다 — goal_review만 왔다"
        FailureKind.response_invalid

unfoldable pub with_question : Verdict → Answer ResearchIntent → ServiceResult PlannerProposal
unfolding failure_kind
with_question verdict (answered intent) = given (proposal (some intent) verdict) none
with_question verdict (refused e) =
    failed_as (some (proposal none verdict)) (cut 400 ("연구 의도 응답 계약 위반: " <> e.text))
      (failure_kind e.raised)

-- `to_text` and `lower` are str and str.lower; `read_intent` stands for the two validations of an
-- intent by its model, without the id that the answer gives.
module _ (to_text : Json → String) (lower : String → String)
    (read_intent : Fields → Answer ResearchIntent) where
  -- `decompose_objective`, behind the answer.
  unfoldable pub decompose : Answer Fields → Result (ServiceResult (List SubGoal))
  unfolding fail parse_goals
  decompose (refused e) = ok (fail e none)
  decompose (answered raw) = parse_goals to_text lower raw 0 >>= λ goals. ok (new_goals goals)

  abbrev decision_of : Fields → String
  unfolding text_at strip
  decision_of raw = lower (strip (text_at to_text lower "decision" raw))

  abbrev expansion_reason : Fields → Option String
  unfolding text_at strip
  expansion_reason raw = text_or_none (cut 400 (strip (text_at to_text lower "reason" raw)))

  -- `expand_goals`, behind the answer.
  unfoldable pub expand : List SubGoal → Answer Fields → Result (ServiceResult (List SubGoal))
  unfolding fail parse_goals text_at strip
  expand existing (refused e) = ok (fail e none)
  expand existing (answered raw) =
      if decision_of raw == "stop"
      then ok (given [] (expansion_reason raw))
      else if not (decision_of raw == "expand")
      then ok (failed_as none "확장 응답에 decision=expand|stop이 없다" FailureKind.response_invalid)
      else parse_goals to_text lower raw (length existing) >>= λ goals.
          ok (more_goals (expansion_reason raw) goals)

  abbrev pub asks : Fields → Bool
  unfolding text_at strip
  asks raw = not (strip (text_at to_text lower "question" raw) == "")

  -- `propose_intent`, behind the answer.
  unfoldable pub propose : List SubGoal → Answer Fields → Result (ServiceResult PlannerProposal)
  unfolding fail goal_verdict without_question with_question text_at strip
  propose goals (refused e) = ok (fail e none)
  propose goals (answered raw) = goal_verdict to_text lower raw goals >>= λ verdict.
      ok (
        if asks raw
        then with_question verdict (read_intent raw)
        else without_question verdict goals)
