-- ===== src/Tests/Cycle.antt =====
-- A proposed intent and its execution.
use analysis_loop.Prelude.{
  ◌≡◌, ◌≢◌, refl, true, false, none, some, [], ◌∷◌, Result, ok, err, is_some,
}
use analysis_loop.Contracts.Runtime.{ServiceResult}
use analysis_loop.State.{State, Update, apply}
use analysis_loop.Orchestration.Routes.{Node}
use analysis_loop.Orchestration.Planning.Verdicts.{Verdict}
use analysis_loop.Orchestration.Planning.Nodes.{PlannerProposal, plan_intent}
use analysis_loop.Orchestration.Execution.Graph.{run, out_of_steps}
use analysis_loop.Orchestration.Cycle.{cycle_steps, cycle_ends}
use analysis_loop.Contracts.Agenda.{TaskKind, TaskStatus}
use analysis_loop.Tests.Data.{sample_profile, intent_of, state_of, task_of}
use analysis_loop.Tests.Execution.{sample_deps}

abbrev waiting : State
waiting = state_of (task_of "t1" TaskKind.follow_up TaskStatus.pending ("e1" ∷ []) ∷ []) []

abbrev no_news : Verdict
no_news = record {
  finished = false;
  converged = [];
  abandoned = [];
  unreviewed = [];
  closing_note = "";
}

abbrev offer : ServiceResult PlannerProposal
offer = record {
  value = some (record { intent = some (intent_of "t1"); verdict = no_news });
  error = none;
  failure_kind = none;
  reason = none;
}

abbrev update_of : Result Update → Update
update_of (ok u) = u
update_of (err e) = []

abbrev planned : Update
planned = update_of (plan_intent (λ p. p.question) (some offer) waiting)

planned_lem : plan_intent (λ p. p.question) (some offer) waiting ≡ ok planned
unfolding plan_intent
planned_lem = refl

planned_intent : is_some (apply waiting planned).intent ≡ true
unfolding plan_intent
planned_intent = refl

cycle_ends_example :
    run cycle_steps (λ _. sample_deps) 0 Node.lookup_program (apply waiting planned) ≢ out_of_steps
cycle_ends_example =
    cycle_ends (λ p. p.question) waiting sample_profile offer planned (λ _. sample_deps) refl
      planned_lem planned_intent
