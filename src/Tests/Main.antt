-- ===== src/Tests/Main.antt =====
-- The budgets of a run of the main graph: the planner proposes one intent, and its execution is accepted.
use analysis_loop.Orchestration.ReviewEvidence.{build_evidence}
use analysis_loop.Contracts.Analysis.{from_analysis}
use analysis_loop.Prelude.{
  ◌≡◌, refl, ◌≤◌, false, some, none, [], ◌∷◌, Result, ok, err, length, is_blank,
}
use analysis_loop.Json.{null}
use analysis_loop.Contracts.Data.{ArtifactKind}
use analysis_loop.Contracts.Analysis.{predictor_columns}
use analysis_loop.Validation.Manifest.{structural_columns}
use analysis_loop.Validation.Results.{check_fields, non_finite_numbers, declared_issues}
use analysis_loop.Contracts.Planning.{ResearchIntent, IntentPurpose}
use analysis_loop.Contracts.Runtime.{ServiceResult}
use analysis_loop.State.{State, new_state}
use analysis_loop.Orchestration.Execution.Codegen.{check_program}
use analysis_loop.Orchestration.Routes.{Node}
use analysis_loop.Orchestration.Progress.{max_goal_expansions}
use analysis_loop.Orchestration.Planning.Nodes.{PlannerProposal}
use analysis_loop.Orchestration.Main.Graph.{Answers, here, Run, run_main, main_node, main_next}
use analysis_loop.Orchestration.Main.Budget.{budgets_hold}
use analysis_loop.Orchestration.ReviewEvidence.{relations_after_commit}
use analysis_loop.Tests.Data.{ref_of, sample_profile, sample_review, intent_of, state_of, test_uuid}
use analysis_loop.Tests.Execution.{sample_deps}

abbrev first_intent : ResearchIntent
first_intent = record (intent_of "t1") {
  parent_evidence_ids = [];
  task_id = none;
  goal_id = none;
  purpose = IntentPurpose.explore;
}

abbrev proposal : ServiceResult PlannerProposal
proposal = record {
  value = some (record {
    intent = some first_intent;
    verdict = record {
      finished = false;
      converged = [];
      abandoned = [];
      unreviewed = [];
      closing_note = "";
    };
  });
  error = none;
  failure_kind = none;
  reason = none;
}

abbrev answers : Answers
answers = record {
  now = 0;
  later = 0;
  uuid = test_uuid;
  profile_of = λ ref. ok sample_profile;
  put_profile = λ p. ref_of ArtifactKind.profile "profile";
  intent_digest = λ p. p.question;
  goals = none;
  planner = some proposal;
  expansion = none;
  inspect = λ ref columns. null;
  put_inspection = λ v. ref_of ArtifactKind.inspection "inspection";
  steps = 57;
  world = λ n. record sample_deps {
    critic = some (λ intent g payload findings warnings. record {
      value = some (record sample_review { contradicts = []; revalidates = [] });
      error = none;
      failure_kind = none;
      reason = none;
    });
  };
}

abbrev created : Result State
created = new_state 0 "run" "o" (ref_of ArtifactKind.dataset "d") 3 600

abbrev state_or : Result State → State
state_or (ok s) = s
state_or (err e) = state_of [] []

abbrev first_state : State
first_state = state_or created

created_lem : created ≡ ok first_state
unfolding new_state
created_lem = refl

abbrev after_execution : Run (Node.profile_data, first_state)
after_execution =
    run_main (record { place = (Node.profile_data, first_state); reach = here })
      (answers ∷ answers ∷ answers ∷ answers ∷ [])

budgets_hold_example :
    let s = after_execution.place.1 in
    (s.iteration ≤ s.max_iterations)
    × (s.goal_expansions ≤ max_goal_expansions)
    × (length s.evidence ≤ s.iteration)
budgets_hold_example =
    budgets_hold 0 "run" "o" (ref_of ArtifactKind.dataset "d") 3 600 first_state
      {at = after_execution.place.0} {s = after_execution.place.1} created_lem after_execution.reach

one_evidence : length after_execution.place.1.evidence ≡ 1
unfolding run_main build_evidence from_analysis main_node new_state main_next structural_columns
    check_program predictor_columns is_blank check_fields non_finite_numbers declared_issues
    relations_after_commit
one_evidence = refl
