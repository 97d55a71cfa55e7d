-- ===== src/Tests/Execution.antt =====
-- The theorems on the execution subgraph, at a run whose result the critic accepts.
use analysis_loop.Orchestration.ReviewEvidence.{build_evidence}
use analysis_loop.Contracts.Analysis.{from_analysis}
use analysis_loop.Validation.Program.Tree.{
  parsed, Trees, no_trees, more, node, function, attribute, named,
}
use analysis_loop.Prelude.{
  pos, All, any, false, ◌∷◌, is_blank, ◌≡◌, ◌≢◌, ◌⊎◌, refl, true, none, some, [], ok, arith,
}
use analysis_loop.Json.{obj, int, field, end}
use analysis_loop.Contracts.Data.{ArtifactKind}
use analysis_loop.Contracts.Analysis.{predictor_columns}
use analysis_loop.Validation.Manifest.{structural_columns}
use analysis_loop.Validation.Results.{check_fields, non_finite_numbers, declared_issues}
use analysis_loop.Contracts.Runtime.{ServiceResult}
use analysis_loop.State.{State, Update, apply}
use analysis_loop.Orchestration.Execution.Codegen.{check_program}
use analysis_loop.Orchestration.Routes.{Node}
use analysis_loop.Orchestration.Execution.Deps.{Deps}
use analysis_loop.Orchestration.Execution.Graph.{
  Outcome, ended, out_of_steps, run, capture_execution_entry, export_execution_delta,
  apply_execution_delta,
}
use analysis_loop.Orchestration.Execution.Ends.{run_ends}
use analysis_loop.Orchestration.Execution.Accepted.{Committed, evidence_accepted}
use analysis_loop.Orchestration.Execution.Delta.{delta_round_trip}
use analysis_loop.Contracts.Agenda.{TaskKind, TaskStatus}
use analysis_loop.Contracts.Agenda.Validity.{IsConsistent}
use analysis_loop.Orchestration.Execution.Commit.{
  reject_attempt, rejected_attempt, rejection_reasons, is_claimed,
}
use analysis_loop.Orchestration.Execution.Released.{reject_outcome}
use analysis_loop.Orchestration.Execution.Agenda.{run-IsConsistent}
use analysis_loop.Tests.Data.{
  sample_hash, task_of, ref_of, sample_manifest, sample_review, intent_of, state_of, test_uuid,
}

abbrev answered : {A : Type 0} → A → ServiceResult A
answered a = record { value = some a; error = none; failure_kind = none; reason = none }

-- `def analyze(df): df.x`, in short.
abbrev pub sample_tree : Trees
sample_tree =
    more
      (node (function "analyze" 1)
        (more (node (attribute "x") (more (node (named "df") no_trees) no_trees)) no_trees))
      no_trees

abbrev pub sample_deps : Deps
sample_deps = record {
  host = record { uuid = test_uuid; casefold = λ text. text };
  intent_digest = λ p. p.question;
  transform_digest = λ p. sample_hash;
  evidence_id = "e3";
  load_validated_program = λ schema intent. none;
  codegen =
      some (λ intent profile errors.
        answered (record { manifest = sample_manifest; code = "main()" }));
  put_program = λ g. ref_of ArtifactKind.program "p";
  read_text = λ ref. ok "main()";
  read_json = λ ref. ok (obj (field "m" (int (pos 1)) end));
  print = λ message. "message";
  parse = λ code. parsed sample_tree;
  encoded_size = λ v. 10;
  sandbox = λ code dataset. record {
    refused_reason = none;
    ok = true;
    tail = "";
    figure_refs = [];
    result_ref = some (ref_of ArtifactKind.result "r");
  };
  critic = some (λ intent g payload findings warnings. answered sample_review);
}

abbrev start : State
start = record (state_of [] []) { intent = some (intent_of "t1") }

abbrev final_of : Outcome → State
final_of (ended f) = f
final_of _ = start

abbrev accepted_end : State
accepted_end = final_of (run 57 (λ _. sample_deps) 0 Node.lookup_program start)

accepted_end_lem : run 57 (λ _. sample_deps) 0 Node.lookup_program start ≡ ended accepted_end
unfolding run build_evidence from_analysis is_blank structural_columns check_program
    predictor_columns check_fields non_finite_numbers declared_issues
accepted_end_lem = refl

run_ends_example : run 57 (λ _. sample_deps) 0 Node.lookup_program start ≢ out_of_steps
run_ends_example = run_ends (λ _. sample_deps) 57 0 Node.lookup_program start (omega arith)

evidence_accepted_example : (accepted_end.evidence ≡ start.evidence) ⊎ Committed start accepted_end
evidence_accepted_example =
    evidence_accepted (λ _. sample_deps) 57 start accepted_end accepted_end_lem

delta_round_trip_example :
    (d : Update) × (export_execution_delta (capture_execution_entry start) accepted_end ≡ ok d)
    × (apply_execution_delta start d ≡ record accepted_end { execution_delta = none })
delta_round_trip_example =
    delta_round_trip (λ _. sample_deps) 57 start accepted_end accepted_end_lem

run-IsConsistent_example : All IsConsistent accepted_end.agenda
run-IsConsistent_example =
    run-IsConsistent (λ _. sample_deps) 57 start accepted_end (λ m. refl) accepted_end_lem tt

abbrev claimed : State
claimed = record start {
  agenda = task_of "t1" TaskKind.follow_up TaskStatus.in_progress ("e1" ∷ []) ∷ [];
}

reject_outcome_example :
    (u : Update) × (reject_attempt sample_deps claimed ≡ ok u)
    × ((apply claimed u).intent ≡ none)
    × ((apply claimed u).rejected
        ≡ rejected_attempt sample_deps claimed (intent_of "t1") (rejection_reasons [] none) ∷ [])
    × (any (is_claimed (intent_of "t1")) (apply claimed u).agenda ≡ false)
reject_outcome_example = reject_outcome sample_deps claimed (intent_of "t1") refl refl
