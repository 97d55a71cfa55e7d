-- ===== src/Tests/Validation.antt =====
-- The theorems on the checks of programs, results and numbers, at a program with one effect.
use analysis_loop.Orchestration.ReviewEvidence.{build_evidence}
use analysis_loop.Contracts.Analysis.{from_analysis}
use analysis_loop.Prelude.{
  ◌≡◌, ◌↔◌, ◌++◌, refl, ℕ, String, true, false, some, none, [], ◌∷◌, Result, ok, err, pos, Message,
  is_blank,
}
use analysis_loop.Json.{Json, finite, obj, int, bool, str, field, end}
use analysis_loop.Contracts.Data.{ArtifactRef, ArtifactKind}
use analysis_loop.Contracts.Analysis.{GeneratedAnalysis, predictor_columns}
use analysis_loop.Contracts.Evidence.{EvidenceRecord, EffectEstimate, PathPart}
use analysis_loop.Contracts.Review.{CriticReview}
use analysis_loop.State.{State, Update, apply}
use analysis_loop.Validation.Issues.{passes, issue}
use analysis_loop.Validation.Manifest.{check_manifest, structural_columns}
use analysis_loop.Validation.Manifest.Sound.{IsSound, check_manifest_iff}
use analysis_loop.Validation.Results.{
  check_result, check_fields, non_finite_numbers, declared_issues,
}
use analysis_loop.Validation.Results.Conformant.{IsConformant, check_result_iff}
use analysis_loop.Validation.Numeric.{bind_review_to_result}
use analysis_loop.Validation.Numeric.Bound.{IsBound, bind_review_to_result-IsBound}
use analysis_loop.Orchestration.Execution.Deps.{Deps, load_generated}
use analysis_loop.Orchestration.Execution.Codegen.{check_program, validate_code}
use analysis_loop.Orchestration.Execution.Running.{validate_result}
use analysis_loop.Orchestration.Execution.Commit.{commit_evidence}
use analysis_loop.Orchestration.Execution.Graph.{next}
use analysis_loop.Orchestration.Execution.Checked.{Passed, executed_checked, judged_conforms}
use analysis_loop.Orchestration.Execution.Numbers.{IsGrounded, commit_evidence-IsGrounded}
use analysis_loop.Tests.Data.{
  ref_of, sample_profile, sample_manifest, sample_review, intent_of, state_of,
}
use analysis_loop.Validation.Issues.{passes}
use analysis_loop.Validation.Program.Tree.{
  parsed, Trees, no_trees, more, node, function, imports, other_node,
}
use analysis_loop.Validation.Program.Lint.{lint_program}
use analysis_loop.Validation.Program.Clean.{IsClean, lint_program_iff}
use analysis_loop.Tests.Execution.{sample_deps}

abbrev show : Message → String
show m = "message"

abbrev size : Json → ℕ
size v = 10

abbrev effect_there : Json
effect_there = obj (
    field "column" (str "x") (
      field "metric" (str "mean")
        (field "value" (int (pos 1)) (field "directional" (bool false) end))))

abbrev result_there : Json
result_there = obj (field "m" (int (pos 1)) (field "e" effect_there end))

abbrev effect_claimed : EffectEstimate
effect_claimed = record {
  column = "x";
  metric = "mean";
  value = finite (pos 2) 1;
  directional = false;
  unit = none;
  source_path = some (PathPart.key "e" ∷ []);
}

abbrev review_claimed : CriticReview
review_claimed = record sample_review { effect_summary = effect_claimed ∷ [] }

abbrev review_of : Result CriticReview → CriticReview
review_of (ok r) = r
review_of (err e) = review_claimed

abbrev review_bound : CriticReview
review_bound = review_of (bind_review_to_result review_claimed result_there)

bound_lem : bind_review_to_result review_claimed result_there ≡ ok review_bound
unfolding bind_review_to_result
bound_lem = refl

bind_review_to_result-IsBound_example : IsBound review_claimed result_there review_bound
bind_review_to_result-IsBound_example =
    bind_review_to_result-IsBound review_claimed review_bound result_there bound_lem

check_manifest_iff_example :
    (passes (check_manifest show sample_manifest (intent_of "t1") sample_profile) ≡ true)
    ↔ IsSound sample_manifest (intent_of "t1") sample_profile
check_manifest_iff_example = check_manifest_iff show sample_manifest (intent_of "t1") sample_profile

check_result_iff_example :
    (passes (check_result show size result_there sample_manifest) ≡ true)
    ↔ IsConformant size sample_manifest result_there
check_result_iff_example = check_result_iff show size result_there sample_manifest

abbrev deps_there : Deps
deps_there = record sample_deps { read_json = λ ref. ok result_there }

abbrev running : State
running = record (state_of [] []) {
  intent = some (intent_of "t1");
  program_ref = some (ref_of ArtifactKind.program "p");
  manifest = some sample_manifest;
  candidate_ref = some (ref_of ArtifactKind.result "r");
  review = some review_claimed;
}

abbrev update_of : Result Update → Update
update_of (ok u) = u
update_of (err e) = []

abbrev code_update : Update
code_update = update_of (validate_code deps_there running)

code_lem : validate_code deps_there running ≡ ok code_update
unfolding validate_code
code_lem = refl

executed_checked_example : Passed deps_there running
unfolding validate_code structural_columns check_program predictor_columns next is_blank
executed_checked_example = executed_checked deps_there running code_update code_lem refl

abbrev result_update : Update
result_update = update_of (validate_result deps_there running)

result_lem : validate_result deps_there running ≡ ok result_update
unfolding validate_result
result_lem = refl

judged_conforms_example :
    (ref : ArtifactRef) × (some (ref_of ArtifactKind.result "r") ≡ some ref)
    × (g : GeneratedAnalysis) × (load_generated deps_there running ≡ ok g)
    × (payload : Json) × (ok result_there ≡ ok payload)
    × IsConformant deps_there.encoded_size g.manifest payload
unfolding validate_result check_fields non_finite_numbers declared_issues next issue
judged_conforms_example = judged_conforms deps_there running result_update result_lem refl

abbrev commit_there : Update
commit_there = update_of (commit_evidence deps_there running)

commit_lem : commit_evidence deps_there running ≡ ok commit_there
unfolding commit_evidence is_blank build_evidence from_analysis
commit_lem = refl

commit_evidence-IsGrounded_example :
    (e : EvidenceRecord) × ((apply running commit_there).evidence ≡ running.evidence ++ e ∷ [])
    × (payload : Json) × (ok result_there ≡ ok payload)
    × IsGrounded payload e
commit_evidence-IsGrounded_example =
    commit_evidence-IsGrounded deps_there running commit_there commit_lem

-- An import of a module that is not allowed is seen inside a function.
abbrev hidden_import : Trees
hidden_import =
    more
      (node (function "analyze" 1) (
        more (node other_node (more (node (imports ("os.path" ∷ [])) no_trees) no_trees)) no_trees))
      no_trees

hidden_found : passes (lint_program sample_deps.print (λ code. parsed hidden_import) "") ≡ false
unfolding lint_program passes
hidden_found = refl

lint_program_iff_example :
    (passes (lint_program sample_deps.print sample_deps.parse "main()") ≡ true)
    ↔ IsClean sample_deps.parse "main()"
lint_program_iff_example = lint_program_iff sample_deps.print sample_deps.parse "main()"
