-- ===== src/Orchestration/Execution/Running.antt =====
-- orchestration/nodes/running.py and result_validation.py: to run a program, and to check its result.
use analysis_loop.Prelude.{
  ◌+◌, String, not, Option, none, some, List, [], ◌∷◌, ◌++◌, Result, ok, ◌>>=◌, require, truthy,
  if◌then◌else◌,
}
use analysis_loop.Contracts.Base.{validate_run_id}
use analysis_loop.State.{State, Assign, Update, ErrorRecord}
use analysis_loop.Validation.References.{blocking, warnings}
use analysis_loop.Validation.Results.{check_result}
use analysis_loop.Orchestration.Execution.Deps.{Deps, SandboxResult, load_generated}
use analysis_loop.Orchestration.Execution.Codegen.{failed_with}

abbrev text_or_empty : Option String → String
text_or_empty none = ""
text_or_empty (some t) = t

abbrev one_more_runtime : State → Update
one_more_runtime s = Assign.runtime_repairs (s.runtime_repairs + 1) ∷ []

abbrev a_single : String → String → List ErrorRecord
a_single code message = record { code = code; message = message } ∷ []

-- A refused run is no repair; a failed one is; a successful one must have left a result.
sandbox_update : State → SandboxResult → Result Update
sandbox_update s r =
    if truthy r.refused_reason
    then ok (
        Assign.candidate_ref none
        ∷ failed_with s (a_single "execution_refused" (text_or_empty r.refused_reason)) [])
    else if not r.ok
    then ok (
        Assign.candidate_ref none
        ∷ failed_with s (a_single "runtime_error" r.tail) (one_more_runtime s))
    else do
      result ← require r.result_ref
      ok (
          Assign.candidate_ref (some result)
          ∷ Assign.figure_refs (some r.figure_refs)
          ∷ Assign.validation_errors []
          ∷ [])

-- The working directory follows from the run id, which must be a valid one.
unfoldable pub execute : Deps → State → Result Update
unfolding sandbox_update validate_run_id
execute deps s = do
  dataset ← require s.dataset_ref
  program ← require s.program_ref
  code ← deps.read_text program
  run_id ← validate_run_id s.run_id
  sandbox_update s (deps.sandbox code dataset)

abbrev pub report_result : State → List ErrorRecord → List ErrorRecord → Update
report_result s [] ws = Assign.validation_errors [] ∷ Assign.validation_warnings ws ∷ []
report_result s (e ∷ es) ws =
    failed_with s (e ∷ es) (Assign.validation_warnings ws ∷ one_more_runtime s)

-- The warnings on the code stay before those on the result.
unfoldable pub validate_result : Deps → State → Result Update
unfolding load_generated check_result
validate_result deps s = do
  intent ← require s.intent
  ref ← require s.candidate_ref
  generated ← load_generated deps s
  payload ← deps.read_json ref
  let issues = check_result deps.print deps.encoded_size payload generated.manifest
  ok (report_result s (blocking issues) (s.validation_warnings ++ warnings issues))
