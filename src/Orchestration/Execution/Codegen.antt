-- ===== src/Orchestration/Execution/Codegen.antt =====
-- orchestration/nodes/program.py and code_validation.py: to get a program, and to check it.
use analysis_loop.Prelude.{
  ◌+◌, String, Option, none, some, List, [], ◌∷◌, ◌++◌, map, Result, ok, ◌>>=◌, require, say, arg,
  lit, if◌then◌else◌,
}
use analysis_loop.Contracts.Analysis.{GeneratedAnalysis}
use analysis_loop.Contracts.Planning.{ResearchIntent, reuse_signature}
use analysis_loop.Contracts.Runtime.{failed, StopCode, ServiceResult, FailureKind, Role}
use analysis_loop.State.{State, Assign, Update, ErrorRecord, terminal}
use analysis_loop.Validation.References.{Issue, blocking, warnings}
use analysis_loop.Validation.Program.Lint.{lint_program}
use analysis_loop.Validation.Manifest.{check_manifest, check_code_matches_manifest}
use analysis_loop.Contracts.Data.{DatasetProfile}
use analysis_loop.Orchestration.FailurePolicy.{stops_run}
use analysis_loop.Orchestration.Shared.{bump_error_streak}
use analysis_loop.Orchestration.Execution.Deps.{Deps, CachedProgram, load_generated}

-- A cached program takes the id of the current intent; the errors are kept when there is none.
abbrev use_cached : Option CachedProgram → ResearchIntent → Update
use_cached none intent = Assign.program_ref none ∷ Assign.manifest none ∷ []
use_cached (some c) intent =
    Assign.program_ref (some c.code_ref)
    ∷ Assign.manifest (some (record c.manifest { intent_id = intent.intent_id }))
    ∷ Assign.validation_errors []
    ∷ []

unfoldable pub lookup_program : Deps → State → Result Update
unfolding reuse_signature
lookup_program deps s = do
  intent ← require s.intent
  profile ← require s.profile
  ok (
      use_cached
        (deps.load_validated_program profile.schema_fingerprint
          (reuse_signature deps.intent_digest intent))
        intent)

abbrev no_program : Update
no_program = Assign.program_ref none ∷ Assign.manifest none ∷ Assign.candidate_ref none ∷ []

abbrev pub error_or : Option String → String → String
error_or none default = default
error_or (some e) default = e

-- `errors` with their streak.
abbrev pub failed_with : State → List ErrorRecord → Update → Update
failed_with s errors more =
    Assign.validation_errors errors ∷ Assign.error_streak (bump_error_streak s errors) ∷ more

abbrev one_more_static : State → Update
one_more_static s = Assign.static_repairs (s.static_repairs + 1) ∷ []

-- A failed call ends the run when the service is gone, and counts as a repair otherwise.
codegen_failure : State → Option FailureKind → String → Update
codegen_failure s kind reason =
    if stops_run kind
    then Assign.service_failure
        (some (record { role = Role.codegen; kind = kind; message = reason }))
      ∷ Assign.program_ref none
      ∷ Assign.manifest none
      ∷ Assign.candidate_ref none
      ∷ terminal failed StopCode.service_unavailable (lit "codegen 실패: " ∷ arg reason ∷ [])
    else Assign.program_ref none
      ∷ Assign.manifest none
      ∷ Assign.candidate_ref none
      ∷ failed_with s (record { code = "codegen_failed"; message = reason } ∷ [])
          (one_more_static s)

codegen_update : Deps → State → ServiceResult GeneratedAnalysis → Update
unfolding codegen_failure
codegen_update deps s result = elim result.value [
  | none ↦ codegen_failure s result.failure_kind (error_or result.error "코드 생성 응답이 없다")
  | some generated ↦
      Assign.program_ref (some (deps.put_program generated))
      ∷ Assign.manifest (some generated.manifest)
      ∷ Assign.validation_errors []
      ∷ Assign.validation_warnings []
      ∷ []
]

unfoldable pub generate_code : Deps → State → Result Update
unfolding codegen_update
generate_code deps s = do
  intent ← require s.intent
  profile ← require s.profile
  elim deps.codegen [
    | none ↦ ok (
        Assign.program_ref none
        ∷ Assign.manifest none
        ∷ Assign.candidate_ref none
        ∷ terminal failed StopCode.service_unavailable (say "codegen LLM이 없다"))
    | some generate ↦
        ok (
          codegen_update deps s
            (generate intent profile (map (λ e. e.message) s.validation_errors)))
  ]

-- Errors that block, with their streak and one more repair; or none, and the warnings.
abbrev pub report_code : State → List ErrorRecord → List ErrorRecord → Update
report_code s [] ws = Assign.validation_errors [] ∷ Assign.validation_warnings ws ∷ []
report_code s (e ∷ es) ws =
    failed_with s (e ∷ es) (Assign.validation_warnings ws ∷ one_more_static s)

-- The three reports, merged.
unfoldable pub check_program :
    Deps → GeneratedAnalysis → ResearchIntent → DatasetProfile → List Issue
unfolding lint_program check_manifest check_code_matches_manifest
check_program deps g intent profile =
    lint_program deps.print deps.parse g.code
    ++ (check_manifest deps.print g.manifest intent profile
        ++ check_code_matches_manifest deps.print deps.parse g profile)

unfoldable pub validate_code : Deps → State → Result Update
unfolding load_generated
validate_code deps s = do
  intent ← require s.intent
  profile ← require s.profile
  generated ← load_generated deps s
  let issues = check_program deps generated intent profile
  ok (report_code s (blocking issues) (warnings issues))
