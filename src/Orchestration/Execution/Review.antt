-- ===== src/Orchestration/Execution/Review.antt =====
-- orchestration/nodes/review.py: the critic's verdict, and what follows from it.
use analysis_loop.Prelude.{
  String, Option, none, some, List, [], ◌∷◌, ◌++◌, map, Result, ok, err, value_error, assertion,
  key_error, type_error, ◌>>=◌, ◌>>◌, require, say, arg, lit, if◌then◌else◌, Message,
}
use analysis_loop.Json.{Json}
use analysis_loop.Contracts.Base.{DataApplicability}
use analysis_loop.Contracts.Analysis.{GeneratedAnalysis}
use analysis_loop.Contracts.Evidence.{Confidence, from_evidence}
use analysis_loop.Contracts.Review.{CriticReview, Verdict, validate_review}
use analysis_loop.Contracts.Runtime.{failed, StopCode, ServiceResult, FailureKind, Role}
use analysis_loop.State.{
  State, Assign, Update, terminal, active_evidence, evidence_data_applicability,
}
use analysis_loop.Validation.References.{validate_critic_references}
use analysis_loop.Orchestration.FailurePolicy.{stops_run}
use analysis_loop.Validation.Numeric.{bind_review_to_result}
use analysis_loop.Orchestration.Execution.Deps.{Deps, load_generated}
use analysis_loop.Orchestration.Execution.Codegen.{error_or}

-- What the nodes write when there is no review.
abbrev pub unreviewed_because : Message → CriticReview
unreviewed_because reason = record {
  verdict = Verdict.unreviewed;
  claim = "";
  reasons = reason ∷ [];
  caveats = [];
  confidence = Confidence.unreviewed;
  open_questions = [];
  contradicts = [];
  revalidates = [];
  revalidation_required = [];
  supersedes = [];
  reconciles = [];
  effect_summary = [];
  uncertainty_summary = [];
  uncertainty_source_paths = [];
}

abbrev pub evidence_ids : State → List String
evidence_ids s = map (λ e. e.evidence_id) s.evidence

-- The checks of a review, in order.
unfoldable pub check_review :
    Deps → State → GeneratedAnalysis → Json → CriticReview → Result CriticReview
unfolding validate_review validate_critic_references bind_review_to_result
check_review deps s generated payload review = do
  parsed ← validate_review review
  validate_critic_references parsed generated (evidence_ids s)
  bind_review_to_result parsed payload

-- `except ValueError`: a review that breaks its contract is none.
unfoldable pub review_or_violation : Result CriticReview → Result Update
review_or_violation (ok review) = ok (Assign.review (some review) ∷ [])
review_or_violation (err (value_error m)) =
    ok (Assign.review (some (unreviewed_because (lit "critic 응답 계약 위반: " ∷ m))) ∷ [])
review_or_violation (err assertion) = err assertion
review_or_violation (err (key_error k)) = err (key_error k)
review_or_violation (err type_error) = err type_error

unfoldable pub critic_failure : Option FailureKind → String → Update
critic_failure kind reason =
    Assign.review (some (unreviewed_because (say "critic 호출 실패")))
    ∷ ((if stops_run kind
          then terminal failed StopCode.service_unavailable (lit "critic 실패: " ∷ arg reason ∷ [])
          else [])
        ++ Assign.service_failure
            (some (record { role = Role.critic; kind = kind; message = reason }))
          ∷ [])

unfoldable pub answer_critic :
    Deps → State → GeneratedAnalysis → Json → ServiceResult CriticReview → Result Update
unfolding check_review review_or_violation critic_failure
answer_critic deps s generated payload result = elim result.value [
  | none ↦ ok (critic_failure result.failure_kind (error_or result.error "이유 불명"))
  | some review ↦ review_or_violation (check_review deps s generated payload review)
]

unfoldable pub critique : Deps → State → Result Update
unfolding load_generated answer_critic active_evidence evidence_data_applicability from_evidence
critique deps s = elim deps.critic [
  | none ↦ ok (
      Assign.review (some (unreviewed_because (say "critic LLM 없음")))
      ∷ terminal failed StopCode.service_unavailable (say "critic LLM이 없다"))
  | some ask ↦ do
    intent ← require s.intent
    ref ← require s.candidate_ref
    generated ← load_generated deps s
    payload ← deps.read_json ref
    let digests = map (λ e. from_evidence DataApplicability.unknown e) (active_evidence s)
    answer_critic deps s generated payload
        (ask intent generated payload digests s.validation_warnings)
]
