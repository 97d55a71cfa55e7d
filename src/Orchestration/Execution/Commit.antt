-- ===== src/Orchestration/Execution/Commit.antt =====
-- orchestration/nodes/review.py: an accepted result becomes evidence, any other attempt is recorded.
use analysis_loop.Prelude.{
  String, Bool, not, ◌&&◌, Option, none, some, List, [], ◌∷◌, ◌++◌, map, Result, ok, err, ◌>>=◌,
  ◌>>◌, require, raise_if, say, is_some, truthy, if◌then◌else◌, length, take, any, Message,
  value_error,
}
use analysis_loop.Contracts.Analysis.{GeneratedAnalysis}
use analysis_loop.Contracts.Planning.{ResearchIntent, dedupe_key}
use analysis_loop.Contracts.Agenda.{AgendaTask, TaskStatus, is_in_progress}
use analysis_loop.Contracts.Evidence.{
  EvidenceRecord, RejectedAttempt, Stage, AnalysisCoverage, with_record,
}
use analysis_loop.Contracts.Review.{CriticReview, is_accept, validate_review}
use analysis_loop.Contracts.Runtime.{LoopIssue}
use analysis_loop.State.{State, Streak, Assign, Update, ErrorRecord}
use analysis_loop.Orchestration.Shared.{is_stuck, streak_count}
use analysis_loop.Orchestration.ReviewEvidence.{
  build_evidence, goals_with_evidence, relations_after_commit,
}
use analysis_loop.Orchestration.ReviewAgenda.{is_selected, agenda_after_commit}
use analysis_loop.Validation.References.{validate_critic_references}
use analysis_loop.Validation.Numeric.{bind_review_to_result}
use analysis_loop.Orchestration.Execution.Deps.{Deps, load_generated}
use analysis_loop.Orchestration.Execution.Review.{evidence_ids}

-- `CriticReview.model_validate(state.get("review") or {})`: the empty dict has no verdict.
unfoldable pub review_or_empty : Option CriticReview → Result CriticReview
unfolding validate_review
review_or_empty none = err (value_error (say "CriticReview"))
review_or_empty (some r) = validate_review r

linked_goals : State → Option String → String → Update
unfolding goals_with_evidence
linked_goals s none evidence_id = []
linked_goals s (some goal) evidence_id =
    if truthy (some goal)
    then elim (goals_with_evidence s goal evidence_id) [
      | none ↦ []
      | some goals ↦ Assign.sub_goals goals ∷ []
    ]
    else []

covered : Deps → State → ResearchIntent → GeneratedAnalysis → AnalysisCoverage
unfolding with_record dedupe_key
covered deps s intent generated =
    let c = with_record s.coverage generated.selected_columns in
    record c {
      tested_dedupe_keys = c.tested_dedupe_keys ++ dedupe_key deps.intent_digest intent ∷ [];
    }

-- What a commit works with, once its checks have passed.
pub record Accepted : Type 0 where
  pub intent : ResearchIntent
  pub generated : GeneratedAnalysis
  pub review : CriticReview
  pub evidence : EvidenceRecord

-- The first part of `commit_evidence`: the checks, and the new evidence.
unfoldable pub accepted_evidence : Deps → State → Result Accepted
unfolding load_generated review_or_empty validate_critic_references bind_review_to_result
accepted_evidence deps s = do
  intent ← require s.intent
  result_ref ← require s.candidate_ref
  dataset ← require s.dataset_ref
  profile ← require s.profile
  generated ← load_generated deps s
  review ← review_or_empty s.review
  raise_if (not (is_accept review.verdict)) (say "accept 판정만 Evidence로 저장할 수 있다")
  validate_critic_references review generated (evidence_ids s)
  payload ← deps.read_json result_ref
  bound ← bind_review_to_result review payload
  evidence ←
      build_evidence deps.transform_digest deps.evidence_id s intent bound generated result_ref
        s.program_ref dataset profile
  ok (record { intent = intent; generated = generated; review = bound; evidence = evidence })

-- The second part: the update. The ids of the tasks are drawn before those of the relations.
unfoldable pub commit_update : Deps → State → Accepted → Update
unfolding covered linked_goals
commit_update deps s a =
    let agenda = agenda_after_commit deps.host 0 s a.intent a.review a.evidence in
    Assign.evidence (a.evidence ∷ [])
    ∷ Assign.evidence_relations (
        relations_after_commit deps.host.uuid (length agenda.created) s a.intent a.review
          a.evidence)
    ∷ Assign.coverage (covered deps s a.intent a.generated)
    ∷ Assign.agenda agenda.updated
    ∷ Assign.intent none
    ∷ linked_goals s a.intent.goal_id a.evidence.evidence_id

unfoldable pub commit_evidence : Deps → State → Result Update
unfolding accepted_evidence commit_update
commit_evidence deps s = do accepted ← accepted_evidence deps s; ok (commit_update deps s accepted)

-- `rejection_reasons`: the errors of the checks come before the critic's reasons.
unfoldable pub rejection_reasons : List ErrorRecord → Option CriticReview → List Message
rejection_reasons (e ∷ es) review = map (λ x. say x.message) (e ∷ es)
rejection_reasons [] none = []
rejection_reasons [] (some review) = review.reasons

abbrev label_of : Option Streak → String
label_of none = "unknown"
label_of (some k) = if truthy (some k.key) then k.key else "unknown"

abbrev question_of : Option ResearchIntent → String
question_of none = ""
question_of (some i) = i.question

abbrev intent_id_of : Option ResearchIntent → Option String
intent_id_of none = none
intent_id_of (some i) = some i.intent_id

-- `stuck_issue`.
unfoldable pub stuck_issue : State → Option ResearchIntent → List Message → Option LoopIssue
stuck_issue s intent reasons =
    if not (is_stuck s)
    then none
    else some (record {
      label = label_of s.error_streak;
      count = streak_count s.error_streak;
      iteration = s.iteration;
      intent_id = intent_id_of intent;
      question = question_of intent;
      messages = take 3 reasons;
    })

-- A selected task in progress.
abbrev pub is_claimed : ResearchIntent → AgendaTask → Bool
is_claimed intent t = is_selected intent t && is_in_progress t.status

unfoldable pub release_task : ResearchIntent → AgendaTask → AgendaTask
release_task intent t =
    if is_claimed intent t
    then record t { status = TaskStatus.pending; selected_intent_id = none }
    else t

released : State → ResearchIntent → Update
unfolding release_task
released s intent =
    if truthy intent.task_id && any (is_claimed intent) s.agenda
    then Assign.agenda (map (release_task intent) s.agenda) ∷ []
    else []

abbrev pub reject_stage : State → Stage
reject_stage s =
    if is_some s.review
    then Stage.critic
    else if is_some s.candidate_ref
    then Stage.result
    else Stage.code

-- The attempt in the list of rejected ones.
unfoldable pub rejected_attempt : Deps → State → ResearchIntent → List Message → RejectedAttempt
unfolding dedupe_key
rejected_attempt deps s intent reasons = record {
  intent_id = intent.intent_id;
  dedupe_key = dedupe_key deps.intent_digest intent;
  stage = reject_stage s;
  reasons = reasons;
  goal_id = intent.goal_id;
  question = intent.question;
}

reject_intent : Deps → State → Option ResearchIntent → List Message → Update
unfolding released rejected_attempt
reject_intent deps s none reasons = []
reject_intent deps s (some intent) reasons =
    released s intent ++ Assign.rejected (rejected_attempt deps s intent reasons ∷ []) ∷ []

report_stuck : Option LoopIssue → Update
report_stuck none = []
report_stuck (some issue) = Assign.issues (issue ∷ []) ∷ Assign.error_streak none ∷ []

unfoldable pub reject_attempt : Deps → State → Result Update
unfolding rejection_reasons stuck_issue reject_intent report_stuck
reject_attempt deps s =
    let reasons = rejection_reasons s.validation_errors s.review in
    ok (
      Assign.intent none
      ∷ (reject_intent deps s s.intent reasons ++ report_stuck (stuck_issue s s.intent reasons)))
