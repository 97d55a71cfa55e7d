-- ===== src/State/Defs.antt =====
-- state.py: `AnalysisGraphState`, and node_updates.py: what a node may change. A node returns a dict
-- of keys; here it is a list of assignments, a later one to the same key winning, as in `{**a, **b}`.
use analysis_loop.Prelude.{ℕ, String, Option, List, [], ◌∷◌, ◌++◌, Message}
use analysis_loop.Json.{Json}
use analysis_loop.Contracts.Data.{ArtifactRef, DatasetProfile}
use analysis_loop.Contracts.Analysis.{Manifest}
use analysis_loop.Contracts.Planning.{SubGoal, ResearchIntent}
use analysis_loop.Contracts.Agenda.{AgendaTask, EvidenceRelation}
use analysis_loop.Contracts.Evidence.{
  EvidenceRecord, FindingDigest, RejectedAttempt, AnalysisCoverage,
}
use analysis_loop.Contracts.Review.{CriticReview}
use analysis_loop.Contracts.Runtime.{RunStatus, StopCode, LoopIssue, ServiceFailure}

-- A validation error or warning; its other keys are never read from the state.
pub record ErrorRecord : Type 0 where
  pub code : String
  pub message : String

-- `error_streak`; the empty dict is `none`.
pub record Streak : Type 0 where
  pub key : String
  pub count : ℕ

pub record InspectionEntry : Type 0 where
  pub intent_id : String
  pub question : String
  pub columns : List String
  pub inspection_ref : ArtifactRef

pub record LookupEntry : Type 0 where
  pub intent_id : String
  pub goal_id : Option String
  pub columns : List String
  pub parents : List String
  pub selected_evidence_ids : List String

-- A key with its new value. The keys that state.py annotates with `_append` take what is appended.
pub data Assign : Type 0 where
  profile_ref : Option ArtifactRef → Assign
  profile : Option DatasetProfile → Assign
  sub_goals : List SubGoal → Assign
  goal_expansions : ℕ → Assign
  intent : Option ResearchIntent → Assign
  last_planner_error : Option Message → Assign
  program_ref : Option ArtifactRef → Assign
  manifest : Option Manifest → Assign
  candidate_ref : Option ArtifactRef → Assign
  figure_refs : Option (List ArtifactRef) → Assign
  static_repairs : ℕ → Assign
  runtime_repairs : ℕ → Assign
  validation_errors : List ErrorRecord → Assign
  error_streak : Option Streak → Assign
  validation_warnings : List ErrorRecord → Assign
  review : Option CriticReview → Assign
  agenda : List AgendaTask → Assign
  inspection_ref : Option ArtifactRef → Assign
  inspection_summary : Option Json → Assign
  inspection_history : List InspectionEntry → Assign
  evidence_lookup_summary : List FindingDigest → Assign
  evidence_lookup_history : List LookupEntry → Assign
  evidence : List EvidenceRecord → Assign
  evidence_relations : List EvidenceRelation → Assign
  rejected : List RejectedAttempt → Assign
  issues : List LoopIssue → Assign
  coverage : AnalysisCoverage → Assign
  iteration : ℕ → Assign
  status : RunStatus → Assign
  service_failure : Option ServiceFailure → Assign
  stop_code : Option StopCode → Assign
  stop_reason : Option Message → Assign
  report_ref : Option ArtifactRef → Assign

abbrev pub Update : Type 0
Update = List Assign

-- Times are whole microseconds.
pub record State : Type 0 where
  pub run_id : String
  pub schema : ℕ
  pub objective : String
  pub dataset_ref : Option ArtifactRef
  pub profile_ref : Option ArtifactRef
  pub profile : Option DatasetProfile
  pub sub_goals : List SubGoal
  pub goal_expansions : ℕ
  pub deadline_at : ℕ
  pub intent : Option ResearchIntent
  pub last_planner_error : Option Message
  pub program_ref : Option ArtifactRef
  pub manifest : Option Manifest
  pub candidate_ref : Option ArtifactRef
  pub figure_refs : Option (List ArtifactRef)
  pub static_repairs : ℕ
  pub runtime_repairs : ℕ
  pub validation_errors : List ErrorRecord
  pub error_streak : Option Streak
  pub validation_warnings : List ErrorRecord
  pub review : Option CriticReview
  pub agenda : List AgendaTask
  pub inspection_ref : Option ArtifactRef
  pub inspection_summary : Option Json
  pub inspection_history : List InspectionEntry
  pub evidence_lookup_summary : List FindingDigest
  pub evidence_lookup_history : List LookupEntry
  pub evidence : List EvidenceRecord
  pub evidence_relations : List EvidenceRelation
  pub rejected : List RejectedAttempt
  pub issues : List LoopIssue
  pub coverage : AnalysisCoverage
  pub execution_delta : Option Update
  pub iteration : ℕ
  pub max_iterations : ℕ
  pub status : RunStatus
  pub service_failure : Option ServiceFailure
  pub stop_code : Option StopCode
  pub stop_reason : Option Message
  pub report_ref : Option ArtifactRef

-- `_append`.
abbrev pub append : {A : Type 0} → List A → List A → List A
append left right = left ++ right

abbrev pub assign : State → Assign → State
assign s (Assign.profile_ref v) = record s { profile_ref = v }
assign s (Assign.profile v) = record s { profile = v }
assign s (Assign.sub_goals v) = record s { sub_goals = v }
assign s (Assign.goal_expansions v) = record s { goal_expansions = v }
assign s (Assign.intent v) = record s { intent = v }
assign s (Assign.last_planner_error v) = record s { last_planner_error = v }
assign s (Assign.program_ref v) = record s { program_ref = v }
assign s (Assign.manifest v) = record s { manifest = v }
assign s (Assign.candidate_ref v) = record s { candidate_ref = v }
assign s (Assign.figure_refs v) = record s { figure_refs = v }
assign s (Assign.static_repairs v) = record s { static_repairs = v }
assign s (Assign.runtime_repairs v) = record s { runtime_repairs = v }
assign s (Assign.validation_errors v) = record s { validation_errors = v }
assign s (Assign.error_streak v) = record s { error_streak = v }
assign s (Assign.validation_warnings v) = record s { validation_warnings = v }
assign s (Assign.review v) = record s { review = v }
assign s (Assign.agenda v) = record s { agenda = v }
assign s (Assign.inspection_ref v) = record s { inspection_ref = v }
assign s (Assign.inspection_summary v) = record s { inspection_summary = v }
assign s (Assign.inspection_history v) = record s {
  inspection_history = append s.inspection_history v;
}
assign s (Assign.evidence_lookup_summary v) = record s { evidence_lookup_summary = v }
assign s (Assign.evidence_lookup_history v) = record s {
  evidence_lookup_history = append s.evidence_lookup_history v;
}
assign s (Assign.evidence v) = record s { evidence = append s.evidence v }
assign s (Assign.evidence_relations v) = record s {
  evidence_relations = append s.evidence_relations v;
}
assign s (Assign.rejected v) = record s { rejected = append s.rejected v }
assign s (Assign.issues v) = record s { issues = append s.issues v }
assign s (Assign.coverage v) = record s { coverage = v }
assign s (Assign.iteration v) = record s { iteration = v }
assign s (Assign.status v) = record s { status = v }
assign s (Assign.service_failure v) = record s { service_failure = v }
assign s (Assign.stop_code v) = record s { stop_code = v }
assign s (Assign.stop_reason v) = record s { stop_reason = v }
assign s (Assign.report_ref v) = record s { report_ref = v }

-- The state after a node's update.
abbrev pub apply : State → Update → State
apply s [] = s
apply s (a ∷ u) = apply (assign s a) u
