-- ===== src/Tests/Data.antt =====
-- Sample values for the tests: a dataset, its profile, one intent, and a run with two evidences.
use analysis_loop.Prelude.{ℕ, String, false, none, some, List, [], ◌∷◌}
use analysis_loop.Json.{end}
use analysis_loop.Contracts.Data.{ArtifactRef, ArtifactKind, DatasetProfile, ColumnProfile}
use analysis_loop.Contracts.Analysis.{AnalysisProtocol, Manifest, DataLineage, number}
use analysis_loop.Contracts.Planning.{
  ResearchIntent, IntentPurpose, ExecutionMode, SubGoal, still_open,
}
use analysis_loop.Contracts.Agenda.{
  AgendaTask, TaskKind, TaskStatus, EvidenceRelation, RelationKind,
}
use analysis_loop.Contracts.Evidence.{EvidenceRecord, high}
use analysis_loop.Contracts.Review.{CriticReview, Verdict}
use analysis_loop.Contracts.Runtime.{running}
use analysis_loop.State.{State, ErrorRecord}

abbrev pub sample_hash : String
sample_hash = "0123456789abcdef0123456789abcdef0123456789abcdef0123456789abcdef"

abbrev pub ref_of : ArtifactKind → String → ArtifactRef
ref_of kind id = record {
  artifact_id = id;
  kind = kind;
  path = id;
  sha256 = sample_hash;
  size_bytes = 1;
  summary = end;
}

abbrev pub column_of : String → ColumnProfile
column_of name = record {
  name = name;
  dtype = "float64";
  non_null = 10;
  null_count = 0;
  unique_count = 10;
  sample_values = [];
}

abbrev pub sample_profile : DatasetProfile
sample_profile = record {
  dataset_id = "d";
  row_count = 10;
  columns = column_of "x" ∷ column_of "y" ∷ [];
  schema_fingerprint = "f";
}

abbrev pub sample_protocol : AnalysisProtocol
sample_protocol = record {
  sampling_strategy = some "all rows";
  exclusion_rules = [];
  comparison_groups = [];
  random_seed = none;
  repetitions = none;
  evaluation_strategy = none;
  evaluation_design = none;
  preprocessing_fit_scope = none;
  temporal_order_preserved = none;
  group_isolation_preserved = none;
  uncertainty_method = none;
  hypothesis_testing = false;
  planned_comparisons = none;
  multiple_testing = none;
  class_balance_strategy = none;
  interpretation_scope = "descriptive";
}

abbrev pub sample_manifest : Manifest
sample_manifest = record {
  intent_id = "i1";
  selected_columns = "x" ∷ [];
  method = "mean";
  method_reason = "r";
  assumptions = [];
  target = none;
  feature_columns = [];
  adjustment_columns = [];
  time_column = none;
  split_unit_columns = [];
  prediction_task = none;
  group_by = [];
  derived_columns = [];
  transformations = [];
  split_strategy = none;
  protocol = sample_protocol;
  is_model_metric = false;
  expected_outputs = "m" ∷ [];
  expected_figures = [];
  expected_output_schema = ("m", number) ∷ [];
}

abbrev pub sample_lineage : DataLineage
sample_lineage = record {
  dataset_artifact_id = "d";
  dataset_sha256 = sample_hash;
  schema_fingerprint = "f";
  source_rows = 10;
  transform_signature = sample_hash;
}

-- An evidence by its id and its method.
abbrev pub evidence_of : String → String → EvidenceRecord
evidence_of id method = record {
  evidence_id = id;
  intent_id = "i0";
  question = "q";
  claim = "c";
  result_ref = ref_of ArtifactKind.result "r";
  program_ref = none;
  figure_refs = [];
  method = method;
  protocol = sample_protocol;
  data_lineage = sample_lineage;
  columns_used = "x" ∷ [];
  caveats = [];
  effect_summary = [];
  uncertainty_summary = [];
  uncertainty_source_paths = [];
  confidence = high;
  open_questions = [];
  contradicts = [];
  purpose = IntentPurpose.explore;
  goal_id = some "g1";
  parent_evidence_ids = [];
}

abbrev pub intent_of : String → ResearchIntent
intent_of task = record {
  intent_id = "i1";
  question = "q";
  hypothesis = "h";
  rationale = "";
  goal_id = some "g1";
  purpose = IntentPurpose.deepen;
  parent_evidence_ids = "e1" ∷ [];
  task_id = some task;
  execution_mode = ExecutionMode.compute;
  reuse_evidence_ids = [];
  success_criterion = "";
  candidate_columns = "x" ∷ [];
  required_columns = [];
  excluded_columns = [];
  desired_evidence = [];
  constraints = [];
}

abbrev pub task_of : String → TaskKind → TaskStatus → List String → AgendaTask
task_of id kind status sources = record {
  task_id = id;
  kind = kind;
  goal_id = some "g1";
  question = "why";
  rationale = "";
  priority = 70;
  source_evidence_ids = sources;
  status = status;
  selected_intent_id = some "i1";
  attempt_count = 1;
  completion_evidence_id = none;
  resolution_reason = "";
}

abbrev pub relation_of : String → String → RelationKind → EvidenceRelation
relation_of source target kind = record {
  relation_id = "r";
  source_evidence_id = source;
  target_evidence_id = target;
  kind = kind;
  note = "";
}

-- An accepted review that leaves one question open and names one evidence as revalidated.
abbrev pub sample_review : CriticReview
sample_review = record {
  verdict = Verdict.accept;
  claim = "x grows";
  reasons = [];
  caveats = [];
  confidence = high;
  open_questions = "what next" ∷ [];
  contradicts = "e2" ∷ [];
  revalidates = "e1" ∷ [];
  revalidation_required = [];
  supersedes = [];
  reconciles = [];
  effect_summary = [];
  uncertainty_summary = [];
  uncertainty_source_paths = [];
}

abbrev pub sample_goal : SubGoal
sample_goal = record {
  goal_id = "g1";
  question = "q";
  rationale = "";
  success_criterion = "";
  status = still_open;
  evidence_ids = [];
  closing_note = "";
}

-- A run with two evidences, by its agenda and its relations; the deadline is at 1000 seconds.
abbrev pub state_of : List AgendaTask → List EvidenceRelation → State
state_of agenda relations = record {
  run_id = "run";
  schema = 9;
  objective = "o";
  dataset_ref = some (ref_of ArtifactKind.dataset "d");
  profile_ref = none;
  profile = some sample_profile;
  sub_goals = sample_goal ∷ [];
  goal_expansions = 0;
  deadline_at = 1000000000;
  intent = none;
  last_planner_error = none;
  program_ref = none;
  manifest = none;
  candidate_ref = none;
  figure_refs = none;
  static_repairs = 0;
  runtime_repairs = 0;
  validation_errors = [];
  error_streak = none;
  validation_warnings = [];
  review = none;
  agenda = agenda;
  inspection_ref = none;
  inspection_summary = none;
  inspection_history = [];
  evidence_lookup_summary = [];
  evidence_lookup_history = [];
  evidence = evidence_of "e1" "mean" ∷ evidence_of "e2" "mean" ∷ [];
  evidence_relations = relations;
  rejected = [];
  issues = [];
  coverage = record { column_usage = []; tested_dedupe_keys = [] };
  execution_delta = none;
  iteration = 1;
  max_iterations = 10;
  status = running;
  service_failure = none;
  stop_code = none;
  stop_reason = none;
  report_ref = none;
}

abbrev pub an_error : String → ErrorRecord
an_error code = record { code = code; message = code }

-- Ids as a test draws them.
abbrev pub test_uuid : ℕ → String
test_uuid n = "u"
