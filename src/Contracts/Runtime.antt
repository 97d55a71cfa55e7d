-- ===== src/Contracts/Runtime.antt =====
-- contract_models/runtime.py and the result types of runtime_protocols.py.
use analysis_loop.Prelude.{ℕ, String, Bool, true, false, Option, List, Message}

pub data RunStatus : Type 0 where
  running completed failed : RunStatus

-- `status in {COMPLETED, FAILED}`.
abbrev pub is_terminal : RunStatus → Bool
is_terminal running = false
is_terminal completed = true
is_terminal failed = true

pub data StopCode : Type 0 where
  goal_satisfied budget_exhausted max_iterations_reached data_limited expansion_limit_reached
        service_unavailable planner_stuck recursion_limit unknown :
      StopCode

abbrev pub is_service_unavailable : StopCode → Bool
is_service_unavailable service_unavailable = true
is_service_unavailable _ = false

pub record LoopIssue : Type 0 where
  pub label : String
  pub count : ℕ
  pub iteration : ℕ
  pub intent_id : Option String
  pub question : String
  pub messages : List Message

pub data FailureKind : Type 0 where
  provider_unavailable configuration contract response_invalid : FailureKind

-- The value of a call, and how it failed.
pub record ServiceResult {ℓ} (A : Type ℓ) : Type ℓ where
  pub value : Option A
  pub error : Option String
  pub failure_kind : Option FailureKind
  pub reason : Option String

pub data Role : Type 0 where
  planner codegen critic : Role

pub record ServiceFailure : Type 0 where
  pub role : Role
  pub kind : Option FailureKind
  pub message : String
