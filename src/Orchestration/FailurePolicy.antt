-- ===== src/Orchestration/FailurePolicy.antt =====
-- orchestration/failure_policy.py: what a failed service call does to the run.
use analysis_loop.Prelude.{Bool, true, false, Option, some, if◌then◌else◌}
use analysis_loop.Contracts.Runtime.{FailureKind, provider_unavailable, configuration}

-- TERMINAL_SERVICE_FAILURES.
abbrev pub is_terminal_service_failure : Option FailureKind → Bool
is_terminal_service_failure (some provider_unavailable) = true
is_terminal_service_failure (some configuration) = true
is_terminal_service_failure _ = false

pub data CallStage : Type 0 where
  analysis report : CallStage

pub data Action : Type 0 where
  stop_run reject_attempt fallback_report : Action

abbrev pub service_failure_action : Option FailureKind → CallStage → Action
service_failure_action kind report = fallback_report
service_failure_action kind analysis =
    if is_terminal_service_failure kind then stop_run else reject_attempt

-- `service_failure_action(kind) == "stop_run"`.
abbrev pub stops_run : Option FailureKind → Bool
stops_run kind = elim (service_failure_action kind analysis) [ stop_run ↦ true | _ ↦ false ]
