-- ===== src/Orchestration/Routes.antt =====
-- orchestration/routes.py: the next node, from the state alone.
use analysis_loop.Prelude.{
  String, Bool, false, not, ◌&&◌, ◌||◌, Option, none, some, ◌==◌, is_some, is_empty, any, leb,
  if◌then◌else◌, is_blank,
}
use analysis_loop.Contracts.Planning.{ResearchIntent, ExecutionMode}
use analysis_loop.Contracts.Review.{CriticReview, is_accept}
use analysis_loop.Contracts.Runtime.{is_terminal}
use analysis_loop.State.{State, all_goals_closed, pending_agenda_tasks}
use analysis_loop.Orchestration.Shared.{max_static_repairs, max_runtime_repairs, is_stuck}

-- The nodes of both graphs.
pub data Node : Type 0 where
  profile_data decompose_objective plan_intent reuse_evidence inspect_data lookup_evidence
        mark_data_limited assess_progress expand_goals finalize lookup_program generate_code
        validate_code execute validate_result critique commit_evidence reject_attempt execution
        export_execution_delta apply_execution_delta :
      Node

abbrev pub has_blocking_errors : State → Bool
has_blocking_errors s = not (is_empty s.validation_errors)

-- `code in _error_codes(state)`.
abbrev pub has_error_code : State → String → Bool
has_error_code s code = any (λ e. e.code == code) s.validation_errors

mode_node : ExecutionMode → Node
mode_node ExecutionMode.compute = Node.lookup_program
mode_node ExecutionMode.reuse_evidence = Node.reuse_evidence
mode_node ExecutionMode.inspect_data = Node.inspect_data
mode_node ExecutionMode.lookup_evidence = Node.lookup_evidence
mode_node ExecutionMode.mark_data_limited = Node.mark_data_limited

intent_node : Option ResearchIntent → Node
unfolding mode_node
intent_node none = Node.assess_progress
intent_node (some i) = mode_node i.execution_mode

unfoldable pub route_after_plan : State → Node
unfolding intent_node
route_after_plan s = if is_terminal s.status then Node.assess_progress else intent_node s.intent

unfoldable pub route_after_lookup : State → Node
route_after_lookup s = if is_some s.program_ref then Node.validate_code else Node.generate_code

-- `is_stuck(state) or static_repairs >= MAX_STATIC_REPAIRS`.
abbrev pub gives_up_static : State → Bool
gives_up_static s = is_stuck s || leb max_static_repairs s.static_repairs

unfoldable pub route_after_generate : State → Node
route_after_generate s =
    if is_terminal s.status
    then Node.finalize
    else if is_some s.program_ref && not (has_blocking_errors s)
    then Node.validate_code
    else if gives_up_static s
    then Node.reject_attempt
    else Node.generate_code

unfoldable pub route_after_validate_code : State → Node
route_after_validate_code s =
    if not (has_blocking_errors s)
    then Node.execute
    else if gives_up_static s
    then Node.reject_attempt
    else Node.generate_code

unfoldable pub route_after_execute : State → Node
route_after_execute s =
    if is_some s.candidate_ref
    then Node.validate_result
    else if has_error_code s "execution_refused"
    then Node.reject_attempt
    else if leb s.runtime_repairs max_runtime_repairs
    then Node.generate_code
    else Node.reject_attempt

unfoldable pub route_after_validate_result : State → Node
route_after_validate_result s =
    if not (has_blocking_errors s)
    then Node.critique
    else if leb s.runtime_repairs max_runtime_repairs
    then Node.generate_code
    else Node.reject_attempt

-- `verdict == "accept" and claim.strip()`.
abbrev pub is_accepted : Option CriticReview → Bool
is_accepted none = false
is_accepted (some r) = is_accept r.verdict && not (is_blank r.claim)

unfoldable pub route_after_critique : State → Node
route_after_critique s =
    if is_terminal s.status
    then Node.finalize
    else if is_accepted s.review
    then Node.commit_evidence
    else Node.reject_attempt

unfoldable pub route_after_assess : State → Node
route_after_assess s =
    if is_terminal s.status
    then Node.finalize
    else if not (is_empty (pending_agenda_tasks s))
    then Node.plan_intent
    else if all_goals_closed s
    then Node.expand_goals
    else Node.plan_intent

unfoldable pub route_after_expand_goals : State → Node
route_after_expand_goals s = if is_terminal s.status then Node.finalize else Node.plan_intent
