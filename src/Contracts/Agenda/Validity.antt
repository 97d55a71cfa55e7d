-- ===== src/Contracts/Agenda/Validity.antt =====
-- contract_models/evidence.py: what `AgendaTask.model_validate` accepts, as a predicate.
use analysis_loop.Prelude.{
  ◌≤◌, ◌≡◌, ◌↔◌, true, false, ◌||◌, ◌==◌, ok, arith, is_empty, truthy, is_blank,
}
use analysis_loop.Contracts.Agenda.{
  AgendaTask, validate_task, is_follow_up, is_revalidate, is_resolve, is_in_progress, is_completed,
  is_data_limited, distinct,
}

pub record IsConsistent (t : AgendaTask) : Type 0 where
  pub asks : (t.question == "") ≡ false
  pub ranked : t.priority ≤ 100
  pub sourced :
      (is_follow_up t.kind || is_revalidate t.kind) ≡ true → is_empty t.source_evidence_ids ≡ false
  pub paired : is_resolve t.kind ≡ true → 2 ≤ distinct t.source_evidence_ids
  pub selected : is_in_progress t.status ≡ true → truthy t.selected_intent_id ≡ true
  pub closed : is_completed t.status ≡ true → truthy t.completion_evidence_id ≡ true
  pub attempted : is_data_limited t.status ≡ true → 1 ≤ t.attempt_count
  pub explained : is_data_limited t.status ≡ true → is_blank t.resolution_reason ≡ false

-- Validation returns the task itself, and does so exactly for the consistent tasks.
pub validate_task_iff : (t : AgendaTask) → (validate_task t ≡ ok t) ↔ IsConsistent t
unfolding validate_task
validate_task_iff t = (λ h. ground arith, λ c. ground arith)
