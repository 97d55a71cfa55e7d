-- ===== src/Contracts/Agenda.antt =====
-- contract_models/evidence.py: the agenda's tasks, and relations between evidence.
pub mod Validity
use analysis_loop.Prelude.{
  ℕ, String, Bool, true, false, not, ◌&&◌, ◌||◌, Option, List, Result, ok, ◌>>◌, ◌==◌, ltb, leb,
  length, is_empty, truthy, raise_if, say, is_blank,
}
use analysis_loop.Prelude.Sets.{unique}

pub data TaskKind : Type 0 where
  follow_up resolve_contradiction revalidate : TaskKind

pub data TaskStatus : Type 0 where
  pending in_progress completed data_limited : TaskStatus

abbrev pub is_follow_up : TaskKind → Bool
is_follow_up follow_up = true
is_follow_up _ = false

abbrev pub is_resolve : TaskKind → Bool
is_resolve resolve_contradiction = true
is_resolve _ = false

abbrev pub is_revalidate : TaskKind → Bool
is_revalidate revalidate = true
is_revalidate _ = false

abbrev pub is_completed : TaskStatus → Bool
is_completed completed = true
is_completed _ = false

abbrev pub is_in_progress : TaskStatus → Bool
is_in_progress in_progress = true
is_in_progress _ = false

abbrev pub is_data_limited : TaskStatus → Bool
is_data_limited data_limited = true
is_data_limited _ = false

-- `status in {"pending", "in_progress"}`.
abbrev pub is_pending : TaskStatus → Bool
is_pending pending = true
is_pending in_progress = true
is_pending _ = false

pub record AgendaTask : Type 0 where
  pub task_id : String
  pub kind : TaskKind
  pub goal_id : Option String
  pub question : String
  pub rationale : String
  pub priority : ℕ
  pub source_evidence_ids : List String
  pub status : TaskStatus
  pub selected_intent_id : Option String
  pub attempt_count : ℕ
  pub completion_evidence_id : Option String
  pub resolution_reason : String

-- `len(set(xs))`.
abbrev pub distinct : List String → ℕ
distinct xs = length (unique xs)

-- `AgendaTask.model_validate`: the field bounds, then `_task_is_consistent`.
unfoldable pub validate_task : AgendaTask → Result AgendaTask
validate_task t = do
  raise_if (t.question == "") (say "question")
  raise_if (ltb 100 t.priority) (say "priority")
  raise_if ((is_follow_up t.kind || is_revalidate t.kind) && is_empty t.source_evidence_ids)
      (say "작업에는 source_evidence_ids가 필요하다")
  raise_if (is_resolve t.kind && ltb (distinct t.source_evidence_ids) 2)
      (say "resolve_contradiction에는 서로 다른 Evidence 2개 이상이 필요하다")
  raise_if (is_in_progress t.status && not (truthy t.selected_intent_id))
      (say "in_progress task에는 selected_intent_id가 필요하다")
  raise_if (is_completed t.status && not (truthy t.completion_evidence_id))
      (say "completed task에는 completion_evidence_id가 필요하다")
  raise_if (is_data_limited t.status && ltb t.attempt_count 1)
      (say "data_limited task는 최소 1회 실제 시도 이후에만 닫을 수 있다")
  raise_if (is_data_limited t.status && is_blank t.resolution_reason)
      (say "data_limited task에는 resolution_reason이 필요하다")
  ok t

pub data RelationKind : Type 0 where
  derived_from contradicts revalidates supersedes reconciles : RelationKind

abbrev pub eq_kind : RelationKind → RelationKind → Bool
eq_kind derived_from derived_from = true
eq_kind contradicts contradicts = true
eq_kind revalidates revalidates = true
eq_kind supersedes supersedes = true
eq_kind reconciles reconciles = true
eq_kind _ _ = false

pub record EvidenceRelation : Type 0 where
  pub relation_id : String
  pub source_evidence_id : String
  pub target_evidence_id : String
  pub kind : RelationKind
  pub note : String

-- `_not_self_relation`, behind the lengths.
unfoldable pub validate_relation : EvidenceRelation → Result EvidenceRelation
validate_relation r = do
  raise_if (r.source_evidence_id == "" || r.target_evidence_id == "") (say "evidence_id")
  raise_if (r.source_evidence_id == r.target_evidence_id) (say "Evidence는 자기 자신과 관계를 만들 수 없다")
  ok r
