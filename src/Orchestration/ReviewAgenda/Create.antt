-- ===== src/Orchestration/ReviewAgenda/Create.antt =====
-- orchestration/nodes/review_agenda.py: the tasks that an accepted review adds.
use analysis_loop.Prelude.{
  ℕ, ◌+◌, String, ◌||◌, Option, none, List, [], ◌∷◌, ◌++◌, map, ◌==◌, if◌then◌else◌, any, length,
  strip, ◌<>◌,
}
use analysis_loop.Contracts.Planning.{ResearchIntent}
use analysis_loop.Contracts.Agenda.{AgendaTask, TaskKind, pending, is_follow_up, is_revalidate}
use analysis_loop.Contracts.Evidence.{EvidenceRecord}
use analysis_loop.Contracts.Review.{CriticReview}
use analysis_loop.State.{State}
use analysis_loop.Orchestration.ReviewAgenda.Defs.{
  Host, judge, completed_task_id, asks_same, is_requested, is_conflict,
}

new_task : String → TaskKind → Option String → String → String → ℕ → List String → AgendaTask
new_task id kind goal question rationale priority sources = record {
  task_id = id;
  kind = kind;
  goal_id = goal;
  question = question;
  rationale = rationale;
  priority = priority;
  source_evidence_ids = sources;
  status = pending;
  selected_intent_id = none;
  attempt_count = 0;
  completion_evidence_id = none;
  resolution_reason = "";
}

module _ (host : Host) (goal : Option String) (evidence_id : String) where
  open host use {uuid}

  unfoldable pub follow_up_task : ℕ → String → AgendaTask
  unfolding new_task
  follow_up_task n question =
      new_task (uuid n) TaskKind.follow_up goal question
        "Critic이 현재 claim의 신뢰도·범위를 바꿀 수 있는 후속 질문으로 지정" 70 (evidence_id ∷ [])

  unfoldable pub revalidate_task : ℕ → String → AgendaTask
  unfolding new_task
  revalidate_task n question =
      new_task (uuid n) TaskKind.revalidate goal question
        "Critic이 현재 Evidence의 신뢰도·범위를 독립 조건에서 다시 확인하도록 지정" 80 (evidence_id ∷ [])

  unfoldable pub conflict_task : ℕ → String → AgendaTask
  unfolding new_task
  conflict_task n target =
      new_task (uuid n) TaskKind.resolve_contradiction goal
        ("Evidence " <> evidence_id <> "와 " <> target <> "의 모순을 해소한다")
        "Critic이 같은 실행의 기존 Evidence와 실제 모순을 선언" 90 (evidence_id ∷ target ∷ [])

  -- The three loops: `n` ids are drawn so far, and `tasks` is the agenda so far.
  unfoldable pub create_follow_ups :
      List String → ℕ → List AgendaTask → List String → List AgendaTask
  unfolding asks_same is_requested strip
  create_follow_ups requested n tasks [] = []
  create_follow_ups requested n tasks (raw ∷ rs) =
      let question = strip raw in
      let made = follow_up_task n question in
      let skip = create_follow_ups requested n tasks rs in
      let rest = create_follow_ups requested (n + 1) (tasks ++ made ∷ []) rs in
      if question == ""
        || any (asks_same host is_follow_up goal question) tasks
        || is_requested host requested question
      then skip
      else made ∷ rest

  unfoldable pub create_revalidations : ℕ → List AgendaTask → List String → List AgendaTask
  unfolding asks_same strip
  create_revalidations n tasks [] = []
  create_revalidations n tasks (raw ∷ rs) =
      let question = strip raw in
      let made = revalidate_task n question in
      let skip = create_revalidations n tasks rs in
      let rest = create_revalidations (n + 1) (tasks ++ made ∷ []) rs in
      if question == "" || any (asks_same host is_revalidate goal question) tasks
      then skip
      else made ∷ rest

  unfoldable pub create_conflicts : ℕ → List AgendaTask → List String → List AgendaTask
  create_conflicts n tasks [] = []
  create_conflicts n tasks (target ∷ ts) =
      let made = conflict_task n target in
      let skip = create_conflicts n tasks ts in
      let rest = create_conflicts (n + 1) (tasks ++ made ∷ []) ts in
      if evidence_id == target || any (is_conflict evidence_id target) tasks
      then skip
      else made ∷ rest

-- `(updated, created, completed_id)`.
pub record AgendaResult : Type 0 where
  pub updated : List AgendaTask
  pub created : List AgendaTask
  pub completed_id : Option String

unfoldable pub agenda_after_commit :
    Host → ℕ → State → ResearchIntent → CriticReview → EvidenceRecord → AgendaResult
agenda_after_commit host n s intent review e =
    let judged = map (judge s intent review e) s.agenda in
    let follow_ups =
      create_follow_ups host intent.goal_id e.evidence_id review.revalidation_required n judged
        review.open_questions in
    let revalidations =
      create_revalidations host intent.goal_id e.evidence_id (n + length follow_ups)
        (judged ++ follow_ups) review.revalidation_required in
    let conflicts =
      create_conflicts host intent.goal_id e.evidence_id
        (n + length follow_ups + length revalidations) (judged ++ follow_ups ++ revalidations)
        review.contradicts in
    record {
      updated = judged ++ follow_ups ++ revalidations ++ conflicts;
      created = follow_ups ++ revalidations ++ conflicts;
      completed_id = completed_task_id s intent review e s.agenda none;
    }
