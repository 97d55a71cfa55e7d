-- ===== src/Orchestration/ReviewAgenda/Created.antt =====
-- orchestration/nodes/review_agenda.py: the tasks that a commit adds.
use analysis_loop.Prelude.{
  ℕ, ◌+◌, String, ◌≡◌, refl, true, false, ◌||◌, Option, some, List, [], ◌∷◌, ◌++◌, All, All-append,
  All-unless, ◌==◌, arith, truthy, any, strip, ◌<>◌,
}
use analysis_loop.Prelude.Sets.{unique}
use analysis_loop.Prelude.Order.{append-ne-empty}
use analysis_loop.Contracts.Planning.{ResearchIntent}
use analysis_loop.Contracts.Agenda.{AgendaTask, is_follow_up, is_revalidate}
use analysis_loop.Contracts.Agenda.Validity.{IsConsistent}
use analysis_loop.Contracts.Evidence.{EvidenceRecord}
use analysis_loop.Contracts.Review.{CriticReview}
use analysis_loop.State.{State}
use analysis_loop.Orchestration.ReviewAgenda.Defs.{Host, asks_same, is_requested, is_conflict}
use analysis_loop.Orchestration.ReviewAgenda.Create.{
  follow_up_task, revalidate_task, conflict_task, create_follow_ups, create_revalidations,
  create_conflicts, agenda_after_commit,
}
use analysis_loop.Orchestration.ReviewAgenda.Judged.{judged-IsConsistent}

module _ (host : Host) (goal : Option String) (id : String) where
  -- Tasks in progress, closed ones and their reasons play no part in a new task.
  follow_up_task-IsConsistent :
      (n : ℕ) (q : String) → (q == "") ≡ false → IsConsistent (follow_up_task host goal id n q)
  unfolding follow_up_task
  follow_up_task-IsConsistent n q h = ground arith

  revalidate_task-IsConsistent :
      (n : ℕ) (q : String) → (q == "") ≡ false → IsConsistent (revalidate_task host goal id n q)
  unfolding revalidate_task
  revalidate_task-IsConsistent n q h = ground arith

  conflict_task-IsConsistent :
      (n : ℕ) (target : String)
      → (id == target) ≡ false
      → IsConsistent (conflict_task host goal id n target)
  unfolding conflict_task unique
  conflict_task-IsConsistent n target h =
      ground (arith, append-ne-empty "Evidence " (id <> "와 " <> target <> "의 모순을 해소한다") refl)

  create_follow_ups-IsConsistent :
      (requested : List String) (n : ℕ) (tasks : List AgendaTask) (rs : List String)
      → All IsConsistent (create_follow_ups host goal id requested n tasks rs)
  unfolding create_follow_ups
  create_follow_ups-IsConsistent requested n tasks [] = tt
  create_follow_ups-IsConsistent requested n tasks (raw ∷ rs) =
      let made = follow_up_task host goal id n (strip raw) in
      All-unless IsConsistent
        (strip raw == ""
          || any (asks_same host is_follow_up goal (strip raw)) tasks
          || is_requested host requested (strip raw))
        (create_follow_ups host goal id requested n tasks rs)
        (made ∷ create_follow_ups host goal id requested (n + 1) (tasks ++ made ∷ []) rs)
        (create_follow_ups-IsConsistent requested n tasks rs)
        λ new. (
          follow_up_task-IsConsistent n (strip raw) (ground arith),
          create_follow_ups-IsConsistent requested (n + 1) (tasks ++ made ∷ []) rs,
        )

  create_revalidations-IsConsistent :
      (n : ℕ) (tasks : List AgendaTask) (rs : List String)
      → All IsConsistent (create_revalidations host goal id n tasks rs)
  unfolding create_revalidations
  create_revalidations-IsConsistent n tasks [] = tt
  create_revalidations-IsConsistent n tasks (raw ∷ rs) =
      let made = revalidate_task host goal id n (strip raw) in
      All-unless IsConsistent
        (strip raw == "" || any (asks_same host is_revalidate goal (strip raw)) tasks)
        (create_revalidations host goal id n tasks rs)
        (made ∷ create_revalidations host goal id (n + 1) (tasks ++ made ∷ []) rs)
        (create_revalidations-IsConsistent n tasks rs)
        λ new. (
          revalidate_task-IsConsistent n (strip raw) (ground arith),
          create_revalidations-IsConsistent (n + 1) (tasks ++ made ∷ []) rs,
        )

  create_conflicts-IsConsistent :
      (n : ℕ) (tasks : List AgendaTask) (ts : List String)
      → All IsConsistent (create_conflicts host goal id n tasks ts)
  unfolding create_conflicts
  create_conflicts-IsConsistent n tasks [] = tt
  create_conflicts-IsConsistent n tasks (target ∷ ts) =
      let made = conflict_task host goal id n target in
      All-unless IsConsistent (id == target || any (is_conflict id target) tasks)
        (create_conflicts host goal id n tasks ts)
        (made ∷ create_conflicts host goal id (n + 1) (tasks ++ made ∷ []) ts)
        (create_conflicts-IsConsistent n tasks ts)
        λ new. (
          conflict_task-IsConsistent n target (ground arith),
          create_conflicts-IsConsistent (n + 1) (tasks ++ made ∷ []) ts,
        )

-- The agenda behind a commit passes the checks of the next read, if the one before did and the new
-- evidence has an id.
pub agenda_after_commit-IsConsistent :
    (host : Host) (n : ℕ) (s : State) (intent : ResearchIntent) (review : CriticReview)
    (e : EvidenceRecord)
    → truthy (some e.evidence_id) ≡ true
    → All IsConsistent s.agenda
    → All IsConsistent (agenda_after_commit host n s intent review e).updated
unfolding agenda_after_commit
agenda_after_commit-IsConsistent host n s intent review e id h =
    All-append IsConsistent _ _
      (All-append IsConsistent _ _
        (All-append IsConsistent _ _ (judged-IsConsistent s intent review e s.agenda id h)
          (create_follow_ups-IsConsistent host intent.goal_id e.evidence_id _ _ _ _))
        (create_revalidations-IsConsistent host intent.goal_id e.evidence_id _ _ _))
      (create_conflicts-IsConsistent host intent.goal_id e.evidence_id _ _ _)
