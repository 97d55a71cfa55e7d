-- ===== src/Orchestration/Execution/Released.antt =====
-- orchestration/nodes/review.py: what a rejected attempt leaves.
use analysis_loop.Prelude.{
  ◌≡◌, refl, ap, ◌∙◌, true, false, ◌&&◌, Option, none, some, List, [], ◌∷◌, ◌++◌, map, any, All,
  All-if, Result, ok, err, arith, if◌then◌else◌, truthy,
}
use analysis_loop.Contracts.Planning.{ResearchIntent}
use analysis_loop.Contracts.Agenda.{AgendaTask}
use analysis_loop.Contracts.Agenda.Validity.{IsConsistent}
use analysis_loop.State.{State, Update, apply}
use analysis_loop.Orchestration.Execution.Deps.{Deps}
use analysis_loop.Orchestration.Execution.Commit.{
  reject_attempt, rejected_attempt, rejection_reasons, release_task, is_claimed,
}

release_task-IsConsistent :
    (i : ResearchIntent) (t : AgendaTask) → IsConsistent t → IsConsistent (release_task i t)
unfolding release_task
release_task-IsConsistent i t c = ground arith

release_tasks-IsConsistent :
    (i : ResearchIntent) (ts : List AgendaTask)
    → All IsConsistent ts
    → All IsConsistent (map (release_task i) ts)
release_tasks-IsConsistent i [] c = tt
release_tasks-IsConsistent i (t ∷ ts) c =
    (release_task-IsConsistent i t c.0, release_tasks-IsConsistent i ts c.1)

release_tasks-unclaimed :
    (i : ResearchIntent) (ts : List AgendaTask)
    → any (is_claimed i) (map (release_task i) ts) ≡ false
unfolding release_task
release_tasks-unclaimed i [] = refl
release_tasks-unclaimed i (t ∷ ts) = ground (arith, release_tasks-unclaimed i ts)

-- The agenda without the claim of the intent.
abbrev pub released_agenda : Option ResearchIntent → List AgendaTask → List AgendaTask
released_agenda none ts = ts
released_agenda (some i) ts =
    if truthy i.task_id && any (is_claimed i) ts then map (release_task i) ts else ts

pub released-IsConsistent :
    (o : Option ResearchIntent) (ts : List AgendaTask)
    → All IsConsistent ts
    → All IsConsistent (released_agenda o ts)
released-IsConsistent none ts c = c
released-IsConsistent (some i) ts c =
    All-if IsConsistent (truthy i.task_id && any (is_claimed i) ts) (map (release_task i) ts) ts
      (release_tasks-IsConsistent i ts c) c

unclaimed :
    (i : ResearchIntent) (ts : List AgendaTask)
    → truthy i.task_id ≡ true
    → any (is_claimed i) (released_agenda (some i) ts) ≡ false
unclaimed i ts h = ground (arith, release_tasks-unclaimed i ts)

-- No intent is left, one attempt more is recorded, and no task of the intent is in progress.
abbrev pub Rejects : Deps → State → ResearchIntent → Result Update → Type 0
Rejects deps s i (err e) = ⊥
Rejects deps s i (ok u) =
    ((apply s u).intent ≡ none)
    × ((apply s u).rejected
        ≡ s.rejected
          ++ rejected_attempt deps s i (rejection_reasons s.validation_errors s.review) ∷ [])
    × ((apply s u).agenda ≡ released_agenda (some i) s.agenda)

reject_Rejects :
    (deps : Deps) (s : State) (i : ResearchIntent)
    → s.intent ≡ some i
    → Rejects deps s i (reject_attempt deps s)
unfolding reject_attempt
reject_Rejects deps s i h = ground arith

by_result :
    (deps : Deps) (s : State) (i : ResearchIntent) (r : Result Update)
    → reject_attempt deps s ≡ r
    → truthy i.task_id ≡ true
    → Rejects deps s i r
    → (u : Update) × (reject_attempt deps s ≡ ok u)
      × ((apply s u).intent ≡ none)
      × ((apply s u).rejected
          ≡ s.rejected
            ++ rejected_attempt deps s i (rejection_reasons s.validation_errors s.review) ∷ [])
      × (any (is_claimed i) (apply s u).agenda ≡ false)
by_result deps s i (err e) h k r = absurd r
by_result deps s i (ok u) h k r =
    (u, h, r.0, r.1, ap (any (is_claimed i)) r.2 ∙ unclaimed i s.agenda k)

-- A rejected attempt never raises: it leaves no intent, appends exactly one record of the attempt, and
-- no task is in progress for the intent any more, if the intent names one.
pub reject_outcome :
    (deps : Deps) (s : State) (i : ResearchIntent)
    → s.intent ≡ some i
    → truthy i.task_id ≡ true
    → (u : Update) × (reject_attempt deps s ≡ ok u)
      × ((apply s u).intent ≡ none)
      × ((apply s u).rejected
          ≡ s.rejected
            ++ rejected_attempt deps s i (rejection_reasons s.validation_errors s.review) ∷ [])
      × (any (is_claimed i) (apply s u).agenda ≡ false)
reject_outcome deps s i h k =
    by_result deps s i (reject_attempt deps s) refl k (reject_Rejects deps s i h)
