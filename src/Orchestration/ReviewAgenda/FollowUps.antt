-- ===== src/Orchestration/ReviewAgenda/FollowUps.antt =====
-- orchestration/nodes/review_agenda.py: follow-up questions are neither lost nor asked twice.
use native.Mathlib.Nat.{le_trans}
use mathlib.Core.List.{append_assoc}
use analysis_loop.Prelude.{
  if_elim, ℕ, ◌+◌, ◌≤◌, String, ◌≡◌, refl, ap, subst, fun_ext, Bool, true, ◌||◌, Option, List, [],
  ◌∷◌, ◌++◌, map, All, All-map, ◌==◌, eq_iff, opt_eq_iff, arith, any, count, any-append,
  count-append, count-zero, strip,
}
use analysis_loop.Contracts.Planning.{ResearchIntent}
use analysis_loop.Contracts.Agenda.{AgendaTask, is_follow_up}
use analysis_loop.Contracts.Evidence.{EvidenceRecord}
use analysis_loop.Contracts.Review.{CriticReview}
use analysis_loop.State.{State}
use analysis_loop.Orchestration.ReviewAgenda.Defs.{Host, judge, asks_same, is_requested, normalized}
use analysis_loop.Orchestration.ReviewAgenda.Create.{
  follow_up_task, revalidate_task, conflict_task, create_follow_ups, create_revalidations,
  create_conflicts, agenda_after_commit,
}
use analysis_loop.Orchestration.ReviewAgenda.Judged.{judged-asks-le}

module _ (host : Host) (goal : Option String) (q : String) where
  -- An unresolved follow-up of one goal and one question.
  abbrev asks : AgendaTask → Bool
  asks = asks_same host is_follow_up goal q

  module _ (goal' : Option String) (id : String) where
    -- A task that asks the same question makes the two tests the same.
    asks_same_key :
        (n : ℕ) (q' : String)
        → asks (follow_up_task host goal' id n q') ≡ true
        → (t : AgendaTask) → asks t ≡ asks_same host is_follow_up goal' q' t
    unfolding asks_same follow_up_task
    asks_same_key n q' h t = ground (
      arith,
      opt_eq_iff goal' goal,
      opt_eq_iff t.goal_id goal,
      opt_eq_iff t.goal_id goal',
      eq_iff (normalized host q') (normalized host q),
    )

    any_same_key :
        (n : ℕ) (q' : String) (tasks : List AgendaTask)
        → asks (follow_up_task host goal' id n q') ≡ true
        → any asks tasks ≡ any (asks_same host is_follow_up goal' q') tasks
    any_same_key n q' tasks h = ap (λ p. any p tasks) (fun_ext (asks_same_key n q' h))

    -- What is created keeps the number of open follow-ups with one key at one.
    count-create :
        (requested : List String) (n : ℕ) (tasks : List AgendaTask) (rs : List String)
        → count asks tasks ≤ 1
        → count asks tasks + count asks (create_follow_ups host goal' id requested n tasks rs) ≤ 1
    unfolding create_follow_ups
    count-create requested n tasks [] h = omega arith
    count-create requested n tasks (raw ∷ rs) h =
        let made = follow_up_task host goal' id n (strip raw) in
        ground (
          arith,
          count-create requested n tasks rs,
          count-create requested (n + 1) (tasks ++ made ∷ []) rs,
          count-append asks tasks (made ∷ []),
          count-zero asks tasks,
          any_same_key n (strip raw) tasks,
        )

    count-revalidations :
        (n : ℕ) (tasks : List AgendaTask) (rs : List String)
        → count asks (create_revalidations host goal' id n tasks rs) ≡ 0
    unfolding create_revalidations revalidate_task asks_same
    count-revalidations n tasks [] = refl
    count-revalidations n tasks (raw ∷ rs) = ground (
      arith,
      count-revalidations n tasks rs,
      count-revalidations (n + 1) (tasks ++ revalidate_task host goal' id n (strip raw) ∷ []) rs,
    )

    count-conflicts :
        (n : ℕ) (tasks : List AgendaTask) (ts : List String)
        → count asks (create_conflicts host goal' id n tasks ts) ≡ 0
    unfolding create_conflicts conflict_task asks_same
    count-conflicts n tasks [] = refl
    count-conflicts n tasks (t ∷ ts) = ground (
      arith,
      count-conflicts n tasks ts,
      count-conflicts (n + 1) (tasks ++ conflict_task host goal' id n t ∷ []) ts,
    )

  count_parts :
      (xs fs rs cs : List AgendaTask)
      → count asks xs + count asks fs ≤ 1
      → count asks rs ≡ 0
      → count asks cs ≡ 0
      → count asks (xs ++ fs ++ rs ++ cs) ≤ 1
  count_parts xs fs rs cs h r c = omega (
    arith,
    count-append asks (xs ++ fs ++ rs) cs,
    count-append asks (xs ++ fs) rs,
    count-append asks xs fs,
  )

  -- A commit leaves at most one unresolved follow-up for each goal and question, up to white space
  -- and case, if there was at most one before.
  pub follow_ups_unique :
      (n : ℕ) (s : State) (intent : ResearchIntent) (review : CriticReview) (e : EvidenceRecord)
      → count asks s.agenda ≤ 1
      → count asks (agenda_after_commit host n s intent review e).updated ≤ 1
  unfolding agenda_after_commit
  follow_ups_unique n s intent review e h =
      count_parts _ _ _ _
        (count-create intent.goal_id e.evidence_id _ n _ review.open_questions
          (le_trans (judged-asks-le s intent review e host goal q s.agenda) h))
        (count-revalidations intent.goal_id e.evidence_id _ _ _)
        (count-conflicts intent.goal_id e.evidence_id _ _ _)

module _ (host : Host) (goal : Option String) (requested : List String) where
  -- The question is blank, is asked for as a revalidation, or is an unresolved follow-up.
  abbrev pub IsHandled : List AgendaTask → String → Type 0
  IsHandled tasks raw =
      (strip raw == ""
        || is_requested host requested (strip raw)
        || any (asks_same host is_follow_up goal (strip raw)) tasks)
      ≡ true

  IsHandled-append :
      (tasks more : List AgendaTask) (raw : String)
      → IsHandled tasks raw
      → IsHandled (tasks ++ more) raw
  IsHandled-append tasks more raw h =
      ground (arith, any-append (asks_same host is_follow_up goal (strip raw)) tasks more)

  made-IsHandled :
      (id : String) (n : ℕ) (tasks : List AgendaTask) (raw : String)
      → IsHandled (tasks ++ follow_up_task host goal id n (strip raw) ∷ []) raw
  unfolding asks_same follow_up_task
  made-IsHandled id n tasks raw = ground (
    arith,
    opt_eq_iff goal goal,
    eq_iff (normalized host (strip raw)) (normalized host (strip raw)),
    any-append (asks_same host is_follow_up goal (strip raw)) tasks
        (follow_up_task host goal id n (strip raw) ∷ []),
  )

  create-IsHandled :
      (id : String) (n : ℕ) (tasks : List AgendaTask) (rs : List String)
      → All (IsHandled (tasks ++ create_follow_ups host goal id requested n tasks rs)) rs
  unfolding create_follow_ups
  create-IsHandled id n tasks [] = tt
  create-IsHandled id n tasks (raw ∷ rs) =
      let made = follow_up_task host goal id n (strip raw) in
      let skip = create_follow_ups host goal id requested n tasks rs in
      let rest = create_follow_ups host goal id requested (n + 1) (tasks ++ made ∷ []) rs in
      if_elim (λ xs. All (IsHandled (tasks ++ xs)) (raw ∷ rs))
        (strip raw == ""
          || any (asks_same host is_follow_up goal (strip raw)) tasks
          || is_requested host requested (strip raw))
        skip (made ∷ rest)
        (λ old. (IsHandled-append tasks skip raw (ground arith), create-IsHandled id n tasks rs))
        λ new.
          subst (λ xs. All (IsHandled xs) (raw ∷ rs)) (append_assoc tasks (made ∷ []) rest)
            (
              IsHandled-append (tasks ++ made ∷ []) rest raw (made-IsHandled id n tasks raw),
              create-IsHandled id (n + 1) (tasks ++ made ∷ []) rs,
            )

-- No question that the critic leaves open is lost: behind a commit it is an unresolved follow-up of
-- the intent's goal, unless it is blank or the review asks for it as a revalidation.
pub open_questions_kept :
    (host : Host) (n : ℕ) (s : State) (intent : ResearchIntent) (review : CriticReview)
    (e : EvidenceRecord)
    → All
        (IsHandled host intent.goal_id review.revalidation_required
          (agenda_after_commit host n s intent review e).updated)
        review.open_questions
unfolding agenda_after_commit
open_questions_kept host n s intent review e =
    All-map _ _
      (λ raw h.
        IsHandled-append host intent.goal_id review.revalidation_required _ _ raw
          (IsHandled-append host intent.goal_id review.revalidation_required _ _ raw h))
      review.open_questions
      (create-IsHandled host intent.goal_id review.revalidation_required e.evidence_id n
        (map (judge s intent review e) s.agenda) review.open_questions)
