-- ===== src/Orchestration/ReviewAgenda/Judged.antt =====
-- orchestration/nodes/review_agenda.py: what a commit does to the tasks that are there.
use analysis_loop.Orchestration.ReviewAgenda.Completed.{Completes, completes_iff}
use analysis_loop.Prelude.{
  ◌≤◌, ◌↔◌, sym, ◌∙◌, String, ◌≡◌, true, false, ◌&&◌, ◌||◌, Option, none, some, List, [], ◌∷◌, map,
  All, arith, truthy, count,
}
use analysis_loop.Contracts.Planning.{ResearchIntent}
use analysis_loop.Contracts.Agenda.{
  AgendaTask, pending, is_completed, is_follow_up, is_resolve, is_revalidate,
}
use analysis_loop.Contracts.Agenda.Validity.{IsConsistent}
use analysis_loop.Contracts.Evidence.{EvidenceRecord}
use analysis_loop.Contracts.Review.{CriticReview}
use analysis_loop.State.{State}
use analysis_loop.Orchestration.ReviewAgenda.Defs.{
  Host, judge, should_complete, is_selected, asks_same,
}

module _ (s : State) (intent : ResearchIntent) (review : CriticReview) (e : EvidenceRecord) where
  -- What a commit leaves of a task: all but its status and what the status needs.
  pub record IsSameTask (t u : AgendaTask) : Type 0 where
    pub same_id : u.task_id ≡ t.task_id
    pub same_kind : u.kind ≡ t.kind
    pub same_goal : u.goal_id ≡ t.goal_id
    pub same_question : u.question ≡ t.question
    pub same_sources : u.source_evidence_ids ≡ t.source_evidence_ids
    pub same_attempts : u.attempt_count ≡ t.attempt_count

  judged-IsSameTask : (t : AgendaTask) → IsSameTask t (judge s intent review e t)
  unfolding judge
  judged-IsSameTask t = ground arith

  names_evidence :
      (t : AgendaTask)
      → is_completed t.status ≡ false
      → is_completed (judge s intent review e t).status ≡ true
      → (judge s intent review e t).completion_evidence_id ≡ some e.evidence_id
  unfolding judge
  names_evidence t open_ h = ground arith

  goes_back :
      (t : AgendaTask)
      → is_completed (judge s intent review e t).status ≡ false
      → (is_selected intent t && (is_resolve t.kind || is_revalidate t.kind)) ≡ true
      → ((judge s intent review e t).status ≡ pending)
        × ((judge s intent review e t).selected_intent_id ≡ none)
  unfolding judge
  goes_back t h k = ground arith

  stays :
      (t : AgendaTask)
      → is_completed (judge s intent review e t).status ≡ false
      → (is_selected intent t && (is_resolve t.kind || is_revalidate t.kind)) ≡ false
      → judge s intent review e t ≡ t
  unfolding judge
  stays t h k = ground arith

  judge_completes :
      (t : AgendaTask)
      → is_completed t.status ≡ false
      → is_completed (judge s intent review e t).status ≡ should_complete s intent review e t
  unfolding judge
  judge_completes t open_ = ground arith

  -- A commit completes an unfinished task exactly for one of the reasons of `Completes`, and names the
  -- new evidence in it then. A selected contradiction or revalidation that stays open is pending again,
  -- with no intent; any other task stays as it was. The task keeps its id, its kind, its goal, its
  -- question, its sources and its attempts.
  pub judge_exact :
      (t : AgendaTask)
      → is_completed t.status ≡ false
      → let u = judge s intent review e t in
        IsSameTask t u
        × ((is_completed u.status ≡ true) ↔ Completes s intent review e t)
        × (is_completed u.status ≡ true → u.completion_evidence_id ≡ some e.evidence_id)
        × (is_completed u.status ≡ false
            → (is_selected intent t && (is_resolve t.kind || is_revalidate t.kind)) ≡ true
            → (u.status ≡ pending) × (u.selected_intent_id ≡ none))
        × (is_completed u.status ≡ false
            → (is_selected intent t && (is_resolve t.kind || is_revalidate t.kind)) ≡ false
            → u ≡ t)
  judge_exact t open_ =
      let reasons = completes_iff s intent review e t in
      let same = judge_completes t open_ in
      (
        judged-IsSameTask t,
        (λ h. reasons.0 (sym same ∙ h), λ c. same ∙ reasons.1 c),
        names_evidence t open_,
        goes_back t,
        stays t,
      )

  judge-IsConsistent :
      (t : AgendaTask)
      → truthy (some e.evidence_id) ≡ true
      → IsConsistent t
      → IsConsistent (judge s intent review e t)
  unfolding judge
  judge-IsConsistent t id c = ground arith

  pub judged-IsConsistent :
      (ts : List AgendaTask)
      → truthy (some e.evidence_id) ≡ true
      → All IsConsistent ts
      → All IsConsistent (map (judge s intent review e) ts)
  judged-IsConsistent [] id cs = tt
  judged-IsConsistent (t ∷ ts) id cs =
      (judge-IsConsistent t id cs.0, judged-IsConsistent ts id cs.1)

  -- A commit opens no follow-up again.
  judge-asks :
      (host : Host) (goal : Option String) (q : String) (t : AgendaTask)
      → asks_same host is_follow_up goal q (judge s intent review e t) ≡ true
      → asks_same host is_follow_up goal q t ≡ true
  unfolding judge asks_same
  judge-asks host goal q t h = ground arith

  pub judged-asks-le :
      (host : Host) (goal : Option String) (q : String) (ts : List AgendaTask)
      → count (asks_same host is_follow_up goal q) (map (judge s intent review e) ts)
        ≤ count (asks_same host is_follow_up goal q) ts
  judged-asks-le host goal q [] = omega arith
  judged-asks-le host goal q (t ∷ ts) =
      ground (arith, judge-asks host goal q t, judged-asks-le host goal q ts)
