-- ===== src/Orchestration/ReviewAgenda/Completed.antt =====
-- orchestration/nodes/review_agenda.py: when a commit completes a task, apart from the code's own tests.
use analysis_loop.Orchestration.ReviewAgenda.Defs.{
  is_selected, should_complete, revalidation_resolved,
}
use analysis_loop.Prelude.{
  ◌≡◌, refl, sym, subst, ap, ◌∙◌, ◌↔◌, inl, inr, String, true, ◌&&◌, some, List, [], ◌∷◌, All, ◌==◌,
  eq_iff, arith, Bool-cases, Option-cases,
}
use analysis_loop.Prelude.Sets.{contains, meets, subset}
use analysis_loop.Contracts.Planning.{ResearchIntent}
use analysis_loop.Contracts.Agenda.{AgendaTask, is_follow_up, is_resolve, is_revalidate}
use analysis_loop.Contracts.Evidence.{EvidenceRecord}
use analysis_loop.Contracts.Review.{CriticReview}
use analysis_loop.State.{State}
use analysis_loop.Orchestration.ReviewAgenda.Conditions.{IsChanged, conditions_differ_iff}

meets_at :
    (xs ys : List String) (c : String)
    → contains xs c ≡ true
    → contains ys c ≡ true
    → meets xs ys ≡ true
meets_at [] ys c m n = absurd (ground arith)
meets_at (x ∷ xs) ys c m n = elim (Bool-cases (x == c)) [
  | inl e ↦ ground (arith, subst (λ z. contains ys z ≡ true) (sym ((eq_iff x c).0 e)) n)
  | inr e ↦ ground (arith, meets_at xs ys c (ground arith) n)
]

meets_some :
    (xs ys : List String)
    → meets xs ys ≡ true
    → (c : String) × (contains xs c ≡ true) × (contains ys c ≡ true)
meets_some [] ys h = absurd (ground arith)
meets_some (x ∷ xs) ys h = elim (Bool-cases (contains ys x)) [
  | inl e ↦ (x, ground (arith, (eq_iff x x).1 refl), e)
  | inr e ↦ let (c, m, n) = meets_some xs ys (ground arith) in (c, ground (arith, m), n)
]

subset_iff : (xs ys : List String) → (subset xs ys ≡ true) ↔ All (λ c. contains ys c ≡ true) xs
subset_iff [] ys = (λ h. tt, λ h. refl)
subset_iff (x ∷ xs) ys = (
  λ h. (ground arith, (subset_iff xs ys).0 (ground arith)),
  λ h. ground (arith, h.0, (subset_iff xs ys).1 h.1),
)

selected_iff :
    (intent : ResearchIntent) (t : AgendaTask)
    → (is_selected intent t ≡ true) ↔ (intent.task_id ≡ some t.task_id)
selected_iff intent t = elim (Option-cases intent.task_id) [
  | inl n ↦ (λ h. absurd (ground (arith, n, h)), λ h. absurd (ground (arith, n, h)))
  | inr (id, n) ↦ (
    λ h. n ∙ ap some (sym ((eq_iff t.task_id id).0 (ground (arith, n, h)))),
    λ h.
        let same : id ≡ t.task_id = ground (arith, n, h) in
        ground (arith, n, (eq_iff t.task_id id).1 (sym same)),
  )
]

module _ (s : State) (intent : ResearchIntent) (review : CriticReview) (e : EvidenceRecord) where
  -- Why a commit may complete a task: it is the selected follow-up; a contradiction of which the review
  -- supersedes a source, or reconciles all; or the selected revalidation, of which the review names
  -- all sources as revalidated and one was analysed under other conditions.
  pub data Completes (t : AgendaTask) : Type 0 where
    answers : intent.task_id ≡ some t.task_id → is_follow_up t.kind ≡ true → Completes t
    settles :
        is_resolve t.kind ≡ true
        → (c : String) → contains t.source_evidence_ids c ≡ true
        → contains review.supersedes c ≡ true
        → Completes t
    joins :
        is_resolve t.kind ≡ true
        → All (λ c. contains review.reconciles c ≡ true) t.source_evidence_ids
        → Completes t
    rechecks :
        intent.task_id ≡ some t.task_id
        → is_revalidate t.kind ≡ true
        → All (λ c. contains review.revalidates c ≡ true) t.source_evidence_ids
        → IsChanged s.evidence t.source_evidence_ids e
        → Completes t

  completes : (t : AgendaTask) → Completes t → should_complete s intent review e t ≡ true
  completes t (answers i k) = ground (arith, (selected_iff intent t).1 i, k)
  completes t (settles k c m n) =
      ground (arith, k, meets_at t.source_evidence_ids review.supersedes c m n)
  completes t (joins k h) =
      ground (arith, k, (subset_iff t.source_evidence_ids review.reconciles).1 h)
  completes t (rechecks i k h c) = ground (
    arith,
    (selected_iff intent t).1 i,
    k,
    (subset_iff t.source_evidence_ids review.revalidates).1 h,
    (conditions_differ_iff s.evidence t.source_evidence_ids e).1 c,
  )

  all_rechecked : (t : AgendaTask) → revalidation_resolved s intent review e t ≡ true → Completes t
  all_rechecked t h =
      rechecks ((selected_iff intent t).0 (ground arith)) (ground arith)
        ((subset_iff t.source_evidence_ids review.revalidates).0 (ground arith))
        ((conditions_differ_iff s.evidence t.source_evidence_ids e).0 (ground arith))

  one_superseded :
      (t : AgendaTask)
      → (is_resolve t.kind && meets t.source_evidence_ids review.supersedes) ≡ true
      → Completes t
  one_superseded t h =
      let (c, m, n) = meets_some t.source_evidence_ids review.supersedes (ground arith) in
      settles (ground arith) c m n

  all_joined :
      (t : AgendaTask)
      → (is_resolve t.kind && subset t.source_evidence_ids review.reconciles) ≡ true
      → Completes t
  all_joined t h =
      joins (ground arith) ((subset_iff t.source_evidence_ids review.reconciles).0 (ground arith))

  all_answered :
      (t : AgendaTask) → (is_selected intent t && is_follow_up t.kind) ≡ true → Completes t
  all_answered t h = answers ((selected_iff intent t).0 (ground arith)) (ground arith)

  by_test : (t : AgendaTask) → should_complete s intent review e t ≡ true → Completes t
  by_test t h = elim (Bool-cases (is_selected intent t && is_follow_up t.kind)) [
    | inl a ↦ all_answered t a
    | inr a ↦
        elim (Bool-cases (is_resolve t.kind && meets t.source_evidence_ids review.supersedes)) [
          | inl b ↦ one_superseded t b
          | inr b ↦
              elim (Bool-cases
                (is_resolve t.kind && subset t.source_evidence_ids review.reconciles)) [
                  | inl c ↦ all_joined t c
                  | inr c ↦ all_rechecked t (ground arith)
                ]
        ]
  ]

  -- A task may be completed exactly for one of these reasons.
  pub completes_iff : (t : AgendaTask) → (should_complete s intent review e t ≡ true) ↔ Completes t
  completes_iff t = (λ h. by_test t h, completes t)
