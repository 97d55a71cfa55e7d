-- ===== src/Orchestration/ReviewEvidence/Relations.antt =====
-- orchestration/nodes/review_evidence.py: the relations that a commit adds.
use analysis_loop.Orchestration.ReviewEvidence.Defs.{
  withheld, has_relation, new_relation, create_relations, relation_candidates,
  relations_after_commit, revalidation_changed_conditions, any_change, intent_task,
  allowed_revalidates, with_kind,
}
use analysis_loop.Prelude.{
  ℕ, ◌+◌, ◌≤◌, String, ◌≡◌, refl, sym, ap, ◌∙◌, subst, true, false, not, ◌&&◌, ◌||◌, Option, none,
  some, List, Bool-cases, ◌⊎◌, inl, inr, [], ◌∷◌, ◌++◌, All, All-if, if◌then◌else◌, All-append,
  ◌==◌, arith, any, count, count-append, if_elim,
}
use analysis_loop.Prelude.Sets.{
  contains, minus, unique, All_at, All-elements, contains-minus, contains-unique,
}
use analysis_loop.Contracts.Planning.{ResearchIntent}
use analysis_loop.Contracts.Agenda.{
  AgendaTask, EvidenceRelation, RelationKind, eq_kind, is_revalidate, revalidates, derived_from,
  contradicts, supersedes, reconciles,
}
use analysis_loop.Contracts.Evidence.{EvidenceRecord}
use analysis_loop.Contracts.Review.{CriticReview}
use analysis_loop.State.{State}
use analysis_loop.Orchestration.ReviewEvidence.Recorded.{
  is_triple, has_relation-any, IsFrom, create-IsFrom, create_unique, IsRecorded, create-IsRecorded,
}

both_parts {ℓ} :
    {A : Type ℓ} (P : A → Type 0) (xs ys : List A) → All P (xs ++ ys) → All P xs × All P ys
both_parts P [] ys h = (tt, h)
both_parts P (x ∷ xs) ys h = let (a, b) = both_parts P xs ys h.1 in ((h.0, a), b)

module _ (uuid : ℕ → String) (n : ℕ) (s : State) (intent : ResearchIntent) (review : CriticReview)
    (e : EvidenceRecord) where
  abbrev pub related : List EvidenceRelation
  related = s.evidence_relations ++ relations_after_commit uuid n s intent review e

  -- A commit relates the new evidence to others only, and records no triple of source, target and
  -- kind twice if none was recorded twice before.
  pub relations_unique :
      (a b : String) (k : RelationKind)
      → count (is_triple a b k) s.evidence_relations ≤ 1
      → All (IsFrom e.evidence_id) (relations_after_commit uuid n s intent review e)
        × (count (is_triple a b k) related ≤ 1)
  unfolding relations_after_commit
  relations_unique a b k h = (
    create-IsFrom uuid e.evidence_id n s.evidence_relations (relation_candidates s intent review e),
    omega (
      arith,
      count-append (is_triple a b k) s.evidence_relations (
          create_relations uuid n e.evidence_id s.evidence_relations
            (relation_candidates s intent review e)),
      create_unique uuid e.evidence_id a b k n s.evidence_relations
          (relation_candidates s intent review e) h,
    ),
  )

  -- The relation is among the old and the new ones, or it would join the new evidence to itself.
  abbrev pub IsKept : RelationKind → String → Type 0
  IsKept k t = (t == e.evidence_id || any (is_triple e.evidence_id t k) related) ≡ true

  -- A source of the revalidation task that the intent works on, under the same conditions as before.
  pub record IsWithheld (t : String) : Type 0 where
    pub task : AgendaTask
    pub selected : intent_task s.agenda intent.task_id ≡ some task
    pub revalidating : is_revalidate task.kind ≡ true
    pub unchanged :
        any_change (revalidation_changed_conditions s.evidence task.source_evidence_ids e) ≡ false
    pub source : contains task.source_evidence_ids t ≡ true

  -- What the intent and the review declare of the new evidence.
  pub record IsComplete : Type 0 where
    pub derived : All (IsKept derived_from) intent.parent_evidence_ids
    pub contradicting : All (IsKept contradicts) review.contradicts
    pub revalidated : All (λ t. IsKept revalidates t ⊎ IsWithheld t) review.revalidates
    pub superseded : All (IsKept supersedes) review.supersedes
    pub reconciled : All (IsKept reconciles) review.reconciles

  of_pair : (p : RelationKind × String) → IsRecorded uuid e.evidence_id related p → IsKept p.0 p.1
  of_pair (k, t) h = ground (arith, has_relation-any related e.evidence_id t k)

  of_kind :
      (k : RelationKind) (ts : List String)
      → All (IsRecorded uuid e.evidence_id related) (with_kind k ts)
      → All (IsKept k) ts
  of_kind k [] h = tt
  of_kind k (t ∷ ts) h = (of_pair (k, t) h.0, of_kind k ts h.1)

  withheld-IsWithheld :
      (o : Option AgendaTask) (t : String)
      → intent_task s.agenda intent.task_id ≡ o
      → contains (withheld s o e) t ≡ true
      → IsWithheld t
  unfolding withheld
  withheld-IsWithheld none t h m = absurd (ground arith)
  withheld-IsWithheld (some task) t h m = record {
    task = task;
    selected = h;
    revalidating = ground arith;
    unchanged = ground arith;
    source = ground arith;
  }

  All-revalidations :
      All (IsKept revalidates) (allowed_revalidates s intent review e)
      → All (λ t. IsKept revalidates t ⊎ IsWithheld t) review.revalidates
  unfolding allowed_revalidates
  All-revalidations h =
      let out = withheld s (intent_task s.agenda intent.task_id) e in
      All-elements (λ t. IsKept revalidates t ⊎ IsWithheld t) review.revalidates
        λ t m. elim (Bool-cases (contains out t)) [
          | inl w ↦ inr (withheld-IsWithheld (intent_task s.agenda intent.task_id) t refl w)
          | inr w ↦ inl (
              All_at (IsKept revalidates) (minus (unique review.revalidates) out) h t (
                ground (
                  arith,
                  contains-minus (unique review.revalidates) out t,
                  contains-unique review.revalidates t,
                  m,
                  w,
                )))
        ]

  -- Behind a commit each parent of the intent, and each evidence that the review contradicts,
  -- supersedes or reconciles, stands in a relation of that kind with the new evidence, and so does each
  -- that it revalidates, but for the sources of the selected revalidation task under unchanged
  -- conditions. Only the new evidence itself is left out.
  pub relations_complete : IsComplete
  unfolding relations_after_commit relation_candidates
  relations_complete =
      let all_recorded =
        create-IsRecorded uuid e.evidence_id n s.evidence_relations
          (relation_candidates s intent review e) in
      let P = IsRecorded uuid e.evidence_id related in
      let d = with_kind derived_from intent.parent_evidence_ids in
      let c = with_kind contradicts review.contradicts in
      let v = with_kind revalidates (allowed_revalidates s intent review e) in
      let p = with_kind supersedes review.supersedes in
      let r = with_kind reconciles review.reconciles in
      let (hd, h1) = both_parts P d (c ++ (v ++ (p ++ r))) all_recorded in
      let (hc, h2) = both_parts P c (v ++ (p ++ r)) h1 in
      let (hv, h3) = both_parts P v (p ++ r) h2 in
      let (hp, hr) = both_parts P p r h3 in
      record {
        derived = of_kind derived_from intent.parent_evidence_ids hd;
        contradicting = of_kind contradicts review.contradicts hc;
        revalidated =
            All-revalidations (of_kind revalidates (allowed_revalidates s intent review e) hv);
        superseded = of_kind supersedes review.supersedes hp;
        reconciled = of_kind reconciles review.reconciles hr;
      }

-- The relation does not call one of the sources revalidated.
abbrev pub KeepsOpen : List String → EvidenceRelation → Type 0
KeepsOpen sources r = (eq_kind r.kind revalidates && contains sources r.target_evidence_id) ≡ false

abbrev IsAllowed : List String → RelationKind × String → Type 0
IsAllowed sources (k, t) = (eq_kind k revalidates && contains sources t) ≡ false

create-KeepsOpen :
    (uuid : ℕ → String) (source : String) (sources : List String) (n : ℕ)
    (existing : List EvidenceRelation) (cs : List (RelationKind × String))
    → All (IsAllowed sources) cs
    → All (KeepsOpen sources) (create_relations uuid n source existing cs)
unfolding create_relations
create-KeepsOpen uuid source sources n existing [] h = tt
create-KeepsOpen uuid source sources n existing ((k, t) ∷ cs) h =
    let made = new_relation (uuid n) source t k in
    All-if (KeepsOpen sources) (t == source || has_relation existing source t k)
      (create_relations uuid n source existing cs)
      (made ∷ create_relations uuid (n + 1) source (made ∷ existing) cs)
      (create-KeepsOpen uuid source sources n existing cs h.1)
      (h.0, create-KeepsOpen uuid source sources (n + 1) (made ∷ existing) cs h.1)

other_kind-IsAllowed :
    (sources : List String) (k : RelationKind) (ts : List String)
    → eq_kind k revalidates ≡ false
    → All (IsAllowed sources) (with_kind k ts)
other_kind-IsAllowed sources k [] h = tt
other_kind-IsAllowed sources k (t ∷ ts) h =
    (ap (λ b. b && contains sources t) h, other_kind-IsAllowed sources k ts h)

minus-IsAllowed :
    (sources ts : List String) → All (IsAllowed sources) (with_kind revalidates (minus ts sources))
minus-IsAllowed sources [] = tt
minus-IsAllowed sources (t ∷ ts) =
    if_elim (λ xs. All (IsAllowed sources) (with_kind revalidates xs)) (not (contains sources t))
      (t ∷ minus ts sources) (minus ts sources) (λ out. (ground arith, minus-IsAllowed sources ts))
      (λ within. minus-IsAllowed sources ts)

withheld_lem :
    (s : State) (t : AgendaTask) (e : EvidenceRecord)
    → is_revalidate t.kind ≡ true
    → any_change (revalidation_changed_conditions s.evidence t.source_evidence_ids e) ≡ false
    → withheld s (some t) e ≡ t.source_evidence_ids
unfolding withheld
withheld_lem s t e k c =
    ap (λ b. if b then t.source_evidence_ids else [])
      (ap
          (λ b.
            b
            && not
                (any_change (revalidation_changed_conditions s.evidence t.source_evidence_ids e)))
          k
        ∙ ap not c)

allowed_revalidates_kept :
    (s : State) (intent : ResearchIntent) (review : CriticReview) (e : EvidenceRecord)
    (t : AgendaTask)
    → intent_task s.agenda intent.task_id ≡ some t
    → is_revalidate t.kind ≡ true
    → any_change (revalidation_changed_conditions s.evidence t.source_evidence_ids e) ≡ false
    → allowed_revalidates s intent review e
      ≡ minus (unique review.revalidates) t.source_evidence_ids
unfolding allowed_revalidates
allowed_revalidates_kept s intent review e t h k c =
    ap (λ o. minus (unique review.revalidates) (withheld s o e)) h
    ∙ ap (minus (unique review.revalidates)) (withheld_lem s t e k c)

candidates-IsAllowed :
    (s : State) (intent : ResearchIntent) (review : CriticReview) (e : EvidenceRecord)
    (sources : List String)
    → allowed_revalidates s intent review e ≡ minus (unique review.revalidates) sources
    → All (IsAllowed sources) (relation_candidates s intent review e)
unfolding relation_candidates
candidates-IsAllowed s intent review e sources kept =
    let other = other_kind-IsAllowed sources in
    let d = with_kind derived_from intent.parent_evidence_ids in
    let c = with_kind contradicts review.contradicts in
    let v = with_kind revalidates (allowed_revalidates s intent review e) in
    let p = with_kind supersedes review.supersedes in
    let r = with_kind reconciles review.reconciles in
    All-append (IsAllowed sources) d (c ++ (v ++ (p ++ r)))
      (other derived_from intent.parent_evidence_ids refl)
      (All-append (IsAllowed sources) c (v ++ (p ++ r)) (other contradicts review.contradicts refl)
        (All-append (IsAllowed sources) v (p ++ r)
          (subst (λ xs. All (IsAllowed sources) (with_kind revalidates xs)) (sym kept)
            (minus-IsAllowed sources (unique review.revalidates)))
          (All-append (IsAllowed sources) p r (other supersedes review.supersedes refl)
            (other reconciles review.reconciles refl))))

-- While the conditions of a run are those of its sources, a selected revalidation task has no effect:
-- no source is recorded as revalidated.
pub unchanged_revalidates_nothing :
    (uuid : ℕ → String) (n : ℕ) (s : State) (intent : ResearchIntent) (review : CriticReview)
    (e : EvidenceRecord) (t : AgendaTask)
    → intent_task s.agenda intent.task_id ≡ some t
    → is_revalidate t.kind ≡ true
    → any_change (revalidation_changed_conditions s.evidence t.source_evidence_ids e) ≡ false
    → All (KeepsOpen t.source_evidence_ids) (relations_after_commit uuid n s intent review e)
unfolding relations_after_commit
unchanged_revalidates_nothing uuid n s intent review e t h k c =
    create-KeepsOpen uuid e.evidence_id t.source_evidence_ids n s.evidence_relations
      (relation_candidates s intent review e)
      (candidates-IsAllowed s intent review e t.source_evidence_ids
        (allowed_revalidates_kept s intent review e t h k c))
