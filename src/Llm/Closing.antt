-- ===== src/Llm/Closing.antt =====
-- llm/planner_service.py: what a proposal says of the goals, and when it finishes a run.
use analysis_loop.Prelude.{
  ◌≡◌, refl, sym, subst, ◌∙◌, ap, String, Bool, true, false, Option, none, some, List, [], ◌∷◌,
  ◌++◌, ◌==◌, eq_iff, ok, bind_ok, ok_inj, is_empty, arith, Bool-cases, inl, inr, if◌then◌else◌,
}
use analysis_loop.Prelude.Sets.{contains, subset}
use analysis_loop.Json.{Json, Items, Fields, find_field}
use analysis_loop.Contracts.Planning.{SubGoal, ResearchIntent}
use analysis_loop.Contracts.Runtime.{ServiceResult, FailureKind}
use analysis_loop.Orchestration.Planning.Verdicts.{Verdict}
use analysis_loop.Orchestration.Planning.Nodes.{PlannerProposal}
use analysis_loop.Llm.Calls.{Answer, answered, refused}
use analysis_loop.Llm.Goals.{items_of, goal_verdict, open_ids}
use analysis_loop.Llm.Planner.{
  given, failed_as, closes_all, asks, propose, proposal, with_question, without_question,
}
use analysis_loop.Llm.Proposed.{IsExact, verdict-IsExact}

subset_within :
    (xs ys : List String) (c : String)
    → subset xs ys ≡ true
    → contains xs c ≡ true
    → contains ys c ≡ true
subset_within [] ys c h m = absurd (ground arith)
subset_within (x ∷ xs) ys c h m = elim (Bool-cases (x == c)) [
  | inl e ↦ subst (λ z. contains ys z ≡ true) ((eq_iff x c).0 e) (ground arith)
  | inr e ↦ subset_within xs ys c (ground arith) (ground arith)
]

-- There is an open goal, and each one is closed by the verdict; the run has nothing more to ask.
pub record IsClosing (goals : List SubGoal) (p : PlannerProposal) : Type 0 where
  pub asks_nothing : p.intent ≡ none
  pub some_open : is_empty (open_ids goals) ≡ false
  pub all_closed :
      (c : String)
      → contains (open_ids goals) c ≡ true
      → contains (p.verdict.converged ++ p.verdict.abandoned) c ≡ true

-- The verdict of a proposal is that of the answer, or it finishes.
record Shape (goals : List SubGoal) (v : Verdict) (p : PlannerProposal) : Type 0 where
  verdict : p.verdict ≡ record v { finished = p.verdict.finished }
  closing : p.verdict.finished ≡ true → IsClosing goals p

asking-Shape :
    (goals : List SubGoal) (v : Verdict) (intent : Option ResearchIntent)
    → v.finished ≡ false
    → Shape goals v (proposal intent v)
asking-Shape goals v intent f = record { verdict = refl; closing = λ h. absurd (ground arith) }

some_inj : {A : Type 0} (x y : A) → some x ≡ some y → x ≡ y
some_inj x y h = ground arith

with-Shape :
    (goals : List SubGoal) (v : Verdict) (a : Answer ResearchIntent) (p : PlannerProposal)
    → v.finished ≡ false
    → (with_question v a).value ≡ some p
    → Shape goals v p
unfolding with_question
with-Shape goals v (answered intent) p f h =
    subst (Shape goals v) (some_inj _ p h) (asking-Shape goals v (some intent) f)
with-Shape goals v (refused e) p f h =
    subst (Shape goals v) (some_inj _ p h) (asking-Shape goals v none f)

finishing-Shape :
    (goals : List SubGoal) (v : Verdict)
    → closes_all v (open_ids goals) ≡ true
    → Shape goals v (proposal none (record v { finished = true }))
finishing-Shape goals v h = record {
  verdict = refl;
  closing = λ _. record {
    asks_nothing = refl;
    some_open = ground arith;
    all_closed = λ c m. subset_within (open_ids goals) _ c (ground arith) m;
  };
}

abbrev unasked : List SubGoal → Verdict → Bool → ServiceResult PlannerProposal
unfolding without_question
unasked goals v b =
    if b
    then given (proposal none (record v { finished = true })) none
    else failed_as (some (proposal none v)) "플래너 응답에 question이 비어 있다 — goal_review만 왔다"
        FailureKind.response_invalid

without-Shape :
    (goals : List SubGoal) (v : Verdict) (p : PlannerProposal)
    → v.finished ≡ false
    → (without_question v goals).value ≡ some p
    → Shape goals v p
unfolding without_question
without-Shape goals v p f h = elim (Bool-cases (closes_all v (open_ids goals))) [
  | inl e ↦
      subst (Shape goals v) (some_inj _ p (sym (ap (λ b. (unasked goals v b).value) e) ∙ h))
        (finishing-Shape goals v e)
  | inr e ↦
      subst (Shape goals v) (some_inj _ p (sym (ap (λ b. (unasked goals v b).value) e) ∙ h))
        (asking-Shape goals v none f)
]

module _ (to_text : Json → String) (lower : String → String)
    (read_intent : Fields → Answer ResearchIntent) where
  abbrev asked : List SubGoal → Verdict → Fields → Bool → ServiceResult PlannerProposal
  asked goals v raw b = if b then with_question v (read_intent raw) else without_question v goals

  proposed-Shape :
      (goals : List SubGoal) (v : Verdict) (raw : Fields) (b : Bool) (p : PlannerProposal)
      → v.finished ≡ false
      → (asked goals v raw b).value ≡ some p
      → Shape goals v p
  proposed-Shape goals v raw true p f h = with-Shape goals v (read_intent raw) p f h
  proposed-Shape goals v raw false p f h = without-Shape goals v p f h

  -- When the model answers and the planner returns a proposal, its verdict closes only open goals that
  -- the answer reviews and leaves as unreviewed exactly the open goals that it does not review; and a
  -- proposal that finishes has no intent, and closes every open goal, of which there is one.
  pub propose-IsExact :
      (goals : List SubGoal) (raw : Fields) (r : ServiceResult PlannerProposal)
      (p : PlannerProposal)
      → propose to_text lower read_intent goals (answered raw) ≡ ok r
      → r.value ≡ some p
      → (items : Items) × (items_of (find_field "goal_review" raw) ≡ ok items)
        × IsExact goals items p.verdict
        × (p.verdict.finished ≡ true → IsClosing goals p)
  unfolding propose
  propose-IsExact goals raw r p h e =
      let (v, hv, h1) = bind_ok (goal_verdict to_text lower raw goals) _ r h in
      let (items, i, exact, f) = verdict-IsExact to_text lower raw goals v hv in
      let shape =
        proposed-Shape goals v raw (asks to_text lower read_intent raw) p f
          (ap (λ x. x.value) (ok_inj _ r h1) ∙ e) in
      (
        items,
        i,
        subst (IsExact goals items) (sym shape.verdict)
            (record { only_open = exact.only_open; unreviewed = exact.unreviewed }),
        shape.closing,
      )
