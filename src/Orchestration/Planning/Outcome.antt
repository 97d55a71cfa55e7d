-- ===== src/Orchestration/Planning/Outcome.antt =====
-- orchestration/nodes/planning.py: what a state looks like behind `plan_intent`.
use analysis_loop.Prelude.{
  ◌+◌, ◌≡◌, refl, String, Bool, false, Option, none, some, List, [], ◌++◌, ◌⊎◌, inl, inr, ok, map,
  arith, any, truthy, ◌&&◌, if◌then◌else◌,
}
use analysis_loop.Prelude.Sets.{contains, minus}
use analysis_loop.Contracts.Data.{DatasetProfile, column_names}
use analysis_loop.Contracts.Planning.{ResearchIntent, IntentPayload, SubGoal, dedupe_key}
use analysis_loop.Contracts.Agenda.{AgendaTask}
use analysis_loop.Contracts.Runtime.{ServiceResult}
use analysis_loop.State.{State, Update, apply, current_evidence, pending_agenda_tasks}
use analysis_loop.Validation.References.{validate_intent_references, intent_columns}
use analysis_loop.Orchestration.Planning.IntentPolicy.{Refusal, is_compute}
use analysis_loop.Orchestration.Planning.Decisions.{stalled, intent_error, rejected_intent}
use analysis_loop.Orchestration.Planning.Verdicts.{is_named, goal_progress, apply_goal_verdict}
use analysis_loop.Orchestration.Planning.Idle.{
  goals_if, NoIntent, stalled-NoIntent, without-NoIntent,
}
use analysis_loop.Orchestration.Planning.Nodes.{
  PlannerProposal, claim, proposed_intent, verdict_of, with_intent, without_intent, accept_intent,
  answer_planner, plan_intent,
}

-- The agenda with the task of a computing intent in progress.
abbrev pub taken_up : State → ResearchIntent → List AgendaTask
taken_up s i =
    if truthy i.task_id && is_compute i.execution_mode then map (claim i) s.agenda else s.agenda

-- The intent starts a fresh cycle, one iteration later; it refers to what there is, and is new.
pub record Started (digest : IntentPayload → String) (s : State) (p : DatasetProfile)
    (i : ResearchIntent) (t : State) : Type 0 where
  pub intent : t.intent ≡ some i
  pub iteration : t.iteration ≡ s.iteration + 1
  pub static_repairs : t.static_repairs ≡ 0
  pub runtime_repairs : t.runtime_repairs ≡ 0
  pub error_streak : t.error_streak ≡ none
  pub validation_errors : t.validation_errors ≡ []
  pub review : t.review ≡ none
  pub program_ref : t.program_ref ≡ none
  pub candidate_ref : t.candidate_ref ≡ none
  pub agenda : t.agenda ≡ taken_up s i
  pub evidence : t.evidence ≡ s.evidence
  pub goal_expansions : t.goal_expansions ≡ s.goal_expansions
  pub max_iterations : t.max_iterations ≡ s.max_iterations
  pub columns : minus (intent_columns i) (column_names p) ≡ []
  pub references :
      minus (i.parent_evidence_ids ++ i.reuse_evidence_ids) (map (λ e. e.evidence_id) s.evidence)
      ≡ []
  pub untested : contains s.coverage.tested_dedupe_keys (dedupe_key digest i) ≡ false

-- What an intent that is not refused refers to.
intent_error-none :
    (digest : IntentPayload → String) (s : State) (i : ResearchIntent) (p : DatasetProfile)
    (updated : List SubGoal) (goals : Update)
    → intent_error digest s i p updated goals ≡ none
    → (minus (intent_columns i) (column_names p) ≡ [])
      × (minus (i.parent_evidence_ids ++ i.reuse_evidence_ids) (map (λ e. e.evidence_id) s.evidence)
          ≡ [])
      × (contains s.coverage.tested_dedupe_keys (dedupe_key digest i) ≡ false)
unfolding intent_error validate_intent_references
intent_error-none digest s i p updated goals h = ground arith

-- The cycle that an accepted intent starts.
abbrev Fresh : State → ResearchIntent → State → Type 0
Fresh s i t =
    (t.intent ≡ some i)
    × (t.iteration ≡ s.iteration + 1)
    × (t.static_repairs ≡ 0)
    × (t.runtime_repairs ≡ 0)
    × (t.error_streak ≡ none)
    × (t.validation_errors ≡ [])
    × (t.review ≡ none)
    × (t.program_ref ≡ none)
    × (t.candidate_ref ≡ none)
    × (t.agenda ≡ taken_up s i)
    × (t.evidence ≡ s.evidence)
    × (t.goal_expansions ≡ s.goal_expansions)
    × (t.max_iterations ≡ s.max_iterations)

accept-Fresh :
    (s : State) (b : Bool) (goals : List SubGoal) (i : ResearchIntent)
    → Fresh s i (apply s (accept_intent s i (goals_if b goals)))
unfolding accept_intent
accept-Fresh s b goals i = ground arith

module _ (digest : IntentPayload → String) (s : State) (p : DatasetProfile) where
  start :
      (i : ResearchIntent) (t : State) (updated : List SubGoal) (goals : Update)
      → Fresh s i t
      → intent_error digest s i p updated goals ≡ none
      → Started digest s p i t
  start i t updated goals f h =
      let e = intent_error-none digest s i p updated goals h in
      record {
        intent = f.0;
        iteration = f.1;
        static_repairs = f.2;
        runtime_repairs = f.3;
        error_streak = f.4;
        validation_errors = f.5;
        review = f.6;
        program_ref = f.7;
        candidate_ref = f.8;
        agenda = f.9;
        evidence = f.10;
        goal_expansions = f.11;
        max_iterations = f.12;
        columns = e.0;
        references = e.1;
        untested = e.2;
      }

  module _ (b : Bool) (goals updated : List SubGoal) (i : ResearchIntent) where
    abbrev change : Update
    change = goals_if b goals

    abbrev answer : Refusal → Update
    answer r =
        elim (elim r as (λ _. Option Update) [
          | none ↦ none
          | some (reason, advice) ↦ some (stalled s change reason (some advice))
        ]) [ some u ↦ u | none ↦ accept_intent s i change ]

    by_error :
        (r : Refusal)
        → intent_error digest s i p updated change ≡ r
        → NoIntent s (apply s (answer r)) ⊎ Started digest s p i (apply s (answer r))
    by_error none h =
        inr
          (start i (apply s (accept_intent s i change)) updated change (accept-Fresh s b goals i) h)
    by_error (some (reason, advice)) h = inl (stalled-NoIntent s b goals reason (some advice))

    with_outcome :
        let t = apply s (with_intent digest s p updated change i) in
        NoIntent s t ⊎ Started digest s p i t
    unfolding with_intent rejected_intent
    with_outcome = by_error (intent_error digest s i p updated change) refl

  -- The result of an answer, by its intent.
  abbrev pub Outcome : ServiceResult PlannerProposal → Update → Type 0
  Outcome result u =
      NoIntent s (apply s u)
      ⊎ (i : ResearchIntent) × (proposed_intent result.value ≡ some i)
        × Started digest s p i (apply s u)

  by_intent :
      (result : ServiceResult PlannerProposal) (b : Bool) (goals updated : List SubGoal)
      (o : Option ResearchIntent)
      → proposed_intent result.value ≡ o
      → Outcome result (elim o [
        | none ↦ without_intent s updated (goals_if b goals) result
        | some i ↦ with_intent digest s p updated (goals_if b goals) i
      ])
  by_intent result b goals updated none h = inl (without-NoIntent s b goals updated result)
  by_intent result b goals updated (some i) h = elim (with_outcome b goals updated i) [
    | inl n ↦ inl n
    | inr st ↦ inr (i, h, st)
  ]

  -- With a planner and a profile, `plan_intent` never raises: either no intent is set, and neither the
  -- iteration nor the agenda changes, or the proposed intent starts a fresh cycle, one iteration later,
  -- that refers to columns and evidence there are and repeats no tested analysis.
  pub plan_outcome :
      (result : ServiceResult PlannerProposal)
      → s.profile ≡ some p
      → (u : Update) × (plan_intent digest (some result) s ≡ ok u) × Outcome result u
  unfolding plan_intent answer_planner goal_progress
  plan_outcome result h =
      let v = verdict_of result.value in
      let e = current_evidence s in
      let t = pending_agenda_tasks s in
      let goals = apply_goal_verdict v e s.rejected t s.sub_goals in
      (
        answer_planner digest s p result,
        rw h,
        by_intent result (any (is_named v e s.rejected t) s.sub_goals) goals goals
            (proposed_intent result.value) refl,
      )
