-- ===== src/Orchestration/Planning/Stalls.antt =====
-- orchestration/nodes/planning.py: a planner whose answers cannot be used.
use analysis_loop.Prelude.{
  ℕ, zero, suc, ◌≡◌, refl, sym, subst, String, Bool, true, false, not, Option, none, some, List, [],
  ◌∷◌, Message, arith, leb, ap, ◌∙◌, ◌||◌, ◌&&◌, any, truthy, if_elim, is_empty, ok, ok_inj,
  bind_ok, require, Result, Option-cases, Bool-cases, inl, inr,
}
use analysis_loop.Contracts.Data.{DatasetProfile}
use analysis_loop.Contracts.Planning.{SubGoal, ResearchIntent, IntentPayload, is_open}
use analysis_loop.Contracts.Runtime.{running, is_terminal, StopCode, ServiceResult, FailureKind}
use analysis_loop.State.{State, Streak, Update, apply, current_evidence, pending_agenda_tasks}
use analysis_loop.Orchestration.FailurePolicy.{stops_run}
use analysis_loop.Orchestration.Shared.{
  bump_error_streak, streak_key, streak_count, stuck_threshold,
}
use analysis_loop.Orchestration.Planning.IntentPolicy.{Refusal}
use analysis_loop.Orchestration.Planning.Idle.{goals_if}
use analysis_loop.Orchestration.Planning.Decisions.{
  stalled, no_intent_code, no_intent_errors, no_intent, failure_update, planner_failed,
  intent_error, rejected_intent,
}
use analysis_loop.Orchestration.Planning.Verdicts.{
  Verdict, is_named, goal_progress, apply_goal_verdict,
}
use analysis_loop.Orchestration.Planning.Nodes.{
  PlannerProposal, proposed_intent, verdict_of, with_failure, stop_code_of, with_intent,
  without_intent, answer_planner, plan_intent, accept_intent,
}

key_lem : streak_key no_intent_errors ≡ no_intent_code
unfolding streak_key analysis_loop.Prelude.Sets.sorted_set
key_lem = refl

streak_after : ℕ → Option Streak
streak_after zero = none
streak_after (suc n) = some (record { key = no_intent_code; count = suc n })

bump-after :
    (s : State) (n : ℕ)
    → s.error_streak ≡ streak_after n
    → bump_error_streak s no_intent_errors ≡ streak_after (suc n)
unfolding streak_after bump_error_streak
bump-after s zero h = rw (key_lem, h)
bump-after s (suc n) h = rw (key_lem, h)

-- One more failure of the planner: the streak grows, and the fifth in a row ends the run.
record Stalls (s t : State) : Type 0 where
  streak : t.error_streak ≡ bump_error_streak s no_intent_errors
  ends : is_terminal t.status ≡ (
      is_terminal s.status
      || leb stuck_threshold (streak_count (bump_error_streak s no_intent_errors)))
  code :
      leb stuck_threshold (streak_count (bump_error_streak s no_intent_errors)) ≡ true
      → t.stop_code ≡ some StopCode.planner_stuck

module _ (s : State) (b : Bool) (goals : List SubGoal) where
  abbrev stall : Message → Option Message → Update
  stall reason advice = stalled s (goals_if b goals) reason advice

  stalled-Stalls :
      (reason : Message) (advice : Option Message) → Stalls s (apply s (stall reason advice))
  unfolding stalled
  stalled-Stalls reason advice = record {
    streak = ground arith;
    ends = ground arith;
    code = λ h. ground arith;
  }

  -- A planner that is stuck is no missing service.
  stalled-kept :
      (reason : Message) (advice : Option Message) (error : Option String)
      (kind : Option FailureKind)
      → with_failure (stop_code_of s (stall reason advice)) error kind (stall reason advice)
        ≡ stall reason advice
  unfolding stalled with_failure
  stalled-kept reason advice error kind = ground arith

  IsStall : Update → Type 0
  IsStall u = (reason : Message) × (advice : Option Message) × (u ≡ stall reason advice)

  stalls_again : (reason : Message) (advice : Option Message) → IsStall (stall reason advice)
  unfolding IsStall
  stalls_again reason advice = (reason, advice, refl)

  failure-IsStall :
      (error : Option String) (kind : Option FailureKind)
      → (truthy error && stops_run kind) ≡ false
      → IsStall (failure_update s (goals_if b goals) error kind)
  unfolding failure_update planner_failed
  failure-IsStall none kind h = stalls_again _ none
  failure-IsStall (some e) kind h =
      if_elim IsStall (truthy (some e)) _ _
        (λ given.
          if_elim IsStall (stops_run kind) _ _ (λ stops. absurd (ground (arith, h, given, stops)))
            (λ goes. stalls_again _ _))
        (λ blank. stalls_again _ none)

  no_intent-IsStall :
      (verdict : Verdict) (updated : List SubGoal) (error : Option String)
      (kind : Option FailureKind)
      → (verdict.finished && not (any is_open updated) && is_empty (pending_agenda_tasks s)) ≡ false
      → (not (verdict.finished && not (any is_open updated)) && truthy error && stops_run kind)
        ≡ false
      → IsStall (no_intent s verdict updated (goals_if b goals) error kind)
  unfolding no_intent
  no_intent-IsStall verdict updated error kind f h =
      if_elim IsStall (verdict.finished && not (any is_open updated)) _ _
        (λ done.
          if_elim IsStall (not (is_empty (pending_agenda_tasks s))) _ _ (λ busy. stalls_again _ _)
            (λ idle. absurd (ground (arith, f, done, idle))))
        (λ more. failure-IsStall error kind (ground (arith, h, more)))

  kept-IsStall :
      (error : Option String) (kind : Option FailureKind) (u : Update)
      → IsStall u
      → IsStall (with_failure (stop_code_of s u) error kind u)
  unfolding IsStall
  kept-IsStall error kind u (reason, advice, h) = (
    reason,
    advice,
    ap (λ w. with_failure (stop_code_of s w) error kind w) h
        ∙ stalled-kept reason advice error kind,
  )

  IsStall-Stalls : (u : Update) → IsStall u → Stalls s (apply s u)
  unfolding IsStall
  IsStall-Stalls u (reason, advice, h) =
      subst (λ w. Stalls s (apply s w)) (sym h) (stalled-Stalls reason advice)

-- The goals behind the verdict of an answer.
abbrev pub judged_goals : State → ServiceResult PlannerProposal → List SubGoal
judged_goals s r =
    apply_goal_verdict (verdict_of r.value) (current_evidence s) s.rejected (pending_agenda_tasks s)
      s.sub_goals

abbrev pub goals_changed : State → ServiceResult PlannerProposal → Update
goals_changed s r =
    goal_progress (verdict_of r.value) (current_evidence s) s.rejected (pending_agenda_tasks s)
      s.sub_goals

-- The answer declares the end, and no goal is open behind its verdict.
abbrev pub declares_end : State → ServiceResult PlannerProposal → Bool
declares_end s r = (verdict_of r.value).finished && not (any is_open (judged_goals s r))

-- An answer that cannot be used. It has no intent and does not end the run: it declares no end, or
-- tasks are pending, and it is no failure of a service that is gone. Or its intent is refused.
pub data IsUnusable (digest : IntentPayload → String) (s : State) (p : DatasetProfile)
    (r : ServiceResult PlannerProposal) : Type 0 where
  silent :
      proposed_intent r.value ≡ none
      → (declares_end s r && is_empty (pending_agenda_tasks s)) ≡ false
      → (not (declares_end s r) && truthy r.error && stops_run r.failure_kind) ≡ false
      → IsUnusable digest s p r
  refused :
      (i : ResearchIntent) (reason : Message) (advice : Message)
      → proposed_intent r.value ≡ some i
      → intent_error digest s i p (judged_goals s r) (goals_changed s r) ≡ some (reason, advice)
      → IsUnusable digest s p r

module _ (digest : IntentPayload → String) (s : State) (p : DatasetProfile)
    (r : ServiceResult PlannerProposal) where
  abbrev named : Bool
  named =
      any (is_named (verdict_of r.value) (current_evidence s) s.rejected (pending_agenda_tasks s))
        s.sub_goals

  abbrev answered_by : Option ResearchIntent → Update
  answered_by o = elim o as (λ _. Update) [
    | none ↦ without_intent s (judged_goals s r) (goals_changed s r) r
    | some i ↦ with_intent digest s p (judged_goals s r) (goals_changed s r) i
  ]

  abbrev refused_by : Refusal → Option Update
  refused_by e = elim e as (λ _. Option Update) [
    | none ↦ none
    | some (reason, advice) ↦ some (stalled s (goals_changed s r) reason (some advice))
  ]

  abbrev accepted_unless : ResearchIntent → Option Update → Update
  accepted_unless i o = elim o as (λ _. Update) [
    | some u ↦ u
    | none ↦ accept_intent s i (goals_changed s r)
  ]

  silent-Stalls :
      proposed_intent r.value ≡ none
      → (declares_end s r && is_empty (pending_agenda_tasks s)) ≡ false
      → (not (declares_end s r) && truthy r.error && stops_run r.failure_kind) ≡ false
      → Stalls s (apply s (answer_planner digest s p r))
  unfolding answer_planner without_intent goal_progress
  silent-Stalls e f h =
      let goals = judged_goals s r in
      subst (λ u. Stalls s (apply s u)) (sym (ap answered_by e))
        (IsStall-Stalls s named goals _ (
          kept-IsStall s named goals r.error r.failure_kind _ (
            no_intent-IsStall s named goals (verdict_of r.value) goals r.error r.failure_kind f h)))

  refused-Stalls :
      (i : ResearchIntent) (reason : Message) (advice : Message)
      → proposed_intent r.value ≡ some i
      → intent_error digest s i p (judged_goals s r) (goals_changed s r) ≡ some (reason, advice)
      → Stalls s (apply s (answer_planner digest s p r))
  unfolding answer_planner with_intent rejected_intent goal_progress
  refused-Stalls i reason advice e f =
      subst (λ u. Stalls s (apply s u))
        (sym (ap answered_by e ∙ ap (λ x. accepted_unless i (refused_by x)) f))
        (stalled-Stalls s named (judged_goals s r) reason (some advice))

  unusable-Stalls : IsUnusable digest s p r → Stalls s (apply s (answer_planner digest s p r))
  unusable-Stalls (silent e f h) = silent-Stalls e f h
  unusable-Stalls (refused i reason advice e f) = refused-Stalls i reason advice e f

planned-Stalls :
    (digest : IntentPayload → String) (s : State) (p : DatasetProfile)
    (r : ServiceResult PlannerProposal) (u : Update)
    → s.profile ≡ some p
    → IsUnusable digest s p r
    → plan_intent digest (some r) s ≡ ok u
    → Stalls s (apply s u)
unfolding plan_intent
planned-Stalls digest s p r u e h k =
    let (q, hq, k1) = bind_ok (require s.profile) _ u k in
    let same : q ≡ p = ground (arith, e, hq) in
    subst (λ v. Stalls s (apply s v))
      (ap (λ x. answer_planner digest s x r) (sym same) ∙ ok_inj _ u k1)
      (unusable-Stalls digest s p r h)

-- A running run with no streak, behind `n` answers in a row that could not be used. What comes between
-- two answers leaves the streak, the status and the stop code as they were.
pub data Unanswered (digest : IntentPayload → String) : ℕ → State → Type 0 where
  fresh : (s : State) → s.error_streak ≡ none → s.status ≡ running → Unanswered digest 0 s
  answer :
      (n : ℕ) (s : State) (p : DatasetProfile) (r : ServiceResult PlannerProposal) (u : Update)
      → Unanswered digest n s
      → s.profile ≡ some p
      → IsUnusable digest s p r
      → plan_intent digest (some r) s ≡ ok u
      → Unanswered digest (suc n) (apply s u)
  between :
      (n : ℕ) (s t : State)
      → Unanswered digest n s
      → t.error_streak ≡ s.error_streak
      → t.status ≡ s.status
      → t.stop_code ≡ s.stop_code
      → Unanswered digest n t

count_lem : (n : ℕ) → streak_count (streak_after n) ≡ n
unfolding streak_after
count_lem zero = refl
count_lem (suc n) = refl

-- What is known behind `n` such answers.
record Counted (n : ℕ) (s : State) : Type 0 where
  streak : s.error_streak ≡ streak_after n
  ends : is_terminal s.status ≡ leb stuck_threshold n
  code : leb stuck_threshold n ≡ true → s.stop_code ≡ some StopCode.planner_stuck

stall-Counted : (n : ℕ) (s t : State) → Counted n s → Stalls s t → Counted (suc n) t
stall-Counted n s t h k =
    let bumped = bump-after s n h.streak in
    let count = ap streak_count bumped ∙ count_lem (suc n) in
    record {
      streak = k.streak ∙ bumped;
      ends = ground (arith, k.ends, h.ends, count);
      code = λ m. k.code (ap (leb stuck_threshold) count ∙ m);
    }

unanswered-Counted :
    (digest : IntentPayload → String) (n : ℕ) (s : State) → Unanswered digest n s → Counted n s
unfolding streak_after
unanswered-Counted digest zero t (fresh s e r) = record {
  streak = e;
  ends = ap is_terminal r;
  code = λ m. absurd (ground arith);
}
unanswered-Counted digest (suc n) t (answer m s p r u h e k g) =
    stall-Counted n s (apply s u) (unanswered-Counted digest n s h)
      (planned-Stalls digest s p r u e k g)
unanswered-Counted digest n v (between m s t h e r c) =
    let before = unanswered-Counted digest n s h in
    record {
      streak = e ∙ before.streak;
      ends = ap is_terminal r ∙ before.ends;
      code = λ m. c ∙ before.code m;
    }

-- A running run with no streak, whose planner answers what cannot be used, ends exactly at the fifth
-- such answer in a row, with the stop code planner_stuck, when nothing between the answers touches the
-- streak, the status or the stop code.
pub planner_gives_up :
    (digest : IntentPayload → String) (n : ℕ) (s : State)
    → Unanswered digest n s
    → (is_terminal s.status ≡ leb stuck_threshold n)
      × (leb stuck_threshold n ≡ true → s.stop_code ≡ some StopCode.planner_stuck)
planner_gives_up digest n s h =
    let counted = unanswered-Counted digest n s h in (counted.ends, counted.code)
