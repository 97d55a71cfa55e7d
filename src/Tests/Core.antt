-- ===== src/Tests/Core.antt =====
-- The theorems on contradictions, agenda, relations, streaks and progress at concrete runs.
use analysis_loop.Prelude.{
  ℕ, ◌≤◌, ◌<◌, ◌+◌, String, ◌≡◌, ◌≢◌, ◌↔◌, ◌⊎◌, refl, Bool, true, false, not, ◌&&◌, ◌||◌, Option,
  none, some, List, [], ◌∷◌, ◌++◌, All, count, length, leb, truthy, ok, map, is_empty, is_some,
  arith, ◌==◌, any,
}
use analysis_loop.Prelude.Sets.{contains}
use analysis_loop.Contracts.Agenda.{
  AgendaTask, TaskKind, TaskStatus, RelationKind, is_completed, is_resolve, is_revalidate,
  is_follow_up,
}
use analysis_loop.Contracts.Agenda.Validity.{IsConsistent}
use analysis_loop.Contracts.Planning.{SubGoal}
use analysis_loop.Contracts.Runtime.{is_terminal, ServiceResult, StopCode}
use analysis_loop.State.Conflicts.{has_pair}
use analysis_loop.State.{State, Update, ErrorRecord, apply, unresolved_contradictions}
use analysis_loop.State.Conflicts.Exact.{unresolved_exact}
use analysis_loop.State.Conflicts.Spec.{contradicts_between, superseded_by, reconciles_both}
use analysis_loop.Orchestration.Shared.{streak_key, is_stuck, streak_count, stuck_threshold}
use analysis_loop.Orchestration.Shared.Streaks.{HasKey, record_errors, stuck_exactly}
use analysis_loop.Orchestration.Progress.{
  missing_pairs, repair_tasks, repair_contradiction_agenda, assess_progress, expand_goals,
  min_seconds_for_expansion, max_goal_expansions,
}
use analysis_loop.Orchestration.Progress.Repair.{repair_complete, repair-IsConsistent}
use analysis_loop.Orchestration.Progress.Stops.{
  new_goals, assessed, IsDone, Outcome, assess_stops, expand_outcome,
}
use analysis_loop.Orchestration.ReviewEvidence.{
  intent_task, any_change, revalidation_changed_conditions, relations_after_commit,
}
use analysis_loop.Orchestration.ReviewEvidence.Relations.{
  IsComplete, related, KeepsOpen, relations_unique, relations_complete,
  unchanged_revalidates_nothing,
}
use analysis_loop.Orchestration.ReviewEvidence.Recorded.{is_triple, IsFrom}
use analysis_loop.Orchestration.ReviewAgenda.{
  Host, is_selected, judge, asks_same, agenda_after_commit,
}
use analysis_loop.Orchestration.ReviewAgenda.Completed.{Completes}
use analysis_loop.Orchestration.ReviewAgenda.Judged.{IsSameTask, judge_exact}
use analysis_loop.Orchestration.ReviewAgenda.Created.{agenda_after_commit-IsConsistent}
use analysis_loop.Orchestration.ReviewAgenda.FollowUps.{
  IsHandled, follow_ups_unique, open_questions_kept,
}
use analysis_loop.Tests.Data.{
  evidence_of, intent_of, task_of, relation_of, sample_review, sample_goal, state_of, an_error,
  test_uuid,
}

abbrev conflicted : State
conflicted = state_of [] (relation_of "e1" "e2" RelationKind.contradicts ∷ [])

abbrev follow_up : AgendaTask
follow_up = task_of "t1" TaskKind.follow_up TaskStatus.in_progress ("e1" ∷ [])

abbrev recheck : AgendaTask
recheck = task_of "t2" TaskKind.revalidate TaskStatus.in_progress ("e1" ∷ [])

abbrev busy : State
busy = state_of (follow_up ∷ recheck ∷ []) []

abbrev host : Host
host = record { uuid = test_uuid; casefold = λ text. text }

follow_up-IsConsistent : IsConsistent follow_up
follow_up-IsConsistent = ground arith

recheck-IsConsistent : IsConsistent recheck
recheck-IsConsistent = ground arith

unresolved_exact_example : has_pair (unresolved_contradictions conflicted) "e1" "e2" ≡ (
    contradicts_between conflicted.evidence_relations "e1" "e2"
    && not (superseded_by conflicted.evidence_relations "e1")
    && not (superseded_by conflicted.evidence_relations "e2")
    && not (reconciles_both conflicted.evidence_relations "e1" "e2"))
unresolved_exact_example = unresolved_exact conflicted "e1" "e2"

a-HasKey : HasKey "a" (an_error "a" ∷ [])
unfolding streak_key analysis_loop.Prelude.Sets.sorted_set
a-HasKey = refl

abbrev twice : List (List ErrorRecord)
twice = (an_error "a" ∷ []) ∷ (an_error "a" ∷ []) ∷ []

stuck_exactly_example :
    (streak_count (record_errors busy twice).error_streak ≡ length twice)
    × (is_stuck (record_errors busy twice) ≡ leb stuck_threshold (length twice))
stuck_exactly_example = stuck_exactly busy "a" twice refl (a-HasKey, (a-HasKey, tt)) refl

abbrev repaired : List AgendaTask
repaired = repair_tasks test_uuid 0 conflicted.evidence (("e1", "e2") ∷ [])

repaired_lem : repair_contradiction_agenda test_uuid conflicted ≡ some repaired
unfolding repair_contradiction_agenda unresolved_contradictions repair_tasks
repaired_lem = refl

repair_complete_example :
    (missing_pairs conflicted ≢ [])
    × (repaired
        ≡ conflicted.agenda
          ++ repair_tasks test_uuid 0 conflicted.evidence (missing_pairs conflicted))
    × (missing_pairs (record conflicted { agenda = repaired }) ≡ [])
repair_complete_example = repair_complete test_uuid conflicted repaired_lem

repair-IsConsistent_example : All IsConsistent repaired
repair-IsConsistent_example =
    repair-IsConsistent test_uuid conflicted tt (ground arith, tt) repaired_lem

abbrev out_of_time : State
out_of_time = record busy { deadline_at = 0 }

stops : is_terminal (assessed test_uuid 1 2 out_of_time).status ≡ true
unfolding assess_progress
stops = refl

assess_stops_example :
    (out_of_time.deadline_at ≤ 1)
      × ((assessed test_uuid 1 2 out_of_time).stop_code ≡ some StopCode.budget_exhausted)
    ⊎ (out_of_time.max_iterations ≤ out_of_time.iteration)
      × ((assessed test_uuid 1 2 out_of_time).stop_code ≡ some StopCode.max_iterations_reached)
    ⊎ IsDone test_uuid 1 2 out_of_time
      × (out_of_time.deadline_at < 2 + min_seconds_for_expansion)
      × ((assessed test_uuid 1 2 out_of_time).stop_code ≡ some StopCode.budget_exhausted)
    ⊎ IsDone test_uuid 1 2 out_of_time
      × (max_goal_expansions ≤ out_of_time.goal_expansions)
      × ((assessed test_uuid 1 2 out_of_time).stop_code ≡ some StopCode.expansion_limit_reached)
assess_stops_example = assess_stops test_uuid 1 2 out_of_time refl stops

abbrev one_goal : ServiceResult (List SubGoal)
one_goal = record {
  value = some (sample_goal ∷ []);
  error = none;
  failure_kind = none;
  reason = none;
}

expand_outcome_example :
    (u : Update) × (expand_goals (some one_goal) busy ≡ ok u)
    × Outcome busy (new_goals busy one_goal) (apply busy u)
expand_outcome_example = expand_outcome busy one_goal refl

relations_unique_example :
    All (IsFrom "e3") (
      relations_after_commit test_uuid 0 busy
        (intent_of "t1")
        sample_review
        (evidence_of "e3" "median"))
    × (count
          (is_triple "e3" "e1" RelationKind.revalidates)
          (related test_uuid 0 busy (intent_of "t1") sample_review (evidence_of "e3" "median"))
        ≤ 1)
relations_unique_example =
    relations_unique test_uuid 0 busy (intent_of "t1") sample_review (evidence_of "e3" "median")
      "e3" "e1" RelationKind.revalidates (omega arith)

relations_complete_example :
    IsComplete test_uuid 0 busy (intent_of "t1") sample_review (evidence_of "e3" "median")
relations_complete_example =
    relations_complete test_uuid 0 busy (intent_of "t1") sample_review (evidence_of "e3" "median")

same_conditions :
    any_change (revalidation_changed_conditions busy.evidence ("e1" ∷ []) (evidence_of "e3" "mean"))
    ≡ false
unfolding revalidation_changed_conditions
same_conditions = refl

recheck_selected : intent_task busy.agenda (some "t2") ≡ some recheck
unfolding intent_task
recheck_selected = refl

unchanged_revalidates_nothing_example : All (KeepsOpen ("e1" ∷ [])) (
    relations_after_commit test_uuid 0 busy
      (intent_of "t2")
      sample_review
      (evidence_of "e3" "mean"))
unchanged_revalidates_nothing_example =
    unchanged_revalidates_nothing test_uuid 0 busy (intent_of "t2") sample_review
      (evidence_of "e3" "mean") recheck recheck_selected refl same_conditions

judge_exact_example :
    let u = judge busy (intent_of "t1") sample_review (evidence_of "e3" "median") follow_up in
    IsSameTask busy (intent_of "t1") sample_review (evidence_of "e3" "median") follow_up u
    × ((is_completed u.status ≡ true)
        ↔ Completes busy (intent_of "t1") sample_review (evidence_of "e3" "median") follow_up)
    × (is_completed u.status ≡ true → u.completion_evidence_id ≡ some "e3")
    × (is_completed u.status ≡ false
        → (is_selected (intent_of "t1") follow_up
            && (is_resolve follow_up.kind || is_revalidate follow_up.kind))
          ≡ true
        → (u.status ≡ TaskStatus.pending) × (u.selected_intent_id ≡ none))
    × (is_completed u.status ≡ false
        → (is_selected (intent_of "t1") follow_up
            && (is_resolve follow_up.kind || is_revalidate follow_up.kind))
          ≡ false
        → u ≡ follow_up)
judge_exact_example =
    judge_exact busy (intent_of "t1") sample_review (evidence_of "e3" "median") follow_up refl

agenda_after_commit-IsConsistent_example :
    All IsConsistent
      (agenda_after_commit host 0 busy
        (intent_of "t1")
        sample_review
        (evidence_of "e3" "median")).updated
agenda_after_commit-IsConsistent_example =
    agenda_after_commit-IsConsistent host 0 busy (intent_of "t1") sample_review
      (evidence_of "e3" "median") refl (follow_up-IsConsistent, (recheck-IsConsistent, tt))

one_question : count (asks_same host is_follow_up (some "g1") "why") busy.agenda ≤ 1
unfolding asks_same
one_question = ground arith

follow_ups_unique_example :
    count
      (asks_same host is_follow_up (some "g1") "why")
      (agenda_after_commit host 0 busy
        (intent_of "t1")
        sample_review
        (evidence_of "e3" "median")).updated
    ≤ 1
follow_ups_unique_example =
    follow_ups_unique host (some "g1") "why" 0 busy (intent_of "t1") sample_review
      (evidence_of "e3" "median") one_question

open_questions_kept_example :
    All
      (IsHandled host
        (some "g1")
        []
        (agenda_after_commit host 0 busy
          (intent_of "t1")
          sample_review
          (evidence_of "e3" "median")).updated)
      ("what next" ∷ [])
open_questions_kept_example =
    open_questions_kept host 0 busy (intent_of "t1") sample_review (evidence_of "e3" "median")
