-- ===== src/Orchestration/Planning/Verdicts.antt =====
-- orchestration/nodes/planner_decision.py: the planner's verdict on the goals.
use analysis_loop.Prelude.{
  ℕ, ◌+◌, ◌≡◌, String, Bool, true, false, not, ◌&&◌, ◌||◌, Option, some, List, [], ◌∷◌, map, any,
  count, opt_eq, truthy, ltb, if◌then◌else◌, arith,
}
use analysis_loop.Prelude.Sets.{contains}
use analysis_loop.Contracts.Planning.{
  SubGoal, GoalStatus, converged, abandoned, is_open, is_converged_status, is_abandoned_status,
}
use analysis_loop.Contracts.Agenda.{AgendaTask}
use analysis_loop.Contracts.Evidence.{EvidenceRecord, RejectedAttempt}
use analysis_loop.State.{Assign, Update}

-- The dict of the planner's verdict, a missing key being empty.
pub record Verdict : Type 0 where
  pub finished : Bool
  pub converged : List String
  pub abandoned : List String
  pub unreviewed : List String
  pub closing_note : String

-- `if goal_id`, and it is this goal.
abbrev is_of : String → Option String → Bool
is_of goal id = truthy id && opt_eq id (some goal)

module _ (verdict : Verdict) (evidence : List EvidenceRecord) (rejected : List RejectedAttempt)
    (pending : List AgendaTask) where
  -- `evidence_by_goal.get(goal_id)`, as a test.
  abbrev pub has_evidence : String → Bool
  has_evidence goal = any (λ e. is_of goal e.goal_id) evidence

  -- `attempts_by_goal.get(goal_id, 0)`.
  abbrev pub attempts : String → ℕ
  attempts goal =
      count (λ e. is_of goal e.goal_id) evidence + count (λ r. is_of goal r.goal_id) rejected

  -- `goal_id in blocked_goal_ids`.
  abbrev pub is_blocked : String → Bool
  is_blocked goal = any (λ t. is_of goal t.goal_id) pending

  close : GoalStatus → SubGoal → SubGoal
  close status g = record g { status = status; closing_note = verdict.closing_note }

  -- What the loop of `apply_goal_verdict` does to one goal.
  unfoldable pub judge_goal : SubGoal → SubGoal
  unfolding close
  judge_goal g =
      if not (is_open g)
      then g
      else if contains verdict.converged g.goal_id
      then (if is_blocked g.goal_id
          then g
          else if has_evidence g.goal_id
          then close converged g
          else g)
      else if contains verdict.abandoned g.goal_id && ltb 0 (attempts g.goal_id)
      then close abandoned g
      else g

  -- A goal that the verdict names leaves an entry in `changed`, refused or not.
  abbrev pub is_named : SubGoal → Bool
  is_named g =
      is_open g && (contains verdict.converged g.goal_id || contains verdict.abandoned g.goal_id)

  unfoldable pub apply_goal_verdict : List SubGoal → List SubGoal
  unfolding judge_goal
  apply_goal_verdict goals = map judge_goal goals

  -- `goal_progress`: the update has the goals when one of them is named.
  unfoldable pub goal_progress : List SubGoal → Update
  unfolding apply_goal_verdict
  goal_progress goals =
      if any is_named goals then Assign.sub_goals (apply_goal_verdict goals) ∷ [] else []

  -- An open goal converges exactly when the verdict says so, no pending task blocks it, and it has
  -- evidence; it is abandoned exactly when the verdict says so and not that it converged, and it was
  -- attempted; a closed goal stays as it was, and no goal changes its id, its question or its evidence.
  pub judge_goal_exact :
      (g : SubGoal)
      → let h = judge_goal g in
        (h.goal_id ≡ g.goal_id)
        × (h.question ≡ g.question)
        × (h.evidence_ids ≡ g.evidence_ids)
        × (is_open g ≡ false → h ≡ g)
        × (is_open g ≡ true
            → is_converged_status h.status ≡ (
                contains verdict.converged g.goal_id
                && not (is_blocked g.goal_id)
                && has_evidence g.goal_id))
        × (is_open g ≡ true
            → is_abandoned_status h.status ≡ (
                not (contains verdict.converged g.goal_id)
                && contains verdict.abandoned g.goal_id
                && ltb 0 (attempts g.goal_id)))
  unfolding judge_goal
  judge_goal_exact g = ground arith
