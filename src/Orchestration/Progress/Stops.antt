-- ===== src/Orchestration/Progress/Stops.antt =====
-- orchestration/nodes/progress.py: when a run may end, and where it goes on otherwise.
use analysis_loop.Prelude.{
  ℕ, ◌+◌, ◌≤◌, ◌<◌, String, ◌≡◌, ◌≢◌, refl, true, ◌⊎◌, some, List, [], ◌∷◌, ◌++◌, arith, is_some,
  zero, suc, take, length, length-append, length-take-le, ok,
}
use analysis_loop.Contracts.Planning.{SubGoal}
use analysis_loop.Contracts.Runtime.{completed, running, is_terminal, StopCode, ServiceResult}
use analysis_loop.State.{State, Update, apply, all_goals_closed, pending_agenda_tasks}
use analysis_loop.Orchestration.Routes.{Node, route_after_assess}
use analysis_loop.Orchestration.Progress.Defs.{
  answer_goals, goals_or_none, terminal_after_expansion, missing_pairs, repair_contradiction_agenda,
  assess_progress, expand_goals, max_goal_expansions, min_seconds_for_expansion,
  remaining_iterations,
}

module _ (uuid : ℕ → String) (now later : ℕ) (s : State) where
  -- The state behind `assess_progress`.
  abbrev pub assessed : State
  assessed = apply s (assess_progress uuid now later s)

  -- Nothing is left to do: no pending task, no contradiction without a task, no open goal.
  pub record IsDone : Type 0 where
    pub no_tasks : pending_agenda_tasks s ≡ []
    pub no_conflicts : missing_pairs s ≡ []
    pub all_closed : all_goals_closed s ≡ true

  -- A running run that ends here has run out of time or of iterations, or has nothing left to do and
  -- less than 90 seconds, or no expansion, left; the stop code says which.
  pub assess_stops :
      s.status ≡ running
      → is_terminal assessed.status ≡ true
      → (s.deadline_at ≤ now) × (assessed.stop_code ≡ some StopCode.budget_exhausted)
        ⊎ (s.max_iterations ≤ s.iteration)
          × (assessed.stop_code ≡ some StopCode.max_iterations_reached)
        ⊎ IsDone
          × (s.deadline_at < later + min_seconds_for_expansion)
          × (assessed.stop_code ≡ some StopCode.budget_exhausted)
        ⊎ IsDone
          × (max_goal_expansions ≤ s.goal_expansions)
          × (assessed.stop_code ≡ some StopCode.expansion_limit_reached)
  unfolding assess_progress repair_contradiction_agenda
  assess_stops r t = ground arith

  -- With time and iterations left, a pending task sends a running run back to the planner and
  -- changes nothing.
  pub pending_goes_on :
      s.status ≡ running
      → now < s.deadline_at
      → s.iteration < s.max_iterations
      → pending_agenda_tasks s ≢ []
      → (assess_progress uuid now later s ≡ []) × (route_after_assess assessed ≡ Node.plan_intent)
  unfolding assess_progress route_after_assess
  pending_goes_on r t i p = ground arith

length-take-pos : (n : ℕ) (goals : List SubGoal) → 0 < n → goals ≢ [] → 0 < length (take n goals)
length-take-pos zero goals h k = absurd (omega arith)
length-take-pos (suc n) [] h k = absurd (k refl)
length-take-pos (suc n) (g ∷ goals) h k = omega arith

-- The goals that an expansion appends, at most one for each iteration left.
abbrev pub new_goals : State → ServiceResult (List SubGoal) → List SubGoal
new_goals s result = take (remaining_iterations s) (goals_or_none result.value)

-- The run is completed with its goals as they were, or goes on with new goals.
abbrev pub Outcome : State → List SubGoal → State → Type 0
Outcome s added t =
    (t.status ≡ completed) × (t.sub_goals ≡ s.sub_goals) × (t.goal_expansions ≡ s.goal_expansions)
    ⊎ (t.status ≡ s.status)
      × (t.sub_goals ≡ s.sub_goals ++ added)
      × (0 < length added)
      × (length t.sub_goals ≤ length s.sub_goals + remaining_iterations s)
      × (t.goal_expansions ≡ s.goal_expansions + 1)

answer_outcome :
    (s : State) (result : ServiceResult (List SubGoal)) (goals : List SubGoal)
    → Outcome s (take (remaining_iterations s) goals) (apply s (answer_goals s result goals))
unfolding answer_goals terminal_after_expansion
answer_outcome s result [] = ground arith
answer_outcome s result (g ∷ gs) = ground (
  arith,
  length-append s.sub_goals (take (remaining_iterations s) (g ∷ gs)),
  length-take-le (remaining_iterations s) (g ∷ gs),
  length-take-pos (remaining_iterations s) (g ∷ gs),
)

-- With a planner and a profile the node never raises, and either completes the run with the goals
-- as they were, or appends at least one goal and at most as many as iterations are left, and counts
-- one more expansion.
pub expand_outcome :
    (s : State) (result : ServiceResult (List SubGoal))
    → is_some s.profile ≡ true
    → (u : Update) × (expand_goals (some result) s ≡ ok u)
      × Outcome s (new_goals s result) (apply s u)
unfolding expand_goals
expand_outcome s result h = (
  answer_goals s result (goals_or_none result.value),
  rw h,
  answer_outcome s result (goals_or_none result.value),
)
