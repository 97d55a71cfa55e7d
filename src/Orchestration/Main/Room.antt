-- ===== src/Orchestration/Main/Room.antt =====
-- orchestration/graph.py: where the edges lead while a budget is left.
use analysis_loop.Prelude.{
  ℕ, ◌<◌, String, Bool, true, false, ◌≡◌, refl, none, some, List, [], ◌∷◌, ◌++◌, inl, inr, arith,
  Option-cases, is_empty, filter,
}
use analysis_loop.Contracts.Agenda.{AgendaTask, is_pending}
use analysis_loop.State.{State, apply}
use analysis_loop.Orchestration.Routes.{Node, route_after_assess}
use analysis_loop.Orchestration.Progress.{
  assess_progress, max_goal_expansions, repair_contradiction_agenda, repair_tasks, missing_pairs,
}
use analysis_loop.Orchestration.Execution.Graph.{route_after_main_plan}
use analysis_loop.Orchestration.Main.Graph.{main_next}

-- The nodes from which a planning step may follow without another look at the budgets.
abbrev pub plans : Node → Bool
plans Node.profile_data = true
plans Node.decompose_objective = true
plans Node.plan_intent = true
plans Node.expand_goals = true
plans _ = false

abbrev pub is_expansion : Node → Bool
is_expansion Node.expand_goals = true
is_expansion _ = false

abbrev pub is_execution : Node → Bool
is_execution Node.execution = true
is_execution _ = false

pub pending_repaired :
    (uuid : ℕ → String) (n : ℕ) (s : State) (agenda : List AgendaTask)
    (pairs : List (String × String))
    → is_empty pairs ≡ false
    → is_empty (filter (λ t. is_pending t.status) (agenda ++ repair_tasks uuid n s.evidence pairs))
      ≡ false
unfolding repair_tasks
pending_repaired uuid n s [] [] h = absurd (ground arith)
pending_repaired uuid n s [] ((a, b) ∷ pairs) h = refl
pending_repaired uuid n s (t ∷ agenda) pairs h =
    ground (arith, pending_repaired uuid n s agenda pairs h)

module _ (uuid : ℕ → String) (now later : ℕ) (s : State) where
  abbrev pub assessed : State
  assessed = apply s (assess_progress uuid now later s)

  pub repaired_pending :
      (agenda : List AgendaTask)
      → repair_contradiction_agenda uuid s ≡ some agenda
      → is_empty (filter (λ t. is_pending t.status) agenda) ≡ false
  unfolding repair_contradiction_agenda
  repaired_pending agenda h = ground (arith, pending_repaired uuid 0 s s.agenda (missing_pairs s))

  -- Only with an iteration left does a run go on from here.
  pub assess_room : plans (route_after_assess assessed) ≡ true → s.iteration < s.max_iterations
  unfolding assess_progress route_after_assess
  assess_room h = ground arith

  pub assess_grows :
      is_expansion (route_after_assess assessed) ≡ true → s.goal_expansions < max_goal_expansions
  unfolding assess_progress route_after_assess
  assess_grows h = elim (Option-cases (repair_contradiction_agenda uuid s)) [
    | inl e ↦ ground (arith, e)
    | inr (agenda, e) ↦ ground (arith, e, repaired_pending agenda e)
  ]

pub never_executes : (t : State) → is_execution (route_after_assess t) ≡ false
unfolding route_after_assess
never_executes t = ground arith

-- An idle answer of the planner is followed by a look at the budgets.
pub idle_next : (t : State) → t.intent ≡ none → main_next Node.plan_intent t ≡ Node.assess_progress
unfolding main_next route_after_main_plan
idle_next t h = ground arith

pub plan_expands : (t : State) → is_expansion (main_next Node.plan_intent t) ≡ false
unfolding main_next route_after_main_plan
plan_expands t = ground arith

pub plan_plans : (t : State) → plans (main_next Node.plan_intent t) ≡ false
unfolding main_next route_after_main_plan
plan_plans t = ground arith
