-- ===== src/Orchestration/Main/Counts.antt =====
-- orchestration/graph.py: what each node of the main graph counts.
use analysis_loop.Prelude.{
  ℕ, ◌+◌, ◌≤◌, String, ◌≡◌, Option, none, some, List, [], ◌∷◌, Result, ok, err, arith, if_elim,
  is_some,
}
use analysis_loop.Contracts.Planning.{SubGoal}
use analysis_loop.Contracts.Runtime.{ServiceResult}
use analysis_loop.State.{State, Update, apply}
use analysis_loop.Orchestration.Planning.Start.{profile_data, decompose_objective}
use analysis_loop.Orchestration.Planning.Nodes.{reuse_evidence, mark_data_limited}
use analysis_loop.Orchestration.Lookup.Defs.{lookup_evidence}
use analysis_loop.Orchestration.Progress.{
  assess_progress, expand_goals, answer_goals, goals_or_none, terminal_after_expansion,
}
use analysis_loop.Orchestration.Main.Graph.{Answers, inspect_data}

-- The counters and the evidence are those of before.
abbrev pub Same : State → State → Type 0
Same s t =
    (t.iteration ≡ s.iteration)
    × (t.evidence ≡ s.evidence)
    × (t.goal_expansions ≡ s.goal_expansions)
    × (t.max_iterations ≡ s.max_iterations)

abbrev pub SameBehind : State → Result Update → Type 0
SameBehind s (err e) = Unit {0}
SameBehind s (ok u) = Same s (apply s u)

module _ (s : State) where
  pub profile-Same : (f : _) (g : _) → SameBehind s (profile_data f g s)
  unfolding profile_data
  profile-Same f g = ground arith

  pub decompose-Same : (goals : _) → SameBehind s (decompose_objective goals s)
  unfolding decompose_objective
  decompose-Same goals = ground arith

  pub reuse-Same : SameBehind s (reuse_evidence s)
  unfolding reuse_evidence
  reuse-Same = ground arith

  pub inspect-Same : (a : Answers) → SameBehind s (inspect_data a s)
  unfolding inspect_data
  inspect-Same a = ground arith

  pub lookup-Same : SameBehind s (lookup_evidence s)
  unfolding lookup_evidence
  lookup-Same = ground arith

  pub mark-Same : SameBehind s (mark_data_limited s)
  unfolding mark_data_limited
  mark-Same = ground arith

  pub assess-Same :
      (uuid : ℕ → String) (now later : ℕ) → Same s (apply s (assess_progress uuid now later s))
  unfolding assess_progress
  assess-Same uuid now later = ground arith

-- An expansion is counted, and nothing else.
abbrev pub ExpandedBehind : State → Result Update → Type 0
ExpandedBehind s (err e) = Unit {0}
ExpandedBehind s (ok u) =
    let t = apply s u in
    (t.iteration ≡ s.iteration)
    × (t.evidence ≡ s.evidence)
    × (t.goal_expansions ≤ s.goal_expansions + 1)
    × (t.max_iterations ≡ s.max_iterations)

module _ (s : State) where
  pub answered :
      (result : ServiceResult (List SubGoal)) (goals : List SubGoal)
      → ExpandedBehind s (ok (answer_goals s result goals))
  unfolding answer_goals terminal_after_expansion
  answered result [] = ground arith
  answered result (g ∷ gs) = ground arith

  pub expanded : (r : Option (ServiceResult (List SubGoal))) → ExpandedBehind s (expand_goals r s)
  unfolding expand_goals
  expanded none = ground arith
  expanded (some result) =
      if_elim (ExpandedBehind s) (is_some s.profile) _ _
        (λ e. answered result (goals_or_none result.value)) (λ e. tt)
