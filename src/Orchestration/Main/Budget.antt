-- ===== src/Orchestration/Main/Budget.antt =====
-- orchestration/graph.py: the budgets of a run hold in every state that the main graph reaches.
use analysis_loop.Prelude.{
  ℕ, ◌≤◌, String, ◌≡◌, refl, subst, ok, arith, length, raise_ok, ok_inj, eqb,
}
use analysis_loop.Contracts.Data.{ArtifactRef}
use analysis_loop.State.{State, new_state}
use analysis_loop.Orchestration.Routes.{Node}
use analysis_loop.Orchestration.Progress.{expand_goals, max_goal_expansions}
use analysis_loop.Orchestration.Execution.Graph.{run}
use analysis_loop.Orchestration.Main.Graph.{
  Answers, main_node, main_next, Step, step, Reach, here, next,
}
use analysis_loop.Orchestration.Main.Counts.{
  profile-Same, decompose-Same, reuse-Same, inspect-Same, lookup-Same, mark-Same, expanded,
}
use analysis_loop.Orchestration.Main.Within.{
  IsWithin, Behind, quiet_node, assess_node, expand_by, executed_lem, plan_node,
}

module _ (s : State) where
  -- The nodes of the subgraph stand in no run of the main graph.
  elsewhere : (at : Node) → IsWithin at s → IsWithin Node.assess_progress s
  elsewhere at h = record {
    iterations = h.iterations;
    expansions = h.expansions;
    evidence = h.evidence;
    unspent = λ m. absurd (ground (arith, m));
    room = λ m. absurd (ground (arith, m));
    grows = λ m. absurd (ground (arith, m));
  }

  main_node-IsWithin : (a : Answers) (at : Node) → IsWithin at s → Behind at (main_node a at s)
  unfolding main_node main_next
  main_node-IsWithin a Node.profile_data h =
      quiet_node s Node.profile_data Node.decompose_objective _ (λ t. refl) refl refl (λ m. refl)
        (profile-Same s a.profile_of a.put_profile) h
  main_node-IsWithin a Node.decompose_objective h =
      quiet_node s Node.decompose_objective Node.plan_intent _ (λ t. refl) refl refl (λ m. refl)
        (decompose-Same s a.goals) h
  main_node-IsWithin a Node.plan_intent h = plan_node s a.intent_digest a.planner h
  main_node-IsWithin a Node.reuse_evidence h =
      quiet_node s Node.reuse_evidence Node.assess_progress _ (λ t. refl) refl refl
        (λ m. absurd (ground (arith, m))) (reuse-Same s) h
  main_node-IsWithin a Node.inspect_data h =
      quiet_node s Node.inspect_data Node.assess_progress _ (λ t. refl) refl refl
        (λ m. absurd (ground (arith, m))) (inspect-Same s a) h
  main_node-IsWithin a Node.lookup_evidence h =
      quiet_node s Node.lookup_evidence Node.assess_progress _ (λ t. refl) refl refl
        (λ m. absurd (ground (arith, m))) (lookup-Same s) h
  main_node-IsWithin a Node.mark_data_limited h =
      quiet_node s Node.mark_data_limited Node.assess_progress _ (λ t. refl) refl refl
        (λ m. absurd (ground (arith, m))) (mark-Same s) h
  main_node-IsWithin a Node.assess_progress h = assess_node s a.uuid a.now a.later h
  main_node-IsWithin a Node.expand_goals h =
      expand_by s (expand_goals a.expansion s) (expanded s a.expansion) h
  main_node-IsWithin a Node.execution h =
      executed_lem s a (run a.steps a.world 0 Node.lookup_program s) refl h
  main_node-IsWithin a Node.finalize h = h
  main_node-IsWithin a Node.lookup_program h = elsewhere Node.lookup_program h
  main_node-IsWithin a Node.generate_code h = elsewhere Node.generate_code h
  main_node-IsWithin a Node.validate_code h = elsewhere Node.validate_code h
  main_node-IsWithin a Node.execute h = elsewhere Node.execute h
  main_node-IsWithin a Node.validate_result h = elsewhere Node.validate_result h
  main_node-IsWithin a Node.critique h = elsewhere Node.critique h
  main_node-IsWithin a Node.commit_evidence h = elsewhere Node.commit_evidence h
  main_node-IsWithin a Node.reject_attempt h = elsewhere Node.reject_attempt h
  main_node-IsWithin a Node.export_execution_delta h = elsewhere Node.export_execution_delta h
  main_node-IsWithin a Node.apply_execution_delta h = elsewhere Node.apply_execution_delta h

Step-IsWithin : {p q : Node × State} → Step p q → IsWithin p.0 p.1 → IsWithin q.0 q.1
Step-IsWithin (step a at s t e) h = subst (Behind at) e (main_node-IsWithin s a at h)

Reach-IsWithin :
    {start p : Node × State} → IsWithin start.0 start.1 → Reach start p → IsWithin p.0 p.1
Reach-IsWithin h here = h
Reach-IsWithin h (next r st) = Step-IsWithin st (Reach-IsWithin h r)

start-IsWithin :
    (now : ℕ) (run_id objective : String) (dataset : ArtifactRef) (max_iterations budget : ℕ)
    (start : State)
    → new_state now run_id objective dataset max_iterations budget ≡ ok start
    → IsWithin Node.profile_data start
unfolding new_state
start-IsWithin now run_id objective dataset max_iterations budget start e =
    let (some_iterations, e1) = raise_ok (eqb max_iterations 0) _ _ start e in
    let (_, e2) = raise_ok (eqb budget 0) _ _ start e1 in
    subst (IsWithin Node.profile_data) (ok_inj _ start e2) (record {
      iterations = omega arith;
      expansions = omega arith;
      evidence = omega arith;
      unspent = λ m. absurd (ground (arith, m));
      room = λ m. ground arith;
      grows = λ m. absurd (ground (arith, m));
    })

-- In every state that a run of the main graph reaches from its start, whatever is answered to its
-- nodes: there are at most as many iterations as the run may have, at most five expansions of the
-- goals, and at most one evidence for each iteration.
pub budgets_hold :
    (now : ℕ) (run_id objective : String) (dataset : ArtifactRef) (max_iterations budget : ℕ)
    (start : State) {at : Node} {s : State}
    → new_state now run_id objective dataset max_iterations budget ≡ ok start
    → Reach (Node.profile_data, start) (at, s)
    → (s.iteration ≤ s.max_iterations)
      × (s.goal_expansions ≤ max_goal_expansions)
      × (length s.evidence ≤ s.iteration)
budgets_hold now run_id objective dataset max_iterations budget start e r =
    let h =
      Reach-IsWithin (start-IsWithin now run_id objective dataset max_iterations budget start e)
        r in
    (h.iterations, h.expansions, h.evidence)
