-- ===== src/Orchestration/Main/Within.antt =====
-- orchestration/graph.py: each node keeps the budgets.
use analysis_loop.Prelude.{
  ℕ, ◌+◌, ◌≤◌, ◌<◌, String, true, false, ◌≡◌, refl, ap, sym, subst, Option, none, some, [], ◌∷◌,
  ◌⊎◌, inl, inr, Result, ok, err, arith, length, length-append, Message, say, Option-cases,
}
use analysis_loop.Contracts.Data.{DatasetProfile}
use analysis_loop.Contracts.Planning.{IntentPayload}
use analysis_loop.Contracts.Runtime.{ServiceResult, failed, StopCode}
use analysis_loop.State.{State, Update, apply, terminal}
use analysis_loop.Orchestration.Routes.{Node, route_after_assess, route_after_expand_goals}
use analysis_loop.Orchestration.Planning.Nodes.{PlannerProposal, plan_intent}
use analysis_loop.Orchestration.Planning.Outcome.{Outcome, plan_outcome}
use analysis_loop.Orchestration.Progress.{max_goal_expansions}
use analysis_loop.Orchestration.Execution.Accepted.{Committed, evidence_accepted}
use analysis_loop.Orchestration.Execution.Delta.{delta_round_trip}
use analysis_loop.Orchestration.Execution.Graph
use analysis_loop.Orchestration.Execution.Graph.{
  route_after_main_plan, run, ended, raised, out_of_steps,
}
use analysis_loop.Orchestration.Execution.Local.{Extends-refl, EndExtends, run-Extends}
use analysis_loop.Orchestration.Main.Graph.{Answers, exported, updated, main_next}
use analysis_loop.Orchestration.Main.Counts.{Same, SameBehind, assess-Same, ExpandedBehind}
use analysis_loop.Orchestration.Main.Room.{
  plans, is_expansion, is_execution, assessed, assess_room, assess_grows, never_executes, idle_next,
  plan_expands, plan_plans,
}

-- What holds when a node is reached.
pub record IsWithin (at : Node) (s : State) : Type 0 where
  pub iterations : s.iteration ≤ s.max_iterations
  pub expansions : s.goal_expansions ≤ max_goal_expansions
  pub evidence : length s.evidence ≤ s.iteration
  pub unspent : is_execution at ≡ true → length s.evidence < s.iteration
  pub room : plans at ≡ true → s.iteration < s.max_iterations
  pub grows : is_expansion at ≡ true → s.goal_expansions < max_goal_expansions

-- What holds behind a node.
abbrev pub Behind : Node → Result State → Type 0
Behind at (err e) = Unit {0}
Behind at (ok t) = IsWithin (main_next at t) t

-- Where nothing was counted, and the next node has what it needs.
pub Same-IsWithin :
    (s t : State) (to : Node)
    → Same s t
    → s.iteration ≤ s.max_iterations
    → s.goal_expansions ≤ max_goal_expansions
    → length s.evidence ≤ s.iteration
    → is_execution to ≡ false
    → (plans to ≡ true → s.iteration < s.max_iterations)
    → (is_expansion to ≡ true → s.goal_expansions < max_goal_expansions)
    → IsWithin to t
Same-IsWithin s t to h i g e x r k = record {
  iterations = ground (arith, h.0, h.3);
  expansions = ground (arith, h.2);
  evidence = ground (arith, h.0, h.1, ap (λ l. length l) h.1);
  unspent = λ m. absurd (ground (arith, x));
  room = λ m. ground (arith, h.0, h.3, r m);
  grows = λ m. ground (arith, h.2, k m);
}

module _ (s : State) where
  -- A node with a fixed edge to another one than the execution.
  pub quiet_node :
      (at to : Node) (r : Result Update)
      → ((t : State) → main_next at t ≡ to)
      → is_execution to ≡ false
      → is_expansion to ≡ false
      → (plans to ≡ true → plans at ≡ true)
      → SameBehind s r
      → IsWithin at s
      → Behind at (updated s r)
  quiet_node at to (err e) edge x y p same h = tt
  quiet_node at to (ok u) edge x y p same h =
      subst (λ n. IsWithin n (apply s u)) (sym (edge (apply s u)))
        (Same-IsWithin s (apply s u) to same h.iterations h.expansions h.evidence x
          (λ m. h.room (p m)) (λ m. absurd (ground (arith, y, m))))

  pub assess_node :
      (uuid : ℕ → String) (now later : ℕ)
      → IsWithin Node.assess_progress s
      → Behind Node.assess_progress (ok (assessed uuid now later s))
  unfolding main_next
  assess_node uuid now later h =
      Same-IsWithin s (assessed uuid now later s) (route_after_assess (assessed uuid now later s))
        (assess-Same s uuid now later) h.iterations h.expansions h.evidence
        (never_executes (assessed uuid now later s)) (assess_room uuid now later s)
        (assess_grows uuid now later s)

  pub expand_by :
      (r : Result Update)
      → ExpandedBehind s r
      → IsWithin Node.expand_goals s
      → Behind Node.expand_goals (updated s r)
  unfolding main_next route_after_expand_goals
  expand_by (err e) x h = tt
  expand_by (ok u) x h =
      let t = apply s u in
      record {
        iterations = ground (arith, x.0, x.3, h.iterations);
        expansions = ground (arith, x.2, h.grows refl);
        evidence = ground (arith, x.0, ap (λ l. length l) x.1, h.evidence);
        unspent = λ m. absurd (ground arith);
        room = λ m. ground (arith, x.0, x.3, h.room refl);
        grows = λ m. absurd (ground arith);
      }

  pub started-IsWithin :
      (t : State)
      → (t.iteration ≡ s.iteration + 1)
      → (t.evidence ≡ s.evidence)
      → (t.goal_expansions ≡ s.goal_expansions)
      → (t.max_iterations ≡ s.max_iterations)
      → IsWithin Node.plan_intent s
      → IsWithin (main_next Node.plan_intent t) t
  started-IsWithin t i e g m h = record {
    iterations = ground (arith, h.room refl);
    expansions = ground (arith, h.expansions);
    evidence = ground (arith, ap (λ l. length l) e, h.evidence);
    unspent = λ x. ground (arith, ap (λ l. length l) e, h.evidence);
    room = λ x. absurd (ground (arith, plan_plans t));
    grows = λ x. absurd (ground (arith, plan_expands t));
  }

  pub plan_by :
      (digest : IntentPayload → String) (p : DatasetProfile)
      (result : ServiceResult PlannerProposal) (u : Update)
      → Outcome digest s p result u
      → IsWithin Node.plan_intent s
      → IsWithin (main_next Node.plan_intent (apply s u)) (apply s u)
  plan_by digest p result u (inl idle) h =
      let t = apply s u in
      subst (λ n. IsWithin n t) (sym (idle_next t idle.0))
        (Same-IsWithin s t Node.assess_progress (idle.1, idle.3, idle.4, idle.5) h.iterations
          h.expansions h.evidence refl (λ m. h.room refl) (λ m. absurd (ground (arith, m))))
  plan_by digest p result u (inr (i, named, st)) h =
      started-IsWithin (apply s u) st.iteration st.evidence st.goal_expansions st.max_iterations h

  pub grown :
      (f : State)
      → (f.evidence ≡ s.evidence) ⊎ Committed s f
      → length f.evidence ≤ length s.evidence + 1
  grown f (inl e) = ground (arith, ap (λ l. length l) e)
  grown f (inr c) =
      ground (arith, ap (λ l. length l) c.added, length-append s.evidence (c.new ∷ []))

  -- Behind the subgraph: its counters are those of the entry, and there is at most one evidence more.
  pub executed_lem :
      (a : Answers) (o : Graph.Outcome)
      → run a.steps a.world 0 Node.lookup_program s ≡ o
      → IsWithin Node.execution s
      → Behind Node.execution (exported s o)
  unfolding exported main_next
  executed_lem a (ended f) e h =
      let (d, exports, applied) = delta_round_trip a.world a.steps s f e in
      let local =
        subst (EndExtends s) e
          (run-Extends a.world s a.steps 0 Node.lookup_program s (Extends-refl s)) in
      rw exports (
        subst (IsWithin Node.assess_progress) (sym applied) (record {
          iterations = ground (
            arith,
            ap (λ x. x.iteration) (local.0 s),
            ap (λ x. x.max_iterations) (local.0 s),
            h.iterations,
          );
          expansions = ground (arith, ap (λ x. x.goal_expansions) (local.0 s), h.expansions);
          evidence = ground (
            arith,
            ap (λ x. x.iteration) (local.0 s),
            h.unspent refl,
            grown f (evidence_accepted a.world a.steps s f e),
          );
          unspent = λ m. absurd (ground arith);
          room = λ m. absurd (ground arith);
          grows = λ m. absurd (ground arith);
        }))
  executed_lem a (raised x) e h = tt
  executed_lem a out_of_steps e h = tt

  pub no_planner :
      (message : Message)
      → IsWithin Node.plan_intent s
      → Behind Node.plan_intent
          (ok (apply s (terminal failed StopCode.service_unavailable message)))
  unfolding main_next route_after_main_plan
  no_planner message h =
      Same-IsWithin s (apply s (terminal failed StopCode.service_unavailable message))
        Node.assess_progress (refl, refl, refl, refl) h.iterations h.expansions h.evidence refl
        (λ m. h.room refl) (λ m. absurd (ground (arith, m)))

  pub unplanned :
      (digest : IntentPayload → String) (p : DatasetProfile)
      → s.profile ≡ some p
      → plan_intent digest none s
        ≡ ok (terminal failed StopCode.service_unavailable (say "planner LLM이 없다"))
  unfolding plan_intent
  unplanned digest p e = rw e refl

  pub plan_node :
      (digest : IntentPayload → String) (planner : Option (ServiceResult PlannerProposal))
      → IsWithin Node.plan_intent s
      → Behind Node.plan_intent (updated s (plan_intent digest planner s))
  unfolding plan_intent
  plan_node digest planner h = elim (Option-cases s.profile) [
    | inl e ↦ rw e tt
    | inr (p, e) ↦ elim (Option-cases planner) [
      | inl e2 ↦ rw e2 (
          subst (λ r. Behind Node.plan_intent (updated s r)) (sym (unplanned digest p e))
            (no_planner (say "planner LLM이 없다") h))
      | inr (result, e2) ↦
          let (u, returns, outcome) = plan_outcome digest s p result e in
          rw e2 (
            subst (λ r. Behind Node.plan_intent (updated s r)) (sym returns)
              (plan_by digest p result u outcome h))
    ]
  ]
