-- ===== src/Orchestration/Cycle.antt =====
-- orchestration/graph.py: from an intent to the end of its execution.
use analysis_loop.Prelude.{
  ℕ, ◌≡◌, ◌≢◌, ◌<◌, sym, ◌∙◌, subst, true, some, is_some, String, inl, inr, ok, arith,
}
use analysis_loop.Contracts.Data.{DatasetProfile}
use analysis_loop.Contracts.Planning.{IntentPayload}
use analysis_loop.Contracts.Runtime.{ServiceResult}
use analysis_loop.State.{State, Update, apply}
use analysis_loop.Orchestration.Routes.{Node}
use analysis_loop.Orchestration.Planning.Nodes.{PlannerProposal, plan_intent}
use analysis_loop.Orchestration.Planning.Outcome.{Outcome, plan_outcome}
use analysis_loop.Orchestration.Execution.Deps.{Deps}
use analysis_loop.Orchestration.Execution.Graph.{run, out_of_steps}
use analysis_loop.Orchestration.Execution.Ends.{potential, run_ends}

-- The steps of a cycle with all its repairs.
abbrev pub cycle_steps : ℕ
cycle_steps = 57

fresh_ends :
    (t : State)
    → t.static_repairs ≡ 0
    → t.runtime_repairs ≡ 0
    → potential Node.lookup_program t < cycle_steps
fresh_ends t h k = omega arith

started_ends :
    (digest : IntentPayload → String) (s : State) (p : DatasetProfile)
    (result : ServiceResult PlannerProposal) (u : Update)
    → Outcome digest s p result u
    → is_some (apply s u).intent ≡ true
    → potential Node.lookup_program (apply s u) < cycle_steps
started_ends digest s p result u (inl idle) h = ground (arith, idle.0)
started_ends digest s p result u (inr (i, named, st)) h =
    fresh_ends (apply s u) st.static_repairs st.runtime_repairs

ok_lem : (a b : Update) → (ok a ≡ ok b) → a ≡ b
ok_lem a b h = ground arith

-- Whenever `plan_intent` sets an intent, its execution ends within 57 steps, whatever the services answer.
pub cycle_ends :
    (digest : IntentPayload → String) (s : State) (p : DatasetProfile)
    (result : ServiceResult PlannerProposal) (u : Update) (world : ℕ → Deps)
    → s.profile ≡ some p
    → plan_intent digest (some result) s ≡ ok u
    → is_some (apply s u).intent ≡ true
    → run cycle_steps world 0 Node.lookup_program (apply s u) ≢ out_of_steps
cycle_ends digest s p result u world h k set =
    let (v, returns, outcome) = plan_outcome digest s p result h in
    run_ends world cycle_steps 0 Node.lookup_program (apply s u) (
      started_ends digest s p result u
        (subst (Outcome digest s p result) (ok_lem v u (sym returns ∙ k)) outcome) set)
