-- ===== src/Orchestration/Execution/Ends.antt =====
-- orchestration/execution_graph.py: the subgraph ends.
use analysis_loop.Prelude.{
  ℕ, suc, zero, ◌+◌, ◌-◌, ◌*◌, ◌<◌, ◌≡◌, ◌≢◌, false, Result, ok, err, ◌>>=◌, arith, if_elim, Option,
  Option-cases, inl, inr, String, some, ◌∷◌, say, map, require,
}
use analysis_loop.Json.{Json}
use analysis_loop.Contracts.Analysis.{GeneratedAnalysis}
use analysis_loop.Contracts.Review.{CriticReview}
use analysis_loop.Contracts.Runtime.{ServiceResult, FailureKind, StopCode, failed}
use analysis_loop.Contracts.Base.{DataApplicability}
use analysis_loop.Contracts.Evidence.{from_evidence}
use analysis_loop.State.{active_evidence, State, Assign, Update, apply, terminal}
use analysis_loop.Orchestration.Routes.{Node}
use analysis_loop.Orchestration.Execution.Deps.{Deps, load_generated}
use analysis_loop.Orchestration.Execution.Codegen.{lookup_program, generate_code, validate_code}
use analysis_loop.Orchestration.Execution.Running.{execute, validate_result}
use analysis_loop.Orchestration.Execution.Review.{
  critique, unreviewed_because, check_review, answer_critic, review_or_violation, critic_failure,
}
use analysis_loop.Orchestration.Execution.Commit.{commit_evidence, commit_update, reject_attempt}
use analysis_loop.Orchestration.Execution.Graph.{
  node, next, run, Outcome, out_of_steps, ended, is_export, follow,
}

-- The repairs that are left.
abbrev pub repairs_left : State → ℕ
repairs_left s = (5 - s.static_repairs) + (2 - s.runtime_repairs)

abbrev pub rank : Node → ℕ
rank Node.lookup_program = 7
rank Node.generate_code = 6
rank Node.validate_code = 5
rank Node.execute = 4
rank Node.validate_result = 3
rank Node.critique = 2
rank Node.export_execution_delta = 0
rank _ = 1

-- The steps that can still follow.
abbrev pub potential : Node → State → ℕ
potential at s = 7 * repairs_left s + rank at

-- A state behind an update that the node `at` may return.
Descends : Node → State → Result Update → Type 0
Descends at s (err e) = Unit {0}
Descends at s (ok u) = potential (next at (apply s u)) (apply s u) < potential at s

lookup-Descends : (deps : Deps) (s : State) → Descends Node.lookup_program s (lookup_program deps s)
unfolding Descends lookup_program next
lookup-Descends deps s = ground arith

generate-Descends : (deps : Deps) (s : State) → Descends Node.generate_code s (generate_code deps s)
unfolding Descends generate_code next
generate-Descends deps s = ground arith

validate-Descends : (deps : Deps) (s : State) → Descends Node.validate_code s (validate_code deps s)
unfolding Descends validate_code next
validate-Descends deps s = ground arith

execute-Descends : (deps : Deps) (s : State) → Descends Node.execute s (execute deps s)
unfolding Descends execute next
execute-Descends deps s = ground arith

result-Descends :
    (deps : Deps) (s : State) → Descends Node.validate_result s (validate_result deps s)
unfolding Descends validate_result next
result-Descends deps s = ground arith

-- A chain of calls descends if its last part does.
bind-Descends {ℓ} :
    {V : Type ℓ} (at : Node) (s : State) (r : Result V) (f : V → Result Update)
    → ((v : V) → Descends at s (f v))
    → Descends at s (r >>= f)
unfolding Descends
bind-Descends at s (ok v) f h = h v
bind-Descends at s (err e) f h = tt

violation-Descends :
    (s : State) (r : Result CriticReview) → Descends Node.critique s (review_or_violation r)
unfolding Descends review_or_violation next
violation-Descends s r = ground arith

failure-Descends :
    (s : State) (kind : Option FailureKind) (reason : String)
    → Descends Node.critique s (ok (critic_failure kind reason))
unfolding Descends critic_failure next
failure-Descends s kind reason = ground arith

answer-Descends :
    (deps : Deps) (s : State) (g : GeneratedAnalysis) (payload : Json)
    (result : ServiceResult CriticReview)
    → Descends Node.critique s (answer_critic deps s g payload result)
unfolding answer_critic
answer-Descends deps s g payload result = elim (Option-cases result.value) [
  | inl e ↦ rw e (failure-Descends s result.failure_kind _)
  | inr (r, e) ↦ rw e (violation-Descends s (check_review deps s g payload r))
]

no_critic :
    (s : State)
    → Descends Node.critique s (
        ok (
          Assign.review (some (unreviewed_because (say "critic LLM 없음")))
          ∷ terminal failed StopCode.service_unavailable (say "critic LLM이 없다")))
unfolding Descends next
no_critic s = ground arith

critique-Descends : (deps : Deps) (s : State) → Descends Node.critique s (critique deps s)
unfolding critique
critique-Descends deps s = elim (Option-cases deps.critic) [
  | inl e ↦ rw e (no_critic s)
  | inr (ask, e) ↦ rw e (
      bind-Descends Node.critique s (require s.intent) _ (λ intent.
        bind-Descends Node.critique s (require s.candidate_ref) _ (λ ref.
          bind-Descends Node.critique s (load_generated deps s) _ (λ generated.
            bind-Descends Node.critique s (deps.read_json ref) _ (λ payload.
              answer-Descends deps s generated payload (
                ask intent generated payload
                  (map (λ e. from_evidence DataApplicability.unknown e) (active_evidence s))
                  s.validation_warnings))))))
]

commit-Descends :
    (deps : Deps) (s : State) → Descends Node.commit_evidence s (commit_evidence deps s)
unfolding Descends commit_evidence commit_update next
commit-Descends deps s = ground arith

reject-Descends : (deps : Deps) (s : State) → Descends Node.reject_attempt s (reject_attempt deps s)
unfolding Descends reject_attempt next
reject-Descends deps s = ground arith

node-Descends :
    (at : Node) (deps : Deps) (s : State) → is_export at ≡ false → Descends at s (node at deps s)
unfolding Descends node next
node-Descends Node.lookup_program deps s h = lookup-Descends deps s
node-Descends Node.generate_code deps s h = generate-Descends deps s
node-Descends Node.validate_code deps s h = validate-Descends deps s
node-Descends Node.execute deps s h = execute-Descends deps s
node-Descends Node.validate_result deps s h = result-Descends deps s
node-Descends Node.critique deps s h = critique-Descends deps s
node-Descends Node.commit_evidence deps s h = commit-Descends deps s
node-Descends Node.reject_attempt deps s h = reject-Descends deps s
node-Descends Node.profile_data deps s h = omega arith
node-Descends Node.decompose_objective deps s h = omega arith
node-Descends Node.plan_intent deps s h = omega arith
node-Descends Node.reuse_evidence deps s h = omega arith
node-Descends Node.inspect_data deps s h = omega arith
node-Descends Node.lookup_evidence deps s h = omega arith
node-Descends Node.mark_data_limited deps s h = omega arith
node-Descends Node.assess_progress deps s h = omega arith
node-Descends Node.expand_goals deps s h = omega arith
node-Descends Node.finalize deps s h = omega arith
node-Descends Node.execution deps s h = omega arith
node-Descends Node.apply_execution_delta deps s h = omega arith
node-Descends Node.export_execution_delta deps s h = ground arith

follow_ends :
    (go : Node → State → Outcome) (n : ℕ)
    → ((a : Node) (u : State) → potential a u < n → go a u ≢ out_of_steps)
    → (at : Node) (s : State) (r : Result Update) → Descends at s r
    → potential at s < suc n
    → follow go at s r ≢ out_of_steps
unfolding Descends follow
follow_ends go n ih at s (err e) d h = ground arith
follow_ends go n ih at s (ok u) d h = ih (next at (apply s u)) (apply s u) (omega arith)

-- Whatever the services answer, a run of the subgraph does not run out of steps, if it has more of them
-- than seven for each repair that is left and the rank of its node, which is at most seven.
pub run_ends :
    (world : ℕ → Deps) (n t : ℕ) (at : Node) (s : State)
    → potential at s < n
    → run n world t at s ≢ out_of_steps
unfolding Descends run
run_ends world zero t at s h = omega arith
run_ends world (suc n) t at s h =
    if_elim (λ o. o ≢ out_of_steps) (is_export at) (ended s)
      (follow (run n world (suc t)) at s (node at (world t) s)) (λ _. ground arith)
      λ inner.
        follow_ends (run n world (suc t)) n (λ a u. run_ends world n (suc t) a u) at s
          (node at (world t) s) (node-Descends at (world t) s inner) h
