-- ===== src/Orchestration/Execution/Local.antt =====
-- orchestration/execution_graph.py: the nodes of the subgraph change what it exports, and no more.
use mathlib.Core.List.{append_assoc, append-nil}
use analysis_loop.Prelude.{
  ℕ, suc, zero, ◌≡◌, refl, sym, ap, ◌∙◌, Bool, true, false, none, List, [], ◌∷◌, ◌++◌, Result, ok,
  err, ◌>>=◌, arith, if_elim, all,
}
use analysis_loop.State.{State, Assign, Update, assign, apply}
use analysis_loop.Orchestration.Routes.{Node}
use analysis_loop.Orchestration.Execution.Deps.{Deps}
use analysis_loop.Orchestration.Execution.Codegen.{lookup_program, generate_code, validate_code}
use analysis_loop.Orchestration.Execution.Running.{execute, validate_result}
use analysis_loop.Orchestration.Execution.Review.{critique}
use analysis_loop.Orchestration.Execution.Commit.{
  Accepted, accepted_evidence, commit_evidence, commit_update, reject_attempt,
}
use analysis_loop.Orchestration.Execution.Graph.{is_export, node, next, follow, run, Outcome, ended}

-- The keys that the nodes of the subgraph set: `_RESULT_FIELDS` and `_APPEND_FIELDS`.
is_local : Assign → Bool
is_local (Assign.profile_ref v) = false
is_local (Assign.profile v) = false
is_local (Assign.goal_expansions v) = false
is_local (Assign.last_planner_error v) = false
is_local (Assign.inspection_ref v) = false
is_local (Assign.inspection_summary v) = false
is_local (Assign.inspection_history v) = false
is_local (Assign.evidence_lookup_summary v) = false
is_local (Assign.evidence_lookup_history v) = false
is_local (Assign.iteration v) = false
is_local (Assign.report_ref v) = false
is_local _ = true

-- `base` with the exported keys of `f`.
abbrev pub merge : State → State → State
merge base f = record base {
  program_ref = f.program_ref;
  manifest = f.manifest;
  candidate_ref = f.candidate_ref;
  figure_refs = f.figure_refs;
  validation_errors = f.validation_errors;
  validation_warnings = f.validation_warnings;
  static_repairs = f.static_repairs;
  runtime_repairs = f.runtime_repairs;
  error_streak = f.error_streak;
  review = f.review;
  status = f.status;
  stop_code = f.stop_code;
  stop_reason = f.stop_reason;
  service_failure = f.service_failure;
  intent = f.intent;
  agenda = f.agenda;
  sub_goals = f.sub_goals;
  coverage = f.coverage;
  evidence = f.evidence;
  evidence_relations = f.evidence_relations;
  rejected = f.rejected;
  issues = f.issues;
  execution_delta = none;
}

abbrev pub Suffix : {A : Type 0} → List A → List A → Type 0
Suffix {A} xs ys = (zs : List A) × (ys ≡ xs ++ zs)

Suffix-refl : {A : Type 0} (xs : List A) → Suffix xs xs
Suffix-refl xs = ([], sym (append-nil xs))

Suffix-append : {A : Type 0} (xs ys zs : List A) → Suffix xs ys → Suffix xs (ys ++ zs)
Suffix-append xs ys zs h = (h.0 ++ zs, ap (λ l. l ++ zs) h.1 ∙ append_assoc xs h.0 zs)

-- `t` is `s` but for the exported keys, and its lists extend those of `s`.
abbrev pub Extends : State → State → Type 0
Extends s t =
    ((f : State) → merge t f ≡ merge s f)
    × Suffix s.evidence t.evidence
    × Suffix s.evidence_relations t.evidence_relations
    × Suffix s.rejected t.rejected
    × Suffix s.issues t.issues

pub Extends-refl : (s : State) → Extends s s
Extends-refl s = (
  λ f. refl,
  Suffix-refl s.evidence,
  Suffix-refl s.evidence_relations,
  Suffix-refl s.rejected,
  Suffix-refl s.issues,
)

assign-Extends :
    (s t : State) (a : Assign) → is_local a ≡ true → Extends s t → Extends s (assign t a)
unfolding is_local
assign-Extends s t (Assign.evidence v) l h =
    (h.0, Suffix-append s.evidence t.evidence v h.1, h.2, h.3, h.4)
assign-Extends s t (Assign.evidence_relations v) l h =
    (h.0, h.1, Suffix-append s.evidence_relations t.evidence_relations v h.2, h.3, h.4)
assign-Extends s t (Assign.rejected v) l h =
    (h.0, h.1, h.2, Suffix-append s.rejected t.rejected v h.3, h.4)
assign-Extends s t (Assign.issues v) l h =
    (h.0, h.1, h.2, h.3, Suffix-append s.issues t.issues v h.4)
assign-Extends s t (Assign.sub_goals v) l h = h
assign-Extends s t (Assign.intent v) l h = h
assign-Extends s t (Assign.program_ref v) l h = h
assign-Extends s t (Assign.manifest v) l h = h
assign-Extends s t (Assign.candidate_ref v) l h = h
assign-Extends s t (Assign.figure_refs v) l h = h
assign-Extends s t (Assign.static_repairs v) l h = h
assign-Extends s t (Assign.runtime_repairs v) l h = h
assign-Extends s t (Assign.validation_errors v) l h = h
assign-Extends s t (Assign.error_streak v) l h = h
assign-Extends s t (Assign.validation_warnings v) l h = h
assign-Extends s t (Assign.review v) l h = h
assign-Extends s t (Assign.agenda v) l h = h
assign-Extends s t (Assign.coverage v) l h = h
assign-Extends s t (Assign.status v) l h = h
assign-Extends s t (Assign.service_failure v) l h = h
assign-Extends s t (Assign.stop_code v) l h = h
assign-Extends s t (Assign.stop_reason v) l h = h
assign-Extends s t (Assign.profile_ref v) l h = ground arith
assign-Extends s t (Assign.profile v) l h = ground arith
assign-Extends s t (Assign.goal_expansions v) l h = ground arith
assign-Extends s t (Assign.last_planner_error v) l h = ground arith
assign-Extends s t (Assign.inspection_ref v) l h = ground arith
assign-Extends s t (Assign.inspection_summary v) l h = ground arith
assign-Extends s t (Assign.inspection_history v) l h = ground arith
assign-Extends s t (Assign.evidence_lookup_summary v) l h = ground arith
assign-Extends s t (Assign.evidence_lookup_history v) l h = ground arith
assign-Extends s t (Assign.iteration v) l h = ground arith
assign-Extends s t (Assign.report_ref v) l h = ground arith

apply-Extends :
    (s : State) (u : Update) (t : State)
    → all is_local u ≡ true
    → Extends s t
    → Extends s (apply t u)
apply-Extends s [] t l h = h
apply-Extends s (a ∷ u) t l h =
    apply-Extends s u (assign t a) (ground arith) (assign-Extends s t a (ground arith) h)

-- Every key of an update is exported.
abbrev IsLocal : Result Update → Type 0
IsLocal (err e) = Unit {0}
IsLocal (ok u) = all is_local u ≡ true

module _ (deps : Deps) (s : State) where
  lookup-IsLocal : IsLocal (lookup_program deps s)
  unfolding lookup_program is_local
  lookup-IsLocal = ground arith

  generate-IsLocal : IsLocal (generate_code deps s)
  unfolding generate_code is_local
  generate-IsLocal = ground arith

  validate-IsLocal : IsLocal (validate_code deps s)
  unfolding validate_code is_local
  validate-IsLocal = ground arith

  execute-IsLocal : IsLocal (execute deps s)
  unfolding execute is_local
  execute-IsLocal = ground arith

  result-IsLocal : IsLocal (validate_result deps s)
  unfolding validate_result is_local
  result-IsLocal = ground arith

  critique-IsLocal : IsLocal (critique deps s)
  unfolding critique is_local
  critique-IsLocal = ground arith

  commit_update-IsLocal : (a : Accepted) → all is_local (commit_update deps s a) ≡ true
  unfolding commit_update is_local
  commit_update-IsLocal a = ground arith

  committed-IsLocal : (r : Result Accepted) → IsLocal (r >>= λ a. ok (commit_update deps s a))
  committed-IsLocal (err e) = tt
  committed-IsLocal (ok a) = commit_update-IsLocal a

  commit-IsLocal : IsLocal (commit_evidence deps s)
  unfolding commit_evidence
  commit-IsLocal = committed-IsLocal (accepted_evidence deps s)

  reject-IsLocal : IsLocal (reject_attempt deps s)
  unfolding reject_attempt is_local
  reject-IsLocal = ground arith

  node-IsLocal : (at : Node) → IsLocal (node at deps s)
  unfolding node
  node-IsLocal Node.lookup_program = lookup-IsLocal
  node-IsLocal Node.generate_code = generate-IsLocal
  node-IsLocal Node.validate_code = validate-IsLocal
  node-IsLocal Node.execute = execute-IsLocal
  node-IsLocal Node.validate_result = result-IsLocal
  node-IsLocal Node.critique = critique-IsLocal
  node-IsLocal Node.commit_evidence = commit-IsLocal
  node-IsLocal Node.reject_attempt = reject-IsLocal
  node-IsLocal Node.profile_data = refl
  node-IsLocal Node.decompose_objective = refl
  node-IsLocal Node.plan_intent = refl
  node-IsLocal Node.reuse_evidence = refl
  node-IsLocal Node.inspect_data = refl
  node-IsLocal Node.lookup_evidence = refl
  node-IsLocal Node.mark_data_limited = refl
  node-IsLocal Node.assess_progress = refl
  node-IsLocal Node.expand_goals = refl
  node-IsLocal Node.finalize = refl
  node-IsLocal Node.execution = refl
  node-IsLocal Node.apply_execution_delta = refl
  node-IsLocal Node.export_execution_delta = refl

abbrev pub EndExtends : State → Outcome → Type 0
EndExtends s (ended f) = Extends s f
EndExtends s _ = Unit {0}

follow-Extends :
    (s : State) (go : Node → State → Outcome)
    → ((a : Node) (u : State) → Extends s u → EndExtends s (go a u))
    → (at : Node) (u : State) (r : Result Update) → IsLocal r
    → Extends s u
    → EndExtends s (follow go at u r)
unfolding follow
follow-Extends s go ih at u (err e) l h = tt
follow-Extends s go ih at u (ok w) l h =
    ih (next at (apply u w)) (apply u w) (apply-Extends s w u l h)

-- Where a run ends, nothing but the exported keys has changed, and the lists have only grown.
pub run-Extends :
    (world : ℕ → Deps) (s : State) (n t : ℕ) (at : Node) (u : State)
    → Extends s u
    → EndExtends s (run n world t at u)
unfolding run
run-Extends world s zero t at u h = tt
run-Extends world s (suc n) t at u h =
    if_elim (EndExtends s) (is_export at) (ended u)
      (follow (run n world (suc t)) at u (node at (world t) u)) (λ _. h)
      λ inner.
        follow-Extends s (run n world (suc t)) (λ a v. run-Extends world s n (suc t) a v) at u
          (node at (world t) u) (node-IsLocal (world t) u at) h
