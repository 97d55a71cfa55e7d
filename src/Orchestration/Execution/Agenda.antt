-- ===== src/Orchestration/Execution/Agenda.antt =====
-- orchestration/execution_graph.py and nodes/review.py: the agenda in a run of the subgraph.
use analysis_loop.Prelude.{
  ℕ, suc, zero, ◌≡◌, sym, ap, ◌∙◌, subst, true, some, All, Result, ok, err, ◌>>=◌, arith, if_elim,
  truthy,
}
use analysis_loop.Contracts.Agenda.Validity.{IsConsistent}
use analysis_loop.State.{State, Update, apply}
use analysis_loop.Orchestration.Routes.{Node}
use analysis_loop.Orchestration.ReviewEvidence.{build_evidence}
use analysis_loop.Orchestration.ReviewAgenda.{agenda_after_commit}
use analysis_loop.Orchestration.ReviewAgenda.Created.{agenda_after_commit-IsConsistent}
use analysis_loop.Orchestration.Execution.Deps.{Deps}
use analysis_loop.Orchestration.Execution.Codegen.{lookup_program, generate_code, validate_code}
use analysis_loop.Orchestration.Execution.Running.{execute, validate_result}
use analysis_loop.Orchestration.Execution.Review.{critique}
use analysis_loop.Orchestration.Execution.Commit.{
  Accepted, accepted_evidence, commit_evidence, commit_update, reject_attempt,
}
use analysis_loop.Orchestration.Execution.Released.{released_agenda, released-IsConsistent}
use analysis_loop.Orchestration.Execution.Graph.{is_export, node, next, follow, run, Outcome, ended}

abbrev Valid : State → Type 0
Valid s = All IsConsistent s.agenda

-- The agenda behind a node is valid.
abbrev KeepsValid : State → Result Update → Type 0
KeepsValid s (err e) = Unit {0}
KeepsValid s (ok u) = Valid s → Valid (apply s u)

-- The node does not touch the agenda.
abbrev KeepsAgenda : State → Result Update → Type 0
KeepsAgenda s (err e) = Unit {0}
KeepsAgenda s (ok u) = (apply s u).agenda ≡ s.agenda

keeps_valid : (s : State) (r : Result Update) → KeepsAgenda s r → KeepsValid s r
keeps_valid s (err e) k = tt
keeps_valid s (ok u) k = λ v. subst (All IsConsistent) (sym k) v

-- The new evidence has the id that was drawn for it.
abbrev HasId : Deps → Result Accepted → Type 0
HasId deps (err e) = Unit {0}
HasId deps (ok a) = a.evidence.evidence_id ≡ deps.evidence_id

module _ (deps : Deps) (s : State) where
  lookup-KeepsAgenda : KeepsAgenda s (lookup_program deps s)
  unfolding lookup_program
  lookup-KeepsAgenda = ground arith

  generate-KeepsAgenda : KeepsAgenda s (generate_code deps s)
  unfolding generate_code
  generate-KeepsAgenda = ground arith

  validate-KeepsAgenda : KeepsAgenda s (validate_code deps s)
  unfolding validate_code
  validate-KeepsAgenda = ground arith

  execute-KeepsAgenda : KeepsAgenda s (execute deps s)
  unfolding execute
  execute-KeepsAgenda = ground arith

  result-KeepsAgenda : KeepsAgenda s (validate_result deps s)
  unfolding validate_result
  result-KeepsAgenda = ground arith

  critique-KeepsAgenda : KeepsAgenda s (critique deps s)
  unfolding critique
  critique-KeepsAgenda = ground arith

  commit_update-agenda :
      (a : Accepted)
      → (apply s (commit_update deps s a)).agenda
        ≡ (agenda_after_commit deps.host 0 s a.intent a.review a.evidence).updated
  unfolding commit_update
  commit_update-agenda a = ground arith

  accepted-HasId : HasId deps (accepted_evidence deps s)
  unfolding accepted_evidence build_evidence
  accepted-HasId = ground arith

  committed-KeepsValid :
      (r : Result Accepted)
      → HasId deps r
      → truthy (some deps.evidence_id) ≡ true
      → KeepsValid s (r >>= λ a. ok (commit_update deps s a))
  committed-KeepsValid (err e) h k = tt
  committed-KeepsValid (ok a) h k = λ v. subst (All IsConsistent) (sym (commit_update-agenda a)) (
      agenda_after_commit-IsConsistent deps.host 0 s a.intent a.review a.evidence
        (ap (λ id. truthy (some id)) h ∙ k) v)

  commit-KeepsValid : truthy (some deps.evidence_id) ≡ true → KeepsValid s (commit_evidence deps s)
  unfolding commit_evidence
  commit-KeepsValid k = committed-KeepsValid (accepted_evidence deps s) accepted-HasId k

  abbrev Releases : Result Update → Type 0
  Releases (err e) = Unit {0}
  Releases (ok u) = (apply s u).agenda ≡ released_agenda s.intent s.agenda

  reject-Releases : Releases (reject_attempt deps s)
  unfolding reject_attempt
  reject-Releases = ground arith

  released-KeepsValid : (r : Result Update) → Releases r → KeepsValid s r
  released-KeepsValid (err e) k = tt
  released-KeepsValid (ok u) k =
      λ v. subst (All IsConsistent) (sym k) (released-IsConsistent s.intent s.agenda v)

  node-KeepsValid :
      truthy (some deps.evidence_id) ≡ true → (at : Node) → KeepsValid s (node at deps s)
  unfolding node
  node-KeepsValid k Node.lookup_program = keeps_valid s (lookup_program deps s) lookup-KeepsAgenda
  node-KeepsValid k Node.generate_code = keeps_valid s (generate_code deps s) generate-KeepsAgenda
  node-KeepsValid k Node.validate_code = keeps_valid s (validate_code deps s) validate-KeepsAgenda
  node-KeepsValid k Node.execute = keeps_valid s (execute deps s) execute-KeepsAgenda
  node-KeepsValid k Node.validate_result = keeps_valid s (validate_result deps s) result-KeepsAgenda
  node-KeepsValid k Node.critique = keeps_valid s (critique deps s) critique-KeepsAgenda
  node-KeepsValid k Node.commit_evidence = commit-KeepsValid k
  node-KeepsValid k Node.reject_attempt =
      released-KeepsValid (reject_attempt deps s) reject-Releases
  node-KeepsValid k Node.profile_data = λ v. v
  node-KeepsValid k Node.decompose_objective = λ v. v
  node-KeepsValid k Node.plan_intent = λ v. v
  node-KeepsValid k Node.reuse_evidence = λ v. v
  node-KeepsValid k Node.inspect_data = λ v. v
  node-KeepsValid k Node.lookup_evidence = λ v. v
  node-KeepsValid k Node.mark_data_limited = λ v. v
  node-KeepsValid k Node.assess_progress = λ v. v
  node-KeepsValid k Node.expand_goals = λ v. v
  node-KeepsValid k Node.finalize = λ v. v
  node-KeepsValid k Node.execution = λ v. v
  node-KeepsValid k Node.apply_execution_delta = λ v. v
  node-KeepsValid k Node.export_execution_delta = λ v. v

abbrev EndValid : Outcome → Type 0
EndValid (ended f) = Valid f
EndValid _ = Unit {0}

follow-Valid :
    (go : Node → State → Outcome)
    → ((a : Node) (u : State) → Valid u → EndValid (go a u))
    → (at : Node) (u : State) (r : Result Update) → KeepsValid u r
    → Valid u
    → EndValid (follow go at u r)
unfolding follow
follow-Valid go ih at u (err e) k v = tt
follow-Valid go ih at u (ok w) k v = ih (next at (apply u w)) (apply u w) (k v)

run-Valid :
    (world : ℕ → Deps) (ids : (m : ℕ) → truthy (some (world m).evidence_id) ≡ true) (n t : ℕ)
    (at : Node) (u : State)
    → Valid u
    → EndValid (run n world t at u)
unfolding run
run-Valid world ids zero t at u v = tt
run-Valid world ids (suc n) t at u v =
    if_elim EndValid (is_export at) (ended u)
      (follow (run n world (suc t)) at u (node at (world t) u)) (λ _. v)
      λ _.
        follow-Valid (run n world (suc t)) (λ a w. run-Valid world ids n (suc t) a w) at u
          (node at (world t) u) (node-KeepsValid (world t) u (ids t) at) v

-- Where a run of the subgraph ends, the agenda is valid if it was at its entry and every new evidence
-- has an id.
pub run-IsConsistent :
    (world : ℕ → Deps) (n : ℕ) (s f : State)
    → ((m : ℕ) → truthy (some (world m).evidence_id) ≡ true)
    → run n world 0 Node.lookup_program s ≡ ended f
    → All IsConsistent s.agenda
    → All IsConsistent f.agenda
run-IsConsistent world n s f ids h v =
    subst EndValid h (run-Valid world ids n 0 Node.lookup_program s v)
