-- ===== src/Orchestration/Execution/Accepted.antt =====
-- orchestration/execution_graph.py: what becomes evidence in a run of the subgraph.
use analysis_loop.Prelude.{
  ℕ, suc, zero, ◌≡◌, refl, ap, ◌∙◌, subst, Bool, true, false, some, [], ◌∷◌, ◌++◌, ◌⊎◌, inl, inr,
  Result, ok, err, ◌>>=◌, arith, if_elim, is_empty,
}
use analysis_loop.Orchestration.ReviewEvidence.{build_evidence}
use analysis_loop.Contracts.Evidence.{EvidenceRecord}
use analysis_loop.State.{State, Update, apply}
use analysis_loop.Orchestration.Routes.{Node, is_accepted}
use analysis_loop.Orchestration.Execution.Deps.{Deps}
use analysis_loop.Orchestration.Execution.Codegen.{lookup_program, generate_code, validate_code}
use analysis_loop.Orchestration.Execution.Running.{execute, validate_result}
use analysis_loop.Orchestration.Execution.Review.{critique}
use analysis_loop.Orchestration.Execution.Commit.{
  Accepted, accepted_evidence, commit_evidence, commit_update, reject_attempt,
}
use analysis_loop.Orchestration.Execution.Graph.{is_export, node, next, follow, run, Outcome, ended}

abbrev is_critique : Node → Bool
is_critique Node.critique = true
is_critique _ = false

abbrev is_commit : Node → Bool
is_commit Node.commit_evidence = true
is_commit _ = false

-- One evidence was added: the errors are cleared, the review is accepted, and it is about the candidate.
pub record Committed (s u : State) : Type 0 where
  pub new : EvidenceRecord
  pub added : u.evidence ≡ s.evidence ++ new ∷ []
  pub clean : is_empty u.validation_errors ≡ true
  pub accepted : is_accepted u.review ≡ true
  pub result : u.candidate_ref ≡ some new.result_ref

-- What holds when the subgraph, entered with `s`, reaches a node with `u`.
record Reached (s : State) (at : Node) (u : State) : Type 0 where
  kept : is_export at ≡ false → u.evidence ≡ s.evidence
  checked : is_critique at ≡ true → is_empty u.validation_errors ≡ true
  judged :
      is_commit at ≡ true → (is_empty u.validation_errors ≡ true) × (is_accepted u.review ≡ true)
  left : is_export at ≡ true → (u.evidence ≡ s.evidence) ⊎ Committed s u

abbrev Keeps : State → Node → State → Result Update → Type 0
Keeps s at u (err e) = Unit {0}
Keeps s at u (ok w) = Reached s (next at (apply u w)) (apply u w)

-- The evidence and the errors of the checks stay.
abbrev KeepsRest : State → Result Update → Type 0
KeepsRest u (err e) = Unit {0}
KeepsRest u (ok w) =
    ((apply u w).evidence ≡ u.evidence) × ((apply u w).validation_errors ≡ u.validation_errors)

-- A commit appends one evidence, and touches neither the errors, nor the review, nor the candidate.
pub commit_update_lem :
    (deps : Deps) (u : State) (a : Accepted)
    → let t = apply u (commit_update deps u a) in
      (t.evidence ≡ u.evidence ++ a.evidence ∷ [])
      × (t.validation_errors ≡ u.validation_errors)
      × (t.review ≡ u.review)
      × (t.candidate_ref ≡ u.candidate_ref)
unfolding commit_update
commit_update_lem deps u a = ground arith

-- The new evidence refers to the candidate.
abbrev IsAbout : State → Result Accepted → Type 0
IsAbout u (err e) = Unit {0}
IsAbout u (ok a) = u.candidate_ref ≡ some a.evidence.result_ref

accepted-IsAbout : (deps : Deps) (u : State) → IsAbout u (accepted_evidence deps u)
unfolding accepted_evidence build_evidence
accepted-IsAbout deps u = ground arith

module _ (s : State) (deps : Deps) (u : State) where
  lookup-Keeps :
      Reached s Node.lookup_program u → Keeps s Node.lookup_program u (lookup_program deps u)
  unfolding lookup_program next
  lookup-Keeps h = ground arith

  generate-Keeps :
      Reached s Node.generate_code u → Keeps s Node.generate_code u (generate_code deps u)
  unfolding generate_code next
  generate-Keeps h = ground arith

  validate-Keeps :
      Reached s Node.validate_code u → Keeps s Node.validate_code u (validate_code deps u)
  unfolding validate_code next
  validate-Keeps h = ground arith

  execute-Keeps : Reached s Node.execute u → Keeps s Node.execute u (execute deps u)
  unfolding execute next
  execute-Keeps h = ground arith

  result-Keeps :
      Reached s Node.validate_result u → Keeps s Node.validate_result u (validate_result deps u)
  unfolding validate_result next
  result-Keeps h = ground arith

  critique_keeps : KeepsRest u (critique deps u)
  unfolding critique
  critique_keeps = ground arith

  after_critique-Keeps :
      (r : Result Update) → KeepsRest u r → Reached s Node.critique u → Keeps s Node.critique u r
  unfolding next
  after_critique-Keeps (err e) k h = tt
  after_critique-Keeps (ok w) k h = ground arith

  reject-Keeps :
      Reached s Node.reject_attempt u → Keeps s Node.reject_attempt u (reject_attempt deps u)
  unfolding reject_attempt next
  reject-Keeps h = ground arith

  committed :
      (r : Result Accepted)
      → IsAbout u r
      → Reached s Node.commit_evidence u
      → Keeps s Node.commit_evidence u (r >>= λ a. ok (commit_update deps u a))
  unfolding next
  committed (err e) c h = tt
  committed (ok a) c h =
      let k = commit_update_lem deps u a in
      let checks = h.judged refl in
      record {
        kept = λ inner. ground arith;
        checked = λ critic. ground arith;
        judged = λ commit. ground arith;
        left = λ out. inr (record {
          new = a.evidence;
          added = k.0 ∙ ap (λ xs. xs ++ a.evidence ∷ []) (h.kept refl);
          clean = ap is_empty k.1 ∙ checks.0;
          accepted = ap is_accepted k.2 ∙ checks.1;
          result = k.3 ∙ c;
        });
      }

  commit-Keeps :
      Reached s Node.commit_evidence u → Keeps s Node.commit_evidence u (commit_evidence deps u)
  unfolding commit_evidence
  commit-Keeps h = committed (accepted_evidence deps u) (accepted-IsAbout deps u) h

  -- A node that changes nothing, before the export.
  idle : (u.evidence ≡ s.evidence) → Reached s Node.export_execution_delta u
  idle k = record {
    kept = λ inner. ground arith;
    checked = λ critic. ground arith;
    judged = λ commit. ground arith;
    left = λ out. inl k;
  }

  node-Keeps : (at : Node) → is_export at ≡ false → Reached s at u → Keeps s at u (node at deps u)
  unfolding node next
  node-Keeps Node.lookup_program i h = lookup-Keeps h
  node-Keeps Node.generate_code i h = generate-Keeps h
  node-Keeps Node.validate_code i h = validate-Keeps h
  node-Keeps Node.execute i h = execute-Keeps h
  node-Keeps Node.validate_result i h = result-Keeps h
  node-Keeps Node.commit_evidence i h = commit-Keeps h
  node-Keeps Node.reject_attempt i h = reject-Keeps h
  node-Keeps Node.critique i h = after_critique-Keeps (critique deps u) critique_keeps h
  node-Keeps Node.profile_data i h = idle (h.kept i)
  node-Keeps Node.decompose_objective i h = idle (h.kept i)
  node-Keeps Node.plan_intent i h = idle (h.kept i)
  node-Keeps Node.reuse_evidence i h = idle (h.kept i)
  node-Keeps Node.inspect_data i h = idle (h.kept i)
  node-Keeps Node.lookup_evidence i h = idle (h.kept i)
  node-Keeps Node.mark_data_limited i h = idle (h.kept i)
  node-Keeps Node.assess_progress i h = idle (h.kept i)
  node-Keeps Node.expand_goals i h = idle (h.kept i)
  node-Keeps Node.finalize i h = idle (h.kept i)
  node-Keeps Node.execution i h = idle (h.kept i)
  node-Keeps Node.apply_execution_delta i h = idle (h.kept i)
  node-Keeps Node.export_execution_delta i h = idle (h.kept i)

-- What holds at the end of a run.
abbrev Final : State → Outcome → Type 0
Final s (ended f) = (f.evidence ≡ s.evidence) ⊎ Committed s f
Final s _ = Unit {0}

follow-Final :
    (s : State) (go : Node → State → Outcome)
    → ((a : Node) (u : State) → Reached s a u → Final s (go a u))
    → (at : Node) (u : State) (r : Result Update) → Keeps s at u r
    → Final s (follow go at u r)
unfolding follow
follow-Final s go ih at u (err e) k = tt
follow-Final s go ih at u (ok w) k = ih (next at (apply u w)) (apply u w) k

run-Final :
    (world : ℕ → Deps) (s : State) (n t : ℕ) (at : Node) (u : State)
    → Reached s at u
    → Final s (run n world t at u)
unfolding run
run-Final world s zero t at u h = tt
run-Final world s (suc n) t at u h =
    if_elim (Final s) (is_export at) (ended u)
      (follow (run n world (suc t)) at u (node at (world t) u)) h.left
      λ inner.
        follow-Final s (run n world (suc t)) (λ a v. run-Final world s n (suc t) a v) at u
          (node at (world t) u) (node-Keeps s (world t) u at inner h)

entered : (s : State) → Reached s Node.lookup_program s
entered s = ground arith

-- A run of the subgraph leaves the evidence as it was, or adds one; then no check has left an error, the
-- critic has accepted the result with a claim, and the evidence refers to that result.
pub evidence_accepted :
    (world : ℕ → Deps) (n : ℕ) (s f : State)
    → run n world 0 Node.lookup_program s ≡ ended f
    → (f.evidence ≡ s.evidence) ⊎ Committed s f
evidence_accepted world n s f h =
    subst (Final s) h (run-Final world s n 0 Node.lookup_program s (entered s))
