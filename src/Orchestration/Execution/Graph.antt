-- ===== src/Orchestration/Execution/Graph.antt =====
-- orchestration/execution_graph.py and the part of graph.py that joins the two graphs. `LangGraph` runs a
-- node, applies its update, and follows the edges from the new state: `run` is that loop, with one set of
-- answers for each step.
use analysis_loop.Prelude.{
  ℕ, suc, zero, String, Bool, true, false, none, List, [], ◌∷◌, ◌++◌, length, drop, ltb, is_empty,
  Result, ok, err, Error, ◌>>=◌, ◌>>◌, raise_if, lit, if◌then◌else◌,
}
use analysis_loop.State.{State, Assign, Update, apply}
use analysis_loop.Orchestration.Routes.{
  Node, route_after_plan, route_after_lookup, route_after_generate, route_after_validate_code,
  route_after_execute, route_after_validate_result, route_after_critique,
}
use analysis_loop.Orchestration.Execution.Deps.{Deps}
use analysis_loop.Orchestration.Execution.Codegen.{lookup_program, generate_code, validate_code}
use analysis_loop.Orchestration.Execution.Running.{execute, validate_result}
use analysis_loop.Orchestration.Execution.Review.{critique}
use analysis_loop.Orchestration.Execution.Commit.{commit_evidence, reject_attempt}

-- `"export_execution_delta" if next_node == "finalize" else next_node`.
abbrev pub exported : Node → Node
exported Node.finalize = Node.export_execution_delta
exported next = next

unfoldable pub after_generate : State → Node
unfolding route_after_generate
after_generate s = exported (route_after_generate s)

unfoldable pub after_critique : State → Node
unfolding route_after_critique
after_critique s = exported (route_after_critique s)

-- The nodes of the subgraph; a node of the main graph changes nothing here.
unfoldable pub node : Node → Deps → State → Result Update
unfolding lookup_program generate_code validate_code execute validate_result critique
    commit_evidence reject_attempt
node Node.lookup_program deps s = lookup_program deps s
node Node.generate_code deps s = generate_code deps s
node Node.validate_code deps s = validate_code deps s
node Node.execute deps s = execute deps s
node Node.validate_result deps s = validate_result deps s
node Node.critique deps s = critique deps s
node Node.commit_evidence deps s = commit_evidence deps s
node Node.reject_attempt deps s = reject_attempt deps s
node _ deps s = ok []

-- The edges of the subgraph.
unfoldable pub next : Node → State → Node
unfolding route_after_lookup after_generate route_after_validate_code route_after_execute
    route_after_validate_result after_critique
next Node.lookup_program s = route_after_lookup s
next Node.generate_code s = after_generate s
next Node.validate_code s = route_after_validate_code s
next Node.execute s = route_after_execute s
next Node.validate_result s = route_after_validate_result s
next Node.critique s = after_critique s
next _ s = Node.export_execution_delta

-- How a run of the subgraph ends: before its last node, with an exception, or not within the steps.
pub data Outcome : Type 0 where
  ended : State → Outcome
  raised : Error → Outcome
  out_of_steps : Outcome

abbrev pub is_export : Node → Bool
is_export Node.export_execution_delta = true
is_export _ = false

-- The update of a node is applied, and the edge from the new state is followed.
unfoldable pub follow : (Node → State → Outcome) → Node → State → Result Update → Outcome
unfolding next
follow go at s (err e) = raised e
follow go at s (ok u) = go (next at (apply s u)) (apply s u)

-- `n` steps are left, and `t` are done.
unfoldable pub run : ℕ → (ℕ → Deps) → ℕ → Node → State → Outcome
unfolding node follow
run zero world t at s = out_of_steps
run (suc n) world t at s =
    if is_export at then ended s else follow (run n world (suc t)) at s (node at (world t) s)

-- `_entry_lengths`.
pub record Lengths : Type 0 where
  pub evidence : ℕ
  pub evidence_relations : ℕ
  pub rejected : ℕ
  pub issues : ℕ

abbrev pub capture_execution_entry : State → Lengths
capture_execution_entry s = record {
  evidence = length s.evidence;
  evidence_relations = length s.evidence_relations;
  rejected = length s.rejected;
  issues = length s.issues;
}

-- What was appended since the entry; less than before is an error.
unfoldable pub appended : {A : Type 0} → String → ℕ → List A → (List A → Assign) → Result Update
appended key n now assignment = do
  raise_if (ltb (length now) n)
      (lit "append-only state decreased during execution: " ∷ lit key ∷ [])
  ok (if is_empty (drop n now) then [] else assignment (drop n now) ∷ [])

-- The assignments of `_RESULT_FIELDS`.
abbrev pub result_fields : State → Update
result_fields s =
    Assign.program_ref s.program_ref
    ∷ Assign.manifest s.manifest
    ∷ Assign.candidate_ref s.candidate_ref
    ∷ Assign.figure_refs s.figure_refs
    ∷ Assign.validation_errors s.validation_errors
    ∷ Assign.validation_warnings s.validation_warnings
    ∷ Assign.static_repairs s.static_repairs
    ∷ Assign.runtime_repairs s.runtime_repairs
    ∷ Assign.error_streak s.error_streak
    ∷ Assign.review s.review
    ∷ Assign.status s.status
    ∷ Assign.stop_code s.stop_code
    ∷ Assign.stop_reason s.stop_reason
    ∷ Assign.service_failure s.service_failure
    ∷ Assign.intent s.intent
    ∷ Assign.agenda s.agenda
    ∷ Assign.sub_goals s.sub_goals
    ∷ Assign.coverage s.coverage
    ∷ []

unfoldable pub export_execution_delta : Lengths → State → Result Update
unfolding appended
export_execution_delta entry s = do
  e ← appended "evidence" entry.evidence s.evidence Assign.evidence
  r ←
      appended "evidence_relations" entry.evidence_relations s.evidence_relations
        Assign.evidence_relations
  j ← appended "rejected" entry.rejected s.rejected Assign.rejected
  i ← appended "issues" entry.issues s.issues Assign.issues
  ok (result_fields s ++ (e ++ (r ++ (j ++ i))))

-- The node `execution` and `apply_execution_delta` of the main graph.
abbrev pub apply_execution_delta : State → Update → State
apply_execution_delta s delta = record (apply s delta) { execution_delta = none }

unfoldable pub route_after_main_plan : State → Node
unfolding route_after_plan
route_after_main_plan s = elim (route_after_plan s) [
  | Node.lookup_program ↦ Node.execution
  | other ↦ other
]
