-- ===== src/Lib.antt =====
-- A model of analysis_loop_v3, which lets language models plan, code, run and judge analyses of one
-- dataset until its goals are closed or a budget is spent, and of why its control flow is right.
--
-- The program is a state (src/analysis_loop_v3/state.py), the nodes that read it and return what they
-- change (src/analysis_loop_v3/orchestration/nodes/), and the routes between them
-- (src/analysis_loop_v3/orchestration/routes.py). The main graph plans, works without code, and decides when
-- a run ends; the execution subgraph (src/analysis_loop_v3/orchestration/execution_graph.py) generates, checks
-- and runs code, has the result judged, and turns an accepted one into evidence.
--
-- Which file models what:
--   Prelude: lists, texts, sets as lists, and exceptions as values (Prelude/Results).
--   Json: what json.loads returns; numbers with a fraction are dyadic.
--   Contracts: src/analysis_loop_v3/contract_models/, one file for each of base, data, analysis, planning,
--     runtime, and three for evidence.py (Agenda, Evidence, Review); Agenda/Validity is the contract of a task.
--   State: state.py. State/Defs has the state, State/Access the accessors, State/Conflicts
--     unresolved_contradictions with its specification in State/Conflicts/Spec.
--   Validation: src/analysis_loop_v3/validation/, one file each for references.py, issues.py, manifest_checks.py
--     (Manifest), result_checks.py (Results) and numeric.py (Numeric);
--     Program has codelint.py and the walks of the syntax tree of a program.
--   Orchestration/Shared, FailurePolicy and Routes: nodes/_shared.py, failure_policy.py and routes.py.
--   Orchestration/Progress: nodes/progress.py (assess_progress, expand_goals, the repair of the agenda).
--   Orchestration/ReviewEvidence and ReviewAgenda: nodes/review_evidence.py and nodes/review_agenda.py;
--     ReviewAgenda/Completed says why a task is completed, apart from the code's tests.
--   Orchestration/Execution: the subgraph. Codegen has nodes/program.py and code_validation.py, Running has
--     running.py and result_validation.py, Review and Commit have review.py, Graph the edges, the entry and
--     the export; Ends, Accepted, Agenda, Local and Delta are about whole runs.
--   Orchestration/Planning: nodes/planner_decision.py (Verdicts, Decisions), nodes/intent_policy.py (IntentPolicy)
--     and nodes/planning.py (Start, Nodes); Idle, Outcome, Closing and Stalls are about whole answers of the planner.
--   Orchestration/Cycle: from an intent to the end of its execution.
--   Orchestration/Lookup: nodes/evidence_lookup.py.
--   Orchestration/Main: orchestration/graph.py and nodes/inspection.py. Graph has the nodes, the edges and the runs of
--     the main graph as a step relation; Counts, Room, Within and Budget follow the counters through it.
--   Report: src/analysis_loop_v3/report_validation.py (Markers, Checks), contract_models/reporting.py (Review) and
--     nodes/reporting.py (Writing).
--   Llm: src/analysis_loop_v3/llm/service_common.py (Calls, Goals) and planner_service.py (Planner), behind the answers of a
--     model; Proposed and Closing are about the verdicts of the planner.
--   Worker: src/analysis_loop_v3/worker/store.py (Store; Contract promises what its calls do in a sequence, Lease is
--     about claims, and Race runs the calls of claim that touch the disk one by one) and worker/app.py (App, Replies).
--   Tests: the theorems with conditions at concrete runs.
--
-- How the state and the operations correspond:
--   A node returns a list of assignments; a later one to the same key wins, as in a dict, and the keys that
--   state.py annotates with _append take what is appended. The keys of a dict are taken to be there, as new_state
--   sets them, and distinct. Values of the state are kept as validated records: that an accessor such as
--   get_agenda does not raise is the invariant IsConsistent.
--   Times are whole microseconds, and what remains of them is an integer. Messages built from pieces are lists of
--   pieces; the texts of validation errors are shortened.
--   Ids (uuid4), str.casefold and the hashes of payloads are functions that the definitions take; the n-th id drawn
--   is uuid n. A service is its answer, and the subgraph takes one record of answers for each step (Deps).
--   Loading and profiling a dataset (data/profiling.py, with pandas) is a function that may raise, too.
--   ast.parse is among them: what is shown of the subgraph holds for whatever tree it answers.
--   Where a Python set is iterated, the order is that of the list it was made from.
--   The steps of a run of the subgraph are its fuel. A fresh cycle ends within 57; RECURSION_LIMIT is 500.
--
-- What the worker's store is: a function from ids to directories. Its calls are steps without interruption in
--   Worker/Contract; Worker/Race takes claim apart into its calls of mkdir, stat and rmtree. Regular expressions of the
--   report that find markers are written out; the one for numbers and the comparison of floats are functions.
--
-- Not modelled: the event log, the context that the planner is given, the statistics of an inspection, prompts,
-- model clients and the services of the code generator and the critic, the sandbox, artifacts, databases, the run
-- service, the API and the command line; the offline tools audit.py, evaluation.py and bench.py. finalize, with which a
-- run of the main graph ends, stands in Report/Writing.
mod Prelude
pub mod Json
pub mod Contracts
pub mod State
pub mod Validation
pub mod Orchestration
pub mod Report
pub mod Llm
pub mod Worker
pub mod Tests
