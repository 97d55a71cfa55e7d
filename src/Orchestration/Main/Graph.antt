-- ===== src/Orchestration/Main/Graph.antt =====
-- orchestration/graph.py: the nodes of the main graph, its edges, and its runs.
use analysis_loop.Prelude.{
  ℕ, String, Bool, true, false, ◌≡◌, refl, Option, none, some, List, [], ◌∷◌, Result, ok, err,
  ◌>>=◌, ◌>>◌, require, assert, value_error, say,
}
use analysis_loop.Prelude.Sets.{unique}
use analysis_loop.Json.{Json}
use analysis_loop.Contracts.Data.{ArtifactRef, DatasetProfile}
use analysis_loop.Contracts.Planning.{IntentPayload, ExecutionMode, SubGoal}
use analysis_loop.Contracts.Runtime.{ServiceResult}
use analysis_loop.State.{State, Assign, Update, apply}
use analysis_loop.Orchestration.Routes.{Node, route_after_assess, route_after_expand_goals}
use analysis_loop.Orchestration.Planning.Start.{profile_data, decompose_objective}
use analysis_loop.Orchestration.Planning.Nodes.{
  PlannerProposal, plan_intent, reuse_evidence, mark_data_limited,
}
use analysis_loop.Orchestration.Lookup.Defs.{lookup_evidence}
use analysis_loop.Orchestration.Progress.{assess_progress, expand_goals}
use analysis_loop.Orchestration.Execution.Deps.{Deps}
use analysis_loop.Orchestration.Execution.Graph.{
  Outcome, ended, raised, out_of_steps, run, capture_execution_entry, export_execution_delta,
  apply_execution_delta, route_after_main_plan,
}

-- What the surroundings of the graph answer while one node runs.
pub record Answers : Type 0 where
  -- two readings of the clock
  pub now : ℕ
  pub later : ℕ
  pub uuid : ℕ → String
  pub profile_of : ArtifactRef → Result DatasetProfile
  pub put_profile : DatasetProfile → ArtifactRef
  pub intent_digest : IntentPayload → String
  pub goals : Option (ServiceResult (List SubGoal))
  pub planner : Option (ServiceResult PlannerProposal)
  pub expansion : Option (ServiceResult (List SubGoal))
  -- the summary of an inspection, of the columns of an intent in a dataset
  pub inspect : ArtifactRef → List String → Json
  pub put_inspection : Json → ArtifactRef
  -- the steps that the subgraph may take, and what its nodes call
  pub steps : ℕ
  pub world : ℕ → Deps

abbrev is_inspection : ExecutionMode → Bool
is_inspection ExecutionMode.inspect_data = true
is_inspection _ = false

-- nodes/inspection.py: `inspect_data`, behind what it computes from the dataset.
unfoldable pub inspect_data : Answers → State → Result Update
unfolding unique
inspect_data a s = do
  intent ← require s.intent
  assert (is_inspection intent.execution_mode)
  dataset ← require s.dataset_ref
  let columns = unique intent.candidate_columns
  let summary = a.inspect dataset columns
  ok (
      Assign.inspection_ref (some (a.put_inspection summary))
      ∷ Assign.inspection_summary (some summary)
      ∷ Assign.inspection_history (
          record {
            intent_id = intent.intent_id;
            question = intent.question;
            columns = columns;
            inspection_ref = a.put_inspection summary;
          }
          ∷ [])
      ∷ Assign.intent none
      ∷ [])

abbrev pub updated : State → Result Update → Result State
updated s (ok u) = ok (apply s u)
updated s (err e) = err e

abbrev delta_applied : State → Result Update → Result State
delta_applied s (ok d) = ok (apply_execution_delta s d)
delta_applied s (err e) = err e

-- `execution` and `apply_execution_delta`: the subgraph runs to its end, and its delta is applied. A
-- run of it that reaches the limit of steps raises.
unfoldable pub exported : State → Outcome → Result State
unfolding export_execution_delta
exported s (ended f) = delta_applied s (export_execution_delta (capture_execution_entry s) f)
exported s (raised e) = err e
exported s out_of_steps = err (value_error (say "recursion limit"))

unfoldable pub main_node : Answers → Node → State → Result State
unfolding profile_data decompose_objective plan_intent reuse_evidence inspect_data lookup_evidence
    mark_data_limited assess_progress expand_goals exported run
main_node a Node.profile_data s = updated s (profile_data a.profile_of a.put_profile s)
main_node a Node.decompose_objective s = updated s (decompose_objective a.goals s)
main_node a Node.plan_intent s = updated s (plan_intent a.intent_digest a.planner s)
main_node a Node.reuse_evidence s = updated s (reuse_evidence s)
main_node a Node.inspect_data s = updated s (inspect_data a s)
main_node a Node.lookup_evidence s = updated s (lookup_evidence s)
main_node a Node.mark_data_limited s = updated s (mark_data_limited s)
main_node a Node.assess_progress s = ok (apply s (assess_progress a.uuid a.now a.later s))
main_node a Node.expand_goals s = updated s (expand_goals a.expansion s)
main_node a Node.execution s = exported s (run a.steps a.world 0 Node.lookup_program s)
main_node a _ s = ok s

unfoldable pub main_next : Node → State → Node
unfolding route_after_main_plan route_after_assess route_after_expand_goals
main_next Node.profile_data s = Node.decompose_objective
main_next Node.decompose_objective s = Node.plan_intent
main_next Node.plan_intent s = route_after_main_plan s
main_next Node.assess_progress s = route_after_assess s
main_next Node.expand_goals s = route_after_expand_goals s
main_next Node.finalize s = Node.finalize
main_next _ s = Node.assess_progress

-- A node that returns, and the edge to the next one.
pub data Step : Node × State → Node × State → Type 0 where
  step :
      (a : Answers) (at : Node) (s t : State)
      → main_node a at s ≡ ok t
      → Step (at, s) (main_next at t, t)

pub data Reach (start : Node × State) : Node × State → Type 0 where
  here : Reach start start
  next : {p q : Node × State} → Reach start p → Step p q → Reach start q

-- The same by evaluation, with the answers of each node; one that raises leaves the run where it is.
pub record Run (start : Node × State) : Type 0 where
  pub place : Node × State
  pub reach : Reach start place

turn_by :
    {start : Node × State} (at : Node) (s : State) (a : Answers) (r : Result State)
    → main_node a at s ≡ r
    → Reach start (at, s)
    → Run start
turn_by at s a (ok t) e h = record { place = _; reach = next h (step a at s t e) }
turn_by at s a (err x) e h = record { place = _; reach = h }

unfoldable pub run_main : {start : Node × State} → Run start → List Answers → Run start
unfolding turn_by
run_main r [] = r
run_main r (a ∷ rest) =
    run_main (turn_by r.place.0 r.place.1 a (main_node a r.place.0 r.place.1) refl r.reach) rest
