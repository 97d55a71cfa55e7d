-- ===== src/Contracts/Planning.antt =====
-- contract_models/planning.py: sub-goals and the planner's research intents.
use analysis_loop.Prelude.{
  ℕ, String, Bool, true, false, not, ◌&&◌, ◌||◌, Option, none, some, List, [], ◌∷◌, ◌++◌, Result,
  ok, ◌>>◌, ◌==◌, leb, all, is_empty, truthy, raise_if, say, lit, strs, codes, eqb, if◌then◌else◌,
}
use analysis_loop.Prelude.Sets.{minus, meets, sorted_set}
use analysis_loop.Contracts.Base.{DescriptionItem}

pub data GoalStatus : Type 0 where
  still_open converged abandoned : GoalStatus

pub record SubGoal : Type 0 where
  pub goal_id : String
  pub question : String
  pub rationale : String
  pub success_criterion : String
  pub status : GoalStatus
  pub evidence_ids : List String
  pub closing_note : String

abbrev pub is_open_status : GoalStatus → Bool
is_open_status still_open = true
is_open_status _ = false

abbrev pub is_converged_status : GoalStatus → Bool
is_converged_status converged = true
is_converged_status _ = false

abbrev pub is_abandoned_status : GoalStatus → Bool
is_abandoned_status abandoned = true
is_abandoned_status _ = false

abbrev pub is_open : SubGoal → Bool
is_open g = is_open_status g.status

is_digit : ℕ → Bool
is_digit c = leb b'0' c && leb c b'9'

-- The pattern `^g[0-9]+$` of a goal_id.
pub matches_goal_id : List ℕ → Bool
unfolding is_digit
matches_goal_id (c ∷ d ∷ ds) = eqb c b'g' && is_digit d && all is_digit ds
matches_goal_id _ = false

unfoldable pub validate_goal : SubGoal → Result SubGoal
unfolding matches_goal_id
validate_goal g = do
  raise_if (not (matches_goal_id (codes g.goal_id))) (say "goal_id")
  raise_if (g.question == "") (say "question")
  ok g

pub data IntentPurpose : Type 0 where
  explore deepen challenge resolve_contradiction : IntentPurpose

abbrev pub is_explore : IntentPurpose → Bool
is_explore explore = true
is_explore _ = false

abbrev pub is_challenge : IntentPurpose → Bool
is_challenge challenge = true
is_challenge _ = false

abbrev pub is_resolve_purpose : IntentPurpose → Bool
is_resolve_purpose resolve_contradiction = true
is_resolve_purpose _ = false

pub data ExecutionMode : Type 0 where
  compute reuse_evidence inspect_data lookup_evidence mark_data_limited : ExecutionMode

pub record ResearchIntent : Type 0 where
  pub intent_id : String
  pub question : String
  pub hypothesis : String
  pub rationale : String
  pub goal_id : Option String
  pub purpose : IntentPurpose
  pub parent_evidence_ids : List String
  pub task_id : Option String
  pub execution_mode : ExecutionMode
  pub reuse_evidence_ids : List String
  pub success_criterion : String
  pub candidate_columns : List String
  pub required_columns : List String
  pub excluded_columns : List String
  pub desired_evidence : List DescriptionItem
  pub constraints : List DescriptionItem

-- `_purpose_needs_parent`.
purpose_needs_parent : ResearchIntent → Result (Unit {0})
purpose_needs_parent i =
    raise_if (not (is_explore i.purpose) && is_empty i.parent_evidence_ids)
      (say "parent_evidence_ids가 있어야 한다")

-- `_execution_mode_is_consistent`, what each mode but reuse_evidence asks for.
mode_needs : ExecutionMode → ResearchIntent → Result (Unit {0})
mode_needs inspect_data i = do
  raise_if (truthy i.task_id) (say "Agenda 작업 수행 중 inspect_data로 우회할 수 없다")
  raise_if (is_empty i.candidate_columns) (say "inspect_data에는 candidate_columns가 필요하다")
mode_needs lookup_evidence i = do
  raise_if (truthy i.task_id) (say "Agenda 작업은 lookup_evidence가 필요 없다")
  raise_if
      (not (truthy i.goal_id) && is_empty i.candidate_columns && is_empty i.parent_evidence_ids)
      (say "lookup_evidence에는 goal_id, candidate_columns, parent_evidence_ids 중 하나가 필요하다")
mode_needs mark_data_limited i =
    raise_if (not (truthy i.task_id)) (say "mark_data_limited에는 task_id가 필요하다")
mode_needs _ i = ok tt

-- `_execution_mode_is_consistent`: only reuse_evidence may name reused ids, and it must.
mode_is_consistent : ExecutionMode → ResearchIntent → Result (Unit {0})
unfolding mode_needs
mode_is_consistent reuse_evidence i = do
  raise_if (is_empty i.reuse_evidence_ids) (say "reuse_evidence_ids가 필요하다")
  raise_if (truthy i.task_id) (say "Agenda 작업은 재사용할 수 없다")
  let missing = minus i.reuse_evidence_ids i.parent_evidence_ids
  raise_if (not (is_empty missing))
      (lit "reuse_evidence_ids는 parent_evidence_ids에도 있어야 한다: " ∷ strs (sorted_set missing) ∷ [])
mode_is_consistent mode i = do
  raise_if (not (is_empty i.reuse_evidence_ids)) (say "reuse_evidence_ids를 넣지 않는다")
  mode_needs mode i

-- `_required_within_candidates`: required columns that are no candidates become candidates.
required_within_candidates : ResearchIntent → Result ResearchIntent
unfolding sorted_set
required_within_candidates i = do
  let missing = minus i.required_columns i.candidate_columns
  raise_if (meets i.required_columns i.excluded_columns) (say "required와 excluded가 겹친다")
  ok (record i { candidate_columns = i.candidate_columns ++ sorted_set missing })

-- `ResearchIntent.model_validate`: the lengths, then the three validators in order.
unfoldable pub validate_intent : ResearchIntent → Result ResearchIntent
unfolding purpose_needs_parent mode_is_consistent required_within_candidates
validate_intent i = do
  raise_if (i.question == "" || i.hypothesis == "") (say "question, hypothesis")
  purpose_needs_parent i
  mode_is_consistent i.execution_mode i
  required_within_candidates i

-- What a dedupe key is the hash of: the intent without its id, its id lists as sorted sets.
pub record IntentPayload : Type 0 where
  pub question : String
  pub hypothesis : String
  pub rationale : String
  -- left out of the reuse signature
  pub goal_id : Option (Option String)
  pub purpose : IntentPurpose
  pub parent_evidence_ids : List String
  pub task_id : Option String
  pub execution_mode : ExecutionMode
  pub reuse_evidence_ids : List String
  pub success_criterion : String
  pub candidate_columns : List String
  pub required_columns : List String
  pub excluded_columns : List String
  pub desired_evidence : List DescriptionItem
  pub constraints : List DescriptionItem

-- `_analysis_signature`, up to the encoding and the hash.
pub analysis_payload : Bool → ResearchIntent → IntentPayload
unfolding sorted_set
analysis_payload include_goal i = record {
  question = i.question;
  hypothesis = i.hypothesis;
  rationale = i.rationale;
  goal_id = if include_goal then some i.goal_id else none;
  purpose = i.purpose;
  parent_evidence_ids = sorted_set i.parent_evidence_ids;
  task_id = i.task_id;
  execution_mode = i.execution_mode;
  reuse_evidence_ids = sorted_set i.reuse_evidence_ids;
  success_criterion = i.success_criterion;
  candidate_columns = sorted_set i.candidate_columns;
  required_columns = sorted_set i.required_columns;
  excluded_columns = sorted_set i.excluded_columns;
  desired_evidence = i.desired_evidence;
  constraints = i.constraints;
}

-- `dedupe_key` and `reuse_signature`; `digest` encodes the payload as JSON and hashes it.
unfoldable pub dedupe_key : (IntentPayload → String) → ResearchIntent → String
unfolding analysis_payload
dedupe_key digest i = digest (analysis_payload true i)

unfoldable pub reuse_signature : (IntentPayload → String) → ResearchIntent → String
unfolding analysis_payload
reuse_signature digest i = digest (analysis_payload false i)
