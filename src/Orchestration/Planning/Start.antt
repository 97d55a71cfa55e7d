-- ===== src/Orchestration/Planning/Start.antt =====
-- orchestration/nodes/planning.py: the first two nodes of a run.
use analysis_loop.Prelude.{
  not, Option, none, some, List, [], ◌∷◌, map, is_empty, Result, ok, ◌>>=◌, require, if◌then◌else◌,
}
use analysis_loop.Contracts.Data.{ArtifactRef, ColumnProfile, DatasetProfile}
use analysis_loop.Contracts.Planning.{SubGoal}
use analysis_loop.Contracts.Runtime.{ServiceResult}
use analysis_loop.State.{State, Assign, Update}

abbrev without_samples : ColumnProfile → ColumnProfile
without_samples c = record c { sample_values = [] }

-- The profile that the state keeps.
unfoldable pub compact : DatasetProfile → DatasetProfile
compact p = record p { columns = map without_samples p.columns }

-- `profile_of` loads and profiles the dataset, or raises (data/profiling.py), and `store` puts the whole profile into the artifacts.
unfoldable pub profile_data :
    (ArtifactRef → Result DatasetProfile) → (DatasetProfile → ArtifactRef) → State → Result Update
unfolding compact
profile_data profile_of store s = do
  dataset ← require s.dataset_ref
  profile ← profile_of dataset
  ok (Assign.profile (some (compact profile)) ∷ Assign.profile_ref (some (store profile)) ∷ [])

goals_update : Option (List SubGoal) → Update
goals_update none = []
goals_update (some goals) = if is_empty goals then [] else Assign.sub_goals goals ∷ []

answer_goals : Option (ServiceResult (List SubGoal)) → Update
unfolding goals_update
answer_goals none = []
answer_goals (some result) = goals_update result.value

-- Goals are made once in a run; none of them leaves the state as it is.
unfoldable pub decompose_objective : Option (ServiceResult (List SubGoal)) → State → Result Update
unfolding answer_goals
decompose_objective planner s =
    if not (is_empty s.sub_goals)
    then ok []
    else (do profile ← require s.profile; ok (answer_goals planner))
