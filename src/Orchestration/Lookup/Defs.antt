-- ===== src/Orchestration/Lookup/Defs.antt =====
-- orchestration/nodes/evidence_lookup.py: the lookup of old evidence by its keys.
use analysis_loop.Prelude.{
  ℕ, ◌+◌, ◌*◌, suc, String, Bool, true, false, not, ◌&&◌, ◌||◌, none, List, [], ◌∷◌, map, filter,
  any, take, opt_eq, truthy, ltb, eqb, Result, ok, ◌>>=◌, ◌>>◌, require, assert, if◌then◌else◌,
  ◌==◌, count,
}
use analysis_loop.Prelude.Sets.{contains, unique, sorted_set}
use analysis_loop.Contracts.Base.{DataApplicability, incompatible_schema, is_exact}
use analysis_loop.Contracts.Planning.{ResearchIntent, ExecutionMode}
use analysis_loop.Contracts.Agenda.{EvidenceRelation}
use analysis_loop.Contracts.Evidence.{EvidenceRecord, from_evidence}
use analysis_loop.State.{State, Assign, Update, active_evidence, evidence_data_applicability}

abbrev pub lookup_limit : ℕ
lookup_limit = 8

abbrev pub is_incompatible : DataApplicability → Bool
is_incompatible incompatible_schema = true
is_incompatible _ = false

-- What the lookup ranks: active evidence whose schema can be compared.
unfoldable pub comparable : State → List EvidenceRecord
comparable s =
    filter (λ e. not (is_incompatible (evidence_data_applicability s e))) (active_evidence s)

-- `relation_neighbors`.
is_neighbor : List EvidenceRelation → List String → String → Bool
is_neighbor relations parents id =
    any
      (λ r.
        contains parents r.source_evidence_id && r.target_evidence_id == id
        || contains parents r.target_evidence_id && r.source_evidence_id == id)
      relations

abbrev when : Bool → ℕ → ℕ
when b n = if b then n else 0

-- `len(requested_columns.intersection(columns_used))`.
abbrev shared_columns : List String → List String → ℕ
shared_columns requested used = count (contains used) (unique requested)

unfoldable pub score : State → ResearchIntent → EvidenceRecord → ℕ
unfolding is_neighbor unique
score s intent e =
    (if is_exact (evidence_data_applicability s e) then 30 else 10)
    + when (contains intent.parent_evidence_ids e.evidence_id) 100
    + when (is_neighbor s.evidence_relations intent.parent_evidence_ids e.evidence_id) 80
    + when (truthy intent.goal_id && opt_eq e.goal_id intent.goal_id) 40
    + 10 * shared_columns intent.candidate_columns e.columns_used

-- `(score, index, item)`.
pub record Row : Type 0 where
  pub points : ℕ
  pub index : ℕ
  pub item : EvidenceRecord

unfoldable pub rank : State → ResearchIntent → ℕ → List EvidenceRecord → List Row
unfolding score
rank s intent n [] = []
rank s intent n (e ∷ es) =
    record { points = score s intent e; index = n; item = e } ∷ rank s intent (suc n) es

-- Greater as `(score, index)`.
abbrev pub above : Row → Row → Bool
above a b = ltb b.points a.points || eqb a.points b.points && ltb b.index a.index

unfoldable pub insert_row : Row → List Row → List Row
insert_row a [] = a ∷ []
insert_row a (r ∷ rs) = if above a r then a ∷ r ∷ rs else r ∷ insert_row a rs

-- `ranked.sort(reverse=True)`, the indices being distinct.
unfoldable pub sort_rows : List Row → List Row
unfolding insert_row
sort_rows [] = []
sort_rows (r ∷ rs) = insert_row r (sort_rows rs)

unfoldable pub ranked : State → ResearchIntent → List Row
unfolding comparable rank sort_rows
ranked s intent = sort_rows (rank s intent 0 (comparable s))

-- Every score is positive, so that all comparable evidence is ranked.
unfoldable pub selected : State → ResearchIntent → List EvidenceRecord
unfolding ranked
selected s intent = map (λ r. r.item) (take lookup_limit (ranked s intent))

abbrev is_lookup : ExecutionMode → Bool
is_lookup ExecutionMode.lookup_evidence = true
is_lookup _ = false

unfoldable pub lookup_evidence : State → Result Update
unfolding selected from_evidence sorted_set
lookup_evidence s = do
  intent ← require s.intent
  assert (is_lookup intent.execution_mode)
  let found = selected s intent
  ok (
      Assign.evidence_lookup_summary
        (map (λ e. from_evidence (evidence_data_applicability s e) e) found)
      ∷ Assign.evidence_lookup_history (
          record {
            intent_id = intent.intent_id;
            goal_id = intent.goal_id;
            columns = sorted_set intent.candidate_columns;
            parents = sorted_set intent.parent_evidence_ids;
            selected_evidence_ids = map (λ e. e.evidence_id) found;
          }
          ∷ [])
      ∷ Assign.intent none
      ∷ [])
