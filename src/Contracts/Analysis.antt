-- ===== src/Contracts/Analysis.antt =====
-- contract_models/analysis.py: the manifest of generated code, the protocol and the data lineage.
use analysis_loop.Prelude.{
  ◌==◌, ℤ, pos, negsuc, Result, ok, ◌>>◌, raise_if, codes, length, say, ℕ, String, Bool, true,
  false, not, ◌&&◌, Option, none, some, List, [], ◌∷◌, ◌++◌, Result, ok, opt_eq, truthy, eqb,
  raise_if, ◌>>◌, lit, arg, strs, if◌then◌else◌, is_empty,
}
use analysis_loop.Prelude.Sets.{contains, sorted_set, unique}
use analysis_loop.Contracts.Base.{DescriptionItem, eq_descriptions}
use analysis_loop.Contracts.Data.{ArtifactRef, DatasetProfile}

pub data SchemaType : Type 0 where
  mapping list number string boolean : SchemaType

-- Fields of a literal type are kept as their texts.
pub record AnalysisProtocol : Type 0 where
  pub sampling_strategy : Option String
  pub exclusion_rules : List DescriptionItem
  pub comparison_groups : List DescriptionItem
  pub random_seed : Option ℤ
  pub repetitions : Option ℕ
  pub evaluation_strategy : Option String
  pub evaluation_design : Option String
  pub preprocessing_fit_scope : Option String
  pub temporal_order_preserved : Option Bool
  pub group_isolation_preserved : Option Bool
  pub uncertainty_method : Option String
  pub hypothesis_testing : Bool
  pub planned_comparisons : Option ℕ
  pub multiple_testing : Option String
  pub class_balance_strategy : Option String
  pub interpretation_scope : String

eq_number? : Option ℕ → Option ℕ → Bool
eq_number? none none = true
eq_number? (some a) (some b) = eqb a b
eq_number? _ _ = false

eq_seed : Option ℤ → Option ℤ → Bool
eq_seed none none = true
eq_seed (some (pos a)) (some (pos b)) = eqb a b
eq_seed (some (negsuc a)) (some (negsuc b)) = eqb a b
eq_seed _ _ = false

eq_bool : Bool → Bool → Bool
eq_bool true b = b
eq_bool false b = not b

eq_bool? : Option Bool → Option Bool → Bool
unfolding eq_bool
eq_bool? none none = true
eq_bool? (some a) (some b) = eq_bool a b
eq_bool? _ _ = false

-- `==` on two protocols: field by field.
unfoldable pub eq_protocol : AnalysisProtocol → AnalysisProtocol → Bool
unfolding eq_descriptions eq_number? eq_seed eq_bool eq_bool?
eq_protocol p q =
    opt_eq p.sampling_strategy q.sampling_strategy
    && eq_descriptions p.exclusion_rules q.exclusion_rules
    && eq_descriptions p.comparison_groups q.comparison_groups
    && eq_seed p.random_seed q.random_seed
    && eq_number? p.repetitions q.repetitions
    && opt_eq p.evaluation_strategy q.evaluation_strategy
    && opt_eq p.evaluation_design q.evaluation_design
    && opt_eq p.preprocessing_fit_scope q.preprocessing_fit_scope
    && eq_bool? p.temporal_order_preserved q.temporal_order_preserved
    && eq_bool? p.group_isolation_preserved q.group_isolation_preserved
    && opt_eq p.uncertainty_method q.uncertainty_method
    && eq_bool p.hypothesis_testing q.hypothesis_testing
    && eq_number? p.planned_comparisons q.planned_comparisons
    && opt_eq p.multiple_testing q.multiple_testing
    && opt_eq p.class_balance_strategy q.class_balance_strategy
    && opt_eq (some p.interpretation_scope) (some q.interpretation_scope)

-- `GeneratedAnalysis` without its code, as the state keeps it.
pub record Manifest : Type 0 where
  pub intent_id : String
  pub selected_columns : List String
  pub method : String
  pub method_reason : String
  pub assumptions : List String
  pub target : Option String
  pub feature_columns : List String
  pub adjustment_columns : List String
  pub time_column : Option String
  pub split_unit_columns : List String
  pub prediction_task : Option String
  pub group_by : List String
  pub derived_columns : List String
  pub transformations : List DescriptionItem
  pub split_strategy : Option String
  pub protocol : AnalysisProtocol
  pub is_model_metric : Bool
  pub expected_outputs : List String
  pub expected_figures : List String
  pub expected_output_schema : List (String × SchemaType)

pub record GeneratedAnalysis : Type 0 where
  pub manifest : Manifest
  pub open manifest use *
  pub code : String

-- The roles that hold the target, in the order in which they are named.
leaked : String → Manifest → List String
leaked t m =
    (if contains m.feature_columns t then "feature_columns" ∷ [] else [])
    ++ (if contains m.adjustment_columns t then "adjustment_columns" ∷ [] else [])

-- `_target_is_not_a_feature`.
unfoldable pub validate_manifest : Manifest → Result Manifest
unfolding leaked
validate_manifest m = elim m.target [
  | none ↦ ok m
  | some t ↦ do
    raise_if (truthy (some t) && not (is_empty (leaked t m)))
        (lit "target '" ∷ arg t ∷ lit "'이 " ∷ strs (leaked t m) ∷ lit "에 들어 있다" ∷ [])
    ok m
]

abbrev pub available_columns : Manifest → List String → List String
available_columns m source = source ++ m.derived_columns

unfoldable pub predictor_columns : Manifest → List String
unfolding unique
predictor_columns m = unique (m.feature_columns ++ m.adjustment_columns)

abbrev pub is_predictive : Manifest → Bool
is_predictive m = m.is_model_metric && truthy m.target

pub record DataLineage : Type 0 where
  pub dataset_artifact_id : String
  pub dataset_sha256 : String
  pub schema_fingerprint : String
  pub source_rows : ℕ
  pub transform_signature : String

-- The lengths of the fields.
unfoldable pub validate_lineage : DataLineage → Result DataLineage
validate_lineage l = do
  raise_if (l.dataset_artifact_id == "") (say "dataset_artifact_id")
  raise_if (not (eqb (length (codes l.dataset_sha256)) 64)) (say "dataset_sha256")
  raise_if (l.schema_fingerprint == "") (say "schema_fingerprint")
  raise_if (not (eqb (length (codes l.transform_signature)) 64)) (say "transform_signature")
  ok l

-- What `transform_signature` is the hash of.
pub record TransformPayload : Type 0 where
  pub selected : List String
  pub derived : List String
  pub transformations : List DescriptionItem
  pub sampling_strategy : Option String
  pub exclusion_rules : List DescriptionItem

unfoldable pub transform_payload : Manifest → TransformPayload
unfolding sorted_set
transform_payload m = record {
  selected = sorted_set m.selected_columns;
  derived = sorted_set m.derived_columns;
  transformations = m.transformations;
  sampling_strategy = m.protocol.sampling_strategy;
  exclusion_rules = m.protocol.exclusion_rules;
}

-- `DataLineage.from_analysis`; `digest` encodes the payload as JSON and hashes it.
unfoldable pub from_analysis :
    (TransformPayload → String) → ArtifactRef → DatasetProfile → Manifest → Result DataLineage
unfolding transform_payload validate_lineage
from_analysis digest dataset profile m = validate_lineage (record {
  dataset_artifact_id = dataset.artifact_id;
  dataset_sha256 = dataset.sha256;
  schema_fingerprint = profile.schema_fingerprint;
  source_rows = profile.row_count;
  transform_signature = digest (transform_payload m);
})
