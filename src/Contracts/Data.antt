-- ===== src/Contracts/Data.antt =====
-- contract_models/data.py: artifact references and dataset profiles.
use analysis_loop.Prelude.{ℕ, String, List, map, Result, ok, ltb, raise_if, ◌>>◌, say}
use analysis_loop.Json.{Fields, size_fields}

pub data ArtifactKind : Type 0 where
  dataset profile program result report figure inspection : ArtifactKind

-- The bytes are in the artifact store; the state holds this reference.
pub record ArtifactRef : Type 0 where
  pub artifact_id : String
  pub kind : ArtifactKind
  pub path : String
  pub sha256 : String
  pub size_bytes : ℕ
  pub summary : Fields

-- `_summary_must_stay_small`.
unfoldable pub validate_ref : ArtifactRef → Result ArtifactRef
unfolding size_fields
validate_ref ref = do
  raise_if (ltb 20 (size_fields ref.summary)) (say "ArtifactRef.summary는 최대 20개 키다")
  ok ref

pub record ColumnProfile : Type 0 where
  pub name : String
  pub dtype : String
  pub non_null : ℕ
  pub null_count : ℕ
  pub unique_count : ℕ
  pub sample_values : List String

pub record DatasetProfile : Type 0 where
  pub dataset_id : String
  pub row_count : ℕ
  pub columns : List ColumnProfile
  pub schema_fingerprint : String

abbrev pub column_names : DatasetProfile → List String
column_names p = map (λ c. c.name) p.columns

abbrev pub analyzable_columns : DatasetProfile → List String
analyzable_columns p = column_names p
