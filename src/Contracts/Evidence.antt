-- ===== src/Contracts/Evidence.antt =====
-- contract_models/evidence.py: evidence records, their digests, coverage and rejected attempts.
use analysis_loop.Prelude.{
  ℕ, suc, String, Bool, true, false, not, ◌||◌, Option, some, List, [], ◌∷◌, ◌==◌, filter, is_empty,
  if◌then◌else◌, eqb, Message,
}
use analysis_loop.Json.{Json, Float}
use analysis_loop.Contracts.Base.{DataApplicability}
use analysis_loop.Contracts.Data.{ArtifactRef, DatasetProfile, analyzable_columns}
use analysis_loop.Contracts.Analysis.{AnalysisProtocol, DataLineage}
use analysis_loop.Contracts.Planning.{IntentPurpose}

-- `ResultPath`: a key of a dict or an index of a list.
pub data PathPart : Type 0 where
  key : String → PathPart
  index : ℕ → PathPart
  negative_index : ℕ → PathPart

abbrev pub ResultPath : Type 0
ResultPath = List PathPart

pub record EffectEstimate : Type 0 where
  pub column : String
  pub metric : String
  pub value : Float
  pub directional : Bool
  pub unit : Option String
  pub source_path : Option ResultPath

pub data Confidence : Type 0 where
  high medium low unreviewed : Confidence

pub record EvidenceRecord : Type 0 where
  pub evidence_id : String
  pub intent_id : String
  pub question : String
  pub claim : String
  pub result_ref : ArtifactRef
  pub program_ref : Option ArtifactRef
  pub figure_refs : List ArtifactRef
  pub method : String
  pub protocol : AnalysisProtocol
  pub data_lineage : DataLineage
  pub columns_used : List String
  pub caveats : List String
  pub effect_summary : List EffectEstimate
  pub uncertainty_summary : List (String × Json)
  pub uncertainty_source_paths : List (String × ResultPath)
  pub confidence : Confidence
  pub open_questions : List String
  pub contradicts : List String
  pub purpose : IntentPurpose
  pub goal_id : Option String
  pub parent_evidence_ids : List String

pub record FindingDigest : Type 0 where
  pub evidence_id : String
  pub question : String
  pub claim : String
  pub purpose : IntentPurpose
  pub protocol : AnalysisProtocol
  pub dataset_sha256 : Option String
  pub transform_signature : Option String
  pub data_applicability : DataApplicability
  pub effect_summary : List EffectEstimate
  pub uncertainty_summary : List (String × Json)
  pub confidence : Confidence
  pub caveats : List String
  pub open_questions : List String
  pub contradicts : List String

unfoldable pub from_evidence : DataApplicability → EvidenceRecord → FindingDigest
from_evidence applicability e = record {
  evidence_id = e.evidence_id;
  question = e.question;
  claim = e.claim;
  purpose = e.purpose;
  protocol = e.protocol;
  dataset_sha256 = some e.data_lineage.dataset_sha256;
  transform_signature = some e.data_lineage.transform_signature;
  data_applicability = applicability;
  effect_summary = e.effect_summary;
  uncertainty_summary = e.uncertainty_summary;
  confidence = e.confidence;
  caveats = e.caveats;
  open_questions = e.open_questions;
  contradicts = e.contradicts;
}

abbrev pub is_low : Confidence → Bool
is_low low = true
is_low _ = false

abbrev pub is_unreviewed : Confidence → Bool
is_unreviewed unreviewed = true
is_unreviewed _ = false

abbrev pub needs_follow_up : FindingDigest → Bool
needs_follow_up f =
    is_low f.confidence
    || is_unreviewed f.confidence
    || not (is_empty f.open_questions)
    || not (is_empty f.contradicts)

pub data Stage : Type 0 where
  code result manifest critic : Stage

pub record RejectedAttempt : Type 0 where
  pub intent_id : String
  pub dedupe_key : String
  pub stage : Stage
  pub reasons : List Message
  pub goal_id : Option String
  pub question : String

pub record AnalysisCoverage : Type 0 where
  pub column_usage : List (String × ℕ)
  pub tested_dedupe_keys : List String

-- `column_usage.get(name, 0)`.
unfoldable pub usage : String → List (String × ℕ) → ℕ
usage name [] = 0
usage name ((k, n) ∷ u) = if k == name then n else usage name u

-- `column_usage[name] = column_usage.get(name, 0) + 1`.
unfoldable pub use_column : String → List (String × ℕ) → List (String × ℕ)
use_column name [] = (name, 1) ∷ []
use_column name ((k, n) ∷ u) = if k == name then (k, suc n) ∷ u else (k, n) ∷ use_column name u

use_columns : List (String × ℕ) → List String → List (String × ℕ)
unfolding use_column
use_columns u [] = u
use_columns u (name ∷ names) = use_columns (use_column name u) names

unfoldable pub with_record : AnalysisCoverage → List String → AnalysisCoverage
unfolding use_columns
with_record c columns = record c { column_usage = use_columns c.column_usage columns }

unfoldable pub unexplored : AnalysisCoverage → DatasetProfile → List String
unfolding usage
unexplored c profile =
    filter (λ name. eqb (usage name c.column_usage) 0) (analyzable_columns profile)
