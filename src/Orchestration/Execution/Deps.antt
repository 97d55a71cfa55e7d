-- ===== src/Orchestration/Execution/Deps.antt =====
-- runtime.py and runtime_protocols.py: what the nodes of the subgraph call, as functions. A node takes
-- the answers of its own time; the event log is left out.
use analysis_loop.Prelude.{
  ℕ, Message, String, Bool, Option, none, some, List, Result, ok, err, ◌>>=◌, ◌>>◌, require,
  raise_if, say, value_error, ◌==◌, ◌||◌, is_empty,
}
use analysis_loop.Json.{Json}
use analysis_loop.Contracts.Data.{ArtifactRef, DatasetProfile}
use analysis_loop.Contracts.Analysis.{
  Manifest, GeneratedAnalysis, TransformPayload, validate_manifest,
}
use analysis_loop.Contracts.Planning.{ResearchIntent, IntentPayload}
use analysis_loop.Contracts.Evidence.{FindingDigest}
use analysis_loop.Contracts.Review.{CriticReview}
use analysis_loop.Contracts.Runtime.{ServiceResult}
use analysis_loop.Validation.Program.Tree.{Parsed}
use analysis_loop.State.{State, ErrorRecord}
use analysis_loop.Orchestration.ReviewAgenda.{Host}

-- A program that the artifact store has for a schema and an intent.
pub record CachedProgram : Type 0 where
  pub code_ref : ArtifactRef
  pub manifest : Manifest

-- What a run of the sandbox leaves. `tail` holds the last lines of its standard error, and the
-- references stand for the files of its working directory in the artifact store.
pub record SandboxResult : Type 0 where
  pub refused_reason : Option String
  pub ok : Bool
  pub tail : String
  pub figure_refs : List ArtifactRef
  pub result_ref : Option ArtifactRef

pub record Deps : Type 0 where
  pub host : Host
  pub intent_digest : IntentPayload → String
  pub transform_digest : TransformPayload → String
  pub evidence_id : String
  pub load_validated_program : String → String → Option CachedProgram
  pub codegen :
      Option (ResearchIntent → DatasetProfile → List String → ServiceResult GeneratedAnalysis)
  pub put_program : GeneratedAnalysis → ArtifactRef
  pub read_text : ArtifactRef → Result String
  pub read_json : ArtifactRef → Result Json
  -- how an f-string is printed
  pub print : Message → String
  -- `ast.parse`
  pub parse : String → Parsed
  -- the bytes of json.dumps
  pub encoded_size : Json → ℕ
  pub sandbox : String → ArtifactRef → SandboxResult
  pub critic : Option (
      ResearchIntent
      → GeneratedAnalysis
      → Json
      → List FindingDigest
      → List ErrorRecord
      → ServiceResult CriticReview)

-- No manifest is the empty dict, which is not valid.
manifest_or_empty : Option Manifest → Result Manifest
manifest_or_empty none = err (value_error (say "GeneratedAnalysis"))
manifest_or_empty (some m) = ok m

-- `_load_generated`: the stored code with the manifest of the state, validated.
unfoldable pub load_generated : Deps → State → Result GeneratedAnalysis
unfolding validate_manifest manifest_or_empty
load_generated deps s = do
  ref ← require s.program_ref
  code ← deps.read_text ref
  m ← manifest_or_empty s.manifest
  raise_if (is_empty m.selected_columns || m.method == "" || code == "") (say "GeneratedAnalysis")
  checked ← validate_manifest m
  ok (record { manifest = checked; code = code })
