-- ===== src/Orchestration/ReviewEvidence/Defs.antt =====
-- orchestration/nodes/review_evidence.py.
use analysis_loop.Prelude.{
  Result, ok, ◌>>=◌, ℕ, ◌+◌, String, Bool, false, not, ◌&&◌, ◌||◌, Option, none, some, List, [],
  ◌∷◌, ◌++◌, map, ◌==◌, if◌then◌else◌, find_first, is_empty, opt_eq, truthy, strip, ◌<>◌,
}
use analysis_loop.Prelude.Sets.{minus, unique}
use analysis_loop.Contracts.Data.{ArtifactRef, DatasetProfile}
use analysis_loop.Contracts.Analysis.{
  GeneratedAnalysis, TransformPayload, from_analysis, eq_protocol,
}
use analysis_loop.Contracts.Planning.{SubGoal, ResearchIntent}
use analysis_loop.Contracts.Agenda.{
  AgendaTask, EvidenceRelation, RelationKind, eq_kind, is_revalidate, derived_from, contradicts,
  revalidates, supersedes, reconciles,
}
use analysis_loop.Contracts.Evidence.{EvidenceRecord}
use analysis_loop.Contracts.Review.{CriticReview}
use analysis_loop.State.{State, ErrorRecord}

-- `f"[검증 경고:{code}] {message}"`.
abbrev warning_caveat : ErrorRecord → String
warning_caveat e = "[검증 경고:" <> e.code <> "] " <> e.message

abbrev figures_or_none : Option (List ArtifactRef) → List ArtifactRef
figures_or_none none = []
figures_or_none (some refs) = refs

-- `build_evidence`; `digest` hashes the transform payload, and `evidence_id` comes from `uuid4`.
unfoldable pub build_evidence :
    (TransformPayload → String)
    → String
    → State
    → ResearchIntent
    → CriticReview
    → GeneratedAnalysis
    → ArtifactRef
    → Option ArtifactRef
    → ArtifactRef
    → DatasetProfile
    → Result EvidenceRecord
unfolding strip unique
build_evidence digest evidence_id s intent review generated result program dataset profile = do
  lineage ← from_analysis digest dataset profile generated.manifest
  ok (record {
    evidence_id = evidence_id;
    intent_id = intent.intent_id;
    question = intent.question;
    claim = strip review.claim;
    result_ref = result;
    program_ref = program;
    figure_refs = figures_or_none s.figure_refs;
    method = generated.method;
    protocol = generated.protocol;
    data_lineage = lineage;
    columns_used = generated.selected_columns;
    caveats = unique (review.caveats ++ map warning_caveat s.validation_warnings);
    effect_summary = review.effect_summary;
    uncertainty_summary = review.uncertainty_summary;
    uncertainty_source_paths = review.uncertainty_source_paths;
    confidence = review.confidence;
    open_questions = review.open_questions;
    contradicts = review.contradicts;
    purpose = intent.purpose;
    goal_id = intent.goal_id;
    parent_evidence_ids = intent.parent_evidence_ids;
  })

abbrev link_goal : String → String → SubGoal → SubGoal
link_goal goal_id evidence_id g =
    if g.goal_id == goal_id
    then record g { evidence_ids = g.evidence_ids ++ evidence_id ∷ [] }
    else g

-- None when there are no goals.
unfoldable pub goals_with_evidence : State → String → String → Option (List SubGoal)
goals_with_evidence s goal_id evidence_id =
    if is_empty s.sub_goals then none else some (map (link_goal goal_id evidence_id) s.sub_goals)

-- `by_id.get(id)`: the last record with the id.
unfoldable pub by_id : List EvidenceRecord → String → Option EvidenceRecord → Option EvidenceRecord
by_id [] id found = found
by_id (e ∷ es) id found = by_id es id (if e.evidence_id == id then some e else found)

-- Which conditions of a run differ between two records.
pub record Changes : Type 0 where
  pub dataset : Bool
  pub method : Bool
  pub protocol : Bool
  pub transform : Bool

abbrev pub no_changes : Changes
no_changes = record { dataset = false; method = false; protocol = false; transform = false }

abbrev pub any_change : Changes → Bool
any_change c = c.dataset || c.method || c.protocol || c.transform

differences : EvidenceRecord → EvidenceRecord → Changes
unfolding eq_protocol
differences source e = record {
  dataset = not (source.data_lineage.dataset_sha256 == e.data_lineage.dataset_sha256);
  method = not (source.method == e.method);
  protocol = not (eq_protocol source.protocol e.protocol);
  transform = not (source.data_lineage.transform_signature == e.data_lineage.transform_signature);
}

abbrev join_changes : Changes → Changes → Changes
join_changes a b = record {
  dataset = a.dataset || b.dataset;
  method = a.method || b.method;
  protocol = a.protocol || b.protocol;
  transform = a.transform || b.transform;
}

source_changes : Option EvidenceRecord → EvidenceRecord → Changes
unfolding differences
source_changes none e = no_changes
source_changes (some source) e = differences source e

-- `revalidation_changed_conditions`, as the set of the four names; unknown sources are skipped.
unfoldable pub revalidation_changed_conditions :
    List EvidenceRecord → List String → EvidenceRecord → Changes
unfolding by_id source_changes
revalidation_changed_conditions evidence [] e = no_changes
revalidation_changed_conditions evidence (id ∷ ids) e =
    join_changes (source_changes (by_id evidence id none) e)
      (revalidation_changed_conditions evidence ids e)

-- The task of the intent, `None` when the intent names none.
unfoldable pub intent_task : List AgendaTask → Option String → Option AgendaTask
intent_task agenda id =
    if truthy id then find_first (λ t. opt_eq (some t.task_id) id) agenda else none

-- The sources of a revalidation task under the same conditions may not be called revalidated.
unfoldable pub withheld : State → Option AgendaTask → EvidenceRecord → List String
unfolding revalidation_changed_conditions
withheld s none e = []
withheld s (some t) e =
    if is_revalidate t.kind
      && not (any_change (revalidation_changed_conditions s.evidence t.source_evidence_ids e))
    then t.source_evidence_ids
    else []

-- `allowed_revalidates`; the order of a Python set is not specified, here it is that of the review.
unfoldable pub allowed_revalidates :
    State → ResearchIntent → CriticReview → EvidenceRecord → List String
unfolding intent_task withheld unique
allowed_revalidates s intent review e =
    minus (unique review.revalidates) (withheld s (intent_task s.agenda intent.task_id) e)

abbrev pub with_kind : RelationKind → List String → List (RelationKind × String)
with_kind k targets = map (λ t. (k, t)) targets

unfoldable pub relation_candidates :
    State → ResearchIntent → CriticReview → EvidenceRecord → List (RelationKind × String)
unfolding allowed_revalidates
relation_candidates s intent review e =
    with_kind derived_from intent.parent_evidence_ids
    ++ (with_kind contradicts review.contradicts
        ++ (with_kind revalidates (allowed_revalidates s intent review e)
            ++ (with_kind supersedes review.supersedes ++ with_kind reconciles review.reconciles)))

-- `(source, target, kind) in existing`.
abbrev pub has_relation : List EvidenceRelation → String → String → RelationKind → Bool
has_relation [] source target kind = false
has_relation (r ∷ rs) source target kind =
    (r.source_evidence_id == source && r.target_evidence_id == target && eq_kind r.kind kind)
    || has_relation rs source target kind

abbrev pub new_relation : String → String → String → RelationKind → EvidenceRelation
new_relation id source target kind = record {
  relation_id = id;
  source_evidence_id = source;
  target_evidence_id = target;
  kind = kind;
  note = "";
}

-- The loop over the candidates: `existing` grows by what is created; `uuid n` is the n-th id drawn.
unfoldable pub create_relations :
    (ℕ → String)
    → ℕ
    → String
    → List EvidenceRelation
    → List (RelationKind × String)
    → List EvidenceRelation
create_relations uuid n source existing [] = []
create_relations uuid n source existing ((kind, target) ∷ cs) =
    let made = new_relation (uuid n) source target kind in
    let skip = create_relations uuid n source existing cs in
    let rest = create_relations uuid (n + 1) source (made ∷ existing) cs in
    if target == source || has_relation existing source target kind then skip else made ∷ rest

unfoldable pub relations_after_commit :
    (ℕ → String)
    → ℕ
    → State
    → ResearchIntent
    → CriticReview
    → EvidenceRecord
    → List EvidenceRelation
unfolding create_relations relation_candidates
relations_after_commit uuid n s intent review e =
    create_relations uuid n e.evidence_id s.evidence_relations
      (relation_candidates s intent review e)
