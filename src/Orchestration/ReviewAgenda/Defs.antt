-- ===== src/Orchestration/ReviewAgenda/Defs.antt =====
-- orchestration/nodes/review_agenda.py.
use analysis_loop.Prelude.{
  ℕ, String, Bool, false, not, ◌&&◌, ◌||◌, Option, none, some, List, [], ◌∷◌, ◌==◌, if◌then◌else◌,
  opt_eq, strip, join_split,
}
use analysis_loop.Prelude.Sets.{subset, meets, same_set}
use analysis_loop.Contracts.Planning.{ResearchIntent}
use analysis_loop.Contracts.Agenda.{
  AgendaTask, TaskKind, TaskStatus, is_follow_up, is_resolve, is_revalidate, is_completed,
}
use analysis_loop.Contracts.Evidence.{EvidenceRecord}
use analysis_loop.Contracts.Review.{CriticReview}
use analysis_loop.State.{State}
use analysis_loop.Orchestration.ReviewEvidence.{any_change, revalidation_changed_conditions}

-- The part of the process that the rules use: ids from `uuid4`, and `str.casefold`.
pub record Host : Type 0 where
  pub uuid : ℕ → String
  pub casefold : String → String

-- `item.task_id == intent.task_id`.
abbrev pub is_selected : ResearchIntent → AgendaTask → Bool
is_selected intent t = opt_eq (some t.task_id) intent.task_id

abbrev pub contradiction_resolved : CriticReview → AgendaTask → Bool
contradiction_resolved review t =
    is_resolve t.kind
    && (meets t.source_evidence_ids review.supersedes
        || subset t.source_evidence_ids review.reconciles)

-- The critic names every source as revalidated.
abbrev pub names_all_sources : CriticReview → AgendaTask → Bool
names_all_sources review t = subset t.source_evidence_ids review.revalidates

module _ (s : State) (intent : ResearchIntent) (review : CriticReview) (e : EvidenceRecord) where
  abbrev pub conditions_changed : AgendaTask → Bool
  conditions_changed t =
      any_change (revalidation_changed_conditions s.evidence t.source_evidence_ids e)

  abbrev pub revalidation_resolved : AgendaTask → Bool
  revalidation_resolved t =
      is_selected intent t
      && is_revalidate t.kind
      && names_all_sources review t
      && conditions_changed t

  abbrev pub should_complete : AgendaTask → Bool
  should_complete t =
      is_selected intent t && is_follow_up t.kind
      || contradiction_resolved review t
      || revalidation_resolved t

  -- Why a selected task goes back to the pending ones.
  release_reason : AgendaTask → String
  release_reason t =
      if is_resolve t.kind
      then "accepted evidence did not resolve contradiction"
      else if names_all_sources review t
      then "critic marked revalidation, but method/protocol/data/transform conditions did not change"
      else "accepted evidence did not explicitly revalidate source evidence"

  complete : AgendaTask → AgendaTask
  unfolding strip
  complete t = record t {
    status = TaskStatus.completed;
    selected_intent_id = some intent.intent_id;
    completion_evidence_id = some e.evidence_id;
    resolution_reason = strip review.claim;
  }

  release : AgendaTask → AgendaTask
  unfolding release_reason
  release t = record t {
    status = TaskStatus.pending;
    selected_intent_id = none;
    resolution_reason = release_reason t;
  }

  -- What the loop over the old tasks does to one of them.
  unfoldable pub judge : AgendaTask → AgendaTask
  unfolding complete release
  judge t =
      if should_complete t && not (is_completed t.status)
      then complete t
      else if is_selected intent t && (is_resolve t.kind || is_revalidate t.kind)
      then release t
      else t

  -- The id of the selected task, if it was completed: the last one in the agenda.
  unfoldable pub completed_task_id : List AgendaTask → Option String → Option String
  completed_task_id [] found = found
  completed_task_id (t ∷ ts) found = completed_task_id ts (
      if should_complete t && not (is_completed t.status) && is_selected intent t
      then some t.task_id
      else found)

abbrev pub is_unresolved : (TaskKind → Bool) → AgendaTask → Bool
is_unresolved kind t = not (is_completed t.status) && kind t.kind

module _ (host : Host) where
  open host use {uuid, casefold}

  unfoldable pub normalized : String → String
  unfolding join_split
  normalized text = casefold (join_split text)

  -- `(goal_id, normalized(question)) in unresolved_…`, over the tasks themselves.
  unfoldable pub asks_same : (TaskKind → Bool) → Option String → String → AgendaTask → Bool
  unfolding normalized
  asks_same kind goal question t =
      is_unresolved kind t && opt_eq t.goal_id goal && normalized t.question == normalized question

  -- `normalized(question) in requested_revalidations`.
  unfoldable pub is_requested : List String → String → Bool
  unfolding normalized strip
  is_requested [] question = false
  is_requested (raw ∷ rs) question =
      not (strip raw == "") && normalized raw == normalized question || is_requested rs question

-- `frozenset({a, b}) in unresolved_conflicts`, over the tasks themselves.
abbrev pub is_conflict : String → String → AgendaTask → Bool
is_conflict a b t = is_unresolved is_resolve t && same_set t.source_evidence_ids (a ∷ b ∷ [])
