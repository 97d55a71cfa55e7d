-- ===== src/State/Conflicts/Spec.antt =====
-- state.py: what an unresolved contradiction is, from the relations alone.
use analysis_loop.Prelude.{String, Bool, ◌&&◌, List, [], ◌∷◌, ◌==◌, any}
use analysis_loop.Contracts.Agenda.{EvidenceRelation, eq_kind, contradicts, reconciles, supersedes}
use analysis_loop.State.Conflicts.{sorted_pair, has_pair}

abbrev pub Relations : Type 0
Relations = List EvidenceRelation

-- Some relation supersedes `a`.
abbrev pub superseded_by : Relations → String → Bool
superseded_by rs a = any (λ r. eq_kind r.kind supersedes && r.target_evidence_id == a) rs

-- The evidence `k` reconciles `a`.
abbrev pub reconciles_to : Relations → String → String → Bool
reconciles_to rs k a =
    any (λ r. eq_kind r.kind reconciles && (r.source_evidence_id == k && r.target_evidence_id == a))
      rs

-- One evidence reconciles both.
abbrev pub reconciles_both : Relations → String → String → Bool
reconciles_both rs a b =
    any (λ q. reconciles_to rs q.source_evidence_id a && reconciles_to rs q.source_evidence_id b) rs

-- Some relation says that the two contradict one another, whichever is its source.
abbrev pub contradicts_between : Relations → String → String → Bool
contradicts_between rs a b =
    any
      (λ r.
        eq_kind r.kind contradicts
        && has_pair (sorted_pair r.source_evidence_id r.target_evidence_id ∷ []) a b)
      rs
