-- ===== src/State/Conflicts/Distinct.antt =====
-- state.py: each pair that `unresolved_contradictions` lists has two different ends, if the relations
-- are valid.
use analysis_loop.Prelude.{
  String, ◌≡◌, Bool, true, false, not, ◌&&◌, List, [], ◌∷◌, ◌++◌, ◌==◌, All, All-append, eq_iff,
  arith, Bool-cases, inl, inr, if◌then◌else◌,
}
use analysis_loop.Prelude.Sets.{leb_str}
use analysis_loop.Contracts.Agenda.{EvidenceRelation}
use analysis_loop.State.Defs.{State}
use analysis_loop.State.Access.{superseded_evidence_ids}
use analysis_loop.State.Conflicts.{
  Groups, sorted_pair, has_pair, is_unresolved, add_unresolved, collect_unresolved,
  reconciles_by_source, unresolved_contradictions,
}

-- `_not_self_relation`.
abbrev pub HasTwoEnds : EvidenceRelation → Type 0
HasTwoEnds r = (r.source_evidence_id == r.target_evidence_id) ≡ false

abbrev pub AreDifferent : String × String → Type 0
AreDifferent (a, b) = (a == b) ≡ false

sorted_pair-AreDifferent : (a b : String) → (a == b) ≡ false → AreDifferent (sorted_pair a b)
sorted_pair-AreDifferent a b h = elim (Bool-cases (leb_str a b)) [
  | inl le ↦ rw le h
  | inr gt ↦ rw gt (ground (arith, eq_iff a b, eq_iff b a))
]

module _ (superseded : List String) (groups : Groups) where
  add_unresolved-AreDifferent :
      (found : List (String × String)) (r : EvidenceRelation)
      → HasTwoEnds r
      → All AreDifferent found
      → All AreDifferent (add_unresolved superseded groups found r)
  unfolding add_unresolved
  add_unresolved-AreDifferent found r h fs = choose (
      is_unresolved superseded groups r
      && not (
          has_pair found (sorted_pair r.source_evidence_id r.target_evidence_id).0
            (sorted_pair r.source_evidence_id r.target_evidence_id).1))
    where
      choose :
          (b : Bool)
          → All AreDifferent (
              if b
              then found ++ sorted_pair r.source_evidence_id r.target_evidence_id ∷ []
              else found)
      choose true =
          All-append AreDifferent found (sorted_pair r.source_evidence_id r.target_evidence_id ∷ [])
            fs (sorted_pair-AreDifferent r.source_evidence_id r.target_evidence_id h, tt)
      choose false = fs

  collect_unresolved-AreDifferent :
      (found : List (String × String)) (rs : List EvidenceRelation)
      → All HasTwoEnds rs
      → All AreDifferent found
      → All AreDifferent (collect_unresolved superseded groups found rs)
  unfolding collect_unresolved
  collect_unresolved-AreDifferent found [] h fs = fs
  collect_unresolved-AreDifferent found (r ∷ rs) h fs =
      collect_unresolved-AreDifferent (add_unresolved superseded groups found r) rs h.1
        (add_unresolved-AreDifferent found r h.0 fs)

pub unresolved-AreDifferent :
    (s : State)
    → All HasTwoEnds s.evidence_relations
    → All AreDifferent (unresolved_contradictions s)
unfolding unresolved_contradictions
unresolved-AreDifferent s h =
    collect_unresolved-AreDifferent (superseded_evidence_ids s)
      (reconciles_by_source [] s.evidence_relations) [] s.evidence_relations h tt
