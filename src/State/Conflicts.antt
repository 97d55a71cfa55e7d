-- ===== src/State/Conflicts.antt =====
-- state.py: `unresolved_contradictions`, the pairs of evidence whose contradiction is open.
pub mod Spec
pub mod Groups
pub mod Exact
pub mod Distinct
use analysis_loop.Prelude.{
  String, Bool, true, false, not, ◌&&◌, ◌||◌, List, [], ◌∷◌, ◌++◌, ◌==◌, if◌then◌else◌, any,
}
use analysis_loop.Prelude.Sets.{contains, leb_str}
use analysis_loop.Contracts.Agenda.{EvidenceRelation, eq_kind, contradicts, reconciles}
use analysis_loop.State.Defs.{State}
use analysis_loop.State.Access.{superseded_evidence_ids}

abbrev pub Groups : Type 0
Groups = List (String × List String)

-- `groups.setdefault(source, set()).add(target)`.
pub add_target : String → String → Groups → Groups
add_target source target [] = (source, target ∷ []) ∷ []
add_target source target ((k, ts) ∷ g) =
    if k == source then (k, target ∷ ts) ∷ g else (k, ts) ∷ add_target source target g

-- `reconciles_by_source`.
pub reconciles_by_source : Groups → List EvidenceRelation → Groups
reconciles_by_source g [] = g
reconciles_by_source g (r ∷ rs) =
    reconciles_by_source
      (if eq_kind r.kind reconciles
        then add_target r.source_evidence_id r.target_evidence_id g
        else g)
      rs

-- `any(pair <= targets for targets in reconciles_by_source.values())`.
abbrev is_reconciled : Groups → String → String → Bool
is_reconciled g a b = any (λ (k, ts). contains ts a && contains ts b) g

-- `tuple(sorted(pair))`; a relation's two ends differ.
abbrev pub sorted_pair : String → String → String × String
sorted_pair a b = if leb_str a b then (a, b) else (b, a)

abbrev pub has_pair : List (String × String) → String → String → Bool
has_pair [] a b = false
has_pair ((c, d) ∷ ps) a b = (c == a && d == b) || has_pair ps a b

module _ (superseded : List String) (groups : Groups) where
  -- The contradiction of one relation is open: neither end is superseded, and nothing reconciles both.
  is_unresolved : EvidenceRelation → Bool
  is_unresolved r =
      eq_kind r.kind contradicts
      && not (contains superseded r.source_evidence_id || contains superseded r.target_evidence_id)
      && not (is_reconciled groups r.source_evidence_id r.target_evidence_id)

  add_unresolved : List (String × String) → EvidenceRelation → List (String × String)
  unfolding is_unresolved
  add_unresolved found r =
      let (a, b) = sorted_pair r.source_evidence_id r.target_evidence_id in
      if is_unresolved r && not (has_pair found a b) then found ++ (a, b) ∷ [] else found

  collect_unresolved : List (String × String) → List EvidenceRelation → List (String × String)
  unfolding add_unresolved
  collect_unresolved found [] = found
  collect_unresolved found (r ∷ rs) = collect_unresolved (add_unresolved found r) rs

unfoldable pub unresolved_contradictions : State → List (String × String)
unfolding superseded_evidence_ids reconciles_by_source add_target collect_unresolved
unresolved_contradictions s =
    collect_unresolved (superseded_evidence_ids s) (reconciles_by_source [] s.evidence_relations) []
      s.evidence_relations
