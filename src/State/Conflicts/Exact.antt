-- ===== src/State/Conflicts/Exact.antt =====
-- state.py: `unresolved_contradictions` against a description by the relations alone.
use analysis_loop.Prelude.{
  String, ◌≡◌, refl, Bool, true, false, not, ◌&&◌, ◌||◌, List, [], ◌∷◌, ◌++◌, if◌then◌else◌, any,
  map, filter, eq_iff, arith, Bool-cases, inl, inr, ◌⊎◌,
}
use analysis_loop.Prelude.Sets.{contains, leb_str}
use analysis_loop.Contracts.Agenda.{EvidenceRelation, eq_kind, contradicts, supersedes}
use analysis_loop.State.Defs.{State}
use analysis_loop.State.Conflicts.{
  Groups, reconciles_by_source, is_reconciled, sorted_pair, has_pair, is_unresolved, add_unresolved,
  collect_unresolved, unresolved_contradictions,
}
use analysis_loop.State.Conflicts.Spec.{
  Relations, superseded_by, reconciles_both, contradicts_between,
}
use analysis_loop.State.Conflicts.Groups.{is_reconciled-eq}

superseded-eq :
    (rs : Relations) (a : String)
    → contains (map (λ r. r.target_evidence_id) (filter (λ r. eq_kind r.kind supersedes) rs)) a
      ≡ superseded_by rs a
superseded-eq [] a = refl
superseded-eq (r ∷ rs) a = ground (arith, superseded-eq rs a)

abbrev matches : EvidenceRelation → String → String → Bool
matches r a b = has_pair (sorted_pair r.source_evidence_id r.target_evidence_id ∷ []) a b

has_pair-append :
    (ps qs : List (String × String)) (a b : String)
    → has_pair (ps ++ qs) a b ≡ (has_pair ps a b || has_pair qs a b)
has_pair-append [] qs a b = refl
has_pair-append ((c, d) ∷ ps) qs a b = ground (arith, has_pair-append ps qs a b)

-- A pair is added once.
has_pair-push :
    (u : Bool) (found : List (String × String)) (c d a b : String)
    → has_pair (if u && not (has_pair found c d) then found ++ (c, d) ∷ [] else found) a b
      ≡ (has_pair found a b || u && has_pair ((c, d) ∷ []) a b)
has_pair-push false found c d a b = ground arith
has_pair-push true found c d a b = elim (Bool-cases (has_pair found c d)) [
  | inl old ↦ rw old (ground (arith, eq_iff c a, eq_iff d b))
  | inr new ↦ rw new (has_pair-append found ((c, d) ∷ []) a b)
]

-- An unordered pair is matched by its sorted form.
matches_ends :
    (x y a b : String)
    → has_pair (sorted_pair x y ∷ []) a b ≡ true
    → ((x ≡ a) × (y ≡ b)) ⊎ ((x ≡ b) × (y ≡ a))
matches_ends x y a b h = elim (Bool-cases (leb_str x y)) [
  | inl le ↦ inl (ground (arith, eq_iff x a, eq_iff y b))
  | inr gt ↦ inr (ground (arith, eq_iff y a, eq_iff x b))
]

module _ (superseded : List String) (groups : Groups) where
  has_pair-add :
      (found : List (String × String)) (r : EvidenceRelation) (a b : String)
      → has_pair (add_unresolved superseded groups found r) a b
        ≡ (has_pair found a b || is_unresolved superseded groups r && matches r a b)
  unfolding add_unresolved
  has_pair-add found r a b =
      has_pair-push (is_unresolved superseded groups r) found
        (sorted_pair r.source_evidence_id r.target_evidence_id).0
        (sorted_pair r.source_evidence_id r.target_evidence_id).1 a b

  has_pair-collect :
      (found : List (String × String)) (rs : Relations) (a b : String)
      → has_pair (collect_unresolved superseded groups found rs) a b
        ≡ (has_pair found a b || any (λ r. is_unresolved superseded groups r && matches r a b) rs)
  unfolding collect_unresolved
  has_pair-collect found [] a b = ground arith
  has_pair-collect found (r ∷ rs) a b = ground (
    arith,
    has_pair-collect (add_unresolved superseded groups found r) rs a b,
    has_pair-add found r a b,
  )

  abbrev still_open : String → String → Bool
  still_open a b =
      not (contains superseded a) && not (contains superseded b) && not (is_reconciled groups a b)

  is_unresolved-matches :
      (r : EvidenceRelation) (a b : String)
      → (is_unresolved superseded groups r && matches r a b)
        ≡ (eq_kind r.kind contradicts && matches r a b && still_open a b)
  unfolding is_unresolved
  is_unresolved-matches r a b = elim (Bool-cases (matches r a b)) [
    | inl m ↦ elim (matches_ends r.source_evidence_id r.target_evidence_id a b m) [
      | inl e ↦ ground arith
      | inr e ↦ ground arith
    ]
    | inr m ↦ ground arith
  ]

  any_unresolved :
      (rs : Relations) (a b : String)
      → any (λ r. is_unresolved superseded groups r && matches r a b) rs
        ≡ (contradicts_between rs a b && still_open a b)
  any_unresolved [] a b = refl
  any_unresolved (r ∷ rs) a b = ground (arith, any_unresolved rs a b, is_unresolved-matches r a b)

-- A pair is listed exactly when a relation says that the two contradict one another, neither is
-- superseded, and no single evidence reconciles both.
pub unresolved_exact :
    (s : State) (a b : String)
    → has_pair (unresolved_contradictions s) a b ≡ (
        contradicts_between s.evidence_relations a b
        && not (superseded_by s.evidence_relations a)
        && not (superseded_by s.evidence_relations b)
        && not (reconciles_both s.evidence_relations a b))
unfolding unresolved_contradictions
unresolved_exact s a b =
    let rs = s.evidence_relations in
    ground (
      arith,
      has_pair-collect
          (map (λ r. r.target_evidence_id) (filter (λ r. eq_kind r.kind supersedes) rs))
          (reconciles_by_source [] rs) [] rs a b,
      any_unresolved (map (λ r. r.target_evidence_id) (filter (λ r. eq_kind r.kind supersedes) rs))
          (reconciles_by_source [] rs) rs a b,
      superseded-eq rs a,
      superseded-eq rs b,
      is_reconciled-eq rs a b,
    )
