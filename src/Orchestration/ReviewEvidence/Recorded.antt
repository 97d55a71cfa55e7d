-- ===== src/Orchestration/ReviewEvidence/Recorded.antt =====
-- orchestration/nodes/review_evidence.py: the loop that creates relations.
use analysis_loop.Prelude.{
  ℕ, ◌+◌, ◌≤◌, String, ◌≡◌, refl, sym, ap, ap₂, ◌∙◌, Bool, true, false, ◌&&◌, ◌||◌, List, [], ◌∷◌,
  ◌++◌, All, All-unless, All-map, ◌==◌, eq_iff, arith, any, count, any-append, count-zero, if_elim,
}
use analysis_loop.Contracts.Agenda.{EvidenceRelation, RelationKind, eq_kind}
use analysis_loop.Orchestration.ReviewEvidence.Defs.{has_relation, new_relation, create_relations}

abbrev pub is_triple : String → String → RelationKind → EvidenceRelation → Bool
is_triple a b k r = r.source_evidence_id == a && r.target_evidence_id == b && eq_kind r.kind k

pub has_relation-any :
    (rs : List EvidenceRelation) (a b : String) (k : RelationKind)
    → has_relation rs a b k ≡ any (is_triple a b k) rs
has_relation-any [] a b k = refl
has_relation-any (r ∷ rs) a b k = ap (◌||◌ (is_triple a b k r)) (has_relation-any rs a b k)

eq_kind_lem : (j k : RelationKind) → eq_kind j k ≡ true → j ≡ k
eq_kind_lem j k h = ground arith

has_relation-append :
    (rs qs : List EvidenceRelation) (a b : String) (k : RelationKind)
    → has_relation (rs ++ qs) a b k ≡ (has_relation rs a b k || has_relation qs a b k)
has_relation-append rs qs a b k =
    has_relation-any (rs ++ qs) a b k
    ∙ any-append (is_triple a b k) rs qs
    ∙ sym (ap₂ ◌||◌ (has_relation-any rs a b k) (has_relation-any qs a b k))

-- A created relation joins the new evidence to another one.
abbrev pub IsFrom : String → EvidenceRelation → Type 0
IsFrom source r = (r.source_evidence_id ≡ source) × ((r.target_evidence_id == source) ≡ false)

module _ (uuid : ℕ → String) (source : String) where
  pub create-IsFrom :
      (n : ℕ) (existing : List EvidenceRelation) (cs : List (RelationKind × String))
      → All (IsFrom source) (create_relations uuid n source existing cs)
  unfolding create_relations
  create-IsFrom n existing [] = tt
  create-IsFrom n existing ((k, t) ∷ cs) =
      let made = new_relation (uuid n) source t k in
      All-unless (IsFrom source) (t == source || has_relation existing source t k)
        (create_relations uuid n source existing cs)
        (made ∷ create_relations uuid (n + 1) source (made ∷ existing) cs)
        (create-IsFrom n existing cs)
        λ new. ((refl, ground arith), create-IsFrom (n + 1) (made ∷ existing) cs)

  -- No triple is recorded twice.
  pub create_unique :
      (a b : String) (k : RelationKind) (n : ℕ) (existing : List EvidenceRelation)
      (cs : List (RelationKind × String))
      → count (is_triple a b k) existing ≤ 1
      → count (is_triple a b k) existing
          + count (is_triple a b k) (create_relations uuid n source existing cs)
        ≤ 1
  unfolding create_relations
  create_unique a b k n existing [] h = omega arith
  create_unique a b k n existing ((j, t) ∷ cs) h =
      let made = new_relation (uuid n) source t j in
      ground (
        arith,
        create_unique a b k n existing cs,
        create_unique a b k (n + 1) (made ∷ existing) cs,
        count-zero (is_triple a b k) existing,
        has_relation-any existing source t j,
        eq_iff source a,
        eq_iff t b,
        eq_kind_lem j k,
      )

  -- Every candidate that does not point to the new evidence itself is recorded.
  abbrev pub IsRecorded : List EvidenceRelation → RelationKind × String → Type 0
  IsRecorded rs (k, t) = (t == source || has_relation rs source t k) ≡ true

  IsRecorded-old :
      (rs existing : List EvidenceRelation) (j : RelationKind) (t : String)
      → (t == source || has_relation existing source t j) ≡ true
      → IsRecorded (existing ++ rs) (j, t)
  IsRecorded-old rs existing j t h = ground (arith, has_relation-append existing rs source t j)

  IsRecorded-new :
      (n : ℕ) (rest existing : List EvidenceRelation) (j : RelationKind) (t : String)
      → IsRecorded (existing ++ new_relation (uuid n) source t j ∷ rest) (j, t)
  IsRecorded-new n rest existing j t = ground (
    arith,
    has_relation-append existing (new_relation (uuid n) source t j ∷ rest) source t j,
    eq_iff source source,
    eq_iff t t,
  )

  IsRecorded-move :
      (made : EvidenceRelation) (rest existing : List EvidenceRelation) (p : RelationKind × String)
      → IsRecorded (made ∷ existing ++ rest) p
      → IsRecorded (existing ++ made ∷ rest) p
  IsRecorded-move made rest existing (k, t) h = ground (
    arith,
    has_relation-append existing (made ∷ rest) source t k,
    has_relation-append existing rest source t k,
  )

  pub create-IsRecorded :
      (n : ℕ) (existing : List EvidenceRelation) (cs : List (RelationKind × String))
      → All (IsRecorded (existing ++ create_relations uuid n source existing cs)) cs
  unfolding create_relations
  create-IsRecorded n existing [] = tt
  create-IsRecorded n existing ((j, t) ∷ cs) =
      let made = new_relation (uuid n) source t j in
      let skip = create_relations uuid n source existing cs in
      let rest = create_relations uuid (n + 1) source (made ∷ existing) cs in
      if_elim (λ rs. All (IsRecorded (existing ++ rs)) ((j, t) ∷ cs))
        (t == source || has_relation existing source t j) skip (made ∷ rest)
        (λ old. (IsRecorded-old skip existing j t old, create-IsRecorded n existing cs))
        λ new. (
          IsRecorded-new n rest existing j t,
          All-map (IsRecorded (made ∷ existing ++ rest)) (IsRecorded (existing ++ made ∷ rest))
              (λ p h. IsRecorded-move made rest existing p h) cs
              (create-IsRecorded (n + 1) (made ∷ existing) cs),
        )
