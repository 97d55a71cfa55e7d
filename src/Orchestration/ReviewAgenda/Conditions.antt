-- ===== src/Orchestration/ReviewAgenda/Conditions.antt =====
-- orchestration/nodes/review_evidence.py: when the sources of a revalidation were analysed otherwise.
use analysis_loop.Prelude.{
  ◌≡◌, refl, sym, subst, ap, ◌∙◌, ◌↔◌, ◌⊎◌, inl, inr, String, Bool, true, false, not, ◌&&◌, ◌||◌,
  Option, none, some, List, [], ◌∷◌, ◌++◌, any, ◌==◌, eq_iff, arith, Bool-cases, if◌then◌else◌,
  Option-cases,
}
use analysis_loop.Prelude.Sets.{contains}
use analysis_loop.Contracts.Analysis.{eq_protocol}
use analysis_loop.Contracts.Evidence.{EvidenceRecord}
use analysis_loop.Orchestration.ReviewEvidence.{by_id, any_change, revalidation_changed_conditions}

abbrev has_id : String → EvidenceRecord → Bool
has_id id r = r.evidence_id == id

-- The last record with the id.
pub record IsLatest (es : List EvidenceRecord) (id : String) (r : EvidenceRecord) : Type 0 where
  pub before : List EvidenceRecord
  pub after : List EvidenceRecord
  pub place : es ≡ before ++ r ∷ after
  pub named : (r.evidence_id == id) ≡ true
  pub last : any (has_id id) after ≡ false

-- Two analyses of one dataset with one method, one protocol and one transformation.
abbrev pub same_conditions : EvidenceRecord → EvidenceRecord → Bool
same_conditions a b =
    a.data_lineage.dataset_sha256 == b.data_lineage.dataset_sha256
    && a.method == b.method
    && eq_protocol a.protocol b.protocol
    && a.data_lineage.transform_signature == b.data_lineage.transform_signature

-- A known source was analysed under other conditions.
pub record IsChanged (es : List EvidenceRecord) (sources : List String) (e : EvidenceRecord)
    : Type 0 where
  pub id : String
  pub source : EvidenceRecord
  pub among : contains sources id ≡ true
  pub latest : IsLatest es id source
  pub differs : same_conditions source e ≡ false

later_IsLatest :
    (e : EvidenceRecord) (es : List EvidenceRecord) (id : String) (r : EvidenceRecord)
    → IsLatest es id r
    → IsLatest (e ∷ es) id r
later_IsLatest e es id r h = record {
  before = e ∷ h.before;
  after = h.after;
  place = ap (◌∷◌ e) h.place;
  named = h.named;
  last = h.last;
}

some_inj : (a b : EvidenceRecord) → some a ≡ some b → a ≡ b
some_inj a b h = ground arith

-- What the lookup by id finds is the last record with it, or what it began with.
found_last :
    (es : List EvidenceRecord) (id : String) (found : Option EvidenceRecord) (r : EvidenceRecord)
    → by_id es id found ≡ some r
    → (any (has_id id) es ≡ false) × (found ≡ some r) ⊎ IsLatest es id r
unfolding by_id
found_last [] id found r h = inl (refl, h)
found_last (e ∷ es) id found r h = elim (Bool-cases (e.evidence_id == id)) [
  | inl m ↦
      elim (found_last es id (some e) r
        (sym (ap (λ b. by_id es id (if b then some e else found)) m) ∙ h)) [
          | inl (out, same) ↦ inr (record {
            before = [];
            after = es;
            place = ap (λ x. x ∷ es) (some_inj e r same);
            named = subst (λ x. (x.evidence_id == id) ≡ true) (some_inj e r same) m;
            last = out;
          })
          | inr k ↦ inr (later_IsLatest e es id r k)
        ]
  | inr m ↦
      elim (found_last es id found r
        (sym (ap (λ b. by_id es id (if b then some e else found)) m) ∙ h)) [
          | inl (out, same) ↦ inl (ground (arith, m, out), same)
          | inr k ↦ inr (later_IsLatest e es id r k)
        ]
]

absent-by_id :
    (es : List EvidenceRecord) (id : String) (found : Option EvidenceRecord)
    → any (has_id id) es ≡ false
    → by_id es id found ≡ found
unfolding by_id
absent-by_id [] id found h = refl
absent-by_id (e ∷ es) id found h =
    let other : (e.evidence_id == id) ≡ false = ground arith in
    ap (λ b. by_id es id (if b then some e else found)) other
    ∙ absent-by_id es id found (ground arith)

split-by_id :
    (before after : List EvidenceRecord) (id : String) (r : EvidenceRecord)
    (found : Option EvidenceRecord)
    → (r.evidence_id == id) ≡ true
    → any (has_id id) after ≡ false
    → by_id (before ++ r ∷ after) id found ≡ some r
unfolding by_id
split-by_id [] after id r found n h =
    ap (λ b. by_id after id (if b then some r else found)) n ∙ absent-by_id after id (some r) h
split-by_id (e ∷ es) after id r found n h =
    split-by_id es after id r (if e.evidence_id == id then some e else found) n h

latest-by_id :
    (es : List EvidenceRecord) (id : String) (r : EvidenceRecord)
    → IsLatest es id r
    → by_id es id none ≡ some r
latest-by_id es id r h =
    ap (λ xs. by_id xs id none) h.place ∙ split-by_id h.before h.after id r none h.named h.last

source-by_id :
    (es : List EvidenceRecord) (id : String) (ids : List String) (e : EvidenceRecord)
    (r : EvidenceRecord)
    → by_id es id none ≡ some r
    → any_change (revalidation_changed_conditions es (id ∷ ids) e)
      ≡ (not (same_conditions r e) || any_change (revalidation_changed_conditions es ids e))
unfolding revalidation_changed_conditions
source-by_id es id ids e r h = ground (arith, h)

unknown-by_id :
    (es : List EvidenceRecord) (id : String) (ids : List String) (e : EvidenceRecord)
    → by_id es id none ≡ none
    → any_change (revalidation_changed_conditions es (id ∷ ids) e)
      ≡ any_change (revalidation_changed_conditions es ids e)
unfolding revalidation_changed_conditions
unknown-by_id es id ids e h = ground (arith, h)

nothing_changed :
    (es : List EvidenceRecord) (e : EvidenceRecord)
    → any_change (revalidation_changed_conditions es [] e) ≡ true
    → true ≡ false
unfolding revalidation_changed_conditions
nothing_changed es e h = ground arith

found_IsLatest :
    (es : List EvidenceRecord) (id : String) (r : EvidenceRecord)
    → by_id es id none ≡ some r
    → IsLatest es id r
found_IsLatest es id r h = elim (found_last es id none r h) [
  | inl (out, same) ↦ absurd (ground (arith, same))
  | inr k ↦ k
]

more_IsChanged :
    (es : List EvidenceRecord) (id : String) (ids : List String) (e : EvidenceRecord)
    → IsChanged es ids e
    → IsChanged es (id ∷ ids) e
more_IsChanged es id ids e h = record {
  id = h.id;
  source = h.source;
  among = ground (arith, h.among);
  latest = h.latest;
  differs = h.differs;
}

any_change-IsChanged :
    (es : List EvidenceRecord) (ids : List String) (e : EvidenceRecord)
    → any_change (revalidation_changed_conditions es ids e) ≡ true
    → IsChanged es ids e
any_change-IsChanged es [] e h = absurd (ground (arith, nothing_changed es e h))
any_change-IsChanged es (id ∷ ids) e h = elim (Option-cases (by_id es id none)) [
  | inl n ↦
      more_IsChanged es id ids e
        (any_change-IsChanged es ids e (sym (unknown-by_id es id ids e n) ∙ h))
  | inr (r, k) ↦ elim (Bool-cases (same_conditions r e)) [
    | inl m ↦
        more_IsChanged es id ids e
          (any_change-IsChanged es ids e (ground (arith, source-by_id es id ids e r k, m, h)))
    | inr m ↦ record {
      id = id;
      source = r;
      among = ground (arith, (eq_iff id id).1 refl);
      latest = found_IsLatest es id r k;
      differs = m;
    }
  ]
]

changed_at :
    (es : List EvidenceRecord) (id : String) (r : EvidenceRecord) (e : EvidenceRecord)
    (ids : List String)
    → by_id es id none ≡ some r
    → same_conditions r e ≡ false
    → contains ids id ≡ true
    → any_change (revalidation_changed_conditions es ids e) ≡ true
changed_at es id r e [] k d m = absurd (ground arith)
changed_at es id r e (j ∷ ids) k d m = elim (Bool-cases (j == id)) [
  | inl same ↦
      let here = subst (λ x. by_id es x none ≡ some r) (sym ((eq_iff j id).0 same)) k in
      source-by_id es j ids e r here ∙ ground (arith, d)
  | inr other ↦
      let rest = changed_at es id r e ids k d (ground arith) in
      elim (Option-cases (by_id es j none)) [
        | inl n ↦ unknown-by_id es j ids e n ∙ rest
        | inr (q, n) ↦ source-by_id es j ids e q n ∙ ground (arith, rest)
      ]
]

-- The comparison of conditions finds a change exactly when there is one.
pub conditions_differ_iff :
    (es : List EvidenceRecord) (ids : List String) (e : EvidenceRecord)
    → (any_change (revalidation_changed_conditions es ids e) ≡ true) ↔ IsChanged es ids e
conditions_differ_iff es ids e = (
  λ h. any_change-IsChanged es ids e h,
  λ c. changed_at es c.id c.source e ids (latest-by_id es c.id c.source c.latest) c.differs c.among,
)
