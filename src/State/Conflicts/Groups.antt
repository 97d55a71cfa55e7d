-- ===== src/State/Conflicts/Groups.antt =====
-- state.py: the targets that each evidence reconciles, as `unresolved_contradictions` collects them.
use analysis_loop.Prelude.{
  String, ◌≡◌, refl, ap₂, sym, ◌∙◌, Bool, true, false, ◌&&◌, ◌||◌, [], ◌∷◌, ◌==◌, if◌then◌else◌,
  any, eq_iff, arith, Bool-cases, bool_eq, inl, inr,
}
use analysis_loop.Prelude.Sets.{contains}
use analysis_loop.Contracts.Agenda.{eq_kind, reconciles}
use analysis_loop.State.Conflicts.{Groups, add_target, reconciles_by_source, is_reconciled}
use analysis_loop.State.Conflicts.Spec.{Relations, reconciles_to, reconciles_both}

-- The targets that a source has in the groups.
pub linked : Groups → String → String → Bool
linked [] k a = false
linked ((j, ts) ∷ g) k a = if j == k then contains ts a else linked g k a

pub has_key : Groups → String → Bool
has_key [] k = false
has_key ((j, ts) ∷ g) k = j == k || has_key g k

abbrev pub DistinctKeys : Groups → Type 0
DistinctKeys [] = Unit {0}
DistinctKeys ((j, ts) ∷ g) = (has_key g j ≡ false) × DistinctKeys g

pub linked-add_target :
    (s t k a : String) (g : Groups)
    → linked (add_target s t g) k a ≡ (linked g k a || (s == k && t == a))
unfolding linked add_target
linked-add_target s t k a [] = ground arith
linked-add_target s t k a ((j, ts) ∷ g) =
    ground (arith, linked-add_target s t k a g, eq_iff j s, eq_iff j k, eq_iff s k)

pub has_key-add_target :
    (s t k : String) (g : Groups) → has_key (add_target s t g) k ≡ (has_key g k || s == k)
unfolding has_key add_target
has_key-add_target s t k [] = ground arith
has_key-add_target s t k ((j, ts) ∷ g) =
    ground (arith, has_key-add_target s t k g, eq_iff j s, eq_iff j k, eq_iff s k)

pub add_target-DistinctKeys :
    (s t : String) (g : Groups) → DistinctKeys g → DistinctKeys (add_target s t g)
unfolding has_key add_target
add_target-DistinctKeys s t [] h = (refl, tt)
add_target-DistinctKeys s t ((j, ts) ∷ g) h =
    ground
      (arith, add_target-DistinctKeys s t g h.1, has_key-add_target s t j g, eq_iff j s, eq_iff s j)

pub linked-has_key : (k a : String) (g : Groups) → linked g k a ≡ true → has_key g k ≡ true
unfolding linked has_key
linked-has_key k a [] h = cc
linked-has_key k a ((j, ts) ∷ g) h = ground (arith, linked-has_key k a g)

-- With distinct keys, a pair within one group is a key that is linked to both.
pub is_reconciled-linked :
    (a b : String) (g : Groups)
    → DistinctKeys g
    → is_reconciled g a b ≡ true
    → (k : String) × (linked g k a ≡ true) × (linked g k b ≡ true)
unfolding linked
is_reconciled-linked a b [] h r = cc
is_reconciled-linked a b ((j, ts) ∷ g) h r = elim (Bool-cases (contains ts a && contains ts b)) [
  | inl here ↦ (j, ground (arith, eq_iff j j), ground (arith, eq_iff j j))
  | inr later ↦
      let (k, la, lb) = is_reconciled-linked a b g h.1 (ground arith) in
      (
        k,
        ground (arith, eq_iff j k, linked-has_key k a g),
        ground (arith, eq_iff j k, linked-has_key k b g),
      )
]

pub linked-is_reconciled :
    (a b k : String) (g : Groups)
    → linked g k a ≡ true
    → linked g k b ≡ true
    → is_reconciled g a b ≡ true
unfolding linked
linked-is_reconciled a b k [] h r = cc
linked-is_reconciled a b k ((j, ts) ∷ g) h r = ground (arith, linked-is_reconciled a b k g)

pub linked-groups :
    (k a : String) (g : Groups) (rs : Relations)
    → linked (reconciles_by_source g rs) k a ≡ (linked g k a || reconciles_to rs k a)
unfolding reconciles_by_source
linked-groups k a g [] = ground arith
linked-groups k a g (r ∷ rs) = elim (Bool-cases (eq_kind r.kind reconciles)) [
  | inl rec ↦ rw rec (
      ground (
        arith,
        linked-groups k a (add_target r.source_evidence_id r.target_evidence_id g) rs,
        linked-add_target r.source_evidence_id r.target_evidence_id k a g,
      ))
  | inr other ↦ rw other (linked-groups k a g rs)
]

pub groups-DistinctKeys :
    (g : Groups) (rs : Relations) → DistinctKeys g → DistinctKeys (reconciles_by_source g rs)
unfolding reconciles_by_source
groups-DistinctKeys g [] h = h
groups-DistinctKeys g (r ∷ rs) h =
    groups-DistinctKeys
      (if eq_kind r.kind reconciles
        then add_target r.source_evidence_id r.target_evidence_id g
        else g)
      rs (kept (eq_kind r.kind reconciles))
  where
    kept :
        (b : Bool)
        → DistinctKeys (if b then add_target r.source_evidence_id r.target_evidence_id g else g)
    kept true = add_target-DistinctKeys r.source_evidence_id r.target_evidence_id g h
    kept false = h

pub any_source :
    (p : String → Bool) (k a : String) (rs : Relations)
    → reconciles_to rs k a ≡ true
    → p k ≡ true
    → any (λ q. p q.source_evidence_id) rs ≡ true
any_source p k a [] h e = cc
any_source p k a (r ∷ rs) h e = ground (arith, any_source p k a rs, eq_iff r.source_evidence_id k)

pub some_source :
    (p : String → Bool) (rs : Relations)
    → any (λ q. p q.source_evidence_id) rs ≡ true
    → (k : String) × (p k ≡ true)
some_source p [] h = cc
some_source p (r ∷ rs) h = elim (Bool-cases (p r.source_evidence_id)) [
  | inl here ↦ (r.source_evidence_id, here)
  | inr later ↦ some_source p rs (ground arith)
]

pub is_reconciled-eq :
    (rs : Relations) (a b : String)
    → is_reconciled (reconciles_by_source [] rs) a b ≡ reconciles_both rs a b
unfolding linked
is_reconciled-eq rs a b = bool_eq _ _ forward backward
  where
    both : String → Bool
    both k = reconciles_to rs k a && reconciles_to rs k b

    forward : is_reconciled (reconciles_by_source [] rs) a b ≡ true → reconciles_both rs a b ≡ true
    forward h =
        let (k, la, lb) =
          is_reconciled-linked a b (reconciles_by_source [] rs) (groups-DistinctKeys [] rs tt) h in
        any_source both k a rs (sym (linked-groups k a [] rs) ∙ la)
          (ap₂ ◌&&◌ (sym (linked-groups k a [] rs) ∙ la) (sym (linked-groups k b [] rs) ∙ lb))

    backward : reconciles_both rs a b ≡ true → is_reconciled (reconciles_by_source [] rs) a b ≡ true
    backward h =
        let (k, e) = some_source both rs h in
        linked-is_reconciled a b k (reconciles_by_source [] rs)
          (linked-groups k a [] rs ∙ ground arith) (linked-groups k b [] rs ∙ ground arith)
