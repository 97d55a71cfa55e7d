-- ===== src/Orchestration/Lookup/Ranking.antt =====
-- orchestration/nodes/evidence_lookup.py: the lookup selects the best.
use analysis_loop.Prelude.{
  ℕ, suc, zero, ◌≤◌, ◌≡◌, refl, ◌++◌, ◌&&◌, ◌⊎◌, inl, inr, Bool, true, false, not, List, [], ◌∷◌,
  map, take, drop, length, All, All-map, All-if, if_elim, arith, length-take-le, filter, ap, sym,
  subst,
}
use mathlib.Core.List.{Permᴰ}
use mathlib.Core.List.Permᴰ
use analysis_loop.Contracts.Planning.{ResearchIntent}
use analysis_loop.Contracts.Evidence.{EvidenceRecord}
use analysis_loop.Prelude.Sets.{contains}
use analysis_loop.State.{
  State, active_evidence, superseded_evidence_ids, evidence_data_applicability,
}
use analysis_loop.Orchestration.Lookup.Defs.{
  is_incompatible, Row, above, insert_row, sort_rows, rank, score, ranked, selected, comparable,
  lookup_limit,
}

-- No row below has more points.
abbrev pub IsBest : Row → List Row → Type 0
IsBest a rs = All (λ r. r.points ≤ a.points) rs

Sorted : List Row → Type 0
Sorted [] = Unit {0}
Sorted (r ∷ rs) = IsBest r rs × Sorted rs

IsBest-trans : (a b : Row) (rs : List Row) → b.points ≤ a.points → IsBest b rs → IsBest a rs
IsBest-trans a b rs h =
    All-map (λ r. r.points ≤ b.points) (λ r. r.points ≤ a.points) (λ r k. omega arith) rs

insert-All : (P : Row → Type 0) (a : Row) (rs : List Row) → P a → All P rs → All P (insert_row a rs)
unfolding insert_row
insert-All P a [] p h = (p, tt)
insert-All P a (r ∷ rs) p h =
    All-if P (above a r) (a ∷ r ∷ rs) (r ∷ insert_row a rs) (p, h) (h.0, insert-All P a rs p h.1)

insert-Sorted : (a : Row) (rs : List Row) → Sorted rs → Sorted (insert_row a rs)
unfolding insert_row Sorted
insert-Sorted a [] h = (tt, tt)
insert-Sorted a (r ∷ rs) h =
    if_elim Sorted (above a r) (a ∷ r ∷ rs) (r ∷ insert_row a rs)
      (λ up. ((ground arith, IsBest-trans a r rs (ground arith) h.0), h))
      (λ down.
        (insert-All (λ q. q.points ≤ r.points) a rs (ground arith) h.0, insert-Sorted a rs h.1))

sort-Sorted : (rs : List Row) → Sorted (sort_rows rs)
unfolding sort_rows Sorted
sort-Sorted [] = tt
sort-Sorted (r ∷ rs) = insert-Sorted r (sort_rows rs) (sort-Sorted rs)

drop-All : (P : Row → Type 0) (n : ℕ) (rs : List Row) → All P rs → All P (drop n rs)
drop-All P zero rs h = h
drop-All P (suc n) [] h = tt
drop-All P (suc n) (r ∷ rs) h = drop-All P n rs h.1

-- Each of the first rows is as good as all the others.
take-IsBest : (n : ℕ) (rs : List Row) → Sorted rs → All (λ a. IsBest a (drop n rs)) (take n rs)
unfolding Sorted
take-IsBest zero rs h = tt
take-IsBest (suc n) [] h = tt
take-IsBest (suc n) (r ∷ rs) h =
    (drop-All (λ q. q.points ≤ r.points) n rs h.0, take-IsBest n rs h.1)

-- Evidence that may be shown: not superseded, and of a comparable schema.
abbrev pub IsShown : State → EvidenceRecord → Type 0
IsShown s e =
    (contains (superseded_evidence_ids s) e.evidence_id ≡ false)
    × (is_incompatible (evidence_data_applicability s e) ≡ false)

filter-All :
    (P : EvidenceRecord → Type 0) (p : EvidenceRecord → Bool)
    → ((e : EvidenceRecord) → not (p e) ≡ false → P e)
    → (es : List EvidenceRecord) → All P (filter p es)
filter-All P p f [] = tt
filter-All P p f (e ∷ es) =
    if_elim (All P) (p e) (e ∷ filter p es) (filter p es)
      (λ kept. (f e (ap not kept), filter-All P p f es)) (λ left. filter-All P p f es)

filter-both :
    (P Q : EvidenceRecord → Type 0) (p : EvidenceRecord → Bool)
    → ((e : EvidenceRecord) → p e ≡ true → Q e)
    → (es : List EvidenceRecord) → All P es
    → All (λ e. P e × Q e) (filter p es)
filter-both P Q p f [] h = tt
filter-both P Q p f (e ∷ es) h =
    if_elim (All (λ e. P e × Q e)) (p e) (e ∷ filter p es) (filter p es)
      (λ kept. ((h.0, f e kept), filter-both P Q p f es h.1)) (λ left. filter-both P Q p f es h.1)

comparable-IsShown : (s : State) → All (IsShown s) (comparable s)
unfolding comparable active_evidence
comparable-IsShown s =
    let old : EvidenceRecord → Bool = λ e. contains (superseded_evidence_ids s) e.evidence_id in
    let far : EvidenceRecord → Bool = λ e. is_incompatible (evidence_data_applicability s e) in
    filter-both (λ e. old e ≡ false) (λ e. far e ≡ false) (λ e. not (far e)) (λ e h. ground arith)
      (filter (λ e. not (old e)) s.evidence)
      (filter-All (λ e. old e ≡ false) (λ e. not (old e)) (λ e h. ground arith) s.evidence)

-- A row of the lookup: its points are the score of its item, which may be shown.
abbrev IsRow : State → ResearchIntent → Row → Type 0
IsRow s intent r = (r.points ≡ score s intent r.item) × IsShown s r.item

rank-IsRow :
    (s : State) (intent : ResearchIntent) (n : ℕ) (es : List EvidenceRecord)
    → All (IsShown s) es
    → All (IsRow s intent) (rank s intent n es)
unfolding rank
rank-IsRow s intent n [] h = tt
rank-IsRow s intent n (e ∷ es) h = ((refl, h.0), rank-IsRow s intent (suc n) es h.1)

sort-All : (P : Row → Type 0) (rs : List Row) → All P rs → All P (sort_rows rs)
unfolding sort_rows
sort-All P [] h = tt
sort-All P (r ∷ rs) h = insert-All P r (sort_rows rs) h.0 (sort-All P rs h.1)

take-All : (P : Row → Type 0) (n : ℕ) (rs : List Row) → All P rs → All P (take n rs)
take-All P zero rs h = tt
take-All P (suc n) [] h = tt
take-All P (suc n) (r ∷ rs) h = (h.0, take-All P n rs h.1)

length-items : (rs : List Row) → length (map (λ r. r.item) rs) ≡ length rs
length-items [] = refl
length-items (r ∷ rs) = ap suc (length-items rs)

insert-Perm : (a : Row) (rs : List Row) → Permᴰ (insert_row a rs) (a ∷ rs)
unfolding insert_row
insert-Perm a [] = Permᴰ.refl (a ∷ [])
insert-Perm a (r ∷ rs) =
    if_elim (λ xs. Permᴰ xs (a ∷ r ∷ rs)) (above a r) (a ∷ r ∷ rs) (r ∷ insert_row a rs)
      (λ up. Permᴰ.refl (a ∷ r ∷ rs))
      (λ down. Permᴰ.trans (Permᴰ.cons refl (insert-Perm a rs)) (Permᴰ.swap refl refl))

sort-Perm : (rs : List Row) → Permᴰ (sort_rows rs) rs
unfolding sort_rows
sort-Perm [] = Permᴰ.nil
sort-Perm (r ∷ rs) = Permᴰ.trans (insert-Perm r (sort_rows rs)) (Permᴰ.cons refl (sort-Perm rs))

items : List Row → List EvidenceRecord
items rs = map (λ r. r.item) rs

rank-items :
    (s : State) (intent : ResearchIntent) (n : ℕ) (es : List EvidenceRecord)
    → items (rank s intent n es) ≡ es
unfolding rank items
rank-items s intent n [] = refl
rank-items s intent n (e ∷ es) = ap (λ l. e ∷ l) (rank-items s intent (suc n) es)

items-split : (n : ℕ) (rs : List Row) → items (take n rs) ++ items (drop n rs) ≡ items rs
unfolding items
items-split zero rs = refl
items-split (suc n) [] = refl
items-split (suc n) (r ∷ rs) = ap (λ l. r.item ∷ l) (items-split n rs)

ranked-Perm :
    (s : State) (intent : ResearchIntent)
    → Permᴰ
        (items (take lookup_limit (ranked s intent)) ++ items (drop lookup_limit (ranked s intent)))
        (comparable s)
unfolding ranked items
ranked-Perm s intent =
    let rows = rank s intent 0 (comparable s) in
    subst (λ xs. Permᴰ xs (comparable s)) (sym (items-split lookup_limit (ranked s intent)))
      (subst (Permᴰ (items (sort_rows rows))) (rank-items s intent 0 (comparable s))
        (Permᴰ.map (λ r. r.item) (sort-Perm rows)))

-- The evidence that may be shown: not superseded, and of a comparable schema.
abbrev pub is_shown : State → EvidenceRecord → Bool
is_shown s e =
    not (contains (superseded_evidence_ids s) e.evidence_id)
    && not (is_incompatible (evidence_data_applicability s e))

filter-filter :
    (p q : EvidenceRecord → Bool) (es : List EvidenceRecord)
    → filter q (filter p es) ≡ filter (λ e. p e && q e) es
filter-filter p q [] = refl
filter-filter p q (e ∷ es) = ground (arith, filter-filter p q es)

comparable_lem : (s : State) → comparable s ≡ filter (is_shown s) s.evidence
unfolding comparable active_evidence
comparable_lem s =
    filter-filter (λ e. not (contains (superseded_evidence_ids s) e.evidence_id))
      (λ e. not (is_incompatible (evidence_data_applicability s e))) s.evidence

-- A selection of the evidence that may be shown, each as often as it is recorded, with what it leaves
-- out: nothing that is left out scores higher than what is selected, and something is left out only
-- when eight are selected.
pub record IsSelection (s : State) (intent : ResearchIntent) (found : List EvidenceRecord)
    : Type 0 where
  pub left : List EvidenceRecord
  pub whole : Permᴰ (found ++ left) (filter (is_shown s) s.evidence)
  pub best : All (λ e. All (λ l. score s intent l ≤ score s intent e) left) found
  pub bounded : length found ≤ lookup_limit
  pub full : (length found ≡ lookup_limit) ⊎ (left ≡ [])

items-All :
    (s : State) (intent : ResearchIntent) (m : ℕ) (rs : List Row)
    → All (IsRow s intent) rs
    → All (λ r. r.points ≤ m) rs
    → All (λ l. score s intent l ≤ m) (items rs)
unfolding items
items-All s intent m [] h k = tt
items-All s intent m (r ∷ rs) h k = (omega (arith, h.0.0, k.0), items-All s intent m rs h.1 k.1)

choose :
    (s : State) (intent : ResearchIntent) (left rs : List Row)
    → All (IsRow s intent) left
    → All (IsRow s intent) rs
    → All (λ a. IsBest a left) rs
    → All (λ e. All (λ l. score s intent l ≤ score s intent e) (items left)) (items rs)
unfolding items
choose s intent left [] g h k = tt
choose s intent left (r ∷ rs) g h k = (
  items-All s intent (score s intent r.item) left g
      (subst (λ n. All (λ q. q.points ≤ n) left) h.0.0 k.0),
  choose s intent left rs g h.1 k.1,
)

take_or_all : (n : ℕ) (rs : List Row) → (length (items (take n rs)) ≡ n) ⊎ (items (drop n rs) ≡ [])
unfolding items
take_or_all zero rs = inl refl
take_or_all (suc n) [] = inr refl
take_or_all (suc n) (r ∷ rs) = elim (take_or_all n rs) [
  | inl h ↦ inl (omega (arith, h))
  | inr h ↦ inr h
]

ranked-IsRow : (s : State) (intent : ResearchIntent) → All (IsRow s intent) (ranked s intent)
unfolding ranked
ranked-IsRow s intent =
    sort-All (IsRow s intent) (rank s intent 0 (comparable s))
      (rank-IsRow s intent 0 (comparable s) (comparable-IsShown s))

ranked-Sorted : (s : State) (intent : ResearchIntent) → Sorted (ranked s intent)
unfolding ranked
ranked-Sorted s intent = sort-Sorted (rank s intent 0 (comparable s))

-- The lookup selects at most eight evidences of those that are active and of a comparable schema, each
-- as often as it is recorded; with what it leaves out they are all of these, nothing that is left out
-- scores higher than a selected one, and something is left out only when eight are selected.
pub lookup_selects :
    (s : State) (intent : ResearchIntent) → IsSelection s intent (selected s intent)
unfolding selected items
lookup_selects s intent =
    let rows = ranked s intent in
    let top = take lookup_limit rows in
    let valid = ranked-IsRow s intent in
    record {
      left = items (drop lookup_limit rows);
      whole =
          subst (Permᴰ (items top ++ items (drop lookup_limit rows))) (comparable_lem s)
            (ranked-Perm s intent);
      best =
          choose s intent (drop lookup_limit rows) top
            (drop-All (IsRow s intent) lookup_limit rows valid)
            (take-All (IsRow s intent) lookup_limit rows valid)
            (take-IsBest lookup_limit rows (ranked-Sorted s intent));
      bounded =
          subst (λ n. n ≤ lookup_limit) (sym (length-items top)) (length-take-le lookup_limit rows);
      full = take_or_all lookup_limit rows;
    }
