-- ===== src/Llm/Proposed.antt =====
-- llm/service_common.py: what a verdict says of the goals.
use analysis_loop.Prelude.{
  ◌≡◌, refl, sym, subst, ◌∙◌, ap, String, Bool, true, false, not, ◌&&◌, ◌||◌, Option, none, some,
  List, ◌++◌, ◌==◌, eq_iff, ok, bind_ok, ok_inj, arith, Bool-cases, inl, inr,
}
use analysis_loop.Prelude.Sets.{
  contains, contains-append, contains-sorted_set, contains-minus, minus,
}
use analysis_loop.Json.{
  Json, null, bool, int, float, str, arr, obj, Items, nil, cons, Fields, find_field,
}
use analysis_loop.Contracts.Planning.{SubGoal}
use analysis_loop.Orchestration.Planning.Verdicts.{Verdict}
use analysis_loop.Llm.Goals.{
  items_of, goal_key, Reviewed, add_review, review_goals, verdict_from, goal_verdict, open_ids,
}

abbrev is_text : Option Json → String → Bool
is_text (some (str s)) c = s == c
is_text _ c = false

-- Some review of the answer is about the goal.
abbrev pub mentions : Items → String → Bool
mentions nil c = false
mentions (cons (obj fs) items) c = is_text (find_field "goal_id" fs) c || mentions items c
mentions (cons _ items) c = mentions items c

abbrev names : Option String → String → Bool
names none c = false
names (some id) c = id == c

key_names :
    (o : Option Json) (key : Option String) (c : String)
    → goal_key o ≡ ok key
    → is_text o c ≡ names key c
key_names none key c h = ground arith
key_names (some null) key c h = ground arith
key_names (some (bool b)) key c h = ground arith
key_names (some (int z)) key c h = ground arith
key_names (some (float f)) key c h = ground arith
key_names (some (str s)) key c h = ground arith
key_names (some (arr xs)) key c h = absurd (ground arith)
key_names (some (obj fs)) key c h = absurd (ground arith)

-- The verdict closes only what was reviewed, and what was reviewed is open and mentioned.
record Collects (still : List String) (seen : String → Bool) (r : Reviewed) : Type 0 where
  reviewed : (c : String) → contains r.reviewed c ≡ (contains still c && seen c)
  converged : (c : String) → contains r.converged c ≡ true → contains r.reviewed c ≡ true
  abandoned : (c : String) → contains r.abandoned c ≡ true → contains r.reviewed c ≡ true

same_in :
    (still : List String) (id c : String) (b : Bool)
    → contains still id ≡ b
    → (b && id == c) ≡ (contains still c && id == c)
same_in still id c b h = elim (Bool-cases (id == c)) [
  | inl e ↦ ground (arith, h, e, ap (contains still) ((eq_iff id c).0 e))
  | inr e ↦ ground (arith, e)
]

seen_as :
    (still : List String) (seen : String → Bool) (r : Reviewed) (o : Option Json)
    (key : Option String)
    → goal_key o ≡ ok key
    → Collects still (λ c. names key c || seen c) r
    → Collects still (λ c. is_text o c || seen c) r
seen_as still seen r o key k h = record {
  reviewed = λ c. ground (arith, h.reviewed c, key_names o key c k);
  converged = h.converged;
  abandoned = h.abandoned;
}

-- A verdict on goals closes only open goals that the answer reviews, and leaves as unreviewed
-- exactly the open goals that it does not review.
pub record IsExact (goals : List SubGoal) (items : Items) (v : Verdict) : Type 0 where
  pub only_open :
      (c : String)
      → contains (v.converged ++ v.abandoned) c ≡ true
      → (contains (open_ids goals) c ≡ true) × (mentions items c ≡ true)
  pub unreviewed :
      (c : String)
      → contains v.unreviewed c ≡ (contains (open_ids goals) c && not (mentions items c))

module _ (to_text : Json → String) (lower : String → String) where
  added_reviewed :
      (still : List String) (id : String) (fs : Fields) (r : Reviewed) (c : String)
      → contains (add_review to_text lower still (some id) fs r).reviewed c
        ≡ (contains still id && id == c || contains r.reviewed c)
  unfolding add_review
  added_reviewed still id fs r c = ground arith

  added-Collects :
      (still : List String) (seen : String → Bool) (key : Option String) (fs : Fields)
      (r : Reviewed)
      → Collects still seen r
      → Collects still (λ c. names key c || seen c) (add_review to_text lower still key fs r)
  unfolding add_review
  added-Collects still seen none fs r h = h
  added-Collects still seen (some id) fs r h = record {
    reviewed = λ c. ground (
      arith,
      added_reviewed still id fs r c,
      h.reviewed c,
      same_in still id c (contains still id) refl,
    );
    converged = λ c m. ground (arith, h.converged c);
    abandoned = λ c m. ground (arith, h.abandoned c);
  }

  reviews-Collects :
      (still : List String) (items : Items) (r : Reviewed)
      → review_goals to_text lower still items ≡ ok r
      → Collects still (mentions items) r
  unfolding review_goals
  reviews-Collects still nil r h = subst (Collects still (λ c. false)) (ok_inj _ r h) (record {
    reviewed = λ c. ground arith;
    converged = λ c m. absurd (ground arith);
    abandoned = λ c m. absurd (ground arith);
  })
  reviews-Collects still (cons (obj fs) items) r h =
      let (key, k, h1) = bind_ok (goal_key (find_field "goal_id" fs)) _ r h in
      let (later, l, h2) = bind_ok (review_goals to_text lower still items) _ r h1 in
      subst (Collects still (mentions (cons (obj fs) items))) (ok_inj _ r h2) (
        seen_as still (mentions items) _ (find_field "goal_id" fs) key k (
          added-Collects still (mentions items) key fs later
            (reviews-Collects still items later l)))
  reviews-Collects still (cons null items) r h = reviews-Collects still items r h
  reviews-Collects still (cons (bool _) items) r h = reviews-Collects still items r h
  reviews-Collects still (cons (int _) items) r h = reviews-Collects still items r h
  reviews-Collects still (cons (float _) items) r h = reviews-Collects still items r h
  reviews-Collects still (cons (str _) items) r h = reviews-Collects still items r h
  reviews-Collects still (cons (arr _) items) r h = reviews-Collects still items r h

  collected-IsExact :
      (goals : List SubGoal) (items : Items) (r : Reviewed)
      → Collects (open_ids goals) (mentions items) r
      → IsExact goals items (verdict_from to_text lower (open_ids goals) r)
  collected-IsExact goals items r h =
      let still = open_ids goals in
      record {
        only_open = λ c m.
            let seen : contains r.reviewed c ≡ true =
              ground (
                arith,
                contains-append r.converged r.abandoned c,
                h.converged c,
                h.abandoned c,
                m,
              ) in
            (ground (arith, h.reviewed c, seen), ground (arith, h.reviewed c, seen));
        unreviewed = λ c.
            contains-sorted_set (minus still r.reviewed) c
            ∙ contains-minus still r.reviewed c
            ∙ ground (arith, h.reviewed c);
      }

  pub verdict-IsExact :
      (raw : Fields) (goals : List SubGoal) (v : Verdict)
      → goal_verdict to_text lower raw goals ≡ ok v
      → (items : Items) × (items_of (find_field "goal_review" raw) ≡ ok items)
        × IsExact goals items v
        × (v.finished ≡ false)
  unfolding goal_verdict
  verdict-IsExact raw goals v h =
      let (items, i, h1) = bind_ok (items_of (find_field "goal_review" raw)) _ v h in
      let (r, k, h2) = bind_ok (review_goals to_text lower (open_ids goals) items) _ v h1 in
      let same = ok_inj _ v h2 in
      (
        items,
        i,
        subst (IsExact goals items) same
            (collected-IsExact goals items r (reviews-Collects (open_ids goals) items r k)),
        ap (λ x. x.finished) (sym same),
      )
