-- ===== src/Validation/Numeric/Bound.antt =====
-- validation/numeric.py: a bound review says nothing about numbers that the result does not say.
use analysis_loop.Prelude.{
  ◌≡◌, refl, ap, sym, ◌∙◌, subst, ap₂, String, Bool, true, not, Option, none, some, List, [], ◌∷◌,
  All, arith, ok, eq_iff, bind_ok, raise_ok, ok_inj,
}
use analysis_loop.Json.{
  Json, Fields, null, bool, int, float, str, arr, obj, Float, find_field, eq_float,
}
use analysis_loop.Contracts.Evidence.{EffectEstimate, ResultPath}
use analysis_loop.Contracts.Review.{CriticReview}
use analysis_loop.Validation.Numeric.Defs.{
  resolve_result_path, plain_number, same_value, get_or_null, unit_value, has_same, text_field,
  bool_field, number_field, unit_field, estimate, as_dict, check_field, bind_effect, bind_effects,
  path_of, bind_uncertainty, bind_uncertainties, names, bind_review_to_result,
}

-- The values of an effect stand in the dict at its path.
pub record IsSupported (result : Json) (e : EffectEstimate) : Type 0 where
  pub path : ResultPath
  pub source : Fields
  pub at : resolve_result_path result (some path) ≡ ok (obj source)
  pub path_kept : e.source_path ≡ some path
  pub column : find_field "column" source ≡ some (str e.column)
  pub metric : find_field "metric" source ≡ some (str e.metric)
  pub value : Json
  pub value_at : find_field "value" source ≡ some value
  pub value_number : plain_number value ≡ some e.value
  pub directional : find_field "directional" source ≡ some (bool e.directional)
  pub unit : get_or_null (find_field "unit" source) ≡ unit_value e.unit

-- What was claimed: the same texts, and the same number.
abbrev pub Claims : EffectEstimate → EffectEstimate → Type 0
Claims e b =
    (e.column ≡ b.column)
    × (e.metric ≡ b.metric)
    × (eq_float e.value b.value ≡ true)
    × (e.directional ≡ b.directional)
    × (e.unit ≡ b.unit)

text_same :
    (a b : String) (o : Option Json)
    → has_same (str a) o ≡ true
    → text_field o ≡ ok b
    → (o ≡ some (str b)) × (a ≡ b)
unfolding has_same same_value
text_same a b none h k = absurd (ground arith)
text_same a b (some (str s)) h k = (ground arith, ground (arith, eq_iff a s))
text_same a b (some null) h k = absurd (ground arith)
text_same a b (some (bool x)) h k = absurd (ground arith)
text_same a b (some (int x)) h k = absurd (ground arith)
text_same a b (some (float x)) h k = absurd (ground arith)
text_same a b (some (arr x)) h k = absurd (ground arith)
text_same a b (some (obj x)) h k = absurd (ground arith)

bool_same :
    (a b : Bool) (o : Option Json)
    → has_same (bool a) o ≡ true
    → bool_field o ≡ ok b
    → (o ≡ some (bool b)) × (a ≡ b)
unfolding has_same same_value
bool_same a b o h k = ground arith

number_same :
    (a b : Float) (o : Option Json)
    → has_same (float a) o ≡ true
    → number_field o ≡ ok b
    → (v : Json) × (o ≡ some v) × (plain_number v ≡ some b) × (eq_float a b ≡ true)
unfolding has_same same_value
number_same a b none h k = absurd (ground arith)
number_same a b (some (int z)) h k = (int z, refl, ground arith, ground arith)
number_same a b (some (float f)) h k = (float f, refl, ground arith, ground arith)
number_same a b (some null) h k = absurd (ground arith)
number_same a b (some (bool x)) h k = absurd (ground arith)
number_same a b (some (str x)) h k = absurd (ground arith)
number_same a b (some (arr x)) h k = absurd (ground arith)
number_same a b (some (obj x)) h k = absurd (ground arith)

unit_same :
    (a b : Option String) (v : Json)
    → same_value (unit_value a) v ≡ true
    → unit_field v ≡ ok b
    → (v ≡ unit_value b) × (a ≡ b)
unfolding same_value
unit_same none b v h k = (ground arith, ground arith)
unit_same (some u) b null h k = absurd (ground arith)
unit_same (some u) b (str s) h k = (ground arith, ground (arith, eq_iff u s))
unit_same (some u) b (bool x) h k = absurd (ground arith)
unit_same (some u) b (int x) h k = absurd (ground arith)
unit_same (some u) b (float x) h k = absurd (ground arith)
unit_same (some u) b (arr x) h k = absurd (ground arith)
unit_same (some u) b (obj x) h k = absurd (ground arith)

resolve_some :
    (result v : Json) (path : Option ResultPath)
    → resolve_result_path result path ≡ ok v
    → (p : ResultPath) × (path ≡ some p) × (resolve_result_path result (some p) ≡ ok v)
unfolding resolve_result_path
resolve_some result v none h = absurd (ground arith)
resolve_some result v (some p) h = (p, refl, h)

as_dict_obj : (v : Json) (fs : Fields) → as_dict v ≡ ok fs → v ≡ obj fs
as_dict_obj v fs h = ground arith

check_field_ok :
    (name : String) (claimed : Json) (fs : Fields)
    → check_field name claimed fs ≡ ok tt
    → has_same claimed (find_field name fs) ≡ true
unfolding check_field
check_field_ok name claimed fs h = ground arith

-- What `estimate` reads.
record Estimated (fs : Fields) (path : Option ResultPath) (b : EffectEstimate) : Type 0 where
  column : text_field (find_field "column" fs) ≡ ok b.column
  metric : text_field (find_field "metric" fs) ≡ ok b.metric
  value : number_field (find_field "value" fs) ≡ ok b.value
  directional : bool_field (find_field "directional" fs) ≡ ok b.directional
  unit : unit_field (get_or_null (find_field "unit" fs)) ≡ ok b.unit
  kept : b.source_path ≡ path

estimate_lem :
    (fs : Fields) (path : Option ResultPath) (b : EffectEstimate)
    → estimate fs path ≡ ok b
    → Estimated fs path b
unfolding estimate
estimate_lem fs path b h =
    let (c, hc, h1) = bind_ok (text_field (find_field "column" fs)) _ b h in
    let (m, hm, h2) = bind_ok (text_field (find_field "metric" fs)) _ b h1 in
    let (v, hv, h3) = bind_ok (number_field (find_field "value" fs)) _ b h2 in
    let (d, hd, h4) = bind_ok (bool_field (find_field "directional" fs)) _ b h3 in
    let (u, hu, h5) = bind_ok (unit_field (get_or_null (find_field "unit" fs))) _ b h4 in
    let e = ok_inj _ b h5 in
    record {
      column = hc ∙ ap (λ x. ok x.column) e;
      metric = hm ∙ ap (λ x. ok x.metric) e;
      value = hv ∙ ap (λ x. ok x.value) e;
      directional = hd ∙ ap (λ x. ok x.directional) e;
      unit = hu ∙ ap (λ x. ok x.unit) e;
      kept = ap (λ x. x.source_path) (sym e);
    }

-- A bound effect claims what the effect of the critic claimed, and the result has it.
bind_effect_lem :
    (result : Json) (e b : EffectEstimate)
    → bind_effect result e ≡ ok b
    → IsSupported result b × Claims e b
unfolding bind_effect
bind_effect_lem result e b h =
    let (v, hv, h1) = bind_ok (resolve_result_path result e.source_path) _ b h in
    let (fs, hf, h2) = bind_ok (as_dict v) _ b h1 in
    let (_, hc, h3) = bind_ok (check_field "column" (str e.column) fs) _ b h2 in
    let (_, hm, h4) = bind_ok (check_field "metric" (str e.metric) fs) _ b h3 in
    let (_, hn, h5) = bind_ok (check_field "value" (float e.value) fs) _ b h4 in
    let (_, hd, h6) = bind_ok (check_field "directional" (bool e.directional) fs) _ b h5 in
    let (hu, h7) = raise_ok _ _ (estimate fs e.source_path) b h6 in
    let r = estimate_lem fs e.source_path b h7 in
    let (p, hp, at) = resolve_some result v e.source_path hv in
    let c = text_same e.column b.column _ (check_field_ok _ _ fs hc) r.column in
    let m = text_same e.metric b.metric _ (check_field_ok _ _ fs hm) r.metric in
    let n = number_same e.value b.value _ (check_field_ok _ _ fs hn) r.value in
    let d = bool_same e.directional b.directional _ (check_field_ok _ _ fs hd) r.directional in
    let u = unit_same e.unit b.unit _ (ground arith) r.unit in
    (
      record {
        path = p;
        source = fs;
        at = subst (λ w. resolve_result_path result (some p) ≡ ok w) (as_dict_obj v fs hf) at;
        path_kept = r.kept ∙ hp;
        column = c.0;
        metric = m.0;
        value = n.0;
        value_at = n.1;
        value_number = n.2;
        directional = d.0;
        unit = u.0;
      },
      (c.1, m.1, n.3, d.1, u.1),
    )

-- Effect by effect.
abbrev pub Bound : Json → List EffectEstimate → List EffectEstimate → Type 0
Bound result [] [] = Unit
Bound result (e ∷ es) (b ∷ bs) = (IsSupported result b × Claims e b) × Bound result es bs
Bound result _ _ = ⊥

bind_effects_lem :
    (result : Json) (es bs : List EffectEstimate)
    → bind_effects result es ≡ ok bs
    → Bound result es bs
unfolding bind_effects
bind_effects_lem result [] bs h = subst (Bound result []) (ok_inj [] bs h) tt
bind_effects_lem result (e ∷ es) bs h =
    let (b, hb, h1) = bind_ok (bind_effect result e) _ bs h in
    let (rest, hr, h2) = bind_ok (bind_effects result es) _ bs h1 in
    subst (Bound result (e ∷ es)) (ok_inj (b ∷ rest) bs h2)
      (bind_effect_lem result e b hb, bind_effects_lem result es rest hr)

-- The value of an item is what the result has at the path of its key.
abbrev pub IsRead : Json → List (String × ResultPath) → String × Json → Type 0
IsRead result paths (key, value) =
    (p : ResultPath) × (path_of key paths ≡ ok p) × (resolve_result_path result (some p) ≡ ok value)

bind_uncertainty_lem :
    (result : Json) (paths : List (String × ResultPath)) (u b : String × Json)
    → bind_uncertainty result paths u ≡ ok b
    → IsRead result paths b × (b.0 ≡ u.0)
unfolding bind_uncertainty
bind_uncertainty_lem result paths (key, claimed) b h =
    let (p, hp, h1) = bind_ok (path_of key paths) _ b h in
    let (v, hv, h2) = bind_ok (resolve_result_path result (some p)) _ b h1 in
    let (_, h3) = raise_ok (not (same_value claimed v)) _ (ok (key, v)) b h2 in
    subst (λ x. IsRead result paths x × (x.0 ≡ key)) (ok_inj (key, v) b h3) ((p, hp, hv), refl)

bind_uncertainties_lem :
    (result : Json) (paths : List (String × ResultPath)) (us bs : List (String × Json))
    → bind_uncertainties result paths us ≡ ok bs
    → All (IsRead result paths) bs × (names bs ≡ names us)
unfolding bind_uncertainties
bind_uncertainties_lem result paths [] bs h =
    subst (λ x. All (IsRead result paths) x × (names x ≡ [])) (ok_inj [] bs h) (tt, refl)
bind_uncertainties_lem result paths (u ∷ us) bs h =
    let (b, hb, h1) = bind_ok (bind_uncertainty result paths u) _ bs h in
    let (rest, hr, h2) = bind_ok (bind_uncertainties result paths us) _ bs h1 in
    let one = bind_uncertainty_lem result paths u b hb in
    let more = bind_uncertainties_lem result paths us rest hr in
    subst (λ x. All (IsRead result paths) x × (names x ≡ u.0 ∷ names us)) (ok_inj (b ∷ rest) bs h2)
      ((one.0, more.0), ap₂ (λ x xs. x ∷ xs) one.1 more.1)

abbrev pub IsBound : CriticReview → Json → CriticReview → Type 0
IsBound review result bound =
    Bound result review.effect_summary bound.effect_summary
    × All (IsRead result bound.uncertainty_source_paths) bound.uncertainty_summary
    × (names bound.uncertainty_summary ≡ names review.uncertainty_summary)
    × (bound ≡ record review {
      effect_summary = bound.effect_summary;
      uncertainty_summary = bound.uncertainty_summary;
    })

-- When a review is bound to a result, each of its effects stands at its path in the result, with the
-- texts that the critic claimed and a number equal to the claimed one; each uncertainty is what the
-- result has at its path, under the claimed names; and nothing else of the review has changed.
pub bind_review_to_result-IsBound :
    (review bound : CriticReview) (result : Json)
    → bind_review_to_result review result ≡ ok bound
    → IsBound review result bound
unfolding bind_review_to_result
bind_review_to_result-IsBound review bound result h =
    let (es, he, h1) = bind_ok (bind_effects result review.effect_summary) _ bound h in
    let (_, h2) = raise_ok _ _ _ bound h1 in
    let (us, hu, h3) =
      bind_ok (bind_uncertainties result review.uncertainty_source_paths review.uncertainty_summary)
        _ bound h2 in
    let read =
      bind_uncertainties_lem result review.uncertainty_source_paths review.uncertainty_summary us
        hu in
    subst (IsBound review result) (ok_inj _ bound h3)
      (bind_effects_lem result review.effect_summary es he, read.0, read.1, refl)
