-- ===== src/Orchestration/Execution/Numbers.antt =====
-- orchestration/nodes/review.py: the numbers of a committed evidence are those of its result.
use analysis_loop.Contracts.Data.{ArtifactRef, DatasetProfile}
use analysis_loop.Contracts.Analysis.{GeneratedAnalysis, TransformPayload, from_analysis}
use analysis_loop.Contracts.Planning.{ResearchIntent}
use analysis_loop.Contracts.Review.{CriticReview}
use analysis_loop.Orchestration.ReviewEvidence.{build_evidence}
use analysis_loop.Prelude.{
  ap, ◌∙◌, refl, Option, String, ◌≡◌, subst, ◌++◌, ◌∷◌, [], List, All, ok, bind_ok, raise_ok,
  ok_inj, require,
}
use analysis_loop.Json.{Json}
use analysis_loop.Contracts.Evidence.{EvidenceRecord, EffectEstimate}
use analysis_loop.Validation.References.{validate_critic_references}
use analysis_loop.Validation.Numeric.{bind_review_to_result}
use analysis_loop.Validation.Numeric.Bound.{
  IsSupported, Bound, IsRead, bind_review_to_result-IsBound,
}
use analysis_loop.State.{State, Update, apply}
use analysis_loop.Orchestration.ReviewEvidence.{build_evidence}
use analysis_loop.Orchestration.Execution.Deps.{Deps, load_generated}
use analysis_loop.Orchestration.Execution.Review.{evidence_ids}
use analysis_loop.Orchestration.Execution.Commit.{
  Accepted, review_or_empty, accepted_evidence, commit_evidence,
}
use analysis_loop.Orchestration.Execution.Accepted.{commit_update_lem}

-- Every effect and every uncertainty of the evidence stands in the result, at its path.
abbrev pub IsGrounded : Json → EvidenceRecord → Type 0
IsGrounded result e =
    All (IsSupported result) e.effect_summary
    × All (IsRead result e.uncertainty_source_paths) e.uncertainty_summary

Bound-IsSupported :
    (result : Json) (es bs : List EffectEstimate) → Bound result es bs → All (IsSupported result) bs
Bound-IsSupported result [] [] h = tt
Bound-IsSupported result (e ∷ es) (b ∷ bs) h = (h.0.0, Bound-IsSupported result es bs h.1)
Bound-IsSupported result [] (b ∷ bs) h = absurd h
Bound-IsSupported result (e ∷ es) [] h = absurd h

built-IsGrounded :
    (digest : TransformPayload → String) (id : String) (s : State) (intent : ResearchIntent)
    (bound : CriticReview) (g : GeneratedAnalysis) (ref : ArtifactRef)
    (program : Option ArtifactRef) (dataset : ArtifactRef) (profile : DatasetProfile)
    (payload : Json) (e : EvidenceRecord)
    → build_evidence digest id s intent bound g ref program dataset profile ≡ ok e
    → All (IsSupported payload) bound.effect_summary
    → All (IsRead payload bound.uncertainty_source_paths) bound.uncertainty_summary
    → (e.result_ref ≡ ref) × IsGrounded payload e
unfolding build_evidence
built-IsGrounded digest id s intent bound g ref program dataset profile payload e h effects rest =
    let (lineage, _, h1) = bind_ok (from_analysis digest dataset profile g.manifest) _ e h in
    subst (λ x. (x.result_ref ≡ ref) × IsGrounded payload x) (ok_inj _ e h1) (refl, (effects, rest))

accepted_evidence-IsGrounded :
    (deps : Deps) (s : State) (a : Accepted)
    → accepted_evidence deps s ≡ ok a
    → (payload : Json) × (deps.read_json a.evidence.result_ref ≡ ok payload)
      × IsGrounded payload a.evidence
unfolding accepted_evidence
accepted_evidence-IsGrounded deps s a h =
    let (intent, _, h1) = bind_ok (require s.intent) _ a h in
    let (ref, _, h2) = bind_ok (require s.candidate_ref) _ a h1 in
    let (dataset, _, h3) = bind_ok (require s.dataset_ref) _ a h2 in
    let (profile, _, h4) = bind_ok (require s.profile) _ a h3 in
    let (generated, _, h5) = bind_ok (load_generated deps s) _ a h4 in
    let (review, _, h6) = bind_ok (review_or_empty s.review) _ a h5 in
    let (_, h7) = raise_ok _ _ _ a h6 in
    let (_, _, h8) =
      bind_ok (validate_critic_references review generated (evidence_ids s)) _ a h7 in
    let (payload, read, h9) = bind_ok (deps.read_json ref) _ a h8 in
    let (bound, hb, h10) = bind_ok (bind_review_to_result review payload) _ a h9 in
    let (e, built, h11) =
      bind_ok
        (build_evidence deps.transform_digest deps.evidence_id s intent bound generated ref
          s.program_ref dataset profile)
        _ a h10 in
    let found = bind_review_to_result-IsBound review bound payload hb in
    let (same, grounded) =
      built-IsGrounded deps.transform_digest deps.evidence_id s intent bound generated ref
        s.program_ref dataset profile payload e built
        (Bound-IsSupported payload review.effect_summary bound.effect_summary found.0) found.1 in
    subst
      (λ x. (p : Json) × (deps.read_json x.evidence.result_ref ≡ ok p) × IsGrounded p x.evidence)
      (ok_inj _ a h11) (payload, ap deps.read_json same ∙ read, grounded)

-- When commit_evidence returns, it appends one record to the evidence; each of its effects stands in
-- the result that the record refers to, at the path of the effect and with its number, and each of
-- its uncertainties is what that result has at its path.
pub commit_evidence-IsGrounded :
    (deps : Deps) (s : State) (u : Update)
    → commit_evidence deps s ≡ ok u
    → (e : EvidenceRecord) × ((apply s u).evidence ≡ s.evidence ++ e ∷ [])
      × (payload : Json) × (deps.read_json e.result_ref ≡ ok payload)
      × IsGrounded payload e
unfolding commit_evidence
commit_evidence-IsGrounded deps s u h =
    let (a, ha, h1) = bind_ok (accepted_evidence deps s) _ u h in
    let (payload, read, found) = accepted_evidence-IsGrounded deps s a ha in
    (
      a.evidence,
      subst (λ x. (apply s x).evidence ≡ s.evidence ++ a.evidence ∷ []) (ok_inj _ u h1)
          (commit_update_lem deps s a).0,
      payload,
      read,
      found,
    )
