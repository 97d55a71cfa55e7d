-- ===== src/Contracts/Review.antt =====
-- contract_models/evidence.py: the critic's review.
use analysis_loop.Prelude.{
  String, Bool, true, false, ◌&&◌, List, Result, ok, ◌>>◌, raise_if, say, is_blank, Message,
}
use analysis_loop.Json.{Json}
use analysis_loop.Contracts.Evidence.{EffectEstimate, Confidence, ResultPath}

pub data Verdict : Type 0 where
  accept reject unreviewed : Verdict

abbrev pub is_accept : Verdict → Bool
is_accept accept = true
is_accept _ = false

-- `unreviewed` is no verdict of a critic: the nodes write it into the state when there is no review.
pub record CriticReview : Type 0 where
  pub verdict : Verdict
  pub claim : String
  pub reasons : List Message
  pub caveats : List String
  pub confidence : Confidence
  pub open_questions : List String
  pub contradicts : List String
  pub revalidates : List String
  pub revalidation_required : List String
  pub supersedes : List String
  pub reconciles : List String
  pub effect_summary : List EffectEstimate
  pub uncertainty_summary : List (String × Json)
  pub uncertainty_source_paths : List (String × ResultPath)

abbrev pub is_unreviewed : Verdict → Bool
is_unreviewed unreviewed = true
is_unreviewed _ = false

-- `CriticReview.model_validate`: the literals of the verdict, then `_accepted_review_requires_claim`.
unfoldable pub validate_review : CriticReview → Result CriticReview
validate_review r = do
  raise_if (is_unreviewed r.verdict) (say "verdict")
  raise_if (is_accept r.verdict && is_blank r.claim) (say "accept 판정에는 실제 결과가 뒷받침하는 claim이 필요하다")
  ok r
