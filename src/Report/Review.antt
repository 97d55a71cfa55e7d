-- ===== src/Report/Review.antt =====
-- contract_models/reporting.py and report_validation.py: the semantic review of a report.
use analysis_loop.Prelude.{
  String, Bool, true, false, not, ◌||◌, List, [], ◌∷◌, map, length, eqb, ◌==◌, say, is_empty, strip,
  Result, ok, ◌>>=◌, ◌>>◌, raise_if,
}
use analysis_loop.Prelude.Sets.{minus, same_set}
use analysis_loop.Report.Markers.{is_within}

pub data ReviewCategory : Type 0 where
  evidence_support causal_scope metric_context uncertainty recommendations completion_status :
      ReviewCategory

abbrev pub category_text : ReviewCategory → String
category_text evidence_support = "evidence_support"
category_text causal_scope = "causal_scope"
category_text metric_context = "metric_context"
category_text uncertainty = "uncertainty"
category_text recommendations = "recommendations"
category_text completion_status = "completion_status"

abbrev pub review_categories : List ReviewCategory
review_categories =
    evidence_support ∷ causal_scope ∷ metric_context ∷ uncertainty ∷ recommendations
    ∷ completion_status ∷ []

pub record ReviewFinding : Type 0 where
  pub category : ReviewCategory
  pub quote : String
  pub reason : String
  pub suggested_revision : String
  pub evidence_ids : List String

pub record SemanticReview : Type 0 where
  pub accepts : Bool
  pub checked_categories : List ReviewCategory
  pub reviewed_evidence_ids : List String
  pub findings : List ReviewFinding

abbrev blank : String → Bool
blank t = strip t == ""

abbrev differs : Bool → Bool → Bool
differs true b = not b
differs false b = b

-- `_complete_review`: each category once; an accepted report has no findings, a rejected one has some.
unfoldable pub complete_review : SemanticReview → Result SemanticReview
complete_review r = do
  raise_if
      (not (eqb (length r.checked_categories) (length review_categories))
        || not (
            same_set (map category_text r.checked_categories)
              (map category_text review_categories)))
      (say "보고서 의미 검토의 여섯 항목을 각각 확인해야 한다")
  raise_if (differs r.accepts (is_empty r.findings)) (say "accept에는 지적이 없어야 하고 reject에는 지적이 필요하다")
  ok r

check_finding : String → List String → ReviewFinding → Result (Unit {0})
unfolding strip
check_finding markdown ids f = do
  raise_if (blank f.quote || not (is_within f.quote markdown)) (say "검토 지적의 quote가 실제 보고서 문장에 없다")
  raise_if (blank f.reason || blank f.suggested_revision) (say "검토 지적에는 이유와 수정 방향이 필요하다")
  raise_if (not (is_empty (minus f.evidence_ids ids))) (say "검토 지적이 전달되지 않은 근거를 참조했다")

check_findings : String → List String → List ReviewFinding → Result (Unit {0})
unfolding check_finding
check_findings markdown ids [] = ok tt
check_findings markdown ids (f ∷ fs) = do
  check_finding markdown ids f
  check_findings markdown ids fs

-- `validate_semantic_review`: the review is about exactly the cited evidence, and quotes the report.
unfoldable pub validate_semantic_review :
    SemanticReview → String → List String → Result SemanticReview
unfolding complete_review check_findings
validate_semantic_review payload markdown ids = do
  review ← complete_review payload
  raise_if
      (not (eqb (length review.reviewed_evidence_ids) (length ids))
        || not (same_set review.reviewed_evidence_ids ids))
      (say "의미 검토가 인용한 모든 근거를 포함하지 않거나 모르는 근거를 참조했다")
  check_findings markdown ids review.findings
  ok review
