-- ===== src/Report/Adopted.antt =====
-- nodes/reporting.py: a report is adopted as Markdown only when it is faithful and a review accepts it.
use analysis_loop.Prelude.{
  ◌≡◌, refl, String, true, some, List, arith, Result, ok, err, is_some, is_empty, filter,
  Bool-cases, Option-cases, inl, inr, Result-cases,
}
use analysis_loop.Prelude.Sets.{contains, minus, sorted_set}
use analysis_loop.Contracts.Evidence.{EvidenceRecord}
use analysis_loop.Contracts.Runtime.{ServiceResult}
use analysis_loop.State.{State, current_evidence}
use analysis_loop.Report.Markers.{citations}
use analysis_loop.Report.Review.{SemanticReview, validate_semantic_review}
use analysis_loop.Report.Writing.{
  ReportDeps, support_of_run, readable_ids, outcome_of, review_passes, generated, accepts_report,
  adopted,
}
use analysis_loop.Report.Sound.{IsFaithful, report_errors-IsFaithful}

-- The evidence that a reviewer of the report is given: what the report cites of the current one.
abbrev pub cited_evidence : State → String → List EvidenceRecord
cited_evidence s markdown =
    filter (λ r. contains (sorted_set (citations markdown)) r.evidence_id) (current_evidence s)

-- There is a reviewer; asked about this report and the evidence it cites, it has answered with a
-- review that is valid for them and accepts; and the results of all that evidence could be read.
pub record IsApproved (deps : ReportDeps) (s : State) (markdown : String) : Type 0 where
  pub reviewer : String → List EvidenceRecord → Result (ServiceResult SemanticReview)
  pub answer : ServiceResult SemanticReview
  pub raw : SemanticReview
  pub review : SemanticReview
  pub there : deps.review_report ≡ some reviewer
  pub answered : reviewer markdown (cited_evidence s markdown) ≡ ok answer
  pub given : answer.value ≡ some raw
  pub valid : validate_semantic_review raw markdown (sorted_set (citations markdown)) ≡ ok review
  pub accepts : review.accepts ≡ true
  pub readable :
      is_empty
        (minus (sorted_set (citations markdown)) (readable_ids deps.read_json (current_evidence s)))
      ≡ true

accepted_outcome :
    (markdown : String) (ids : List String) (r : Result (ServiceResult SemanticReview))
    → outcome_of markdown ids r ≡ true
    → (answer : ServiceResult SemanticReview) × (r ≡ ok answer)
      × (raw : SemanticReview) × (answer.value ≡ some raw)
      × (review : SemanticReview) × (validate_semantic_review raw markdown ids ≡ ok review)
      × (review.accepts ≡ true)
unfolding outcome_of
accepted_outcome markdown ids (err e) h = absurd (ground arith)
accepted_outcome markdown ids (ok result) h = elim (Option-cases result.value) [
  | inl e ↦ absurd (ground (arith, h, e))
  | inr (raw, e) ↦ elim (Result-cases (validate_semantic_review raw markdown ids)) [
    | inl (review, v) ↦ (result, refl, raw, e, review, v, ground (arith, h, e, v))
    | inr (x, v) ↦ absurd (ground (arith, h, e, v))
  ]
]

review_approves :
    (deps : ReportDeps) (s : State) (markdown : String)
    → review_passes deps markdown (current_evidence s) ≡ true
    → IsApproved deps s markdown
unfolding review_passes
review_approves deps s markdown h =
    let cited = sorted_set (citations markdown) in
    let missing = minus cited (readable_ids deps.read_json (current_evidence s)) in
    elim (Bool-cases (is_empty missing)) [
      | inl e ↦ elim (Option-cases deps.review_report) [
        | inl n ↦ absurd (ground (arith, h, e, n))
        | inr (ask, n) ↦
            let (answer, answered, raw, given, review, v, accepts) =
              accepted_outcome markdown cited (ask markdown (cited_evidence s markdown))
                (ground (arith, h, e, n)) in
            record {
              reviewer = ask;
              answer = answer;
              raw = raw;
              review = review;
              there = n;
              answered = answered;
              given = given;
              valid = v;
              accepts = accepts;
              readable = e;
            }
      ]
      | inr e ↦ absurd (ground (arith, h, e))
    ]

adopted_accepted :
    (deps : ReportDeps) (s : State) (markdown : String)
    → adopted deps s ≡ some markdown
    → accepts_report deps s markdown ≡ true
unfolding adopted
adopted_accepted deps s markdown h = elim (Option-cases (generated deps s)) [
  | inl e ↦ absurd (ground (arith, h, e))
  | inr (m, e) ↦ elim (Bool-cases (accepts_report deps s m)) [
    | inl a ↦ ground (arith, h, e, a)
    | inr a ↦ absurd (ground (arith, h, e, a))
  ]
]

reads_results :
    (deps : ReportDeps) (s : State) → is_some (support_of_run deps s).numeric_support ≡ true
unfolding support_of_run
reads_results deps s = refl

-- A report is adopted as Markdown only if it is faithful to the run, and the reviewer, asked about it
-- and the current evidence it cites, has answered with a valid review that accepts. Faithful: no
-- required section is blank; every cited evidence is there, current and allowed; each line of the
-- conclusions cites, and each of its numbers is one of a cited result; the stop code is stated; and the
-- limits name every goal that is not converged, every pending task and both sides of every open
-- contradiction.
pub adopted_report :
    (deps : ReportDeps) (s : State) (markdown : String)
    → adopted deps s ≡ some markdown
    → IsFaithful deps.numbers_in deps.is_close (support_of_run deps s) markdown
      × IsApproved deps s markdown
unfolding accepts_report
adopted_report deps s markdown h =
    let a = adopted_accepted deps s markdown h in
    (
      report_errors-IsFaithful deps.numbers_in deps.is_close (support_of_run deps s) markdown
          (reads_results deps s) (ground (arith, a)),
      review_approves deps s markdown (ground (arith, a)),
    )
