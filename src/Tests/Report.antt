-- ===== src/Tests/Report.antt =====
-- The theorem on reports, at a report that cites one evidence.
use analysis_loop.Prelude.{
  ◌≡◌, refl, ◌<>◌, ◌&&◌, ◌==◌, String, true, some, none, [], ◌∷◌, ok, if◌then◌else◌, pos,
}
use analysis_loop.Json.{int, obj, end, field, is_finite}
use analysis_loop.Contracts.Data.{ArtifactKind}
use analysis_loop.Contracts.Runtime.{StopCode}
use analysis_loop.State.{State, active_evidence, evidence_data_applicability}
use analysis_loop.Report.Markers.{
  is_within, section_lines, without_markers, goal_markers, stop_markers,
}
use analysis_loop.Report.Review.{SemanticReview, review_categories, validate_semantic_review}
use analysis_loop.Report.Writing.{ReportDeps, adopted}
use analysis_loop.Report.Adopted.{IsApproved, adopted_report}
use analysis_loop.Report.Sound.{IsFaithful}
use analysis_loop.Report.Writing.{support_of_run}
use analysis_loop.Tests.Data.{ref_of, state_of}

abbrev report : String
report =
    "# 원래 목표와 실행 상태\n[종료: MAX_ITERATIONS_REACHED]\n"
    <> "# 핵심 결론\nx grows by 3 [증거: e1]\n# 목표 축별 근거\n|---|\n# 한계와 미완료 사항\n[목표: g1]"

abbrev approval : SemanticReview
approval = record {
  accepts = true;
  checked_categories = review_categories;
  reviewed_evidence_ids = "e1" ∷ [];
  findings = [];
}

abbrev report_deps : ReportDeps
report_deps = record {
  read_json = λ ref. ok (obj (field "slope" (int (pos 3)) end));
  generate_report =
      some (λ es. record { value = some report; error = none; failure_kind = none; reason = none });
  review_report = some (λ markdown es.
      ok (record { value = some approval; error = none; failure_kind = none; reason = none }));
  put_text = λ t. ref_of ArtifactKind.report "report";
  put_json = λ s. ref_of ArtifactKind.report "summary";
  numbers_in = λ t. if is_within "3" t then "3" ∷ [] else [];
  is_close = λ t v. t == "3" && is_finite v;
}

abbrev finished_run : State
finished_run = record (state_of [] []) { stop_code = some StopCode.max_iterations_reached }

report-adopted : adopted report_deps finished_run ≡ some report
unfolding adopted section_lines active_evidence evidence_data_applicability without_markers
    goal_markers stop_markers validate_semantic_review
report-adopted = refl

adopted_report_example :
    IsFaithful report_deps.numbers_in report_deps.is_close
      (support_of_run report_deps finished_run)
      report
    × IsApproved report_deps finished_run report
adopted_report_example = adopted_report report_deps finished_run report report-adopted
