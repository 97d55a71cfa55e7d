-- ===== src/Orchestration/Execution/Delta.antt =====
-- orchestration/execution_graph.py and graph.py: what the subgraph hands back to the main graph.
use mathlib.Core.List.{append-nil}
use analysis_loop.Prelude.{
  ℕ, String, ◌≡◌, refl, sym, ap, ◌∙◌, subst, false, none, List, [], ◌∷◌, ◌++◌, ok, arith,
  if◌then◌else◌, is_empty, length, ltb, length-append, drop-append,
}
use analysis_loop.Contracts.Agenda.{EvidenceRelation}
use analysis_loop.Contracts.Evidence.{EvidenceRecord, RejectedAttempt}
use analysis_loop.Contracts.Runtime.{LoopIssue}
use analysis_loop.State.{State, Assign, Update, apply}
use analysis_loop.State.Updates.{apply-append}
use analysis_loop.Orchestration.Routes.{Node}
use analysis_loop.Orchestration.Execution.Deps.{Deps}
use analysis_loop.Orchestration.Execution.Graph.{
  run, ended, capture_execution_entry, appended, result_fields, export_execution_delta,
  apply_execution_delta,
}
use analysis_loop.Orchestration.Execution.Local.{
  merge, Suffix, Extends, Extends-refl, EndExtends, run-Extends,
}

-- The part of the delta for one list: none when nothing was appended.
abbrev grown : {A : Type 0} → List A → (List A → Assign) → Update
grown zs assignment = if is_empty zs then [] else assignment zs ∷ []

not_shorter : {A : Type 0} (xs zs : List A) → ltb (length (xs ++ zs)) (length xs) ≡ false
not_shorter xs zs = ground (arith, length-append xs zs)

-- A list that has grown since the entry gives the part that was appended.
appended_lem :
    {A : Type 0} (key : String) (xs ys : List A) (assignment : List A → Assign) (h : Suffix xs ys)
    → appended key (length xs) ys assignment ≡ ok (grown h.0 assignment)
unfolding appended
appended_lem key xs ys assignment (zs, h) = rw (h, not_shorter xs zs, drop-append xs zs)

module _ (t : State) where
  grown-evidence :
      (zs : List EvidenceRecord)
      → apply t (grown zs Assign.evidence) ≡ record t { evidence = t.evidence ++ zs }
  grown-evidence [] = ap (λ l. record t { evidence = l }) (sym (append-nil t.evidence))
  grown-evidence (z ∷ zs) = refl

  grown-relations :
      (zs : List EvidenceRelation)
      → apply t (grown zs Assign.evidence_relations)
        ≡ record t { evidence_relations = t.evidence_relations ++ zs }
  grown-relations [] =
      ap (λ l. record t { evidence_relations = l }) (sym (append-nil t.evidence_relations))
  grown-relations (z ∷ zs) = refl

  grown-rejected :
      (zs : List RejectedAttempt)
      → apply t (grown zs Assign.rejected) ≡ record t { rejected = t.rejected ++ zs }
  grown-rejected [] = ap (λ l. record t { rejected = l }) (sym (append-nil t.rejected))
  grown-rejected (z ∷ zs) = refl

  grown-issues :
      (zs : List LoopIssue)
      → apply t (grown zs Assign.issues) ≡ record t { issues = t.issues ++ zs }
  grown-issues [] = ap (λ l. record t { issues = l }) (sym (append-nil t.issues))
  grown-issues (z ∷ zs) = refl

grown_all :
    (t : State) (a : List EvidenceRecord) (b : List EvidenceRelation) (c : List RejectedAttempt)
    (d : List LoopIssue)
    → apply t (
        grown a Assign.evidence
        ++ (grown b Assign.evidence_relations
            ++ (grown c Assign.rejected ++ grown d Assign.issues)))
      ≡ record t {
        evidence = t.evidence ++ a;
        evidence_relations = t.evidence_relations ++ b;
        rejected = t.rejected ++ c;
        issues = t.issues ++ d;
      }
grown_all t a b c d =
    let g1 = grown a Assign.evidence in
    let g2 = grown b Assign.evidence_relations in
    let g3 = grown c Assign.rejected in
    let g4 = grown d Assign.issues in
    let t1 = record t { evidence = t.evidence ++ a } in
    let t2 = record t1 { evidence_relations = t.evidence_relations ++ b } in
    let t3 = record t2 { rejected = t.rejected ++ c } in
    apply-append t g1 (g2 ++ (g3 ++ g4))
    ∙ ap (λ x. apply x (g2 ++ (g3 ++ g4))) (grown-evidence t a)
    ∙ apply-append t1 g2 (g3 ++ g4)
    ∙ ap (λ x. apply x (g3 ++ g4)) (grown-relations t1 b)
    ∙ apply-append t2 g3 g4
    ∙ ap (λ x. apply x g4) (grown-rejected t2 c)
    ∙ grown-issues t3 d

-- The delta of a state that extends `s`.
delta : (s f : State) → Extends s f → Update
delta s f h =
    result_fields f
    ++ (grown h.1.0 Assign.evidence
        ++ (grown h.2.0 Assign.evidence_relations
            ++ (grown h.3.0 Assign.rejected ++ grown h.4.0 Assign.issues)))

export_lem :
    (s f : State) (h : Extends s f)
    → export_execution_delta (capture_execution_entry s) f ≡ ok (delta s f h)
unfolding export_execution_delta delta
export_lem s f h =
    let e1 = appended_lem "evidence" s.evidence f.evidence Assign.evidence h.1 in
    let e2 =
      appended_lem "evidence_relations" s.evidence_relations f.evidence_relations
        Assign.evidence_relations h.2 in
    let e3 = appended_lem "rejected" s.rejected f.rejected Assign.rejected h.3 in
    let e4 = appended_lem "issues" s.issues f.issues Assign.issues h.4 in rw (e1, e2, e3, e4)

-- Applied to `s`, the delta gives the exported keys of the child's state.
apply_lem : (s f : State) (h : Extends s f) → apply_execution_delta s (delta s f h) ≡ merge s f
unfolding delta
apply_lem s f h =
    let clear : State → State = λ t. record t { execution_delta = none } in
    let given : State = apply s (result_fields f) in
    ap clear (
      apply-append s (result_fields f) (
        grown h.1.0 Assign.evidence
        ++ (grown h.2.0 Assign.evidence_relations
            ++ (grown h.3.0 Assign.rejected ++ grown h.4.0 Assign.issues)))
      ∙ grown_all given h.1.0 h.2.0 h.3.0 h.4.0)
    ∙ rw (sym h.1.1, sym h.2.1, sym h.3.1, sym h.4.1)

-- Where a run of the subgraph ends, the export does not raise, and the main graph, once it has applied
-- the delta to its own state, is in the state that the subgraph ended in, with no delta left: no change
-- is lost, and nothing is appended twice.
pub delta_round_trip :
    (world : ℕ → Deps) (n : ℕ) (s f : State)
    → run n world 0 Node.lookup_program s ≡ ended f
    → (d : Update) × (export_execution_delta (capture_execution_entry s) f ≡ ok d)
      × (apply_execution_delta s d ≡ record f { execution_delta = none })
delta_round_trip world n s f h =
    let extends : Extends s f =
      subst (EndExtends s) h (run-Extends world s n 0 Node.lookup_program s (Extends-refl s)) in
    (delta s f extends, export_lem s f extends, apply_lem s f extends ∙ sym (extends.0 f))
