-- ===== src/Orchestration/Progress/Repair.antt =====
-- orchestration/nodes/progress.py: the repair of the agenda is complete and keeps every task.
use analysis_loop.Prelude.{
  ℕ, ◌+◌, String, ◌≡◌, ◌≢◌, refl, sym, true, false, not, none, some, List, [], ◌∷◌, ◌++◌, ◌==◌,
  filter, All, All-map, All-append, any-append, All-filter, subst, eq_iff, arith, Bool-cases, inl,
  inr, is_empty, ◌<>◌,
}
use analysis_loop.Prelude.Sets.{unique}
use analysis_loop.Prelude.Order.{append-ne-empty}
use analysis_loop.Contracts.Agenda.{AgendaTask}
use analysis_loop.Contracts.Agenda.Validity.{IsConsistent}
use analysis_loop.Contracts.Evidence.{EvidenceRecord}
use analysis_loop.State.{State, unresolved_contradictions}
use analysis_loop.State.Conflicts.Distinct.{HasTwoEnds, AreDifferent, unresolved-AreDifferent}
use analysis_loop.Orchestration.Progress.Defs.{
  covers, is_covered, missing_pairs, contradiction_task, repair_tasks, repair_contradiction_agenda,
}

abbrev Pairs : Type 0
Pairs = List (String × String)

contradiction_task-covers :
    (evidence : List EvidenceRecord) (id a b : String)
    → covers a b (contradiction_task evidence id a b) ≡ true
unfolding contradiction_task
contradiction_task-covers evidence id a b = ground (arith, eq_iff a a, eq_iff b b)

abbrev Covered : List AgendaTask → String × String → Type 0
Covered agenda p = is_covered agenda p ≡ true

cover-tail :
    (t : AgendaTask) (ts : List AgendaTask) (p : String × String)
    → Covered ts p
    → Covered (t ∷ ts) p
cover-tail t ts (a, b) h = ground arith

-- Each pair of the list gets a task that covers it.
repair_tasks-cover :
    (uuid : ℕ → String) (n : ℕ) (evidence : List EvidenceRecord) (ps : Pairs)
    → All (Covered (repair_tasks uuid n evidence ps)) ps
unfolding repair_tasks
repair_tasks-cover uuid n evidence [] = tt
repair_tasks-cover uuid n evidence ((a, b) ∷ ps) =
    let rest = repair_tasks uuid (n + 1) evidence ps in
    let t = contradiction_task evidence (uuid n) a b in
    (
      ground (arith, contradiction_task-covers evidence (uuid n) a b),
      All-map (Covered rest) (Covered (t ∷ rest)) (cover-tail t rest) ps
          (repair_tasks-cover uuid (n + 1) evidence ps),
    )

abbrev uncovered : List AgendaTask → Pairs → Pairs
uncovered agenda ps = filter (λ p. not (is_covered agenda p)) ps

-- With tasks for all that is uncovered nothing is left uncovered.
nothing_uncovered :
    (agenda tasks : List AgendaTask) (ps : Pairs)
    → All (Covered tasks) (uncovered agenda ps)
    → uncovered (agenda ++ tasks) ps ≡ []
nothing_uncovered agenda tasks [] h = refl
nothing_uncovered agenda tasks ((a, b) ∷ ps) h = elim (Bool-cases (is_covered agenda (a, b))) [
  | inl old ↦
      ground (arith, any-append (covers a b) agenda tasks, nothing_uncovered agenda tasks ps)
  | inr new ↦
      ground (arith, any-append (covers a b) agenda tasks, nothing_uncovered agenda tasks ps)
]

-- When the repair returns an agenda, some open contradiction had no pending task; the agenda is the
-- old one with new tasks behind it, and with it every open contradiction has a pending task.
pub repair_complete :
    (uuid : ℕ → String) (s : State) {agenda : List AgendaTask}
    → repair_contradiction_agenda uuid s ≡ some agenda
    → (missing_pairs s ≢ [])
      × (agenda ≡ s.agenda ++ repair_tasks uuid 0 s.evidence (missing_pairs s))
      × (missing_pairs (record s { agenda = agenda }) ≡ [])
unfolding repair_contradiction_agenda unresolved_contradictions
repair_complete uuid s {agenda} h = elim (Bool-cases (is_empty (missing_pairs s))) [
  | inl none_missing ↦ ground arith
  | inr some_missing ↦
      let tasks = repair_tasks uuid 0 s.evidence (missing_pairs s) in
      let e : agenda ≡ s.agenda ++ tasks = ground arith in
      (
        ground arith,
        e,
        subst (λ a. missing_pairs (record s { agenda = a }) ≡ []) (sym e)
            (nothing_uncovered s.agenda tasks (unresolved_contradictions s)
              (repair_tasks-cover uuid 0 s.evidence (missing_pairs s))),
      )
]

-- When it returns none, every open contradiction has a pending task already.
pub repair_none :
    (uuid : ℕ → String) (s : State)
    → repair_contradiction_agenda uuid s ≡ none
    → missing_pairs s ≡ []
unfolding repair_contradiction_agenda
repair_none uuid s h = elim (Bool-cases (is_empty (missing_pairs s))) [
  | inl none_missing ↦ ground arith
  | inr some_missing ↦ ground arith
]

contradiction_task-IsConsistent :
    (evidence : List EvidenceRecord) (id a b : String)
    → (a == b) ≡ false
    → IsConsistent (contradiction_task evidence id a b)
unfolding contradiction_task unique
contradiction_task-IsConsistent evidence id a b h = record {
  asks = append-ne-empty "Evidence " (a <> "와 " <> b <> "의 모순을 해소한다") refl;
  ranked = omega arith;
  sourced = λ e. cc;
  paired = λ e. ground arith;
  selected = λ e. cc;
  closed = λ e. cc;
  attempted = λ e. cc;
  explained = λ e. cc;
}

repair_tasks-IsConsistent :
    (uuid : ℕ → String) (n : ℕ) (evidence : List EvidenceRecord) (ps : Pairs)
    → All AreDifferent ps
    → All IsConsistent (repair_tasks uuid n evidence ps)
unfolding repair_tasks
repair_tasks-IsConsistent uuid n evidence [] h = tt
repair_tasks-IsConsistent uuid n evidence ((a, b) ∷ ps) h = (
  contradiction_task-IsConsistent evidence (uuid n) a b h.0,
  repair_tasks-IsConsistent uuid (n + 1) evidence ps h.1,
)

-- The repair keeps the agenda valid: the next read of it does not raise.
pub repair-IsConsistent :
    (uuid : ℕ → String) (s : State) {agenda : List AgendaTask}
    → All IsConsistent s.agenda
    → All HasTwoEnds s.evidence_relations
    → repair_contradiction_agenda uuid s ≡ some agenda
    → All IsConsistent agenda
repair-IsConsistent uuid s {agenda} ts rs h =
    subst (All IsConsistent) (sym (repair_complete uuid s h).1) (
      All-append IsConsistent s.agenda (repair_tasks uuid 0 s.evidence (missing_pairs s)) ts (
        repair_tasks-IsConsistent uuid 0 s.evidence (missing_pairs s) (
          All-filter AreDifferent (λ p. not (is_covered s.agenda p)) (unresolved_contradictions s)
            (unresolved-AreDifferent s rs))))
