-- ===== src/Tests/Planning.antt =====
-- The theorems on planning and on the lookup, at a run with one task.
use analysis_loop.Prelude.{
  ℕ, zero, suc, ◌∙◌, String, ◌≡◌, ◌↔◌, refl, Bool, true, false, not, ◌&&◌, Option, none, some, [],
  ◌∷◌, All, ok, arith, is_blank, truthy, leb, ltb, ap, sym,
}
use analysis_loop.Prelude.Sets.{contains}
use analysis_loop.Contracts.Agenda.{AgendaTask, TaskKind, TaskStatus}
use analysis_loop.Contracts.Agenda.Validity.{IsConsistent}
use analysis_loop.Contracts.Planning.{
  ResearchIntent, ExecutionMode, is_open, is_converged_status, is_abandoned_status,
}
use analysis_loop.Contracts.Planning.{IntentPayload}
use analysis_loop.Contracts.Runtime.{FailureKind, is_terminal, ServiceResult, StopCode}
use analysis_loop.State.{State, Update, Assign, apply}
use analysis_loop.Orchestration.Shared.{stuck_threshold}
use analysis_loop.Orchestration.Planning.Verdicts.{
  Verdict, judge_goal, has_evidence, attempts, is_blocked, judge_goal_exact,
}
use analysis_loop.Orchestration.Planning.Nodes.{
  PlannerProposal, answer_planner, plan_intent, mark_data_limited, limit_reason, limit,
}
use analysis_loop.Orchestration.Planning.Outcome.{Outcome, plan_outcome}
use analysis_loop.Orchestration.Planning.Closing.{mark_data_limited-IsConsistent, plan-IsConsistent}
use analysis_loop.Orchestration.Planning.Stalls.{
  Unanswered, fresh, answer, silent, planner_gives_up,
}
use analysis_loop.Orchestration.Lookup.Defs.{selected}
use analysis_loop.Orchestration.Lookup.Ranking.{IsSelection, lookup_selects}
use analysis_loop.Tests.Data.{sample_profile, sample_goal, task_of, intent_of, state_of}

abbrev tried : AgendaTask
tried = task_of "t1" TaskKind.follow_up TaskStatus.pending ("e1" ∷ [])

tried-IsConsistent : IsConsistent tried
tried-IsConsistent = ground arith

abbrev idle : State
idle = state_of (tried ∷ []) []

abbrev closing : Verdict
closing = record {
  finished = false;
  converged = "g1" ∷ [];
  abandoned = [];
  unreviewed = [];
  closing_note = "done";
}

abbrev proposal : ServiceResult PlannerProposal
proposal = record {
  value = some (record { intent = some (intent_of "t1"); verdict = closing });
  error = none;
  failure_kind = none;
  reason = none;
}

plan_outcome_example :
    (u : Update) × (plan_intent (λ p. p.question) (some proposal) idle ≡ ok u)
    × Outcome (λ p. p.question) idle sample_profile proposal u
plan_outcome_example = plan_outcome (λ p. p.question) idle sample_profile proposal refl

is_named : Option ResearchIntent → Bool
is_named none = false
is_named (some i) = truthy (some i.intent_id)

named_intent :
    (i : ResearchIntent) → some (intent_of "t1") ≡ some i → truthy (some i.intent_id) ≡ true
unfolding is_named
named_intent i h = ap is_named (sym h)

plan-IsConsistent_example :
    (u : Update) × (plan_intent (λ p. p.question) (some proposal) idle ≡ ok u)
    × All IsConsistent (apply idle u).agenda
plan-IsConsistent_example =
    plan-IsConsistent (λ p. p.question) idle sample_profile proposal refl named_intent
      (tried-IsConsistent, tt)

judge_goal_exact_example :
    let h = judge_goal closing idle.evidence [] [] sample_goal in
    (h.goal_id ≡ "g1")
    × (h.question ≡ "q")
    × (h.evidence_ids ≡ [])
    × (is_open sample_goal ≡ false → h ≡ sample_goal)
    × (is_open sample_goal ≡ true
        → is_converged_status h.status ≡ (
            contains closing.converged "g1"
            && not (is_blocked closing idle.evidence [] [] "g1")
            && has_evidence closing idle.evidence [] [] "g1"))
    × (is_open sample_goal ≡ true
        → is_abandoned_status h.status ≡ (
            not (contains closing.converged "g1")
            && contains closing.abandoned "g1"
            && ltb 0 (attempts closing idle.evidence [] [] "g1")))
judge_goal_exact_example = judge_goal_exact closing idle.evidence [] [] sample_goal

abbrev limiting : ResearchIntent
limiting = record (intent_of "t1") { execution_mode = ExecutionMode.mark_data_limited }

abbrev stopped : State
stopped = record idle { intent = some limiting }

marked :
    mark_data_limited stopped
    ≡ ok (Assign.agenda (limit "t1" "q" tried ∷ []) ∷ Assign.intent none ∷ [])
unfolding mark_data_limited
marked = refl

mark_data_limited-IsConsistent_example :
    All IsConsistent (limit "t1" "q" tried ∷ []) ↔ (is_blank (limit_reason limiting) ≡ false)
mark_data_limited-IsConsistent_example =
    mark_data_limited-IsConsistent stopped limiting
      (Assign.agenda (limit "t1" "q" tried ∷ []) ∷ Assign.intent none ∷ []) refl marked
      (tried-IsConsistent, tt)

abbrev unread : ServiceResult PlannerProposal
unread = record {
  value = none;
  error = some "no JSON";
  failure_kind = some FailureKind.response_invalid;
  reason = none;
}

abbrev told : IntentPayload → String
told payload = payload.question

abbrev after_answer : State → State
after_answer s = apply s (answer_planner told s sample_profile unread)

once_more :
    (n : ℕ) (s : State)
    → s.profile ≡ some sample_profile
    → Unanswered told n s
    → Unanswered told (suc n) (after_answer s)
unfolding plan_intent
once_more n s e h =
    answer n s sample_profile unread (answer_planner told s sample_profile unread) h e
      (silent refl refl refl) (ground (arith, e))

abbrev unanswered : ℕ → State
unanswered zero = idle
unanswered (suc n) = after_answer (unanswered n)

kept_profile : (s : State) → (after_answer s).profile ≡ s.profile
unfolding answer_planner
kept_profile s = ground arith

reached :
    (n : ℕ) → ((unanswered n).profile ≡ some sample_profile) × Unanswered told n (unanswered n)
reached zero = (refl, fresh idle refl refl)
reached (suc n) =
    let (e, h) = reached n in (kept_profile (unanswered n) ∙ e, once_more n (unanswered n) e h)

planner_gives_up_example :
    (is_terminal (unanswered 5).status ≡ leb stuck_threshold 5)
    × (leb stuck_threshold 5 ≡ true → (unanswered 5).stop_code ≡ some StopCode.planner_stuck)
planner_gives_up_example = planner_gives_up told 5 (unanswered 5) (reached 5).1

lookup_selects_example : IsSelection idle (intent_of "t1") (selected idle (intent_of "t1"))
lookup_selects_example = lookup_selects idle (intent_of "t1")
