-- ===== src/Orchestration/Planning/Closing.antt =====
-- orchestration/nodes/planning.py: what closes a task for want of data, and what takes one up.
use analysis_loop.Prelude.{
  ◌≡◌, ◌↔◌, refl, String, true, false, ◌&&◌, Option, none, some, List, [], ◌∷◌, map, any, All,
  All-if, subst, sym, Bool-cases, inl, inr, ok, arith, is_blank, truthy, ltb, ◌==◌,
}
use analysis_loop.Contracts.Planning.{ResearchIntent, IntentPayload}
use analysis_loop.Contracts.Agenda.{AgendaTask}
use analysis_loop.Contracts.Agenda.Validity.{IsConsistent}
use analysis_loop.Contracts.Runtime.{ServiceResult}
use analysis_loop.Contracts.Data.{DatasetProfile}
use analysis_loop.Orchestration.Planning.IntentPolicy.{is_compute}
use analysis_loop.Orchestration.Planning.Outcome.{taken_up, plan_outcome}
use analysis_loop.State.{State, Update, apply}
use analysis_loop.Orchestration.Planning.Nodes.{
  PlannerProposal, proposed_intent, plan_intent, claim, limit, limit_reason, mark_data_limited,
}

claim-IsConsistent :
    (i : ResearchIntent) (t : AgendaTask)
    → truthy (some i.intent_id) ≡ true
    → IsConsistent t
    → IsConsistent (claim i t)
claim-IsConsistent i t h c = ground arith

limit-IsConsistent :
    (id reason : String) (t : AgendaTask)
    → is_blank reason ≡ false
    → (t.task_id == id && ltb t.attempt_count 1) ≡ false
    → IsConsistent t
    → IsConsistent (limit id reason t)
unfolding limit
limit-IsConsistent id reason t b a c = ground arith

limits-IsConsistent :
    (id reason : String) (ts : List AgendaTask)
    → is_blank reason ≡ false
    → any (λ t. t.task_id == id && ltb t.attempt_count 1) ts ≡ false
    → All IsConsistent ts
    → All IsConsistent (map (limit id reason) ts)
limits-IsConsistent id reason [] b a c = tt
limits-IsConsistent id reason (t ∷ ts) b a c = (
  limit-IsConsistent id reason t b (ground arith) c.0,
  limits-IsConsistent id reason ts b (ground arith) c.1,
)

-- A task that is closed without a reason is refused at the next read.
limits-blank :
    (id reason : String) (ts : List AgendaTask)
    → is_blank reason ≡ true
    → any (λ t. t.task_id == id) ts ≡ true
    → All IsConsistent (map (limit id reason) ts)
    → ⊥
unfolding limit
limits-blank id reason [] b a c = ground arith
limits-blank id reason (t ∷ ts) b a c = elim (Bool-cases (t.task_id == id)) [
  | inl own ↦ ground arith
  | inr other ↦ limits-blank id reason ts b (ground arith) c.1
]

mark_ok :
    (s : State) (i : ResearchIntent) (id : String) (u : Update)
    → s.intent ≡ some i
    → i.task_id ≡ some id
    → mark_data_limited s ≡ ok u
    → (any (λ t. t.task_id == id && ltb t.attempt_count 1) s.agenda ≡ false)
      × (any (λ t. t.task_id == id) s.agenda ≡ true)
      × ((apply s u).agenda ≡ map (limit id (limit_reason i)) s.agenda)
unfolding mark_data_limited
mark_ok s i id u h k m = ground arith

mark_none :
    (s : State) (i : ResearchIntent) (u : Update)
    → s.intent ≡ some i
    → i.task_id ≡ none
    → mark_data_limited s ≡ ok u
    → ⊥
unfolding mark_data_limited
mark_none s i u h k m = ground arith

mark_by_task :
    (s : State) (i : ResearchIntent) (u : Update) (o : Option String)
    → i.task_id ≡ o
    → s.intent ≡ some i
    → mark_data_limited s ≡ ok u
    → All IsConsistent s.agenda
    → All IsConsistent (apply s u).agenda ↔ (is_blank (limit_reason i) ≡ false)
mark_by_task s i u none k h m c = absurd (mark_none s i u h k m)
mark_by_task s i u (some id) k h m c =
    let (early, found, agenda) = mark_ok s i id u h k m in
    (
      λ after. elim (Bool-cases (is_blank (limit_reason i))) [
        | inl blank ↦ absurd (
            limits-blank id (limit_reason i) s.agenda blank found
              (subst (All IsConsistent) agenda after))
        | inr filled ↦ filled
      ],
      λ filled.
          subst (All IsConsistent) (sym agenda)
            (limits-IsConsistent id (limit_reason i) s.agenda filled early c),
    )

-- When `mark_data_limited` returns, it has closed a task that was attempted; the agenda passes the checks
-- of the next read exactly when the reason, the intent's rationale or else its question, is not blank.
pub mark_data_limited-IsConsistent :
    (s : State) (i : ResearchIntent) (u : Update)
    → s.intent ≡ some i
    → mark_data_limited s ≡ ok u
    → All IsConsistent s.agenda
    → All IsConsistent (apply s u).agenda ↔ (is_blank (limit_reason i) ≡ false)
mark_data_limited-IsConsistent s i u h m c = mark_by_task s i u i.task_id refl h m c

claims-IsConsistent :
    (i : ResearchIntent) (ts : List AgendaTask)
    → truthy (some i.intent_id) ≡ true
    → All IsConsistent ts
    → All IsConsistent (map (claim i) ts)
claims-IsConsistent i [] h c = tt
claims-IsConsistent i (t ∷ ts) h c = (claim-IsConsistent i t h c.0, claims-IsConsistent i ts h c.1)

taken_up-IsConsistent :
    (s : State) (i : ResearchIntent)
    → truthy (some i.intent_id) ≡ true
    → All IsConsistent s.agenda
    → All IsConsistent (taken_up s i)
taken_up-IsConsistent s i h c =
    All-if IsConsistent (truthy i.task_id && is_compute i.execution_mode) (map (claim i) s.agenda)
      s.agenda (claims-IsConsistent i s.agenda h c) c

-- With a planner and a profile, `plan_intent` keeps the agenda valid, if every intent has an id.
pub plan-IsConsistent :
    (digest : IntentPayload → String) (s : State) (p : DatasetProfile)
    (result : ServiceResult PlannerProposal)
    → s.profile ≡ some p
    → ((i : ResearchIntent)
        → proposed_intent result.value ≡ some i
        → truthy (some i.intent_id) ≡ true)
    → All IsConsistent s.agenda
    → (u : Update) × (plan_intent digest (some result) s ≡ ok u)
      × All IsConsistent (apply s u).agenda
plan-IsConsistent digest s p result h ids c =
    let (u, returns, outcome) = plan_outcome digest s p result h in
    (
      u,
      returns,
      elim outcome [
        | inl none_set ↦ subst (All IsConsistent) (sym none_set.2) c
        | inr (i, named, st) ↦
            subst (All IsConsistent) (sym st.agenda) (taken_up-IsConsistent s i (ids i named) c)
      ],
    )
