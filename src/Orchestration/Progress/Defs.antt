-- ===== src/Orchestration/Progress/Defs.antt =====
-- orchestration/nodes/progress.py.
use analysis_loop.Prelude.{
  ℕ, ◌+◌, ◌-◌, String, Bool, not, ◌&&◌, ◌||◌, Option, none, some, List, [], ◌∷◌, ◌++◌, ◌==◌,
  if◌then◌else◌, any, filter, count, length, is_empty, is_some, leb, ltb, leb_ℤ, ltb_ℤ, pos, take,
  ◌<>◌, opt_eq, truthy, Message, lit, arg, num, int, say, Result, ok, err, assertion,
}
use analysis_loop.Prelude.Sets.{same_set}
use analysis_loop.Contracts.Planning.{SubGoal, is_converged_status, is_abandoned_status}
use analysis_loop.Contracts.Agenda.{
  AgendaTask, TaskKind, pending, is_pending, is_resolve, is_data_limited,
}
use analysis_loop.Contracts.Evidence.{EvidenceRecord}
use analysis_loop.Contracts.Runtime.{completed, is_terminal, StopCode, ServiceResult}
use analysis_loop.State.{
  State, Assign, Update, terminal, all_goals_closed, pending_agenda_tasks, remaining_seconds,
  unresolved_contradictions,
}

abbrev pub max_goal_expansions : ℕ
max_goal_expansions = 5

-- 90 seconds, in microseconds.
abbrev pub min_seconds_for_expansion : ℕ
min_seconds_for_expansion = 90_000_000

-- `frozenset(pair) in covered`.
abbrev pub covers : String → String → AgendaTask → Bool
covers a b t =
    is_resolve t.kind && is_pending t.status && same_set t.source_evidence_ids (a ∷ b ∷ [])

abbrev pub is_covered : List AgendaTask → String × String → Bool
is_covered agenda (a, b) = any (covers a b) agenda

abbrev pub missing_pairs : State → List (String × String)
missing_pairs s = filter (λ p. not (is_covered s.agenda p)) (unresolved_contradictions s)

-- `evidence_by_id.get(id)`, the last record of an id, and its goal.
goal_of : List EvidenceRecord → String → Option String → Option String
goal_of [] a found = found
goal_of (e ∷ es) a found = goal_of es a (if e.evidence_id == a then e.goal_id else found)

-- `left_goal if left_goal == right_goal else (left_goal or right_goal)`.
abbrev pub choose_goal : Option String → Option String → Option String
choose_goal left right = if opt_eq left right then left else if truthy left then left else right

-- The task that `repair_contradiction_agenda` adds for one pair, `task_id` from `uuid4`.
unfoldable pub contradiction_task : List EvidenceRecord → String → String → String → AgendaTask
unfolding goal_of
contradiction_task evidence task_id left right = record {
  task_id = task_id;
  kind = TaskKind.resolve_contradiction;
  goal_id = choose_goal (goal_of evidence left none) (goal_of evidence right none);
  question = "Evidence " <> left <> "와 " <> right <> "의 모순을 해소한다";
  rationale = "Evidence graph에 미해결 contradiction 관계가 남아 있다";
  priority = 100;
  source_evidence_ids = left ∷ right ∷ [];
  status = pending;
  selected_intent_id = none;
  attempt_count = 0;
  completion_evidence_id = none;
  resolution_reason = "";
}

-- The loop over the missing pairs; `uuid n` is the n-th id that is drawn.
unfoldable pub repair_tasks :
    (ℕ → String) → ℕ → List EvidenceRecord → List (String × String) → List AgendaTask
unfolding contradiction_task
repair_tasks uuid n evidence [] = []
repair_tasks uuid n evidence ((left, right) ∷ pairs) =
    contradiction_task evidence (uuid n) left right ∷ repair_tasks uuid (n + 1) evidence pairs

-- The agenda with the missing tasks, or none when no pair is missing.
unfoldable pub repair_contradiction_agenda : (ℕ → String) → State → Option (List AgendaTask)
unfolding repair_tasks
repair_contradiction_agenda uuid s =
    if is_empty (missing_pairs s)
    then none
    else some (s.agenda ++ repair_tasks uuid 0 s.evidence (missing_pairs s))

repair_update : Option (List AgendaTask) → Update → Update
repair_update none otherwise = otherwise
repair_update (some agenda) otherwise = Assign.agenda agenda ∷ []

-- The last tests of `assess_progress`, when every goal is closed.
expansion_update : ℕ → State → Update
expansion_update now s =
    if not (all_goals_closed s)
    then []
    else if ltb_ℤ (remaining_seconds now s) (pos min_seconds_for_expansion)
    then terminal completed StopCode.budget_exhausted (
        lit "현재 목표 축은 닫혔지만 추가 분석 가치 판단에 필요한 시간 예산이 부족하다(남은 "
        ∷ int (remaining_seconds now s)
        ∷ lit "초)"
        ∷ [])
    else if leb max_goal_expansions s.goal_expansions
    then terminal completed StopCode.expansion_limit_reached
        (lit "목표 축은 닫혔지만 추가 축 확장 안전 상한 " ∷ num max_goal_expansions ∷ lit "회에 도달했다" ∷ [])
    else []

-- `assess_progress`: time, iterations, agenda, contradictions, goals, in this order. The clock
-- is read twice, the second time when every goal is closed.
unfoldable pub assess_progress : (ℕ → String) → ℕ → ℕ → State → Update
unfolding repair_contradiction_agenda repair_update expansion_update
assess_progress uuid now later s =
    if is_terminal s.status
    then []
    else if leb_ℤ (remaining_seconds now s) (pos 0)
    then terminal completed StopCode.budget_exhausted (say "시간 예산 소진")
    else if leb s.max_iterations s.iteration
    then terminal completed StopCode.max_iterations_reached
        (lit "최대 " ∷ num s.max_iterations ∷ lit "회 분석 완료" ∷ [])
    else if not (is_empty (pending_agenda_tasks s))
    then []
    else repair_update (repair_contradiction_agenda uuid s) (expansion_update later s)

abbrev converged_count : List SubGoal → ℕ
converged_count goals = count (λ g. is_converged_status g.status) goals

abbrev abandoned_count : List SubGoal → ℕ
abandoned_count goals = count (λ g. is_abandoned_status g.status) goals

abbrev limited_count : State → ℕ
limited_count s = count (λ t. is_data_limited t.status) s.agenda

-- `f"목표 축 {len(goals)}개 처리(수렴 {converged} / 포기 {abandoned})"`.
goal_summary : State → Message
goal_summary s =
    lit "목표 축 "
    ∷ num (length s.sub_goals)
    ∷ lit "개 처리(수렴 "
    ∷ num (converged_count s.sub_goals)
    ∷ lit " / 포기 "
    ∷ num (abandoned_count s.sub_goals)
    ∷ lit ")"
    ∷ []

unfoldable pub terminal_after_expansion : State → Message → Update
unfolding goal_summary
terminal_after_expansion s suffix =
    if ltb 0 (abandoned_count s.sub_goals) || ltb 0 (limited_count s)
    then terminal completed StopCode.data_limited
        (goal_summary s ++ (lit " — 데이터 한계 작업 " ∷ num (limited_count s) ∷ lit "개" ∷ suffix))
    else terminal completed StopCode.goal_satisfied (goal_summary s ++ suffix)

-- `summary()` of `expand_goals`.
expansion_summary : State → Message
expansion_summary s =
    lit "목표 축 "
    ∷ num (length s.sub_goals)
    ∷ lit "개를 모두 처리했다(수렴 "
    ∷ num (converged_count s.sub_goals)
    ∷ lit " / 포기 "
    ∷ num (length s.sub_goals - converged_count s.sub_goals)
    ∷ lit ")"
    ∷ []

abbrev or_text : Option String → String → String
or_text none d = d
or_text (some t) d = if t == "" then d else t

unverified : Message → Update
unverified reason = terminal completed StopCode.service_unavailable reason

-- What is done with no new goals: a failure leaves the run unverified, a decision to stop ends it.
no_new_goals : State → ServiceResult (List SubGoal) → Update
unfolding expansion_summary unverified
no_new_goals s result =
    if is_some result.failure_kind
    then unverified
        (expansion_summary s ++ (lit " — 확장 판단 실패: " ∷ arg (or_text result.error "확장 판단 실패") ∷ []))
    else terminal_after_expansion s
        (lit " — " ∷ arg (or_text result.reason "추가 분석이 현재 결론을 실질적으로 바꿀 정보 가치를 찾지 못함") ∷ [])

abbrev pub remaining_iterations : State → ℕ
remaining_iterations s = s.max_iterations - s.iteration

-- New goals, at most as many as there are iterations left.
add_goals : State → List SubGoal → Update
add_goals s new_goals =
    if leb (remaining_iterations s) 0
    then terminal completed StopCode.max_iterations_reached (say "새 목표 축 후보가 있지만 남은 분석 회차가 없다")
    else Assign.sub_goals (s.sub_goals ++ take (remaining_iterations s) new_goals)
      ∷ Assign.goal_expansions (s.goal_expansions + 1)
      ∷ []

unfoldable pub answer_goals : State → ServiceResult (List SubGoal) → List SubGoal → Update
unfolding no_new_goals add_goals
answer_goals s result [] = no_new_goals s result
answer_goals s result (g ∷ gs) = add_goals s (g ∷ gs)

abbrev pub goals_or_none : Option (List SubGoal) → List SubGoal
goals_or_none none = []
goals_or_none (some gs) = gs

-- `expand_goals`; the planner, when there is one, answers with `result`.
unfoldable pub expand_goals : Option (ServiceResult (List SubGoal)) → State → Result Update
unfolding answer_goals
expand_goals none s = ok (unverified (expansion_summary s ++ say " — planner가 없어 확장 여부를 확인하지 못함"))
expand_goals (some result) s =
    if is_some s.profile
    then ok (answer_goals s result (goals_or_none result.value))
    else err assertion
