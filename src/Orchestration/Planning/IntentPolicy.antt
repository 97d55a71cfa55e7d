-- ===== src/Orchestration/Planning/IntentPolicy.antt =====
-- orchestration/nodes/intent_policy.py: why a proposed intent is refused, as a reason and an advice.
use analysis_loop.Prelude.{
  String, Bool, true, false, not, ◌&&◌, ◌||◌, Option, none, some, List, [], ◌∷◌, any, filter,
  opt_eq, truthy, ltb, if◌then◌else◌, is_empty, Message, say, lit, arg, strs, ◌==◌,
}
use analysis_loop.Prelude.Sets.{contains, minus, sorted_set, leb_str}
use analysis_loop.Contracts.Base.{is_exact}
use analysis_loop.Contracts.Planning.{
  ResearchIntent, ExecutionMode, is_explore, is_challenge, is_resolve_purpose,
}
use analysis_loop.Contracts.Agenda.{AgendaTask, is_follow_up, is_resolve, is_revalidate}
use analysis_loop.Contracts.Evidence.{EvidenceRecord}
use analysis_loop.State.{
  State, InspectionEntry, LookupEntry, evidence_data_applicability, superseded_evidence_ids,
}
use analysis_loop.Orchestration.ReviewEvidence.{by_id}

abbrev pub Refusal : Type 0
Refusal = Option (Message × Message)

abbrev refuse : String → String → Refusal
refuse reason advice = some (say reason, say advice)

abbrev pub is_compute : ExecutionMode → Bool
is_compute ExecutionMode.compute = true
is_compute _ = false

abbrev pub is_mark : ExecutionMode → Bool
is_mark ExecutionMode.mark_data_limited = true
is_mark _ = false

abbrev pub text_or_empty : Option String → String
text_or_empty none = ""
text_or_empty (some t) = t

unfoldable pub agenda_intent_error : AgendaTask → ResearchIntent → Refusal
unfolding sorted_set
agenda_intent_error task intent =
    if is_resolve task.kind && not (is_resolve_purpose intent.purpose)
    then refuse "모순 해소 작업의 purpose가 맞지 않는다"
        "resolve_contradiction task는 purpose=resolve_contradiction이어야 한다"
    else if is_follow_up task.kind && is_explore intent.purpose
    then refuse "후속 작업을 새 탐색으로 처리했다" "follow_up task는 deepen 또는 challenge 목적을 사용하라"
    else if is_revalidate task.kind && not (is_challenge intent.purpose)
    then refuse "재검증 작업을 강건성 확인이 아닌 다른 목적으로 처리했다" "revalidate task는 purpose=challenge이어야 한다"
    else if not (is_compute intent.execution_mode || is_mark intent.execution_mode)
    then refuse "Agenda 작업은 새 Evidence 또는 명시적 data_limited 판정으로 닫아야 한다"
        "task_id가 있으면 execution_mode=compute 또는 mark_data_limited를 사용하라"
    else if is_mark intent.execution_mode && ltb task.attempt_count 1
    then refuse "시도하지 않은 Agenda 작업을 data_limited로 닫으려 했다"
        "먼저 task를 compute로 실제 시도한 뒤 data_limited를 판단하라"
    else if truthy task.goal_id && not (opt_eq intent.goal_id task.goal_id)
    then some (
      say "Agenda 작업과 다른 목표 축을 선택했다",
      lit "task_id="
          ∷ arg task.task_id
          ∷ lit "는 goal_id="
          ∷ arg (text_or_empty task.goal_id)
          ∷ lit "에 속한다"
          ∷ [],
    )
    else if not (is_empty (minus task.source_evidence_ids intent.parent_evidence_ids))
    then some (
      say "Agenda 출처 근거를 부모 근거로 연결하지 않았다",
      lit "parent_evidence_ids에 "
          ∷ strs (sorted_set (minus task.source_evidence_ids intent.parent_evidence_ids))
          ∷ lit "를 포함하라"
          ∷ [],
    )
    else none

-- `sorted`: unlike `sorted_set`, it keeps what stands twice.
insert_sorted : String → List String → List String
insert_sorted a [] = a ∷ []
insert_sorted a (x ∷ xs) = if leb_str a x then a ∷ x ∷ xs else x ∷ insert_sorted a xs

sorted : List String → List String
unfolding insert_sorted
sorted [] = []
sorted (x ∷ xs) = insert_sorted x (sorted xs)

eq_strings : List String → List String → Bool
eq_strings [] [] = true
eq_strings (x ∷ xs) (y ∷ ys) = x == y && eq_strings xs ys
eq_strings _ _ = false

-- The columns were inspected before.
was_inspected : List InspectionEntry → List String → Bool
unfolding sorted eq_strings
was_inspected history columns = any (λ e. eq_strings (sorted e.columns) columns) history

-- The lookup was made before.
was_looked_up : List LookupEntry → Option String → List String → List String → Bool
unfolding eq_strings
was_looked_up history goal columns parents =
    any (λ e. opt_eq e.goal_id goal && eq_strings e.columns columns && eq_strings e.parents parents)
      history

repeated_error : ExecutionMode → State → ResearchIntent → Refusal
unfolding sorted_set was_inspected was_looked_up
repeated_error ExecutionMode.inspect_data s intent =
    let key = sorted_set intent.candidate_columns in
    if was_inspected s.inspection_history key
    then some (say "같은 컬럼 조합을 이미 점검했다", lit "inspect_data 반복 금지: " ∷ strs key ∷ [])
    else none
repeated_error ExecutionMode.lookup_evidence s intent =
    let columns = sorted_set intent.candidate_columns in
    let parents = sorted_set intent.parent_evidence_ids in
    if was_looked_up s.evidence_lookup_history intent.goal_id columns parents
    then some (
      say "같은 조건으로 Evidence를 이미 조회했다",
      lit "lookup_evidence 반복 금지: " ∷ strs columns ∷ strs parents ∷ [],
    )
    else none
repeated_error _ s intent = none

unfoldable pub repeated_action_error : State → ResearchIntent → Refusal
unfolding repeated_error
repeated_action_error s intent = repeated_error intent.execution_mode s intent

-- A known evidence that the current dataset does not have exactly.
abbrev is_stale : State → Option EvidenceRecord → Bool
is_stale s none = false
is_stale s (some e) = not (is_exact (evidence_data_applicability s e))

stale_ids : State → List String → List String
unfolding by_id
stale_ids s ids = filter (λ id. is_stale s (by_id s.evidence id none)) ids

unfoldable pub reuse_evidence_error : State → ResearchIntent → Refusal
unfolding sorted_set stale_ids
reuse_evidence_error s intent =
    let obsolete =
      filter (λ id. contains (superseded_evidence_ids s) id) intent.reuse_evidence_ids in
    let stale = stale_ids s intent.reuse_evidence_ids in
    if not (is_empty obsolete)
    then some (
      say "superseded Evidence를 재사용하려 했다",
      lit "현재 결론에서 대체된 Evidence는 재사용할 수 없다: " ∷ strs (sorted_set obsolete) ∷ [],
    )
    else if not (is_empty stale)
    then some (
      say "현재 데이터 스냅샷과 다른 Evidence를 직접 재사용하려 했다",
      lit "다른 데이터 버전의 Evidence는 reuse_evidence가 아니라 재검증 대상으로 사용하라: " ∷ strs stale ∷ [],
    )
    else none
