-- ===== src/Report/Checks.antt =====
-- report_validation.py: validate_report.
use analysis_loop.Prelude.{
  ℕ, String, Bool, true, false, not, ◌&&◌, ◌||◌, Option, none, some, List, [], ◌∷◌, ◌++◌, map, any,
  all, filter, if◌then◌else◌, ◌==◌, ◌<>◌, Message, lit, arg, num, strs, say, is_empty, codes, eqb,
  strip, is_some, truthy,
}
use analysis_loop.Prelude.Sets.{contains, minus, sorted_set}
use analysis_loop.Json.{
  Json, Items, nil, cons, Fields, end, field, obj, arr, int, float, Float, is_finite, as_float,
}
use analysis_loop.Contracts.Agenda.{EvidenceRelation, RelationKind}
use analysis_loop.Contracts.Evidence.{EvidenceRecord}
use analysis_loop.Report.Markers.{
  citations, goal_markers, task_markers, stop_markers, without_markers, Line, section_lines,
  required_sections, cited_sections,
}

-- What the report is checked against.
pub record Support : Type 0 where
  pub evidence : List EvidenceRecord
  pub relations : List EvidenceRelation
  pub allowed_evidence_ids : Option (List String)
  pub numeric_support : Option (List (String × List Float))
  pub stop_code : Option String
  pub incomplete_goal_ids : List String
  pub pending_task_ids : List String
  pub unresolved_contradictions : List (String × String)

mutual
  -- `_numeric_values`: the finite numbers of a value, at any depth.
  pub numeric_values : Json → List Float
  numeric_values (int z) = as_float z ∷ []
  numeric_values (float f) = if is_finite f then f ∷ [] else []
  numeric_values (obj fs) = numeric_fields fs
  numeric_values (arr xs) = numeric_items xs
  numeric_values _ = []

  pub numeric_fields : Fields → List Float
  numeric_fields end = []
  numeric_fields (field k v fs) = numeric_values v ++ numeric_fields fs

  pub numeric_items : Items → List Float
  numeric_items nil = []
  numeric_items (cons x xs) = numeric_values x ++ numeric_items xs

summary_numbers : List (String × Json) → List Float
unfolding numeric_values
summary_numbers [] = []
summary_numbers ((k, v) ∷ rest) = numeric_values v ++ summary_numbers rest

unfoldable pub evidence_numbers : EvidenceRecord → List Float
unfolding summary_numbers
evidence_numbers e = map (λ x. x.value) e.effect_summary ++ summary_numbers e.uncertainty_summary

abbrev is_supersedes : RelationKind → Bool
is_supersedes RelationKind.supersedes = true
is_supersedes _ = false

abbrev pub known_ids : Support → List String
known_ids x = map (λ e. e.evidence_id) x.evidence

abbrev pub superseded_ids : Support → List String
superseded_ids x = map (λ r. r.target_evidence_id) (filter (λ r. is_supersedes r.kind) x.relations)

abbrev pub allowed_ids : Support → List String
allowed_ids x = elim x.allowed_evidence_ids [
  | some ids ↦ ids
  | none ↦ minus (known_ids x) (superseded_ids x)
]

abbrev pub error_if : Bool → Message → List Message
error_if test m = if test then m ∷ [] else []

abbrev pub each {ℓ} : {A : Type ℓ} → (A → List Message) → List A → List Message
each f [] = []
each f (x ∷ xs) = f x ++ each f xs

-- `any(line.strip() for line in sections[section])`.
abbrev pub has_text : List Line → String → Bool
has_text lines section = any (λ l. l.section == section && not (strip l.text == "")) lines

abbrev pub section_error : List Line → String → List Message
section_error lines section =
    error_if (not (has_text lines section)) (lit "필수 보고서 섹션이 없거나 비어 있다: " ∷ arg section ∷ [])

-- An id that is not known, superseded, or not allowed, in this order.
unfoldable pub citation_error : Support → String → List Message
citation_error x id =
    if not (contains (known_ids x) id)
    then (lit "존재하지 않는 Evidence 인용: " ∷ arg id ∷ []) ∷ []
    else if contains (superseded_ids x) id
    then (lit "superseded Evidence를 현재 결론에 인용했다: " ∷ arg id ∷ []) ∷ []
    else error_if (not (contains (allowed_ids x) id))
        (lit "현재 데이터 스냅샷의 직접 근거로 사용할 수 없는 Evidence 인용: " ∷ arg id ∷ [])

-- `numeric_support.get(id, [])`.
abbrev support_of : String → List (String × List Float) → List Float
support_of id [] = []
support_of id ((j, values) ∷ rest) = if j == id then values else support_of id rest

abbrev numbers_of_record : Option EvidenceRecord → List Float
unfolding evidence_numbers
numbers_of_record none = []
numbers_of_record (some e) = evidence_numbers e

-- `known.get(id)`: the last record of an id.
last_record : String → List EvidenceRecord → Option EvidenceRecord → Option EvidenceRecord
last_record id [] found = found
last_record id (e ∷ es) found = last_record id es (if e.evidence_id == id then some e else found)

-- The numbers that a citation may stand for.
unfoldable pub cited_numbers : Support → String → List Float
unfolding numbers_of_record last_record
cited_numbers x id =
    if not (contains (known_ids x) id) || not (contains (allowed_ids x) id)
    then []
    else elim x.numeric_support [
      | none ↦ numbers_of_record (last_record id x.evidence none)
      | some support ↦ support_of id support
    ]

abbrev pub gather {ℓ} : {A : Type ℓ} → (A → List Float) → List A → List Float
gather f [] = []
gather f (x ∷ xs) = f x ++ gather f xs

abbrev pub is_rule_char : ℕ → Bool
is_rule_char c = eqb c b'|' || eqb c b'-' || eqb c b':' || eqb c b' '

-- A blank line, or the rule of a table.
abbrev pub is_rule : Line → Bool
is_rule l = all is_rule_char (codes (strip l.text))

-- `numbers_in` finds the numbers of a line behind its list number, and `is_close` tells whether a
-- number, or its hundredth when it is a percentage, is within one millionth of a value.
module _ (numbers_in : String → List String) (is_close : String → Float → Bool) where
  abbrev pub number_supported : String → List Float → Bool
  number_supported token allowed = any (λ v. is_finite v && is_close token v) allowed

  abbrev pub line_numbers : Line → List String
  line_numbers l = numbers_in (without_markers (strip l.text))

  abbrev pub number_message : Line → String → Message
  number_message l token =
      num l.number ∷ lit "행 수치 " ∷ arg token ∷ lit "를 인용 Evidence의 원본 결과 값에서 확인하지 못했다" ∷ []

  -- The numbers of a line that no cited evidence supports.
  unfoldable pub unsupported : Support → Line → List Message
  unfolding cited_numbers
  unsupported x l =
      let allowed = gather (cited_numbers x) (citations (strip l.text)) in
      each (λ t. error_if (not (number_supported t allowed)) (number_message l t)) (line_numbers l)

  -- A line of a section that must cite. Without the results, a number is a warning and no error.
  unfoldable pub line_errors : Support → String → Line → List Message
  unfolding unsupported
  line_errors x section l =
      if not (l.section == section) || is_rule l
      then []
      else if is_empty (citations (strip l.text))
      then (arg section ∷ lit " 섹션 " ∷ num l.number ∷ lit "행에 Evidence 인용이 없다" ∷ []) ∷ []
      else if is_some x.numeric_support
      then unsupported x l
      else []

  unfoldable pub section_line_errors : Support → List Line → String → List Message
  unfolding line_errors
  section_line_errors x lines section = each (line_errors x section) lines

  abbrev pub only : List String → String → Bool
  only (a ∷ []) b = a == b
  only _ b = false

  unfoldable pub stop_error : Option String → String → List Message
  stop_error none markdown = []
  stop_error (some code) markdown =
      error_if (truthy (some code) && not (only (stop_markers markdown) code))
        (lit "실행 상태 섹션에 정확한 종료 표식 [종료: " ∷ arg code ∷ lit "]가 필요하다" ∷ [])

  abbrev join_lines : List String → String
  join_lines [] = ""
  join_lines (t ∷ []) = t
  join_lines (t ∷ u ∷ ts) = t <> "\n" <> join_lines (u ∷ ts)

  abbrev pub limits_text : List Line → String
  limits_text lines = join_lines (map (λ l. l.text) (filter (λ l. l.section == "한계와 미완료 사항") lines))

  abbrev missing_pair : List String → String × String → List String
  missing_pair cited (a, b) = sorted_set (minus (a ∷ b ∷ []) cited)

  unfoldable pub limit_errors : Support → String → List Message
  limit_errors x text =
      each
        (λ g.
          error_if (not (contains (goal_markers text) g))
            (lit "미완료/포기 목표가 한계 섹션에 표시되지 않았다: " ∷ arg g ∷ []))
        x.incomplete_goal_ids
      ++ (each
            (λ t.
              error_if (not (contains (task_markers text) t))
                (lit "미완료 Agenda 작업이 한계 섹션에 표시되지 않았다: " ∷ arg t ∷ []))
            x.pending_task_ids
          ++ each
              (λ p. error_if (not (is_empty (minus (p.0 ∷ p.1 ∷ []) (citations text)))) (
                lit "미해결 contradiction이 한계 섹션에 양쪽 Evidence 인용으로 드러나지 않았다: "
                ∷ arg p.0
                ∷ lit " vs "
                ∷ arg p.1
                ∷ lit " (누락 "
                ∷ strs (missing_pair (citations text) p)
                ∷ lit ")"
                ∷ []))
              x.unresolved_contradictions)

  -- The errors of `validate_report`; a report passes without any.
  unfoldable pub report_errors : Support → String → List Message
  unfolding section_line_errors stop_error limit_errors citation_error
  report_errors x markdown =
      let lines = section_lines markdown in
      let cited = citations markdown in
      each (section_error lines) required_sections
      ++ (error_if (not (is_empty (allowed_ids x)) && is_empty cited)
            (say "사용 가능한 Evidence가 있는데 보고서에 [증거: ...] 인용이 하나도 없다")
          ++ (each (citation_error x) (sorted_set cited)
              ++ (each (section_line_errors x lines) cited_sections
                  ++ (stop_error x.stop_code markdown ++ limit_errors x (limits_text lines)))))
