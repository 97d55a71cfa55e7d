-- ===== src/Report/Markers.antt =====
-- report_validation.py: the markers that the regular expressions find, and the lines of the sections.
use Prim.Native.Char.{Char, code}
use analysis_loop.Prelude.{
  ℕ, zero, suc, String, Bool, true, false, not, ◌&&◌, ◌||◌, Option, none, some, List, [], ◌∷◌, ◌++◌,
  find_first, leb, eqb, if◌then◌else◌, ◌==◌, codes, strip, is_space, length,
}

-- What is behind a prefix.
abbrev pub after_prefix : String → String → Option String
after_prefix String.[] s = some s
after_prefix (String.◌∷◌ c p) String.[] = none
after_prefix (String.◌∷◌ c p) (String.◌∷◌ d s) =
    let rest = after_prefix p s in if eqb (code c) (code d) then rest else none

abbrev pub starts_with : String → String → Bool
starts_with p s = elim (after_prefix p s) [ none ↦ false | some _ ↦ true ]

-- `p in s`.
abbrev pub is_within : String → String → Bool
is_within p String.[] = starts_with p String.[]
is_within p (String.◌∷◌ c s) = starts_with p (String.◌∷◌ c s) || is_within p s

skip_spaces : String → String
unfolding is_space
skip_spaces String.[] = String.[]
skip_spaces (String.◌∷◌ c s) =
    let rest = skip_spaces s in if is_space (code c) then rest else String.◌∷◌ c s

-- The longest run of the characters of a class, and what is behind it.
span : (ℕ → Bool) → String → String × String
span p String.[] = (String.[], String.[])
span p (String.◌∷◌ c s) =
    let (taken, rest) = span p s in
    if p (code c) then (String.◌∷◌ c taken, rest) else (String.[], String.◌∷◌ c s)

closed_by : String → String → Option (String × String)
unfolding skip_spaces
closed_by id rest =
    if id == ""
    then none
    else elim (after_prefix "]" (skip_spaces rest)) [ none ↦ none | some s ↦ some (id, s) ]

-- `[<name>:\s*(<class>+)\s*\]` at the start of a text: the group, and what is behind the match.
match_marker : String → (ℕ → Bool) → String → Option (String × String)
unfolding skip_spaces span closed_by
match_marker opening class s = elim (after_prefix opening s) [
  | none ↦ none
  | some rest ↦ let (id, behind) = span class (skip_spaces rest) in closed_by id behind
]

-- `findall`: matches do not overlap. The fuel is the length of the text, of which each step takes some.
find_from : ℕ → String → (ℕ → Bool) → String → List String
unfolding match_marker
find_from zero opening class s = []
find_from (suc n) opening class String.[] = []
find_from (suc n) opening class (String.◌∷◌ c s) =
    elim (match_marker opening class (String.◌∷◌ c s)) [
      | none ↦ find_from n opening class s
      | some (id, rest) ↦ id ∷ find_from n opening class rest
    ]

abbrev find_all : String → (ℕ → Bool) → String → List String
unfolding find_from
find_all opening class s = find_from (length (codes s)) opening class s

-- `sub("", text)`.
remove_from : ℕ → String → (ℕ → Bool) → String → String
unfolding match_marker
remove_from zero opening class s = s
remove_from (suc n) opening class String.[] = String.[]
remove_from (suc n) opening class (String.◌∷◌ c s) =
    elim (match_marker opening class (String.◌∷◌ c s)) [
      | none ↦ String.◌∷◌ c (remove_from n opening class s)
      | some (id, rest) ↦ remove_from n opening class rest
    ]

abbrev is_upper_or_digit : ℕ → Bool
is_upper_or_digit c = leb b'A' c && leb c b'Z' || leb b'0' c && leb c b'9'

abbrev is_word : ℕ → Bool
is_word c = is_upper_or_digit c || leb b'a' c && leb c b'z' || eqb c b'_' || eqb c b'-'

abbrev is_stop_char : ℕ → Bool
is_stop_char c = is_upper_or_digit c || eqb c b'_'

-- `_CITATION`, `_GOAL_MARKER`, `_TASK_MARKER` and `_STOP_MARKER`.
unfoldable pub citations : String → List String
unfolding find_all
citations = find_all "[증거:" is_word

unfoldable pub goal_markers : String → List String
unfolding find_all
goal_markers = find_all "[목표:" is_word

unfoldable pub task_markers : String → List String
unfolding find_all
task_markers = find_all "[작업:" is_word

unfoldable pub stop_markers : String → List String
unfolding find_all
stop_markers = find_all "[종료:" is_stop_char

remove_all : String → String → String
unfolding remove_from
remove_all opening s = remove_from (length (codes s)) opening is_word s

-- A line without its markers.
unfoldable pub without_markers : String → String
unfolding remove_all
without_markers s = remove_all "[작업:" (remove_all "[목표:" (remove_all "[증거:" s))

abbrev is_break : ℕ → Bool
is_break c = leb 10 c && leb c 13 || leb 28 c && leb c 30 || eqb c 133 || eqb c 8232 || eqb c 8233

-- The break that ends a line, both characters of a CR LF.
abbrev after_break : Char → String → String
after_break c String.[] = String.[]
after_break c (String.◌∷◌ d s) = if eqb (code c) 13 && eqb (code d) 10 then s else String.◌∷◌ d s

-- `splitlines()`.
lines_from : ℕ → String → List String
unfolding span
lines_from zero s = []
lines_from (suc n) String.[] = []
lines_from (suc n) (String.◌∷◌ c s) =
    let (line, rest) = span (λ d. not (is_break d)) (String.◌∷◌ c s) in
    line ∷ elim rest [ String.[] ↦ [] | String.◌∷◌ d more ↦ lines_from n (after_break d more) ]

unfoldable pub split_lines : String → List String
unfolding lines_from
split_lines s = lines_from (length (codes s)) s

abbrev pub required_sections : List String
required_sections = "원래 목표와 실행 상태" ∷ "핵심 결론" ∷ "목표 축별 근거" ∷ "한계와 미완료 사항" ∷ []

abbrev pub cited_sections : List String
cited_sections = "핵심 결론" ∷ "목표 축별 근거" ∷ []

-- A line with the section that it stands in.
pub record Line : Type 0 where
  pub section : String
  pub number : ℕ
  pub text : String

abbrev in_section : Option String → ℕ → String → List Line
in_section none n raw = []
in_section (some section) n raw = record { section = section; number = n; text = raw } ∷ []

-- `_section_lines`: a heading opens the first required section that it names, or none; fenced blocks
-- are left out.
section_lines_from : Bool → Option String → ℕ → List String → List Line
unfolding strip
section_lines_from in_fence current n [] = []
section_lines_from in_fence current n (raw ∷ lines) =
    let toggled = section_lines_from (not in_fence) current (suc n) lines in
    let same = section_lines_from in_fence current (suc n) lines in
    let opened =
      section_lines_from in_fence (find_first (λ t. is_within t (strip raw)) required_sections)
        (suc n) lines in
    if starts_with "```" (strip raw)
    then toggled
    else if in_fence
    then same
    else if starts_with "#" (strip raw)
    then opened
    else in_section current n raw ++ same

unfoldable pub section_lines : String → List Line
unfolding section_lines_from split_lines
section_lines markdown = section_lines_from false none 1 (split_lines markdown)
