-- ===== src/Report/Sound.antt =====
-- report_validation.py and nodes/reporting.py: what an adopted report keeps to.
use analysis_loop.Prelude.{
  ◌≡◌, ◌∙◌, String, Bool, true, false, not, ◌&&◌, some, List, [], ◌∷◌, All, arith, is_empty,
  is_empty-append, ◌==◌, Message, strip, truthy, Bool-cases, inl, inr, is_some, All-map,
}
use analysis_loop.Prelude.Sets.{contains, All_at, minus, sorted_set, contains-sorted_set}
use analysis_loop.Json.{Float}
use analysis_loop.Report.Markers.{
  citations, goal_markers, task_markers, stop_markers, Line, section_lines, required_sections,
  cited_sections,
}
use analysis_loop.Report.Checks.{
  Support, known_ids, superseded_ids, allowed_ids, error_if, each, has_text, section_error,
  citation_error, cited_numbers, gather, is_rule, number_supported, number_message, line_numbers,
  unsupported, line_errors, section_line_errors, only, stop_error, limits_text, limit_errors,
  report_errors,
}

abbrev Quiet : List Message → Type 0
Quiet errors = is_empty errors ≡ true

each_free {ℓ} :
    {A : Type ℓ} (f : A → List Message) (xs : List A)
    → Quiet (each f xs)
    → All (λ x. Quiet (f x)) xs
each_free f [] h = tt
each_free f (x ∷ xs) h =
    let s = (is_empty-append (f x) (each f xs)).0 h in (s.0, each_free f xs s.1)

-- The evidence may be cited: it is there, current and allowed.
abbrev pub IsCitable : Support → String → Type 0
IsCitable x id =
    (contains (known_ids x) id ≡ true)
    × (contains (superseded_ids x) id ≡ false)
    × (contains (allowed_ids x) id ≡ true)

citation_free : (x : Support) (id : String) → Quiet (citation_error x id) → IsCitable x id
unfolding citation_error
citation_free x id h = ground arith

module _ (numbers_in : String → List String) (is_close : String → Float → Bool) (x : Support) where
  -- A line of a section that must cite does, and each of its numbers is one of a cited result.
  abbrev pub LineHolds : String → Line → Type 0
  LineHolds section l =
      l.section == section ≡ true
      → is_rule l ≡ false
      → (is_empty (citations (strip l.text)) ≡ false)
        × All
            (λ t.
              number_supported numbers_in is_close t
                (gather (cited_numbers x) (citations (strip l.text)))
              ≡ true)
            (line_numbers numbers_in is_close l)

  supported :
      (l : Line) (tokens : List String) (allowed : List Float) (message : String → Message)
      → All
          (λ t. Quiet (error_if (not (number_supported numbers_in is_close t allowed)) (message t)))
          tokens
      → All (λ t. number_supported numbers_in is_close t allowed ≡ true) tokens
  supported l [] allowed message h = tt
  supported l (t ∷ ts) allowed message h = (ground arith, supported l ts allowed message h.1)

  line_cites :
      (section : String) (l : Line)
      → l.section == section ≡ true
      → is_rule l ≡ false
      → Quiet (line_errors numbers_in is_close x section l)
      → is_empty (citations (strip l.text)) ≡ false
  unfolding line_errors
  line_cites section l m r h = elim (Bool-cases (is_empty (citations (strip l.text)))) [
    | inl e ↦ absurd (ground (arith, h, m, r, e))
    | inr e ↦ e
  ]

  line_reads :
      (section : String) (l : Line)
      → is_some x.numeric_support ≡ true
      → l.section == section ≡ true
      → is_rule l ≡ false
      → Quiet (line_errors numbers_in is_close x section l)
      → Quiet (unsupported numbers_in is_close x l)
  unfolding line_errors
  line_reads section l strict m r h = ground (arith, line_cites section l m r h)

  line_free :
      (section : String) (l : Line)
      → is_some x.numeric_support ≡ true
      → Quiet (line_errors numbers_in is_close x section l)
      → LineHolds section l
  unfolding unsupported
  line_free section l strict h m r = (
    line_cites section l m r h,
    supported l (line_numbers numbers_in is_close l)
        (gather (cited_numbers x) (citations (strip l.text))) (number_message numbers_in is_close l)
        (each_free _ (line_numbers numbers_in is_close l) (line_reads section l strict m r h)),
  )

  -- The limits name every open goal, every pending task, and both sides of each contradiction.
  abbrev pub LimitsHold : String → Type 0
  LimitsHold text =
      All (λ g. contains (goal_markers text) g ≡ true) x.incomplete_goal_ids
      × All (λ t. contains (task_markers text) t ≡ true) x.pending_task_ids
      × All (λ p. is_empty (minus (p.0 ∷ p.1 ∷ []) (citations text)) ≡ true)
          x.unresolved_contradictions

  error_free : (b : Bool) (m : Message) → Quiet (error_if (not b) m) → b ≡ true
  error_free b m h = ground arith

  limits_free : (text : String) → Quiet (limit_errors numbers_in is_close x text) → LimitsHold text
  unfolding limit_errors
  limits_free text h =
      let (goals, rest) = (is_empty-append _ _).0 h in
      let (tasks, conflicts) = (is_empty-append _ _).0 rest in
      (
        All-map _ _ (λ g q. error_free _ _ q) x.incomplete_goal_ids (each_free _ _ goals),
        All-map _ _ (λ t q. error_free _ _ q) x.pending_task_ids (each_free _ _ tasks),
        All-map _ _ (λ p q. error_free _ _ q) x.unresolved_contradictions (each_free _ _ conflicts),
      )

  -- What a report without errors keeps to.
  pub record IsFaithful (markdown : String) : Type 0 where
    pub sections : All (λ t. has_text (section_lines markdown) t ≡ true) required_sections
    pub cites : is_empty (allowed_ids x) ≡ false → is_empty (citations markdown) ≡ false
    pub citable : (id : String) → contains (citations markdown) id ≡ true → IsCitable x id
    pub lines : All (λ t. All (LineHolds t) (section_lines markdown)) cited_sections
    pub stop :
        (code : String)
        → x.stop_code ≡ some code
        → truthy (some code) ≡ true
        → only numbers_in is_close (stop_markers markdown) code ≡ true
    pub limits : LimitsHold (limits_text numbers_in is_close (section_lines markdown))

  stop_free :
      (markdown code : String)
      → Quiet (stop_error numbers_in is_close x.stop_code markdown)
      → x.stop_code ≡ some code
      → truthy (some code) ≡ true
      → only numbers_in is_close (stop_markers markdown) code ≡ true
  unfolding stop_error
  stop_free markdown code h e t = ground (arith, e, t)

  section_free :
      (lines : List Line) (t : String) → Quiet (section_error lines t) → has_text lines t ≡ true
  section_free lines t h = ground arith

  cites_free : (a b : Bool) (m : Message) → Quiet (error_if (not a && b) m) → a ≡ false → b ≡ false
  cites_free a b m h e = ground arith

  -- A report without errors, of a run whose results were read.
  pub report_errors-IsFaithful :
      (markdown : String)
      → is_some x.numeric_support ≡ true
      → Quiet (report_errors numbers_in is_close x markdown)
      → IsFaithful markdown
  unfolding report_errors section_line_errors
  report_errors-IsFaithful markdown strict h =
      let lines = section_lines markdown in
      let cited = citations markdown in
      let (sections, h1) = (is_empty-append _ _).0 h in
      let (some_cited, h2) = (is_empty-append _ _).0 h1 in
      let (ids, h3) = (is_empty-append _ _).0 h2 in
      let (cites, h4) = (is_empty-append _ _).0 h3 in
      let (stop, limits) = (is_empty-append _ _).0 h4 in
      record {
        sections =
            All-map (λ t. Quiet (section_error lines t)) (λ t. has_text lines t ≡ true)
              (λ t q. section_free lines t q) required_sections
              (each_free (section_error lines) required_sections sections);
        cites = λ e. cites_free _ _ _ some_cited e;
        citable = λ id m. citation_free x id (
            All_at _ (sorted_set cited) (each_free (citation_error x) (sorted_set cited) ids) id
              (contains-sorted_set cited id ∙ m));
        lines =
            All-map (λ t. Quiet (section_line_errors numbers_in is_close x lines t))
              (λ t. All (LineHolds t) lines)
              (λ t q.
                All-map (λ l. Quiet (line_errors numbers_in is_close x t l)) (LineHolds t)
                  (λ l r. line_free t l strict r) lines
                  (each_free (line_errors numbers_in is_close x t) lines q))
              cited_sections
              (each_free (section_line_errors numbers_in is_close x lines) cited_sections cites);
        stop = λ code e t. stop_free markdown code stop e t;
        limits = limits_free (limits_text numbers_in is_close lines) limits;
      }
