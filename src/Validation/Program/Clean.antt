-- ===== src/Validation/Program/Clean.antt =====
-- validation/codelint.py: what a program without a blocking issue is.
use analysis_loop.Prelude.{
  ◌≡◌, refl, sym, subst, ◌∙◌, ap, ◌↔◌, String, Bool, true, false, not, ◌&&◌, ◌||◌, some, List, [],
  ◌∷◌, ◌++◌, any, ◌==◌, eq_iff, arith, Message, Bool-cases, Option-cases, inl, inr,
}
use analysis_loop.Prelude.Sets.{contains, contains-append}
use analysis_loop.Validation.Issues.{
  issue, passes, passes_both, passes-append, passes-repairable, passes-fatal,
}
use analysis_loop.Validation.References.{Issue}
use analysis_loop.Validation.Program.Tree.{
  Kind, imports, imports_from, named, attribute, text, function, other_node, Trees, Parsed, parsed,
  syntax_error, walk, some_nodes, any-walk,
}
use analysis_loop.Validation.Program.Lint.{
  banned_names, banned_attributes, may_import, may_import_from, entrypoint, entrypoint_issues,
  import_issues, node_issues, walk_issues, lint_parsed, lint_program, accesses, accessed,
  known_column, found_columns, columns_in, extract_referenced_columns,
}

-- A node that the lint does not accept.
abbrev pub is_forbidden : Kind → Bool
is_forbidden (imports names) = any (λ n. not (may_import n)) names
is_forbidden (imports_from level origin) = not (may_import_from level origin)
is_forbidden (named id) = contains banned_names id
is_forbidden (attribute name) = contains banned_attributes name
is_forbidden _ = false

-- The program parses, its first function `analyze` has one argument, and no node of it, at any depth,
-- is forbidden.
pub record IsClean (parse : String → Parsed) (code : String) : Type 0 where
  pub body : Trees
  pub parses : parse code ≡ parsed body
  pub entry : entrypoint "analyze" body ≡ some 1
  pub allowed : some_nodes is_forbidden body ≡ false

abbrev body_or : Trees → Parsed → Trees
body_or body (parsed b) = b
body_or body (syntax_error message line) = body

none_pass : passes [] ≡ true
unfolding passes
none_pass = refl

module _ (print : Message → String) where
  appended :
      (xs ys : List Issue) (a b : Bool)
      → passes xs ≡ not a
      → passes ys ≡ not b
      → passes (xs ++ ys) ≡ not (a || b)
  appended xs ys a b h k = ground (arith, passes-append xs ys)

  import_passes :
      (names : List String)
      → passes (import_issues print names) ≡ not (any (λ n. not (may_import n)) names)
  unfolding import_issues
  import_passes [] = none_pass
  import_passes (n ∷ names) =
      appended _ (import_issues print names) (not (may_import n)) _ (passes-repairable print _ _ _)
        (import_passes names)

  node_passes : (k : Kind) → passes (node_issues print k) ≡ not (is_forbidden k)
  unfolding node_issues
  node_passes (imports names) = import_passes names
  node_passes (imports_from level origin) = passes-repairable print _ _ _
  node_passes (named id) = passes-fatal print _ _ _
  node_passes (attribute name) = passes-fatal print _ _ _
  node_passes (text s) = none_pass
  node_passes (function f n) = none_pass
  node_passes other_node = none_pass

  walk_passes : (ks : List Kind) → passes (walk_issues print ks) ≡ not (any is_forbidden ks)
  unfolding walk_issues
  walk_passes [] = none_pass
  walk_passes (k ∷ ks) = appended _ _ (is_forbidden k) _ (node_passes k) (walk_passes ks)

  entry_passes :
      (body : Trees)
      → (passes (entrypoint_issues print body "analyze") ≡ true)
        ↔ (entrypoint "analyze" body ≡ some 1)
  unfolding entrypoint_issues issue passes
  entry_passes body = elim (Option-cases (entrypoint "analyze" body)) [
    | inl e ↦ (λ h. absurd (ground (arith, e, h)), λ h. absurd (ground (arith, e, h)))
    | inr (n, e) ↦ (λ h. ground (arith, e, h), λ h. ground (arith, e, h))
  ]

  tree_passes :
      (body : Trees) → passes (walk_issues print (walk body)) ≡ not (some_nodes is_forbidden body)
  tree_passes body = walk_passes (walk body) ∙ ap not (any-walk is_forbidden body)

  tree_iff :
      (body : Trees)
      → (passes (walk_issues print (walk body)) ≡ true) ↔ (some_nodes is_forbidden body ≡ false)
  tree_iff body = ground (arith, tree_passes body)

  parsed_iff :
      (parse : String → Parsed) (code : String) (r : Parsed)
      → parse code ≡ r
      → (passes (lint_parsed print r) ≡ true) ↔ IsClean parse code
  unfolding lint_parsed
  parsed_iff parse code (parsed body) e =
      let both = passes_both _ _ (entry_passes body) (tree_iff body) in
      (
        λ h. record { body = body; parses = e; entry = (both.0 h).0; allowed = (both.0 h).1 },
        λ c.
            let same = ap (body_or body) (sym c.parses ∙ e) in
            both.1 (
              subst (λ b. entrypoint "analyze" b ≡ some 1) same c.entry,
              subst (λ b. some_nodes is_forbidden b ≡ false) same c.allowed,
            ),
      )
  parsed_iff parse code (syntax_error m n) e = (
    λ h. let q : true ≡ false = sym h ∙ passes-repairable print true _ _ in absurd (ground arith),
    λ c. absurd (ground (arith, e, c.parses)),
  )

  -- A program has no blocking lint exactly when it is clean.
  pub lint_program_iff :
      (parse : String → Parsed) (code : String)
      → (passes (lint_program print parse code) ≡ true) ↔ IsClean parse code
  unfolding lint_program
  lint_program_iff parse code = parsed_iff parse code (parse code) refl

known_one :
    (known : List String) (s c : String)
    → contains (known_column known s) c ≡ (contains known c && s == c)
known_one known s c = elim (Bool-cases (s == c)) [
  | inl e ↦
      subst (λ x. contains (known_column known s) x ≡ (contains known x && s == x))
        ((eq_iff s c).0 e) (ground (arith, (eq_iff s s).1 refl))
  | inr e ↦ ground (arith, e)
]

contains-accessed :
    (known : List String) (k : Kind) (c : String)
    → contains (accessed known k) c ≡ (contains known c && accesses k c)
contains-accessed known (text s) c = known_one known s c
contains-accessed known (attribute s) c = known_one known s c
contains-accessed known (imports names) c = ground arith
contains-accessed known (imports_from level origin) c = ground arith
contains-accessed known (named id) c = ground arith
contains-accessed known (function f n) c = ground arith
contains-accessed known other_node c = ground arith

-- Every node that accesses a known column is among the found ones, and nothing else is.
contains-found_columns :
    (known : List String) (ks : List Kind) (c : String)
    → contains (found_columns known ks) c ≡ (contains known c && any (λ k. accesses k c) ks)
unfolding found_columns
contains-found_columns known [] c = ground arith
contains-found_columns known (k ∷ ks) c =
    contains-append (accessed known k) (found_columns known ks) c
    ∙ ground (arith, contains-accessed known k c, contains-found_columns known ks c)

-- The columns that are seen to be accessed are the known ones that some node of the tree accesses.
pub extracted :
    (parse : String → Parsed) (code : String) (known : List String) (body : Trees) (c : String)
    → parse code ≡ parsed body
    → contains (extract_referenced_columns parse code known) c
      ≡ (contains known c && some_nodes (λ k. accesses k c) body)
unfolding extract_referenced_columns columns_in
extracted parse code known body c e =
    ap (λ r. contains (columns_in known r) c) e
    ∙ contains-found_columns known (walk body) c
    ∙ ap (λ b. contains known c && b) (any-walk (λ k. accesses k c) body)
