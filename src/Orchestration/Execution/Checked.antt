-- ===== src/Orchestration/Execution/Checked.antt =====
-- orchestration/nodes/code_validation.py and result_validation.py: what the two checks let through.
use analysis_loop.Prelude.{
  ◌≡◌, ap, String, ◌∙◌, ◌++◌, List, true, Option, some, ok, arith, bind_ok, ok_inj, require,
}
use analysis_loop.Json.{Json}
use analysis_loop.Contracts.Data.{ArtifactRef, DatasetProfile, column_names}
use analysis_loop.Contracts.Analysis.{GeneratedAnalysis, available_columns}
use analysis_loop.Contracts.Planning.{ResearchIntent}
use analysis_loop.Validation.References.{Issue, blocking, warnings}
use analysis_loop.Validation.Issues.{passes, passes-append}
use analysis_loop.Validation.Program.Tree.{Parsed, some_nodes}
use analysis_loop.Validation.Program.Lint.{lint_program, accesses, extract_referenced_columns}
use analysis_loop.Validation.Program.Clean.{IsClean, lint_program_iff, extracted}
use analysis_loop.Prelude.Sets.{contains}
use analysis_loop.Validation.Manifest.{check_manifest, check_code_matches_manifest}
use analysis_loop.Validation.Manifest.Sound.{IsSound, Within, check_manifest_iff, check_code_iff}
use analysis_loop.Validation.Results.{check_result}
use analysis_loop.Validation.Results.Conformant.{IsConformant, check_result_iff}
use analysis_loop.State.{State, Update, ErrorRecord, apply}
use analysis_loop.Orchestration.Routes.{Node}
use analysis_loop.Orchestration.Execution.Deps.{Deps, load_generated}
use analysis_loop.Orchestration.Execution.Codegen.{check_program, report_code, validate_code}
use analysis_loop.Orchestration.Execution.Running.{report_result, validate_result}
use analysis_loop.Orchestration.Execution.Graph.{next}

-- The program and the manifest of the state, and what they were checked against.
pub record Passed (deps : Deps) (s : State) : Type 0 where
  pub intent : ResearchIntent
  pub profile : DatasetProfile
  pub program : GeneratedAnalysis
  pub intent_there : s.intent ≡ some intent
  pub profile_there : s.profile ≡ some profile
  pub loaded : load_generated deps s ≡ ok program
  pub clean : IsClean deps.parse program.code
  pub sound : IsSound program.manifest intent profile
  pub declared :
      (column : String)
      → contains (available_columns program.manifest (column_names profile)) column ≡ true
      → some_nodes (λ k. accesses k column) clean.body ≡ true
      → contains (program.selected_columns ++ program.derived_columns) column ≡ true

require-some {ℓ} : {A : Type ℓ} (o : Option A) (a : A) → require o ≡ ok a → o ≡ some a
require-some o a h = ground arith

code_reported :
    (s : State) (issues : List Issue)
    → next Node.validate_code (apply s (report_code s (blocking issues) (warnings issues)))
      ≡ Node.execute
    → passes issues ≡ true
unfolding next passes
code_reported s issues h = ground arith

result_reported :
    (s : State) (issues : List Issue) (ws : List ErrorRecord)
    → next Node.validate_result (apply s (report_result s (blocking issues) ws)) ≡ Node.critique
    → passes issues ≡ true
unfolding next passes
result_reported s issues ws h = ground arith

names_declared :
    (parse : String → Parsed) (code : String) (known declared : List String)
    (tree : IsClean parse code)
    → Within (extract_referenced_columns parse code known) declared
    → (column : String) → contains known column ≡ true
    → some_nodes (λ k. accesses k column) tree.body ≡ true
    → contains declared column ≡ true
names_declared parse code known declared tree within column h k =
    within column (ground (arith, extracted parse code known tree.body column tree.parses))

-- A program goes from its check to the sandbox only if it parses, its first function `analyze` has one
-- argument, no node of its tree imports what is not allowed or uses a banned name or attribute, its
-- manifest is sound for the intent and the dataset of the state, and every column that a text or an
-- attribute of the tree names is declared in the manifest.
pub executed_checked :
    (deps : Deps) (s : State) (u : Update)
    → validate_code deps s ≡ ok u
    → next Node.validate_code (apply s u) ≡ Node.execute
    → Passed deps s
unfolding validate_code check_program
executed_checked deps s u h k =
    let (intent, hi, h1) = bind_ok (require s.intent) _ u h in
    let (profile, hp, h2) = bind_ok (require s.profile) _ u h1 in
    let (g, hg, h3) = bind_ok (load_generated deps s) _ u h2 in
    let lint = lint_program deps.print deps.parse g.code in
    let checked = check_manifest deps.print g.manifest intent profile in
    let seen = check_code_matches_manifest deps.print deps.parse g profile in
    let clean =
      code_reported s (lint ++ (checked ++ seen))
        (ap (λ x. next Node.validate_code (apply s x)) (ok_inj _ u h3) ∙ k) in
    let tree =
      (lint_program_iff deps.print deps.parse g.code).0
        (ground (arith, passes-append lint (checked ++ seen))) in
    let within =
      (check_code_iff deps.print deps.parse g profile).0
        (ground (arith, passes-append lint (checked ++ seen), passes-append checked seen)) in
    record {
      intent = intent;
      profile = profile;
      program = g;
      intent_there = require-some s.intent intent hi;
      profile_there = require-some s.profile profile hp;
      loaded = hg;
      clean = tree;
      sound =
          (check_manifest_iff deps.print g.manifest intent profile).0
            (ground (arith, passes-append lint (checked ++ seen), passes-append checked seen));
      declared = names_declared deps.parse g.code _ _ tree within;
    }

-- A result goes from its check to the critic only if it is what the candidate of the state refers to
-- and conforms to the manifest of the program: a dict that is neither empty nor too large, with finite
-- numbers and every declared output in its type.
pub judged_conforms :
    (deps : Deps) (s : State) (u : Update)
    → validate_result deps s ≡ ok u
    → next Node.validate_result (apply s u) ≡ Node.critique
    → (ref : ArtifactRef) × (s.candidate_ref ≡ some ref)
      × (g : GeneratedAnalysis) × (load_generated deps s ≡ ok g)
      × (payload : Json) × (deps.read_json ref ≡ ok payload)
      × IsConformant deps.encoded_size g.manifest payload
unfolding validate_result
judged_conforms deps s u h k =
    let (intent, _, h1) = bind_ok (require s.intent) _ u h in
    let (ref, hr, h2) = bind_ok (require s.candidate_ref) _ u h1 in
    let (g, hg, h3) = bind_ok (load_generated deps s) _ u h2 in
    let (payload, hp, h4) = bind_ok (deps.read_json ref) _ u h3 in
    let issues = check_result deps.print deps.encoded_size payload g.manifest in
    let clean =
      result_reported s issues _
        (ap (λ x. next Node.validate_result (apply s x)) (ok_inj _ u h4) ∙ k) in
    (
      ref,
      require-some s.candidate_ref ref hr,
      g,
      hg,
      payload,
      hp,
      (check_result_iff deps.print deps.encoded_size payload g.manifest).0 clean,
    )
