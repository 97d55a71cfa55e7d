-- ===== src/Validation/Issues.antt =====
-- validation/issues.py: an issue that is reported when its test holds.
use analysis_loop.Prelude.{
  ◌≡◌, refl, ◌↔◌, String, Bool, true, false, not, ◌&&◌, List, [], ◌∷◌, ◌++◌, arith, if◌then◌else◌,
  Message, is_empty,
}
use analysis_loop.Validation.References.{Issue, Severity, fatal, repairable, warning, blocking}

-- `if test: issues.append(issue(code, message, severity))`; `print` is how an f-string is printed.
unfoldable pub issue : (Message → String) → Severity → Bool → String → Message → List Issue
issue print severity test code message =
    if test then record { code = code; message = print message; severity = severity } ∷ [] else []

-- No issue but warnings.
unfoldable pub passes : List Issue → Bool
passes issues = is_empty (blocking issues)

pub passes-append : (xs ys : List Issue) → passes (xs ++ ys) ≡ (passes xs && passes ys)
unfolding passes
passes-append [] ys = ground arith
passes-append (x ∷ xs) ys = ground (arith, passes-append xs ys)

pub passes_both {ℓ κ} :
    {A : Type ℓ} {B : Type κ} (xs ys : List Issue)
    → (passes xs ≡ true) ↔ A
    → (passes ys ≡ true) ↔ B
    → (passes (xs ++ ys) ≡ true) ↔ (A × B)
passes_both xs ys f g = (
  λ h. (f.0 (ground (arith, passes-append xs ys)), g.0 (ground (arith, passes-append xs ys))),
  λ h. ground (arith, passes-append xs ys, f.1 h.0, g.1 h.1),
)

module _ (print : Message → String) (b : Bool) (code : String) (message : Message) where
  -- An issue that blocks passes exactly when its test fails.
  pub passes-repairable : passes (issue print repairable b code message) ≡ not b
  unfolding passes issue
  passes-repairable = ground arith

  pub passes-fatal : passes (issue print fatal b code message) ≡ not b
  unfolding passes issue
  passes-fatal = ground arith

  -- An issue that is no warning stands for what its test denies.
  pub passes_when {ℓ} :
      (A : Type ℓ) → (b ≡ false) ↔ A → (passes (issue print repairable b code message) ≡ true) ↔ A
  unfolding passes issue
  passes_when A f = (λ h. f.0 (ground arith), λ h. ground (arith, f.1 h))

  pub passes-warning : passes (issue print warning b code message) ≡ true
  unfolding passes issue
  passes-warning = ground arith

-- A warning at the end, or in between, does not count.
pub passes_but {ℓ} :
    {A : Type ℓ} (xs ys : List Issue)
    → passes xs ≡ true
    → (passes ys ≡ true) ↔ A
    → (passes (xs ++ ys) ≡ true) ↔ A
passes_but xs ys w f = (
  λ h. f.0 (ground (arith, passes-append xs ys)),
  λ h. ground (arith, passes-append xs ys, f.1 h),
)

pub passes_then {ℓ} :
    {A : Type ℓ} (xs ys : List Issue)
    → (passes xs ≡ true) ↔ A
    → passes ys ≡ true
    → (passes (xs ++ ys) ≡ true) ↔ A
passes_then xs ys f w = (
  λ h. f.0 (ground (arith, passes-append xs ys)),
  λ h. ground (arith, passes-append xs ys, f.1 h),
)

pub passes_quiet :
    (xs ys : List Issue) → passes xs ≡ true → passes ys ≡ true → passes (xs ++ ys) ≡ true
passes_quiet xs ys v w = ground (arith, passes-append xs ys)

-- Issues of a block under a condition.
pub passes_if {ℓ} :
    {A : Type ℓ} (b : Bool) (xs : List Issue)
    → (passes xs ≡ true) ↔ A
    → (passes (if b then xs else []) ≡ true) ↔ (b ≡ true → A)
unfolding passes
passes_if true xs f = (λ h _. f.0 h, λ h. f.1 (h refl))
passes_if false xs f = (λ h e. absurd (ground arith), λ h. refl)
