-- ===== src/Llm/Calls.antt =====
-- llm/service_common.py: how a call of a model fails.
use analysis_loop.Prelude.{ℕ, zero, suc, String, Bool, Option, none, some, if◌then◌else◌, ◌<>◌}
use analysis_loop.Contracts.Runtime.{ServiceResult, FailureKind}

-- What a call of a model raises, by its class.
pub data Raised : Type 0 where
  transport_error validation_error llm_error other_error : Raised
  provider_error : Bool → Raised

-- `type(exc).__name__` and `str(exc)`.
pub record Exception : Type 0 where
  pub raised : Raised
  pub name : String
  pub text : String

-- What a call answers, or the exception in its place.
pub data Answer {ℓ} (A : Type ℓ) : Type ℓ where
  answered : A → Answer A
  refused : Exception → Answer A

-- `s[:n]`.
abbrev pub cut : ℕ → String → String
cut zero s = String.[]
cut (suc n) String.[] = String.[]
cut (suc n) (String.◌∷◌ c s) = String.◌∷◌ c (cut n s)

unfoldable pub failure_kind : Raised → FailureKind
failure_kind transport_error = FailureKind.provider_unavailable
failure_kind (provider_error retryable) =
    if retryable then FailureKind.provider_unavailable else FailureKind.configuration
failure_kind validation_error = FailureKind.contract
failure_kind llm_error = FailureKind.response_invalid
failure_kind other_error = FailureKind.response_invalid

abbrev default_message : Exception → String
default_message e = elim e.raised [
  | validation_error ↦ e.name <> ": " <> e.text
  | other_error ↦ e.name <> ": " <> e.text
  | _ ↦ e.text
]

-- `_fail`.
unfoldable pub fail {ℓ} : {A : Type ℓ} → Exception → Option String → ServiceResult A
unfolding failure_kind
fail e message = record {
  value = none;
  error = some (cut 400 (elim message [ none ↦ default_message e | some m ↦ m ]));
  failure_kind = some (failure_kind e.raised);
  reason = none;
}
