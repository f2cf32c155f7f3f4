-- ===== src/Common.antt =====
-- common/types.py and common/errors.py: the domain enums, and the typed errors as values.
use agentic_code_intelligenc.Prelude.{ℕ, Bool, true, false, Text, ◌≡◌, refl, ◌⊎◌, inl, inr}

pub data TaskState : Type 0 where
  pending running verified_success gave_up budget_exhausted : TaskState

-- `self in _TERMINAL_STATES`
unfoldable pub is_terminal : TaskState → Bool
is_terminal TaskState.verified_success = true
is_terminal TaskState.gave_up = true
is_terminal TaskState.budget_exhausted = true
is_terminal _ = false

pub data TaskMode : Type 0 where
  apply dry_run : TaskMode

pub data StepKind : Type 0 where
  plan retrieve edit verify repair : StepKind

pub data LedgerEntryKind : Type 0 where
  reserve commit release : LedgerEntryKind

-- One constructor for each class that the modelled code raises; `value_error`, `key_error`, `os_error` and
-- `integrity_error` stand for Python's own exceptions. The messages are left out.
pub data Error : Type 0 where
  config_error auth_error isolation_violation budget_exceeded not_found : Error
  conflict upstream_model_error rate_limited : Error
  model_protocol_error model_refusal model_truncated : Error
  value_error key_error os_error integrity_error : Error

pub data Result {ℓ} (A : Type ℓ) : Type ℓ where
  ok : A → Result A
  err : Error → Result A

-- The `reason` text of a task, as the values that its message prints.
pub data Reason : Type 0 where
  step_budget : ℕ → Reason
  wall_clock : ℕ → ℕ → Reason
  token_budget : ℕ → ℕ → Reason
  model_gave_up : Text → Reason
  not_repaired : ℕ → Reason
  commit_conflict : Reason

pub Result-cases {ℓ} :
    {A : Type ℓ} (r : Result A) → ((a : A) × (r ≡ ok a)) ⊎ ((e : Error) × (r ≡ err e))
Result-cases (ok a) = inl (a, refl)
Result-cases (err e) = inr (e, refl)
