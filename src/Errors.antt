-- ===== src/Errors.antt =====
-- errors.py: the stable codes, the commit states and the exit codes.
use infra_artifact_ledger.Prelude.{ℕ}

pub data Code : Type 0 where
  invalid_input unsupported_version unsupported_profile resource_limit not_found : Code
  identity_conflict idempotency_conflict integrity_failure busy durability_unknown : Code
  io_error internal_error : Code

pub data CommitState : Type 0 where
  not_committed unknown committed not_applicable : CommitState

-- EXIT_CODES
unfoldable pub exit_code : Code → ℕ
exit_code Code.invalid_input = 2
exit_code Code.unsupported_version = 2
exit_code Code.unsupported_profile = 2
exit_code Code.resource_limit = 2
exit_code Code.not_found = 3
exit_code Code.identity_conflict = 4
exit_code Code.idempotency_conflict = 4
exit_code Code.integrity_failure = 5
exit_code Code.busy = 6
exit_code Code.durability_unknown = 7
exit_code Code.io_error = 1
exit_code Code.internal_error = 1

-- A computation that may raise LedgerError; the message is not kept.
pub data Result {ℓ} (A : Type ℓ) : Type ℓ where
  ok : A → Result A
  err : Code → Result A

infixl 5 ◌>>=◌ ◌>>◌
abbrev pub ◌>>=◌ {ℓ κ} : {A : Type ℓ} {B : Type κ} → Result A → (A → Result B) → Result B
ok a >>= f = f a
err c >>= f = err c

abbrev pub ◌>>◌ {ℓ κ} : {A : Type ℓ} {B : Type κ} → Result A → Result B → Result B
m >> k = m >>= λ _. k
