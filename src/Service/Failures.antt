-- ===== src/Service/Failures.antt =====
-- `_error` of service.py: every exception as a public LedgerError with a commit state.
use infra_artifact_ledger.Prelude.{Option, none}
use infra_artifact_ledger.Text.{Text}
use infra_artifact_ledger.Errors.{Code, CommitState}
use infra_artifact_ledger.Records.{Identity}
use infra_artifact_ledger.Store.Exec.{
  Exn, ledger, rejected, sqlite, checkpoint_interrupted, os_error, failure, interrupt, SqliteCode,
}

-- `_committed_details`
pub record CommittedDetails : Type 0 where
  pub identity : Identity
  pub result_ref : Text
  pub recorded_at : Option Text

-- A public LedgerError; of `details` only the commit's are kept.
pub record LedgerError : Type 0 where
  pub code : Code
  pub commit_state : CommitState
  pub details : Option CommittedDetails

-- What leaves a call: a LedgerError, or an exception that is passed on as it is.
pub data Failure : Type 0 where
  public : LedgerError → Failure
  passed_on : Exn → Failure

abbrev pub ledger_error : Code → CommitState → Failure
ledger_error c s = public (record { code = c; commit_state = s; details = none })

unfoldable pub sqlite_code : SqliteCode → Code
sqlite_code SqliteCode.busy = Code.busy
sqlite_code SqliteCode.locked = Code.busy
sqlite_code SqliteCode.corrupt = Code.integrity_failure
sqlite_code SqliteCode.notadb = Code.integrity_failure
sqlite_code SqliteCode.constraint = Code.integrity_failure
sqlite_code SqliteCode.other = Code.io_error

unfoldable pub error : Exn → CommitState → Failure
unfolding sqlite_code
error checkpoint_interrupted state = passed_on checkpoint_interrupted
error (ledger c) state = ledger_error c state
error (rejected c) state = ledger_error c state
error (sqlite s) state = ledger_error (sqlite_code s) state
error os_error state = ledger_error Code.io_error state
error failure state = ledger_error Code.internal_error state
error interrupt state = passed_on interrupt
