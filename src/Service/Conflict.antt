-- ===== src/Service/Conflict.antt =====
-- A call of `execute` whose identity the file binds to another request.
use infra_artifact_ledger.Prelude.{
  ◌≡◌, refl, sym, ap, ◌∙◌, subst, false, true, List, [], some, none, arith, ◌==◌, ==-refl, ==-false,
}
use infra_artifact_ledger.Text.{Text, Bytes}
use infra_artifact_ledger.Errors.{Code, CommitState, Result, ok, err}
use infra_artifact_ledger.Records.{IdempotencyRecord, Metadata, identity_eq, digest_eq}
use infra_artifact_ledger.Requests.{Request, identity_of}
use infra_artifact_ledger.Validation.RecordCheck.{check_idempotency}
use infra_artifact_ledger.Store.Tables.{Db, OperationRow, operation_text}
use infra_artifact_ledger.Store.Exec.{World, returns, raises, ledger, pure, lift, ◌>>=◌}
use infra_artifact_ledger.Store.Statements.{begin, query, rollback}
use infra_artifact_ledger.Store.Operations.{decoded_operation, fetch_operation}
use infra_artifact_ledger.Service.Failures.{ledger_error, error}
use infra_artifact_ledger.Service.Plans.{Payload}
use infra_artifact_ledger.Service.Execute.{
  Transport, failed, Prepared, prepare, match_previous, previous_of, open_transaction, abort,
  run_in, run, execute, execute_prepared,
}
use infra_artifact_ledger.Service.Honesty.{prepare-request}
use infra_artifact_ledger.Service.History.{stored_operation}

-- A connection to the file with no transaction, on which every statement runs.
abbrev pub ready : Db → World
ready d = record { durable = d; active = none; closed = false; faults = [] }

abbrev working : Db → World
working d = record (ready d) { active = some d }

module _ (sha256 : Bytes → Text)
    (decode_bundle : Bytes → Bytes → Result (Metadata × List Payload)) where
  match_previous_other :
      (p : Prepared) (row : OperationRow) (r : IdempotencyRecord)
      → row.content ≡ operation_text r
      → check_idempotency r ≡ ok tt
      → (r.identity == identity_of p.request) ≡ true
      → (r.request_fingerprint == p.fingerprint) ≡ false
      → match_previous sha256 decode_bundle p row ≡ err Code.idempotency_conflict
  unfolding match_previous
  match_previous_other p row r content checked same other = ground arith

  -- The stored success is valid, and is that of another request.
  module _ (p : Prepared) (d : Db) (row : OperationRow) (r : IdempotencyRecord)
      (stored : stored_operation (identity_of p.request) d ≡ some row)
      (content : row.content ≡ operation_text r) (checked : check_idempotency r ≡ ok tt)
      (same : r.identity ≡ identity_of p.request)
      (other : ¬ (r.request_fingerprint ≡ p.fingerprint)) where
    match_previous_conflict :
        match_previous sha256 decode_bundle p row ≡ err Code.idempotency_conflict
    match_previous_conflict =
        match_previous_other p row r content checked
          (subst (λ i. (r.identity == i) ≡ true) same (==-refl r.identity))
          (==-false r.request_fingerprint p.fingerprint other)

    fetched : fetch_operation (identity_of p.request) (working d) ≡ (returns (some row), working d)
    unfolding fetch_operation query ◌>>=◌ decoded_operation pure
    fetched = rw stored (simp content)

    open_transaction_conflict :
        open_transaction sha256 decode_bundle p (ready d)
        ≡ (raises (ledger Code.idempotency_conflict), working d)
    unfolding open_transaction begin ◌>>=◌ previous_of lift
    open_transaction_conflict = rw (fetched, match_previous_conflict) refl

    run_conflict :
        (now : Text)
        → run sha256 decode_bundle p now (ready d)
          ≡ (failed (ledger_error Code.idempotency_conflict CommitState.not_committed), ready d)
    unfolding run abort rollback error
    run_conflict now = ap (run_in sha256 decode_bundle none p now) open_transaction_conflict

  -- If every statement runs, and the file binds the identity to a valid success of a request with
  -- another fingerprint, the call fails with IDEMPOTENCY_CONFLICT, says that nothing was committed,
  -- and leaves the file and the connection as they were.
  pub execute_conflict :
      (request : Request) (transport : Transport) (now : Text) (p : Prepared) (d : Db)
      (row : OperationRow) (r : IdempotencyRecord)
      → prepare sha256 decode_bundle (ok request) transport ≡ ok p
      → stored_operation (identity_of request) d ≡ some row
      → row.content ≡ operation_text r
      → check_idempotency r ≡ ok tt
      → r.identity ≡ identity_of request
      → ¬ (r.request_fingerprint ≡ p.fingerprint)
      → execute sha256 decode_bundle (ok request) transport now (ready d)
        ≡ (failed (ledger_error Code.idempotency_conflict CommitState.not_committed), ready d)
  unfolding execute
  execute_conflict request transport now p d row r h stored content checked same other =
      let e : identity_of p.request ≡ identity_of request =
        ap identity_of (prepare-request sha256 decode_bundle d request transport p h) in
      ap (λ q. execute_prepared sha256 decode_bundle q now (ready d)) h
      ∙ run_conflict p d row r (rw e stored) content checked (same ∙ sym e) other now
