-- ===== src/Service/Execute.antt =====
-- `Ledger.execute` of service.py: validation, replay or one fresh transaction, and what is said of
-- the commit when an exception arrives.
use infra_artifact_ledger.Prelude.{
  ℕ, ◌+◌, Bool, true, false, List, [], ◌∷◌, Option, some, none, ◌==◌, if◌then◌else◌, contains, ltb,
  length,
}
use mathlib.Core.List.{reverse}
use infra_artifact_ledger.Text.{Text, Bytes, text_eq}
use infra_artifact_ledger.Errors.{Code, CommitState, Result, ok, err}
use infra_artifact_ledger.Errors
use infra_artifact_ledger.Records.{
  Blob, Digest, IdempotencyRecord, Metadata, empty_metadata, digest_eq, identity_eq,
}
use infra_artifact_ledger.Requests.{Body, Request, identity_of, validate_request}
use infra_artifact_ledger.Fingerprint.{request_fingerprint}
use infra_artifact_ledger.Validation.Limits.{fail_if, require, max_blob, max_payload}
use infra_artifact_ledger.Validation.Scalars.{stable_id_match}
use infra_artifact_ledger.Validation.RecordCheck.{check_payload, check_idempotency}
use infra_artifact_ledger.Validation.Graph.{by_id}
use infra_artifact_ledger.Store.Tables.{Db, OperationRow, StoredOperation, operation_text}
use infra_artifact_ledger.Store.Exec.{
  World, Exec, Outcome, returns, raises, Exn, rejected, interrupt, pure, lift, ◌>>=◌, ◌>>◌,
}
use infra_artifact_ledger.Store.Statements.{begin, commit, rollback}
use infra_artifact_ledger.Store.Operations.{
  each, fetch_operation, insert_record, insert_references, insert_payload, insert_operation,
}
use infra_artifact_ledger.Service.Failures.{Failure, public, passed_on, ledger_error, error}
use infra_artifact_ledger.Service.Indexes.{metadata, verify_indexes}
use infra_artifact_ledger.Service.Plans.{Payload, Plan, create, append, import}
use infra_artifact_ledger.Service.Replay.{check_replay}

-- The keyword arguments of `execute`.
pub data Transport : Type 0 where
  nothing mixed : Transport
  payloads : List Payload → Transport
  bundle : Bytes → Bytes → Transport

-- `_success`
pub record Success : Type 0 where
  pub operation : IdempotencyRecord
  pub replayed : Bool

pub data Reply : Type 0 where
  committed : Success → Reply
  failed : Failure → Reply

-- What `execute` knows before it opens a transaction.
pub record Prepared : Type 0 where
  pub request : Request
  pub incoming : Metadata
  pub supplied : List Payload
  pub fingerprint : Digest

module _ (sha256 : Bytes → Text)
    (decode_bundle : Bytes → Bytes → Result (Metadata × List Payload)) where
  -- The loop over the payload mapping, with the refs that were seen and the bytes so far.
  unfoldable pub check_supplied : List Text → ℕ → List Payload → Result (Unit {0})
  check_supplied seen total [] = ok tt
  check_supplied seen total ((i, raw) ∷ ps) =
      Errors.◌>>◌ (require (stable_id_match i) Code.invalid_input) (
        Errors.◌>>◌ (fail_if (contains i seen) Code.invalid_input) (
          Errors.◌>>◌ (fail_if (ltb max_blob (length raw)) Code.resource_limit) (
            Errors.◌>>◌ (fail_if (ltb max_payload (total + length raw)) Code.resource_limit)
              (check_supplied (i ∷ seen) (total + length raw) ps))))

  abbrev fits_record : Bytes → Option Blob → Result (Unit {0})
  fits_record raw none = ok tt
  fits_record raw (some b) = check_payload sha256 b raw

  -- Every supplied payload that the body announces fits its record.
  unfoldable pub check_announced : List Blob → List Payload → Result (Unit {0})
  check_announced blobs [] = ok tt
  check_announced blobs ((i, raw) ∷ ps) =
      Errors.◌>>◌ (fits_record raw (by_id (λ b. b.blob_ref) i (reverse blobs)))
        (check_announced blobs ps)

  -- The transport arguments that each operation kind takes: the bundle's metadata and the payloads.
  unfoldable pub transported : Body → Transport → Result (Metadata × List Payload)
  unfolding check_supplied check_announced
  transported (Body.create_artifact a) nothing = ok (empty_metadata, [])
  transported (Body.append_version b) (payloads ps) =
      Errors.◌>>◌ (check_supplied [] 0 ps)
        (Errors.◌>>◌ (check_announced b.blobs ps) (ok (empty_metadata, ps)))
  transported (Body.import_bundle i) (bundle raw descriptor) = decode_bundle raw descriptor
  transported _ _ = err Code.invalid_input

  abbrev fits_fingerprint : Option Digest → Digest → Bool
  fits_fingerprint none d = true
  fits_fingerprint (some given) d = given == d

  -- Everything before the handle is touched.
  unfoldable pub prepare : Result Request → Transport → Result Prepared
  unfolding transported
  prepare parsed transport = Errors.◌>>=◌ parsed λ request.
      Errors.◌>>◌ (validate_request sha256 request) (
        Errors.◌>>=◌ (transported request.body transport) λ input.
          Errors.◌>>=◌ (request_fingerprint sha256 request input.0) λ digest.
            Errors.◌>>◌
              (require (fits_fingerprint request.request_fingerprint digest) Code.invalid_input)
              (ok (record {
                request = request;
                incoming = input.0;
                supplied = input.1;
                fingerprint = digest;
              })))

  -- A stored success of the identity: valid, and bound to the same request.
  unfoldable pub match_previous : Prepared → OperationRow → Result IdempotencyRecord
  match_previous p row = elim row.content [
    | StoredOperation.garbage ↦ err Code.integrity_failure
    | StoredOperation.misshapen _ ↦ err Code.integrity_failure
    | operation_text r ↦ elim (check_idempotency r) [
      | err _ ↦ err Code.integrity_failure
      | ok _ ↦
          if r.identity == identity_of p.request
          then (if r.request_fingerprint == p.fingerprint
              then ok r
              else err Code.idempotency_conflict)
          else err Code.integrity_failure
    ]
  ]

  unfoldable pub previous_of : Prepared → Option OperationRow → Exec (Option IdempotencyRecord)
  unfolding match_previous
  previous_of p none = pure none
  previous_of p (some row) = do previous ← lift (match_previous p row); pure (some previous)

  -- The transaction up to the lookup of the identity.
  unfoldable pub open_transaction : Prepared → Exec (Option IdempotencyRecord)
  unfolding previous_of
  open_transaction p = do begin; row ← fetch_operation (identity_of p.request); previous_of p row

  unfoldable pub plan_body : Body → Prepared → Metadata → Text → Exec Plan
  plan_body (Body.create_artifact a) p current now = lift (create a current now)
  plan_body (Body.append_version b) p current now = append sha256 b current p.supplied now
  plan_body (Body.import_bundle i) p current now =
      import sha256 i (identity_of p.request) current p.incoming p.supplied now

  unfoldable pub plan_of : Prepared → Metadata → Text → Exec Plan
  unfolding plan_body
  plan_of p current now = plan_body p.request.body p current now

  abbrev pub operation_of : Prepared → Plan → Text → IdempotencyRecord
  operation_of p plan now = record {
    identity = identity_of p.request;
    request_fingerprint = p.fingerprint;
    result_ref = plan.result_ref;
    recorded_at = some now;
  }

  -- The inserts: all owned ids before the references.
  unfoldable pub store_plan : Plan → IdempotencyRecord → Exec (Unit {0})
  store_plan plan operation = do
    each insert_record plan.additions
    each insert_references plan.additions
    each insert_payload plan.payloads
    each insert_operation plan.history
    insert_operation operation

  -- A fresh operation, up to the commit.
  unfoldable pub stage : Prepared → Text → Exec IdempotencyRecord
  unfolding plan_of store_plan
  stage p now = do
    current ← metadata sha256
    verify_indexes current
    plan ← plan_of p current now
    store_plan plan (operation_of p plan now)
    pure (operation_of p plan now)

  -- A rollback whose own failure is only noted.
  abbrev pub clean_in : Option Db → World → World
  clean_in none w = w
  clean_in (some _) w = (rollback w).1

  unfoldable pub clean_up : World → World
  clean_up w = clean_in w.active w

  abbrev pub unknown_state : World → Reply × World
  unknown_state w = (failed (ledger_error Code.durability_unknown CommitState.unknown), w)

  -- Whether the transaction has ended after a rollback that did not raise.
  abbrev pub confirmed : Exn → Option Db → World → Reply × World
  confirmed e none w = (failed (error e CommitState.not_committed), w)
  confirmed e (some _) w = unknown_state w

  abbrev pub after_rollback : Exn → Outcome (Unit {0}) × World → Reply × World
  after_rollback e (raises _, w) = unknown_state w
  after_rollback e (returns _, w) = confirmed e w.active w

  abbrev pub abort_in : Option Db → Bool → Exn → World → Reply × World
  abort_in none true e w = unknown_state w
  abort_in none false e w = (failed (error e CommitState.not_committed), w)
  abort_in (some _) committing e w = after_rollback e (rollback w)

  -- The handler of an exception with no known commit, after a BEGIN of this call.
  unfoldable pub abort : Bool → Exn → World → Reply × World
  unfolding clean_up
  abort committing interrupt w = (failed (passed_on interrupt), clean_up w)
  abort committing e w = abort_in w.active committing e w

  -- A known commit is never reported as busy, not committed or unknown.
  abbrev pub committed_code : Code → Code
  committed_code Code.integrity_failure = Code.integrity_failure
  committed_code Code.io_error = Code.io_error
  committed_code Code.internal_error = Code.internal_error
  committed_code _ = Code.internal_error

  abbrev pub committed_failure : IdempotencyRecord → Failure → Failure
  committed_failure r (passed_on e) = passed_on e
  committed_failure r (public l) = public (record {
    code = committed_code l.code;
    commit_state = CommitState.committed;
    details =
        some (record {
          identity = r.identity;
          result_ref = r.result_ref;
          recorded_at = r.recorded_at;
        });
  })

  -- The handler of an exception during a replay.
  unfoldable pub abort_replay : IdempotencyRecord → Exn → World → Reply × World
  unfolding abort clean_up
  abort_replay r interrupt w = (failed (passed_on interrupt), clean_up w)
  abort_replay r (rejected c) w = abort false (rejected c) w
  abort_replay r e w = (failed (committed_failure r (error e CommitState.committed)), clean_up w)

  abbrev pub finish_replay : IdempotencyRecord → Outcome (Unit {0}) × World → Reply × World
  finish_replay r (returns _, w) = (committed (record { operation = r; replayed = true }), w)
  finish_replay r (raises e, w) = abort_replay r e w

  unfoldable pub replay : Prepared → IdempotencyRecord → World → Reply × World
  unfolding abort_replay
  replay p r w =
      finish_replay r ((check_replay sha256 p.request p.incoming p.supplied r >> rollback) w)

  abbrev pub finish_commit : IdempotencyRecord → Outcome (Unit {0}) × World → Reply × World
  finish_commit r (returns _, w) = (committed (record { operation = r; replayed = false }), w)
  finish_commit r (raises e, w) = abort true e w

  abbrev pub finish_stage : Outcome IdempotencyRecord × World → Reply × World
  finish_stage (raises e, w) = abort false e w
  finish_stage (returns r, w) = finish_commit r (commit w)

  unfoldable pub perform : Prepared → Text → World → Reply × World
  unfolding stage abort
  perform p now w = finish_stage (stage p now w)

  abbrev pub finish_open :
      Prepared → Text → Outcome (Option IdempotencyRecord) × World → Reply × World
  finish_open p now (raises e, w) = abort false e w
  finish_open p now (returns none, w) = perform p now w
  finish_open p now (returns (some r), w) = replay p r w

  -- A transaction that was open before the call is not this call's to end: BEGIN fails in it.
  abbrev pub run_in :
      Option Db → Prepared → Text → Outcome (Option IdempotencyRecord) × World → Reply × World
  run_in none p now r = finish_open p now r
  run_in (some _) p now (raises e, w) = (failed (error e CommitState.not_committed), w)
  run_in (some _) p now (returns previous, w) = finish_open p now (returns previous, w)

  unfoldable pub run : Prepared → Text → World → Reply × World
  unfolding open_transaction perform replay
  run p now w = run_in w.active p now (open_transaction p w)

  abbrev pub execute_prepared : Result Prepared → Text → World → Reply × World
  execute_prepared (err c) now w = (failed (ledger_error c CommitState.not_committed), w)
  execute_prepared (ok p) now w =
      if w.closed
      then (failed (ledger_error Code.io_error CommitState.not_committed), w)
      else run p now w

  unfoldable pub execute : Result Request → Transport → Text → World → Reply × World
  unfolding prepare run
  execute parsed transport now w = execute_prepared (prepare parsed transport) now w
