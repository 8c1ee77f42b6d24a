-- ===== src/Tests.antt =====
-- A small ledger, requests against it, and the theorems at these inputs.
mod Documents
mod Blobs
mod Reader
mod Encodings
mod Second
use infra_artifact_ledger.Prelude.{==-ne}
use infra_artifact_ledger.Errors.{CommitState}
use infra_artifact_ledger.Records.{Digest-discrete, digest_eq, empty_metadata}
use infra_artifact_ledger.Validation.Scalars.{digest, digest_match}
use infra_artifact_ledger.Validation.RecordCheck.{check_idempotency}
use infra_artifact_ledger.Validation.Time.{time, month_days}
use infra_artifact_ledger.Service.Failures.{ledger_error}
use infra_artifact_ledger.Service.Execute.{Prepared, prepare, failed}
use infra_artifact_ledger.Service.Conflict.{ready, execute_conflict}
use infra_artifact_ledger.Prelude.{
  ◌≡◌, refl, List, [], ◌∷◌, Option, some, none, Bool, true, false, ◌↔◌, ℕ,
}
use infra_artifact_ledger.Text.{Text, Bytes, text, Text-discrete}
use infra_artifact_ledger.Errors.{Code, Result, ok, err}
use infra_artifact_ledger.Records.{
  Artifact, TypedRef, Identity, OperationKind, IdempotencyRecord, Metadata, Digest,
  contract_version, profile, Identity-discrete, id_of, kind_of,
}
use infra_artifact_ledger.Prelude.{sorted}
use infra_artifact_ledger.Requests.{Body, Request, identity_of, validate_request}
use infra_artifact_ledger.Fingerprint.{request_fingerprint}
use infra_artifact_ledger.Canonical.{canonical_bytes}
use infra_artifact_ledger.Validation.Scalars.{
  expect_version, opaque, validate_stable_id, typed, array,
}
use infra_artifact_ledger.Validation.RecordCheck.{operation_fields, check_artifact, recorded}
use infra_artifact_ledger.Validation.Graph.{
  validate_metadata, check_owned, check_operations, check_acyclic, check_reachable,
}
use infra_artifact_ledger.Validation.Graph.Kahn.{visited_count}
use infra_artifact_ledger.Store.Statements.{begin, query, write, commit}
use infra_artifact_ledger.Store.Operations
use infra_artifact_ledger.Store.Operations.{
  fetch_operation, each, insert_record, insert_references, insert_payload, insert_operation,
  decode_row, decode_operation, append_record, append_decoded, load,
}
use infra_artifact_ledger.Service.Indexes.{
  metadata, verify_indexes, compare_indexes, validate_loaded, ensure,
}
use infra_artifact_ledger.Validation.Time.{
  Stamp, Zone, utc, ahead, behind, leap_valid, local_valid, month_days, is_leap, zone_valid,
}
use infra_artifact_ledger.Validation.Time.LeapSeconds.{LastMinute, leap_valid_iff}
use infra_artifact_ledger.Store.Tables.{
  Db, empty_db, OperationRow, operation_row, add_record, add_operation, reference_rows,
  RefRow-discrete,
}
use infra_artifact_ledger.Store.Exec.{
  World, Fault, runs, fails, late, ends, sqlite, SqliteCode, pure, raise, lift, wrap, ◌>>=◌,
}
use infra_artifact_ledger.Service.Plans.{Payload, create}
use infra_artifact_ledger.Service.Execute.{Transport, nothing, Reply, Success, committed, execute}
use infra_artifact_ledger.Service.Honesty.{execute-Honest}
use infra_artifact_ledger.Service.Honesty.Meaning.{Honest, Bound, Computed}
use infra_artifact_ledger.Service.History.{Extends, execute-Extends, execute-Bound, execute_once}

abbrev sixty_four : Text
sixty_four = text "00000000000000000000000000000000000000000000000000000000000000ff"

abbrev constant_hash : Bytes → Text
constant_hash raw = sixty_four

abbrev no_bundle : Bytes → Bytes → Result (Metadata × List Payload)
no_bundle raw descriptor = err Code.invalid_input

abbrev report : Artifact
report = record {
  artifact_id = text "report-1";
  namespace_ref = text "team";
  type_ref = record { namespace = text "docs"; type_id = text "report"; type_version = text "1" };
  recorded_at = none;
}

abbrev create_report : Request
create_report = record {
  profile = profile;
  contract_version = contract_version;
  idempotency_scope_ref = text "scope";
  idempotency_key = text "key-1";
  body = Body.create_artifact report;
  request_fingerprint = none;
}

abbrev noon : Text
noon = text "2026-01-01T12:00:00Z"

abbrev fresh : World
fresh = record { durable = empty_db; active = none; closed = false; faults = [] }

-- The reply to a first creation on an empty ledger.
abbrev first_operation : IdempotencyRecord
first_operation = record {
  identity = identity_of create_report;
  request_fingerprint = record { algorithm = text "sha256"; value = sixty_four };
  result_ref = text "report-1";
  recorded_at = some noon;
}

-- The file after the creation, and a connection whose next COMMIT takes effect and then raises.
abbrev once : Db
once = record empty_db { operations = operation_row first_operation ∷ [] }

abbrev reopened : World
reopened = record fresh { durable = once }

abbrev late_commit : World
late_commit = record fresh {
  faults =
      runs
      ∷ runs
      ∷ runs
      ∷ runs
      ∷ runs
      ∷ runs
      ∷ runs
      ∷ runs
      ∷ runs
      ∷ runs
      ∷ late (sqlite SqliteCode.other)
      ∷ [];
}

execute-Honest_example :
    Honest
      (Computed constant_hash no_bundle
        (prepare constant_hash no_bundle (ok create_report) nothing)
        noon
        empty_db)
      (identity_of create_report)
      empty_db
      (execute constant_hash no_bundle (ok create_report) nothing noon late_commit)
execute-Honest_example =
    execute-Honest constant_hash no_bundle empty_db create_report nothing noon late_commit
      (record { durable = refl; active = refl })

execute-Extends_example :
    Extends once
      (execute constant_hash no_bundle (ok create_report) nothing noon reopened).1.durable
execute-Extends_example =
    execute-Extends constant_hash no_bundle create_report nothing noon reopened refl

execute_once_example :
    (execute constant_hash no_bundle (ok create_report) nothing noon reopened).1.durable ≡ once
unfolding Identity-discrete
execute_once_example =
    execute_once constant_hash no_bundle create_report nothing noon reopened
      (operation_row first_operation) refl refl

-- The creation on an empty ledger succeeds afresh.
created :
    (execute constant_hash no_bundle (ok create_report) nothing noon fresh).0
    ≡ committed (record { operation = first_operation; replayed = false })
unfolding execute validate_request expect_version Text-discrete operation_fields opaque
    check_artifact recorded validate_stable_id typed request_fingerprint canonical_bytes ◌>>=◌ begin
    fetch_operation query metadata Operations.metadata sorted verify_indexes compare_indexes
    validate_loaded create each write commit insert_record insert_references insert_payload
    insert_operation add_record add_operation id_of kind_of reference_rows validate_metadata
    Identity-discrete decode_row decode_operation append_record append_decoded load pure raise lift
    wrap check_owned check_operations array visited_count RefRow-discrete ensure check_acyclic
    check_reachable
created = refl

execute-Bound_example :
    Bound
      (identity_of create_report)
      first_operation
      (execute constant_hash no_bundle (ok create_report) nothing noon fresh).1.durable
execute-Bound_example =
    execute-Bound constant_hash no_bundle create_report nothing noon fresh
      (record { operation = first_operation; replayed = false }) refl created

-- The same identity, bound to a request with another fingerprint.
abbrev other_operation : IdempotencyRecord
other_operation = record first_operation {
  request_fingerprint = record {
    algorithm = text "sha256";
    value = text "00000000000000000000000000000000000000000000000000000000000000aa";
  };
}

abbrev prepared_report : Prepared
prepared_report = record {
  request = create_report;
  incoming = empty_metadata;
  supplied = [];
  fingerprint = first_operation.request_fingerprint;
}

report_prepared : prepare constant_hash no_bundle (ok create_report) nothing ≡ ok prepared_report
unfolding prepare validate_request expect_version Text-discrete operation_fields opaque
    check_artifact recorded validate_stable_id typed request_fingerprint canonical_bytes
report_prepared = refl

other-checked : check_idempotency other_operation ≡ ok tt
unfolding check_idempotency Text-discrete operation_fields opaque validate_stable_id digest
    digest_match time month_days recorded
other-checked = refl

fingerprints_differ : ¬ (other_operation.request_fingerprint ≡ prepared_report.fingerprint)
unfolding Digest-discrete Text-discrete
fingerprints_differ = ==-ne other_operation.request_fingerprint prepared_report.fingerprint refl

abbrev conflicting : Db
conflicting = record empty_db { operations = operation_row other_operation ∷ [] }

execute_conflict_example :
    execute constant_hash no_bundle (ok create_report) nothing noon (ready conflicting)
    ≡ (failed (ledger_error Code.idempotency_conflict CommitState.not_committed), ready conflicting)
unfolding Identity-discrete
execute_conflict_example =
    execute_conflict constant_hash no_bundle create_report nothing noon prepared_report conflicting
      (operation_row other_operation) other_operation report_prepared refl refl other-checked refl
      fingerprints_differ
