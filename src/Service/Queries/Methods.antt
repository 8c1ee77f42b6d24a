-- ===== src/Service/Queries/Methods.antt =====
-- The read methods of `Ledger`, each in a read transaction of its own.
use infra_artifact_ledger.Prelude.{
  ◌+◌, Bool, true, false, ◌||◌, List, [], ◌∷◌, Option, some, none, ltb, ◌==◌, length, any,
  if◌then◌else◌,
}
use infra_artifact_ledger.Text.{Text, Bytes}
use infra_artifact_ledger.Errors.{Code, ok, err}
use infra_artifact_ledger.Records.{Kind, Record, Blob, IdempotencyRecord, Metadata, identity_eq}
use infra_artifact_ledger.Validation.Limits.{fail_if, max_json, max_payload, max_integer}
use infra_artifact_ledger.Validation.RecordCheck.{check_blob}
use infra_artifact_ledger.Canonical.{obj, end, field, canonical_bytes}
use infra_artifact_ledger.Fingerprint.{idempotency_value, metadata_value}
use infra_artifact_ledger.Text.{text}
use infra_artifact_ledger.Store.Tables.{Derived}
use infra_artifact_ledger.Store.Exec.{World, Exec, pure, lift, ◌>>=◌, ◌>>◌}
use infra_artifact_ledger.Store.Operations
use infra_artifact_ledger.Store.Operations.{fetch_operation}
use infra_artifact_ledger.Service.Indexes.{
  integrity, ensure, metadata, find_record, read_payload, verify_indexes, compare_indexes,
  validate_loaded, odd_refs, odd_blobs,
}
use infra_artifact_ledger.Service.Replay.{result_kind}
use infra_artifact_ledger.Service.Reads.{Answer, read}
use infra_artifact_ledger.Service.Queries.{
  record_value, kind_named, check_identity, response_size, History, history_value, history_of,
  operation_query, record_of_row, row_present, tolerate, misses, faults_of, Tally, verified, failed,
  Verification, counts_of, verification_value, total_length,
}
use infra_artifact_ledger.Portable.Encode.{Payload, Bundle, encode_bundle}

unfoldable pub required : {A : Type 0} → Option A → Exec A
unfolding integrity
required none = integrity
required (some a) = pure a

module _ (sha256 : Bytes → Text) (finite : Text → Bool) where
  unfoldable pub record_body : Text → Text → Exec Record
  unfolding kind_named check_identity find_record response_size record_value
  record_body kind i = do
    k ← lift (kind_named kind)
    lift (check_identity i)
    r ← find_record sha256 k i
    lift (response_size finite (record_value r))
    pure r

  unfoldable pub history_body : Text → Exec History
  unfolding check_identity find_record metadata history_of response_size history_value
  history_body i = do
    lift (check_identity i)
    a ← find_record sha256 Kind.artifact i
    m ← metadata sha256
    lift (response_size finite (history_value (history_of a i m)))
    pure (history_of a i m)

  unfoldable pub operation_body : Text → Text → Text → Exec (IdempotencyRecord × Record)
  unfolding operation_query fetch_operation metadata ensure find_record response_size record_value
      idempotency_value result_kind
  operation_body scope kind key = do
    i ← lift (operation_query scope kind key)
    found ← fetch_operation i
    row ← row_present found
    metadata sha256
    r ← record_of_row row.content
    ensure (r.identity == i)
    result ← find_record sha256 (result_kind i.operation_kind) r.result_ref
    lift (
        response_size finite (
          obj (
            field (text "idempotency_record") (idempotency_value r)
              (field (text "result") (record_value result) end))))
    pure (r, result)

  -- The Blob records one by one: an invalid record counts as a failure, and its payload is not read.
  unfoldable pub verify_blob : Blob → Tally → Exec Tally
  unfolding check_blob tolerate read_payload
  verify_blob b t = elim (check_blob b) [
    | err c ↦ pure (failed t)
    | ok x ↦ tolerate (read_payload sha256 b) >>= λ raw. pure (verified raw t)
  ]

  unfoldable pub verify_blobs : List Blob → Tally → Exec Tally
  unfolding verify_blob
  verify_blobs [] t = pure t
  verify_blobs (b ∷ bs) t = do next ← verify_blob b t; verify_blobs bs next

  -- `_verify_indexes` under the handlers of `verify`: an object whose rows cannot be read counts as a
  -- failure before any statement.
  unfoldable pub tolerated_indexes : Derived → List Text → Metadata → Exec (Option (Unit {0}))
  unfolding tolerate compare_indexes
  tolerated_indexes Derived.unreadable blobs m = pure none
  tolerated_indexes Derived.untyped blobs m = tolerate (compare_indexes none blobs m)
  tolerated_indexes (Derived.rows rs) blobs m = tolerate (compare_indexes (some rs) blobs m)

  -- A misshapen Blob object counts as a failure, and its payload is not read.
  unfoldable pub verify_body : Exec Verification
  unfolding Operations.metadata validate_loaded required tolerated_indexes verify_blobs ensure
      counts_of response_size verification_value
  verify_body = do
    read_back ← tolerate Operations.metadata
    l ← required read_back
    let m : Metadata = l.document
    indexes ← tolerated_indexes (odd_refs l.odd_records) (odd_blobs l.odd_records) m
    t ← verify_blobs m.blobs (record {
      failures =
          faults_of (validate_loaded sha256 l) + misses indexes + length (odd_blobs l.odd_records);
      verified_count = 0;
      verified_length = 0;
    })
    ensure (if ltb 0 t.failures then false else true)
    lift (
        fail_if
          (any (λ c. ltb max_integer c.1) (counts_of m)
            || ltb max_integer t.verified_length
            || ltb max_integer t.verified_count)
          Code.resource_limit)
    let v : Verification = record {
      counts = counts_of m;
      verified_blob_count = t.verified_count;
      verified_byte_length = t.verified_length;
    }
    lift (response_size finite (verification_value v))
    pure v

  unfoldable pub export_payloads : List Blob → Exec (List Payload)
  unfolding read_payload
  export_payloads [] = pure []
  export_payloads (b ∷ bs) = do
    raw ← read_payload sha256 b
    rest ← export_payloads bs
    pure ((b.blob_ref, raw) ∷ rest)

  unfoldable pub export_body : Exec Bundle
  unfolding metadata verify_indexes canonical_bytes metadata_value export_payloads encode_bundle
  export_body = do
    m ← metadata sha256
    verify_indexes m
    raw ← lift (canonical_bytes (metadata_value m))
    lift (fail_if (ltb max_json (length raw)) Code.resource_limit)
    lift (fail_if (ltb max_payload (total_length m.blobs)) Code.resource_limit)
    payloads ← export_payloads m.blobs
    lift (encode_bundle sha256 finite m payloads)

  -- `get_record`
  unfoldable pub get_record : Text → Text → World → Answer Record × World
  unfolding read record_body
  get_record kind i w = read (record_body kind i) w

  -- `get_history`
  unfoldable pub get_history : Text → World → Answer History × World
  unfolding read history_body
  get_history i w = read (history_body i) w

  -- `get_operation`
  unfoldable pub get_operation :
      Text → Text → Text → World → Answer (IdempotencyRecord × Record) × World
  unfolding read operation_body
  get_operation scope kind key w = read (operation_body scope kind key) w

  -- `verify`
  unfoldable pub verify : World → Answer Verification × World
  unfolding read verify_body
  verify w = read verify_body w

  -- `export_bundle`
  unfoldable pub export_bundle : World → Answer Bundle × World
  unfolding read export_body
  export_bundle w = read export_body w
