-- ===== src/Service/Replay.antt =====
-- `_check_replay` of service.py: a stored success against the request that repeats it.
use infra_artifact_ledger.Prelude.{
  Bool, true, false, List, [], ◌++◌, map, Option, some, none, ◌==◌, if◌then◌else◌, subset, sorted,
}
use infra_artifact_ledger.Text.{Text, Bytes, text_eq, texts_eq, text_le}
use infra_artifact_ledger.Errors.{Code, Result, ok, err}
use infra_artifact_ledger.Records.{
  Kind, OperationKind, Blob, Record, IdempotencyRecord, Metadata, kind_of, id_of, record_eq,
  identity_eq, idempotency_record_eq,
}
use infra_artifact_ledger.Requests.{AppendBody, Body, Request, identity_of, kind_of_body}
use infra_artifact_ledger.Validation.RecordCheck.{check_payload}
use infra_artifact_ledger.Validation.Graph.{all_records, content_blob_refs}
use infra_artifact_ledger.Store.Tables.{OperationRow, StoredOperation, operation_text}
use infra_artifact_ledger.Store.Exec.{Exec, rejected, pure, raise, lift, ◌>>=◌, ◌>>◌}
use infra_artifact_ledger.Store.Operations.{each, fetch_operation}
use infra_artifact_ledger.Service.Indexes.{
  integrity, ensure, metadata, find_record, read_payload, verify_indexes,
}
use infra_artifact_ledger.Service.Plans.{Payload, keys, supply}

-- _RESULT_KIND
unfoldable pub result_kind : OperationKind → Kind
result_kind OperationKind.create_artifact = Kind.artifact
result_kind OperationKind.append_version = Kind.version
result_kind OperationKind.import_bundle = Kind.import_receipt

-- The record without its key `recorded_at`.
unfoldable pub without_time : Record → Record
without_time (Record.artifact r) = Record.artifact (record r { recorded_at = none })
without_time (Record.version r) = Record.version (record r { recorded_at = none })
without_time (Record.provenance_link r) = Record.provenance_link (record r { recorded_at = none })
without_time (Record.import_receipt r) = Record.import_receipt (record r { recorded_at = none })
without_time r = r

-- The records that an append names, in the order of the loop, without the version.
abbrev pub body_records : AppendBody → List Record
body_records b =
    map Record.content_root b.content_roots
    ++ (map Record.blob b.blobs
        ++ (map Record.manifest b.manifests ++ map Record.provenance_link b.provenance_links))

unfoldable pub reject : {A : Type 0} → Result A → Exec A
reject (ok a) = pure a
reject (err c) = raise (rejected c)

abbrev same_operation : IdempotencyRecord → Option OperationRow → Bool
same_operation original none = false
same_operation original (some o) = elim o.content [
  | StoredOperation.garbage ↦ false
  | StoredOperation.misshapen _ ↦ false
  | operation_text r ↦ r == original
]

-- The receipt lists the artifacts of the package.
abbrev lists_artifacts : Record → Metadata → Bool
lists_artifacts (Record.import_receipt r) incoming =
    r.imported_artifact_refs == sorted text_le (map (λ a. a.artifact_id) incoming.artifacts)
lists_artifacts _ incoming = false

unfoldable pub version_refs : Metadata → Record → Exec (List Text)
version_refs current (Record.version v) = lift (content_blob_refs current v)
version_refs current _ = integrity

module _ (sha256 : Bytes → Text) where
  -- `require_record`; only a link of an append and the new record itself are compared without time.
  unfoldable pub require_record : Bool → Record → Exec (Unit {0})
  require_record untimed original = do
    actual ← find_record sha256 (kind_of original) (id_of original)
    ensure ((if untimed then without_time actual else actual) == original)

  unfoldable pub require_operation : IdempotencyRecord → Exec (Unit {0})
  require_operation original = do
    found ← fetch_operation original.identity
    ensure (same_operation original found)

  -- The branch of the request's kind: the blobs of the replayed content.
  unfoldable pub replayed_refs :
      Body → Metadata → Metadata → IdempotencyRecord → Record → Exec (List Text)
  unfolding require_record require_operation version_refs
  replayed_refs (Body.create_artifact a) current incoming previous result = do
    ensure (previous.result_ref == a.artifact_id)
    require_record true (Record.artifact a)
    pure []
  replayed_refs (Body.append_version b) current incoming previous result = do
    ensure (previous.result_ref == b.version.version_id)
    require_record true (Record.version b.version)
    each (require_record true) (body_records b)
    version_refs current result
  replayed_refs (Body.import_bundle i) current incoming previous result = do
    ensure (previous.result_ref == i)
    ensure (lists_artifacts result incoming)
    each (require_record false) (all_records incoming)
    each require_operation incoming.idempotency_records
    pure (map (λ b. b.blob_ref) incoming.blobs)

  unfoldable pub check_given : Blob → Option Bytes → Exec (Unit {0})
  unfolding reject
  check_given b none = pure tt
  check_given b (some raw) = reject (check_payload sha256 b raw)

  unfoldable pub replayed_blob : List Payload → Record → Exec (Unit {0})
  unfolding check_given
  replayed_blob supplied (Record.blob b) = do
    check_given b (supply b.blob_ref supplied)
    read_payload sha256 b
    pure tt
  replayed_blob supplied _ = integrity

  -- The last loop: supplied bytes fit the stored blob, and the stored bytes are intact.
  unfoldable pub replay_payload : List Payload → Text → Exec (Unit {0})
  unfolding replayed_blob
  replay_payload supplied i = do
    found ← find_record sha256 Kind.blob i
    replayed_blob supplied found

  unfoldable pub check_replay :
      Request → Metadata → List Payload → IdempotencyRecord → Exec (Unit {0})
  unfolding replayed_refs replay_payload reject
  check_replay request incoming supplied previous = do
    current ← metadata sha256
    verify_indexes current
    result ← find_record sha256 (result_kind (kind_of_body request.body)) previous.result_ref
    ensure (previous.identity == identity_of request)
    refs ← replayed_refs request.body current incoming previous result
    reject (if subset (keys supplied) refs then ok tt else err Code.invalid_input)
    each (replay_payload supplied) refs
