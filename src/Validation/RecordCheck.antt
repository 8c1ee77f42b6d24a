-- ===== src/Validation/RecordCheck.antt =====
-- `validate_record` and `check_payload` of validation.py, kind by kind. What `_object` checks of the
-- keys of a JSON object is here whether `recorded_at` is present: the other keys are fields.
use infra_artifact_ledger.Prelude.{
  Bool, true, false, ◌&&◌, List, [], ◌∷◌, Option, some, none, ltb, eqb, ◌==◌, length, contains,
}
use infra_artifact_ledger.Text.{Text, Bytes, text, text_eq}
use infra_artifact_ledger.Errors.{Code, Result, ok, err, ◌>>=◌, ◌>>◌}
use infra_artifact_ledger.Records.{
  Digest, Artifact, Version, RootTarget, ContentRoot, Blob, Entry, Manifest, ProvenanceLink,
  ImportReceipt, Record, Identity, IdempotencyRecord, digest_eq,
}
use infra_artifact_ledger.Canonical.{
  Items, str, arr, obj, nil, cons, end, field, canonical_bytes, digest_bytes,
}
use infra_artifact_ledger.Validation.Limits.{fail_if, require, max_blob}
use infra_artifact_ledger.Validation.Scalars.{
  string, validate_stable_id, opaque, integer, digest, typed, unique_array,
}
use infra_artifact_ledger.Validation.Time.{time}

-- The key `recorded_at` is required of a stored record and undeclared in a new one.
unfoldable pub recorded : Bool → Option Text → Result (Unit {0})
recorded true none = ok tt
recorded true (some t) = err Code.invalid_input
recorded false none = err Code.invalid_input
recorded false (some t) = time t

unfoldable pub entries_value : List Entry → Items
entries_value [] = nil
entries_value (e ∷ es) =
    cons
      (obj
        (field (text "entry_key") (str e.entry_key) (field (text "blob_ref") (str e.blob_ref) end)))
      (entries_value es)

-- The loop over the entries, with the keys that were seen.
unfoldable pub check_entries : List Text → List Entry → Result (Unit {0})
check_entries keys [] = ok tt
check_entries keys (e ∷ es) = do
  string e.entry_key 1 512
  validate_stable_id e.blob_ref
  fail_if (contains e.entry_key keys) Code.invalid_input
  check_entries (e.entry_key ∷ keys) es

abbrev object_kinds : List Text
object_kinds =
    text "artifact_version"
    ∷ text "external_source"
    ∷ text "capture"
    ∷ text "principal"
    ∷ text "policy"
    ∷ text "runtime_ref"
    ∷ text "other"
    ∷ []

abbrev pub optional : (Text → Result (Unit {0})) → Option Text → Result (Unit {0})
optional check none = ok tt
optional check (some t) = check t

unfoldable pub check_artifact : Bool → Artifact → Result (Unit {0})
check_artifact new r = do
  recorded new r.recorded_at
  validate_stable_id r.artifact_id
  opaque r.namespace_ref
  typed r.type_ref

unfoldable pub check_version : Bool → Version → Result (Unit {0})
check_version new r = do
  recorded new r.recorded_at
  validate_stable_id r.version_id
  validate_stable_id r.artifact_id
  validate_stable_id r.content_root_ref
  unique_array validate_stable_id r.parent_version_refs
  unique_array opaque r.external_source_refs
  unique_array opaque r.capture_refs
  unique_array opaque r.handling_policy_refs
  optional opaque r.principal_ref

abbrev pub target_ref : RootTarget → Text
target_ref (RootTarget.blob_ref b) = b
target_ref (RootTarget.manifest_ref m) = m

unfoldable pub check_content_root : ContentRoot → Result (Unit {0})
check_content_root r = do
  validate_stable_id r.content_root_ref
  validate_stable_id (target_ref r.target)

unfoldable pub check_blob : Blob → Result (Unit {0})
check_blob r = do
  validate_stable_id r.blob_ref
  digest r.digest
  integer r.byte_length max_blob
  fail_if (r.payload_availability == text "erased") Code.unsupported_profile
  require (r.payload_availability == text "available") Code.invalid_input

unfoldable pub check_provenance : Bool → ProvenanceLink → Result (Unit {0})
check_provenance new r = do
  recorded new r.recorded_at
  validate_stable_id r.provenance_id
  validate_stable_id r.subject_version_ref
  typed r.relation_ref
  require (contains r.object.kind object_kinds) Code.invalid_input
  opaque r.object.ref

unfoldable pub check_receipt : ImportReceipt → Result (Unit {0})
check_receipt r = do
  recorded false r.recorded_at
  validate_stable_id r.import_receipt_id
  unique_array validate_stable_id r.imported_artifact_refs

-- `_operation_fields`
unfoldable pub operation_fields : Identity → Result (Unit {0})
operation_fields i = do opaque i.scope; string i.key 1 256

unfoldable pub check_idempotency : IdempotencyRecord → Result (Unit {0})
unfolding operation_fields
check_idempotency r = do
  recorded false r.recorded_at
  operation_fields r.identity
  digest r.request_fingerprint
  validate_stable_id r.result_ref

module _ (sha256 : Bytes → Text) where
  -- `manifest_digest` of fingerprint.py
  unfoldable pub manifest_digest : List Entry → Result Digest
  unfolding entries_value
  manifest_digest es = do
    raw ← canonical_bytes (obj (field (text "entries") (arr (entries_value es)) end))
    ok (digest_bytes sha256 raw)

  unfoldable pub check_manifest : Manifest → Result (Unit {0})
  unfolding check_entries manifest_digest
  check_manifest r = do
    validate_stable_id r.manifest_ref
    digest r.digest
    fail_if (eqb (length r.entries) 0) Code.invalid_input
    check_entries [] r.entries
    expected ← manifest_digest r.entries
    require (r.digest == expected) Code.integrity_failure

  -- `validate_record`; the flag is `new`, which only the timed kinds read.
  unfoldable pub validate_record : Bool → Record → Result (Unit {0})
  validate_record new (Record.artifact r) = check_artifact new r
  validate_record new (Record.version r) = check_version new r
  validate_record new (Record.content_root r) = check_content_root r
  validate_record new (Record.blob r) = check_blob r
  validate_record new (Record.manifest r) = check_manifest r
  validate_record new (Record.provenance_link r) = check_provenance new r
  validate_record new (Record.import_receipt r) = check_receipt r

  unfoldable pub check_payload : Blob → Bytes → Result (Unit {0})
  check_payload b raw = do
    check_blob b
    fail_if (ltb max_blob (length raw)) Code.resource_limit
    require (eqb (length raw) b.byte_length && digest_bytes sha256 raw == b.digest)
        Code.integrity_failure
