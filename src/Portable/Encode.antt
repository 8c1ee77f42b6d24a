-- ===== src/Portable/Encode.antt =====
-- `encode_bundle`.
use infra_artifact_ledger.Prelude.{
  ℕ, ◌+◌, Bool, true, false, List, [], ◌∷◌, ◌++◌, map, Option, some, none, ltb, ◌==◌, length,
  same_set, sorted, if◌then◌else◌,
}
use infra_artifact_ledger.Text.{Text, Bytes, text, text_eq, text_le}
use infra_artifact_ledger.Errors.{Code, Result, ok, err, ◌>>=◌, ◌>>◌}
use infra_artifact_ledger.Records.{Identity, Blob, Metadata, transport_version, profile}
use infra_artifact_ledger.Validation.Limits.{
  fail_if, require, max_payload, max_json, max_package, max_descriptor,
}
use infra_artifact_ledger.Validation.RecordCheck.{check_payload}
use infra_artifact_ledger.Validation.Graph.{validate_metadata}
use infra_artifact_ledger.Canonical.{
  Value, str, num, obj, end, field, canonical_bytes, digest_bytes,
}
use infra_artifact_ledger.Fingerprint.{operation_name, digest_value, metadata_value}
use infra_artifact_ledger.Json.Read.{parse_json}
use infra_artifact_ledger.Portable.Pieces.{write, json_bytes}
use infra_artifact_ledger.Portable.Content.{raw_within, content_fields, content_entry}

abbrev pub Payload : Type 0
Payload = Text × Bytes

abbrev pub Bundle : Type 0
Bundle = Bytes × Bytes

-- `{blob["blob_ref"]: blob for blob in blobs}`: the last record of a reference.
abbrev pub record_of : Text → List Blob → Option Blob
record_of i [] = none
record_of i (b ∷ bs) = elim (record_of i bs) [
  | some c ↦ some c
  | none ↦ if b.blob_ref == i then some b else none
]

-- The keys of the idempotency records, in the order of Python's tuples.
abbrev identity_le : Identity → Identity → Bool
identity_le a b =
    if a.scope == b.scope
    then (if operation_name a.operation_kind == operation_name b.operation_kind
        then text_le a.key b.key
        else text_le (operation_name a.operation_kind) (operation_name b.operation_kind))
    else text_le a.scope b.scope

-- The collections sorted; the key of the receipts is there.
unfoldable pub ordered : Metadata → Metadata
unfolding sorted text_le
ordered m = record m {
  artifacts = sorted (λ a b. text_le a.artifact_id b.artifact_id) m.artifacts;
  versions = sorted (λ a b. text_le a.version_id b.version_id) m.versions;
  content_roots = sorted (λ a b. text_le a.content_root_ref b.content_root_ref) m.content_roots;
  blobs = sorted (λ a b. text_le a.blob_ref b.blob_ref) m.blobs;
  manifests = sorted (λ a b. text_le a.manifest_ref b.manifest_ref) m.manifests;
  provenance_links = sorted (λ a b. text_le a.provenance_id b.provenance_id) m.provenance_links;
  import_receipts =
      sorted (λ a b. text_le a.import_receipt_id b.import_receipt_id) m.import_receipts;
  has_receipts = true;
  idempotency_records = sorted (λ a b. identity_le a.identity b.identity) m.idempotency_records;
}

-- A write to the package.
unfoldable pub put : Bytes → Bytes → Result Bytes
unfolding write
put out chunk = do write max_package (length out) chunk; ok (out ++ chunk)

module _ (sha256 : Bytes → Text) where
  abbrev known_payload : Option Blob → Bytes → Result (Unit {0})
  known_payload none raw = err Code.internal_error
  known_payload (some b) raw = check_payload sha256 b raw

  -- Every payload is its record's, and the total is within the limit.
  unfoldable pub check_payloads : List Blob → ℕ → List Payload → Result (Unit {0})
  unfolding check_payload
  check_payloads bs total [] = ok tt
  check_payloads bs total ((i, raw) ∷ ps) =
      known_payload (record_of i bs) raw
      >> (fail_if (ltb max_payload (total + length raw)) Code.resource_limit
          >> check_payloads bs (total + length raw) ps)

  unfoldable pub payload_entry : Payload → Value
  unfolding content_entry
  payload_entry (i, raw) = obj (field (text "blob_ref") (str i) (content_fields sha256 raw))

  -- The entries, with a comma before each but the first.
  unfoldable pub put_payloads : Bool → List Payload → Bytes → Result Bytes
  unfolding put json_bytes payload_entry
  put_payloads first [] out = ok out
  put_payloads first ((i, raw) ∷ ps) out = do
    with_comma ← if first then ok out else put out (b',' ∷ [])
    entry ← json_bytes max_package (payload_entry (i, raw))
    with_entry ← put with_comma entry
    put_payloads false ps with_entry

  unfoldable pub package_of : Bytes → List Payload → Result Bytes
  unfolding put_payloads canonical_bytes content_entry sorted text_le
  package_of metadata_raw payloads = do
    version ← canonical_bytes (str transport_version)
    name ← canonical_bytes (str profile)
    start ← put [] (
        text "{\"transport_version\":"
        ++ version
        ++ text ",\"profile\":"
        ++ name
        ++ text ",\"metadata\":")
    metadata ← json_bytes max_package (content_entry sha256 metadata_raw)
    with_metadata ← put start metadata
    with_list ← put with_metadata (text ",\"payloads\":[")
    with_payloads ← put_payloads true (sorted (λ a b. text_le a.0 b.0) payloads) with_list
    put with_payloads (text "]}")

  unfoldable pub descriptor_of : Bytes → Result Bytes
  unfolding canonical_bytes raw_within
  descriptor_of transport = do
    descriptor ← canonical_bytes (
        obj (
          field (text "transport_version") (str transport_version) (
            field (text "package_byte_length") (num (length transport))
              (field (text "package_digest") (digest_value (digest_bytes sha256 transport)) end))))
    raw_within max_descriptor descriptor
    ok descriptor

  -- `encode_bundle`
  unfoldable pub encode_bundle : (Text → Bool) → Metadata → List Payload → Result Bundle
  unfolding validate_metadata check_payloads ordered json_bytes parse_json package_of descriptor_of
      metadata_value
  encode_bundle finite metadata payloads = do
    validate_metadata sha256 metadata
    require (same_set (map (λ p. p.0) payloads) (map (λ b. b.blob_ref) metadata.blobs))
        Code.integrity_failure
    check_payloads metadata.blobs 0 payloads
    metadata_raw ← json_bytes max_json (metadata_value (ordered metadata))
    parse_json finite max_json metadata_raw
    transport ← package_of metadata_raw payloads
    descriptor ← descriptor_of transport
    ok (transport, descriptor)
