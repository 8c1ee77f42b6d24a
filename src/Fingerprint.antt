-- ===== src/Fingerprint.antt =====
-- The JSON values of requests and metadata, and `request_fingerprint` of fingerprint.py.
use Prim.Native.String.{String}
use infra_artifact_ledger.Prelude.{List, [], ◌∷◌, Option, some, none, if◌then◌else◌}
use infra_artifact_ledger.Text.{Text, Bytes, text}
use infra_artifact_ledger.Errors.{Result, ok, ◌>>=◌}
use infra_artifact_ledger.Records.{
  Digest, Artifact, Version, RootTarget, ContentRoot, Blob, Manifest, ProvenanceLink, ImportReceipt,
  OperationKind, IdempotencyRecord, Metadata,
}
use infra_artifact_ledger.Requests.{Body, Request, kind_of_body}
use infra_artifact_ledger.Canonical.{
  Value, Items, Fields, str, num, arr, obj, nil, cons, end, field, canonical_bytes, digest_bytes,
}
use infra_artifact_ledger.Validation.RecordCheck.{entries_value}

abbrev pair : String → Text → Fields → Fields
pair k v fs = field (text k) (str v) fs

abbrev pub values {ℓ} : {A : Type ℓ} → (A → Value) → List A → Items
values f [] = nil
values f (x ∷ xs) = cons (f x) (values f xs)

-- A key that may be absent.
abbrev maybe : String → Option Text → Fields → Fields
maybe k none fs = fs
maybe k (some v) fs = pair k v fs

abbrev pub operation_name : OperationKind → Text
operation_name OperationKind.create_artifact = text "create_artifact"
operation_name OperationKind.append_version = text "append_version"
operation_name OperationKind.import_bundle = text "import_bundle"

unfoldable pub digest_value : Digest → Value
digest_value d = obj (pair "algorithm" d.algorithm (pair "value" d.value end))

unfoldable pub artifact_value : Artifact → Value
artifact_value a = obj (
    pair "artifact_id" a.artifact_id (
      pair "namespace_ref" a.namespace_ref (
        field (text "type_ref")
          (obj (
            pair "namespace" a.type_ref.namespace (
              pair "type_id" a.type_ref.type_id (pair "type_version" a.type_ref.type_version end))))
          (maybe "recorded_at" a.recorded_at end))))

unfoldable pub version_value : Version → Value
version_value v = obj (
    pair "version_id" v.version_id (
      pair "artifact_id" v.artifact_id (
        pair "content_root_ref" v.content_root_ref (
          field (text "parent_version_refs") (arr (values str v.parent_version_refs)) (
            field (text "external_source_refs") (arr (values str v.external_source_refs)) (
              field (text "capture_refs") (arr (values str v.capture_refs)) (
                field (text "handling_policy_refs") (arr (values str v.handling_policy_refs)) (
                  maybe "principal_ref" v.principal_ref
                    (maybe "recorded_at" v.recorded_at end)))))))))

unfoldable pub content_root_value : ContentRoot → Value
content_root_value r = obj (
    pair "content_root_ref" r.content_root_ref (elim r.target [
      | RootTarget.blob_ref b ↦ pair "kind" (text "blob") (pair "blob_ref" b end)
      | RootTarget.manifest_ref m ↦ pair "kind" (text "manifest") (pair "manifest_ref" m end)
    ]))

unfoldable pub blob_value : Blob → Value
unfolding digest_value
blob_value b = obj (
    pair "blob_ref" b.blob_ref (
      field (text "digest") (digest_value b.digest) (
        field (text "byte_length") (num b.byte_length)
          (pair "payload_availability" b.payload_availability end))))

unfoldable pub manifest_value : Manifest → Value
unfolding digest_value
manifest_value m = obj (
    pair "manifest_ref" m.manifest_ref (
      field (text "digest") (digest_value m.digest)
        (field (text "entries") (arr (entries_value m.entries)) end)))

unfoldable pub provenance_value : ProvenanceLink → Value
provenance_value p = obj (
    pair "provenance_id" p.provenance_id (
      pair "subject_version_ref" p.subject_version_ref (
        field (text "relation_ref")
          (obj (
            pair "namespace" p.relation_ref.namespace (
              pair "relation_id" p.relation_ref.type_id
                (pair "relation_version" p.relation_ref.type_version end))))
          (field (text "object") (obj (pair "kind" p.object.kind (pair "ref" p.object.ref end)))
            (maybe "recorded_at" p.recorded_at end)))))

unfoldable pub receipt_value : ImportReceipt → Value
receipt_value r = obj (
    pair "import_receipt_id" r.import_receipt_id (
      field (text "imported_artifact_refs") (arr (values str r.imported_artifact_refs))
        (maybe "recorded_at" r.recorded_at end)))

unfoldable pub idempotency_value : IdempotencyRecord → Value
unfolding digest_value
idempotency_value r = obj (
    pair "idempotency_scope_ref" r.identity.scope (
      pair "operation_kind" (operation_name r.identity.operation_kind) (
        pair "idempotency_key" r.identity.key (
          field (text "request_fingerprint") (digest_value r.request_fingerprint)
            (pair "result_ref" r.result_ref (maybe "recorded_at" r.recorded_at end))))))

abbrev receipts_field : Metadata → Fields → Fields
receipts_field m fs =
    if m.has_receipts
    then field (text "import_receipts") (arr (values receipt_value m.import_receipts)) fs
    else fs

-- The document as the JSON object that it is in the program, with the keys that `validate_metadata`
-- names.
unfoldable pub metadata_value : Metadata → Value
unfolding artifact_value version_value content_root_value blob_value manifest_value provenance_value
    receipt_value idempotency_value
metadata_value m = obj (
    pair "contract_version" m.contract_version (
      pair "contract_status" m.contract_status (
        pair "schema_id" m.schema_id (
          field (text "theory_baseline")
            (obj (
              pair "repository" m.theory_baseline.repository
                (pair "commit" m.theory_baseline.commit end)))
            (field (text "artifacts") (arr (values artifact_value m.artifacts)) (
              field (text "versions") (arr (values version_value m.versions)) (
                field (text "content_roots") (arr (values content_root_value m.content_roots)) (
                  field (text "blobs") (arr (values blob_value m.blobs)) (
                    field (text "manifests") (arr (values manifest_value m.manifests)) (
                      field (text "provenance_links")
                        (arr (values provenance_value m.provenance_links))
                        (receipts_field m (
                          field (text "idempotency_records")
                            (arr (values idempotency_value m.idempotency_records)) end))))))))))))

-- `request["body"]`, or for an import the receipt with the parsed bundle.
unfoldable pub body_value : Body → Metadata → Value
unfolding artifact_value version_value content_root_value blob_value manifest_value provenance_value
    metadata_value
body_value (Body.create_artifact a) bundle = obj (field (text "artifact") (artifact_value a) end)
body_value (Body.append_version b) bundle = obj (
    field (text "version") (version_value b.version) (
      field (text "content_roots") (arr (values content_root_value b.content_roots)) (
        field (text "blobs") (arr (values blob_value b.blobs)) (
          field (text "manifests") (arr (values manifest_value b.manifests)) (
            field (text "provenance_links") (arr (values provenance_value b.provenance_links))
              end)))))
body_value (Body.import_bundle i) bundle =
    obj (pair "import_receipt_id" i (field (text "bundle") (metadata_value bundle) end))

-- The envelope of `request_fingerprint`: neither the key nor a supplied fingerprint is part of it.
unfoldable pub envelope : Request → Metadata → Value
unfolding body_value
envelope r bundle = obj (
    pair "contract_version" r.contract_version (
      pair "idempotency_scope_ref" r.idempotency_scope_ref (
        pair "operation_kind" (operation_name (kind_of_body r.body))
          (field (text "body") (body_value r.body bundle) end))))

unfoldable pub request_fingerprint : (Bytes → Text) → Request → Metadata → Result Digest
unfolding envelope
request_fingerprint sha256 r bundle = do
  raw ← canonical_bytes (envelope r bundle)
  ok (digest_bytes sha256 raw)
