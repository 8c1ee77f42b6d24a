-- ===== src/Wire/Documents.antt =====
-- Metadata documents and requests read out of JSON values.
use infra_artifact_ledger.Prelude.{Bool, true, false, List, [], ◌∷◌, Option, some, none}
use infra_artifact_ledger.Text.{text, text_eq}
use infra_artifact_ledger.Errors.{Result, ok, ◌>>=◌}
use infra_artifact_ledger.Records.{TheoryBaseline, ImportReceipt, Digest, Metadata, OperationKind}
use infra_artifact_ledger.Requests.{AppendBody, Body, Request}
use infra_artifact_ledger.Canonical.{Value}
use infra_artifact_ledger.Wire.{
  lookup, object_of, text_of, list_of, at_key, digest_of, artifact_of, version_of, content_root_of,
  blob_of, manifest_of, provenance_of, receipt_of, operation_kind_of, idempotency_of,
}

unfoldable pub baseline_of : Value → Result TheoryBaseline
baseline_of v = do
  fs ← object_of ("repository" ∷ "commit" ∷ []) [] v
  repository ← at_key text_of "repository" fs
  commit ← at_key text_of "commit" fs
  ok (record { repository = repository; commit = commit })

-- `metadata.get("import_receipts", [])`, and whether the key is there.
abbrev maybe_receipts : Option Value → Result (Bool × List ImportReceipt)
maybe_receipts none = ok (false, [])
maybe_receipts (some v) = list_of receipt_of v >>= λ rs. ok (true, rs)

unfoldable pub metadata_of : Value → Result Metadata
unfolding baseline_of artifact_of version_of content_root_of blob_of manifest_of provenance_of
    receipt_of idempotency_of
metadata_of v = do
  fs ←
      object_of
        ("contract_version" ∷ "contract_status" ∷ "schema_id" ∷ "theory_baseline"
          ∷ "idempotency_records" ∷ "artifacts" ∷ "versions" ∷ "content_roots" ∷ "blobs"
          ∷ "manifests" ∷ "provenance_links" ∷ [])
        ("import_receipts" ∷ []) v
  contract_version ← at_key text_of "contract_version" fs
  contract_status ← at_key text_of "contract_status" fs
  schema_id ← at_key text_of "schema_id" fs
  baseline ← at_key baseline_of "theory_baseline" fs
  artifacts ← at_key (list_of (artifact_of false)) "artifacts" fs
  versions ← at_key (list_of (version_of false)) "versions" fs
  roots ← at_key (list_of content_root_of) "content_roots" fs
  blobs ← at_key (list_of blob_of) "blobs" fs
  manifests ← at_key (list_of manifest_of) "manifests" fs
  links ← at_key (list_of (provenance_of false)) "provenance_links" fs
  receipts ← maybe_receipts (lookup (text "import_receipts") fs)
  operations ← at_key (list_of idempotency_of) "idempotency_records" fs
  ok (record {
    contract_version = contract_version;
    contract_status = contract_status;
    schema_id = schema_id;
    theory_baseline = baseline;
    artifacts = artifacts;
    versions = versions;
    content_roots = roots;
    blobs = blobs;
    manifests = manifests;
    provenance_links = links;
    import_receipts = receipts.1;
    has_receipts = receipts.0;
    idempotency_records = operations;
  })

unfoldable pub append_body_of : Value → Result AppendBody
append_body_of v = do
  fs ←
      object_of ("version" ∷ "content_roots" ∷ "blobs" ∷ "manifests" ∷ "provenance_links" ∷ []) [] v
  version ← at_key (version_of true) "version" fs
  roots ← at_key (list_of content_root_of) "content_roots" fs
  blobs ← at_key (list_of blob_of) "blobs" fs
  manifests ← at_key (list_of manifest_of) "manifests" fs
  links ← at_key (list_of (provenance_of true)) "provenance_links" fs
  ok (record {
    version = version;
    content_roots = roots;
    blobs = blobs;
    manifests = manifests;
    provenance_links = links;
  })

-- The body of a request, by its operation kind.
unfoldable pub body_of : OperationKind → Value → Result Body
unfolding append_body_of
body_of OperationKind.create_artifact v = do
  fs ← object_of ("artifact" ∷ []) [] v
  artifact ← at_key (artifact_of true) "artifact" fs
  ok (Body.create_artifact artifact)
body_of OperationKind.append_version v = do body ← append_body_of v; ok (Body.append_version body)
body_of OperationKind.import_bundle v = do
  fs ← object_of ("import_receipt_id" ∷ []) [] v
  receipt ← at_key text_of "import_receipt_id" fs
  ok (Body.import_bundle receipt)

abbrev maybe_digest : Option Value → Result (Option Digest)
maybe_digest none = ok none
maybe_digest (some v) = digest_of v >>= λ d. ok (some d)

unfoldable pub request_of : Value → Result Request
unfolding body_of
request_of v = do
  fs ←
      object_of
        ("profile" ∷ "contract_version" ∷ "operation_kind" ∷ "idempotency_scope_ref"
          ∷ "idempotency_key" ∷ "body" ∷ [])
        ("request_fingerprint" ∷ []) v
  profile ← at_key text_of "profile" fs
  contract_version ← at_key text_of "contract_version" fs
  name ← at_key text_of "operation_kind" fs
  kind ← operation_kind_of name
  scope ← at_key text_of "idempotency_scope_ref" fs
  key ← at_key text_of "idempotency_key" fs
  fingerprint ← maybe_digest (lookup (text "request_fingerprint") fs)
  body ← at_key (body_of kind) "body" fs
  ok (record {
    profile = profile;
    contract_version = contract_version;
    idempotency_scope_ref = scope;
    idempotency_key = key;
    body = body;
    request_fingerprint = fingerprint;
  })
