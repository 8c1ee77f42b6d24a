-- ===== src/Requests.antt =====
-- The request documents, `validate_request` of validation.py and `request_fingerprint` of
-- fingerprint.py.
use infra_artifact_ledger.Prelude.{true, List, Option, some, none, ◌==◌}
use infra_artifact_ledger.Text.{Text, Bytes, text_eq}
use infra_artifact_ledger.Errors.{Code, Result, ok, ◌>>◌}
use infra_artifact_ledger.Records.{
  Artifact, Version, ContentRoot, Blob, Manifest, ProvenanceLink, OperationKind, Identity, Digest,
  contract_version, profile,
}
use infra_artifact_ledger.Validation.Limits.{require}
use infra_artifact_ledger.Validation.Scalars.{expect_version, array, digest, validate_stable_id}
use infra_artifact_ledger.Validation.RecordCheck.{
  operation_fields, check_artifact, check_version, check_content_root, check_blob, check_manifest,
  check_provenance,
}

pub record AppendBody : Type 0 where
  pub version : Version
  pub content_roots : List ContentRoot
  pub blobs : List Blob
  pub manifests : List Manifest
  pub provenance_links : List ProvenanceLink

-- The body that belongs to each operation kind.
pub data Body : Type 0 where
  create_artifact : Artifact → Body
  append_version : AppendBody → Body
  import_bundle : Text → Body

pub record Request : Type 0 where
  pub profile : Text
  pub contract_version : Text
  pub idempotency_scope_ref : Text
  pub idempotency_key : Text
  pub body : Body
  pub request_fingerprint : Option Digest

abbrev pub kind_of_body : Body → OperationKind
kind_of_body (Body.create_artifact a) = OperationKind.create_artifact
kind_of_body (Body.append_version b) = OperationKind.append_version
kind_of_body (Body.import_bundle i) = OperationKind.import_bundle

-- `_tuple(request)` of service.py
abbrev pub identity_of : Request → Identity
identity_of r = record {
  scope = r.idempotency_scope_ref;
  operation_kind = kind_of_body r.body;
  key = r.idempotency_key;
}

abbrev check_fingerprint : Option Digest → Result (Unit {0})
check_fingerprint none = ok tt
check_fingerprint (some d) = digest d

module _ (sha256 : Bytes → Text) where
  unfoldable pub check_append_body : AppendBody → Result (Unit {0})
  check_append_body b = do
    check_version true b.version
    array check_content_root b.content_roots
    array check_blob b.blobs
    array (check_manifest sha256) b.manifests
    array
        (λ p. do
          check_provenance true p
          require (p.subject_version_ref == b.version.version_id) Code.integrity_failure)
        b.provenance_links

  unfoldable pub check_body : Body → Result (Unit {0})
  unfolding check_append_body
  check_body (Body.create_artifact a) = check_artifact true a
  check_body (Body.append_version b) = check_append_body b
  check_body (Body.import_bundle i) = validate_stable_id i

  unfoldable pub validate_request : Request → Result (Unit {0})
  unfolding check_body
  validate_request r = do
    expect_version r.profile profile Code.unsupported_profile
    expect_version r.contract_version contract_version Code.unsupported_version
    operation_fields (identity_of r)
    check_fingerprint r.request_fingerprint
    check_body r.body
