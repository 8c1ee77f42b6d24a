-- ===== src/Service/Queries.antt =====
-- The other reads of service.py: `get_record`, `get_history`, `get_operation`, `verify`, `export_bundle`.
pub mod Methods
pub mod Untouched
pub mod Still
pub mod Stored
pub mod Payloads
pub mod Indexed
pub mod Intact
use infra_artifact_ledger.Prelude.{
  ℕ, suc, ◌+◌, Bool, true, false, ◌||◌, List, [], ◌∷◌, ◌++◌, map, Option, some, none, ltb, ◌==◌,
  length, any, contains, if◌then◌else◌,
}
use infra_artifact_ledger.Text.{Text, Bytes, text, text_eq}
use infra_artifact_ledger.Errors.{Code, CommitState, Result, ok, err}
use infra_artifact_ledger.Errors
use infra_artifact_ledger.Records.{
  Kind, OperationKind, Record, Artifact, Version, Blob, ProvenanceLink, Metadata, Identity,
  IdempotencyRecord, identity_eq,
}
use infra_artifact_ledger.Validation.Limits.{fail_if, require, max_json, max_payload, max_integer}
use infra_artifact_ledger.Validation.Scalars.{stable_id_match, opaque, string}
use infra_artifact_ledger.Validation.RecordCheck.{operation_fields, check_blob}
use infra_artifact_ledger.Validation.Graph.{validate_metadata}
use infra_artifact_ledger.Canonical.{Value, Fields, str, num, arr, obj, end, field, canonical_bytes}
use infra_artifact_ledger.Fingerprint.{
  values, artifact_value, version_value, content_root_value, blob_value, manifest_value,
  provenance_value, receipt_value, idempotency_value, metadata_value,
}
use infra_artifact_ledger.Json.Read.{parse_json}
use infra_artifact_ledger.Wire.{operation_kind_of}
use infra_artifact_ledger.Store.Tables.{OperationRow, StoredOperation, operation_text}
use infra_artifact_ledger.Store.Exec.{
  World, Exec, Outcome, returns, raises, Exn, ledger, failure, pure, raise, lift, ◌>>=◌, ◌>>◌,
}
use infra_artifact_ledger.Store.Operations
use infra_artifact_ledger.Store.Operations.{fetch_operation}
use infra_artifact_ledger.Service.Failures.{Failure, LedgerError, public, passed_on, error}
use infra_artifact_ledger.Service.Indexes.{
  integrity, ensure, metadata, find_record, read_payload, verify_indexes,
}
use infra_artifact_ledger.Service.Reads.{Answer, read}
use infra_artifact_ledger.Portable.Encode.{Payload, Bundle, encode_bundle}

unfoldable pub record_value : Record → Value
unfolding artifact_value version_value content_root_value blob_value manifest_value provenance_value
    receipt_value
record_value (Record.artifact r) = artifact_value r
record_value (Record.version r) = version_value r
record_value (Record.content_root r) = content_root_value r
record_value (Record.blob r) = blob_value r
record_value (Record.manifest r) = manifest_value r
record_value (Record.provenance_link r) = provenance_value r
record_value (Record.import_receipt r) = receipt_value r

-- The keys of KINDS
unfoldable pub kind_named : Text → Result Kind
kind_named s =
    if s == text "artifact"
    then ok Kind.artifact
    else if s == text "version"
    then ok Kind.version
    else if s == text "content_root"
    then ok Kind.content_root
    else if s == text "blob"
    then ok Kind.blob
    else if s == text "manifest"
    then ok Kind.manifest
    else if s == text "provenance_link"
    then ok Kind.provenance_link
    else if s == text "import_receipt"
    then ok Kind.import_receipt
    else err Code.invalid_input

-- `_identity`
unfoldable pub check_identity : Text → Result (Unit {0})
unfolding stable_id_match
check_identity i = require (stable_id_match i) Code.invalid_input

-- `_response_size`
unfoldable pub response_size : (Text → Bool) → Value → Result (Unit {0})
unfolding canonical_bytes parse_json
response_size finite v =
    Errors.◌>>=◌
      (canonical_bytes (
        obj (
          field (text "status") (str (text "OK")) (
            field (text "commit_state") (str (text "not_applicable"))
              (field (text "data") v end)))))
      (λ raw.
        Errors.◌>>◌ (fail_if (ltb max_json (suc (length raw))) Code.resource_limit)
          (Errors.◌>>◌ (parse_json finite max_json (raw ++ 10 ∷ [])) (ok tt)))

pub record History : Type 0 where
  pub artifact : Record
  pub versions : List Version
  pub provenance_links : List ProvenanceLink

unfoldable pub history_value : History → Value
unfolding record_value version_value provenance_value
history_value h = obj (
    field (text "artifact") (record_value h.artifact) (
      field (text "versions") (arr (values version_value h.versions))
        (field (text "provenance_links") (arr (values provenance_value h.provenance_links)) end)))

abbrev select : {A : Type 0} → (A → Bool) → List A → List A
select p [] = []
select p (x ∷ xs) = if p x then x ∷ select p xs else select p xs

-- The versions of the artifact, and the links whose subject is one of them.
unfoldable pub history_of : Record → Text → Metadata → History
history_of a i m =
    let versions = select (λ v. v.artifact_id == i) m.versions in
    record {
      artifact = a;
      versions = versions;
      provenance_links =
          select (λ p. contains p.subject_version_ref (map (λ v. v.version_id) versions))
            m.provenance_links;
    }

-- `validate_operation_query`
unfoldable pub operation_query : Text → Text → Text → Result Identity
unfolding opaque string
operation_query scope kind key = Errors.◌>>◌ (opaque scope) (
    Errors.◌>>◌ (string key 1 256) (
      Errors.◌>>=◌ (operation_kind_of kind)
        (λ k. ok (record { scope = scope; operation_kind = k; key = key }))))

abbrev pub record_of_row : StoredOperation → Exec IdempotencyRecord
record_of_row (operation_text r) = pure r
record_of_row StoredOperation.garbage = raise failure
record_of_row (StoredOperation.misshapen _) = raise failure

abbrev pub row_present : Option OperationRow → Exec OperationRow
row_present none = raise (ledger Code.not_found)
row_present (some o) = pure o

-- `fail_integrity`: a failure whose public code is INTEGRITY_FAILURE is noted, any other is raised.
abbrev pub reraised : Failure → Exn
reraised (public e) = ledger e.code
reraised (passed_on e) = e

abbrev pub is_integrity : Failure → Bool
is_integrity (public e) = elim e.code [ Code.integrity_failure ↦ true | _ ↦ false ]
is_integrity (passed_on e) = false

abbrev pub tolerated : {A : Type 0} → Outcome A → Outcome (Option A)
tolerated (returns a) = returns (some a)
tolerated (raises e) =
    let f = error e CommitState.not_applicable in
    if is_integrity f then returns none else raises (reraised f)

unfoldable pub tolerate : {A : Type 0} → Exec A → Exec (Option A)
unfolding error
tolerate m w = let (r, w') = m w in (tolerated r, w')

abbrev pub misses : {A : Type 0} → Option A → ℕ
misses none = 1
misses (some a) = 0

abbrev pub faults_of : Result (Unit {0}) → ℕ
faults_of (ok x) = 0
faults_of (err c) = 1

-- What `verify` has counted: failures, verified payloads and their bytes. The places and the texts of
-- the failures are details of the error, which are not kept.
pub record Tally : Type 0 where
  pub failures : ℕ
  pub verified_count : ℕ
  pub verified_length : ℕ

abbrev pub failed : Tally → Tally
failed t = record t { failures = suc t.failures }

abbrev pub verified : Option Bytes → Tally → Tally
verified none t = failed t
verified (some raw) t = record t {
  verified_count = suc t.verified_count;
  verified_length = t.verified_length + length raw;
}

pub record Verification : Type 0 where
  pub counts : List (Text × ℕ)
  pub verified_blob_count : ℕ
  pub verified_byte_length : ℕ

unfoldable pub counts_of : Metadata → List (Text × ℕ)
counts_of m =
    (text "artifacts", length m.artifacts)
    ∷ (text "versions", length m.versions)
    ∷ (text "content_roots", length m.content_roots)
    ∷ (text "blobs", length m.blobs)
    ∷ (text "manifests", length m.manifests)
    ∷ (text "provenance_links", length m.provenance_links)
    ∷ (text "import_receipts", length m.import_receipts)
    ∷ (text "idempotency_records", length m.idempotency_records)
    ∷ []

abbrev count_fields : List (Text × ℕ) → Fields
count_fields [] = end
count_fields ((k, n) ∷ cs) = field k (num n) (count_fields cs)

unfoldable pub verification_value : Verification → Value
verification_value v = obj (
    field (text "counts") (obj (count_fields v.counts)) (
      field (text "verified_blob_count") (num v.verified_blob_count)
        (field (text "verified_byte_length") (num v.verified_byte_length) end)))

abbrev pub total_length : List Blob → ℕ
total_length [] = 0
total_length (b ∷ bs) = b.byte_length + total_length bs
