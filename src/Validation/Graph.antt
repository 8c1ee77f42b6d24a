-- ===== src/Validation/Graph.antt =====
-- `validate_metadata` of validation.py: the identities, the references, the parent graph and the
-- closure of a metadata document.
use Prim.Native.String.{String}
use infra_artifact_ledger.Prelude.{
  ℕ, zero, suc, ◌+◌, ◌-◌, ◌≤◌, ◌≡◌, Bool, true, false, not, ◌&&◌, ◌||◌, List, [], ◌∷◌, ◌++◌, map,
  Option, some, none, arith, ltb, leb, eqb, ◌==◌, if◌then◌else◌, length, any, all, find, keep,
  contains, set_of, same_set,
}
use infra_artifact_ledger.Text.{Text, Bytes, text, text_eq}
use infra_artifact_ledger.Errors.{Code, Result, ok, err, ◌>>=◌, ◌>>◌}
use infra_artifact_ledger.Records.{
  Artifact, Version, RootTarget, ContentRoot, Blob, Entry, Manifest, ObjectRef, ProvenanceLink,
  ImportReceipt, Record, OperationKind, Identity, IdempotencyRecord, Metadata, TheoryBaseline,
  id_of, identity_eq, contract_version, schema_id, theory_baseline,
}
use infra_artifact_ledger.Validation.Limits.{fail_if, require, max_payload}
use infra_artifact_ledger.Validation.Scalars.{expect_version, array}
use infra_artifact_ledger.Validation.RecordCheck.{validate_record, check_idempotency}
pub mod Kahn
use Kahn.{visited_count}

-- The owned records in the order of KINDS.
abbrev pub all_records : Metadata → List Record
all_records m =
    map Record.artifact m.artifacts
    ++ (map Record.version m.versions
        ++ (map Record.content_root m.content_roots
            ++ (map Record.blob m.blobs
                ++ (map Record.manifest m.manifests
                    ++ (map Record.provenance_link m.provenance_links
                        ++ map Record.import_receipt m.import_receipts)))))

module _ {A : Type 0} (key : A → Text) where
  -- `by_kind[kind].get(identity)`
  abbrev pub by_id : Text → List A → Option A
  by_id i [] = none
  by_id i (x ∷ xs) = if key x == i then some x else by_id i xs

  -- `reference`
  abbrev pub reference : Text → List A → Result A
  reference i xs = elim (by_id i xs) [ none ↦ err Code.integrity_failure | some x ↦ ok x ]

-- The contract constants of the document.
unfoldable pub check_header : Metadata → Result (Unit {0})
check_header m = do
  expect_version m.contract_version contract_version Code.unsupported_version
  expect_version m.contract_status (text "candidate") Code.unsupported_version
  expect_version m.schema_id schema_id Code.unsupported_version
  expect_version m.theory_baseline.repository theory_baseline.repository Code.unsupported_version
  expect_version m.theory_baseline.commit theory_baseline.commit Code.unsupported_version

-- The loop over the idempotency records, with the identities that were seen.
unfoldable pub check_operations : List Identity → List IdempotencyRecord → Result (Unit {0})
check_operations seen [] = ok tt
check_operations seen (r ∷ rs) = do
  check_idempotency r
  fail_if (contains r.identity seen) Code.idempotency_conflict
  check_operations (r.identity ∷ seen) rs

-- `_content_refs`
unfoldable pub content_refs : List ContentRoot → List Manifest → Version → Result (List Text)
content_refs roots manifests v = do
  root ← reference (λ r. r.content_root_ref) v.content_root_ref roots
  elim root.target [
    | RootTarget.blob_ref b ↦ ok (b ∷ [])
    | RootTarget.manifest_ref m ↦ do
      found ← reference (λ r. r.manifest_ref) m manifests
      ok (set_of (map (λ e. e.blob_ref) found.entries))
  ]

-- `content_blob_refs`
unfoldable pub content_blob_refs : Metadata → Version → Result (List Text)
unfolding content_refs
content_blob_refs m v = content_refs m.content_roots m.manifests v

-- `sum(by_kind["blob"][ref]["byte_length"] for ref in refs)`; a missing key is a KeyError.
unfoldable pub closure_length : List Blob → List Text → Result ℕ
closure_length blobs [] = ok 0
closure_length blobs (r ∷ rs) = elim (by_id (λ b. b.blob_ref) r blobs) [
  | none ↦ err Code.internal_error
  | some b ↦ do n ← closure_length blobs rs; ok (b.byte_length + n)
]

-- The parents of a version exist and belong to its artifact.
unfoldable pub check_parents : List Version → Version → List Text → Result (Unit {0})
check_parents vs v [] = ok tt
check_parents vs v (p ∷ ps) = do
  parent ← reference (λ w. w.version_id) p vs
  require (parent.artifact_id == v.artifact_id) Code.integrity_failure
  check_parents vs v ps

unfoldable pub check_version_refs : Metadata → Version → Result (Unit {0})
unfolding check_parents
check_version_refs m v = do
  reference (λ a. a.artifact_id) v.artifact_id m.artifacts
  reference (λ r. r.content_root_ref) v.content_root_ref m.content_roots
  check_parents m.versions v v.parent_version_refs

-- The test after the traversal: every version was visited.
unfoldable pub check_acyclic : List Version → Result (Unit {0})
unfolding visited_count
check_acyclic vs = elim (visited_count vs) [
  | none ↦ err Code.internal_error
  | some n ↦ require (eqb n (length vs)) Code.integrity_failure
]

unfoldable pub check_root : Metadata → ContentRoot → Result (Unit {0})
check_root m r = elim r.target [
  | RootTarget.blob_ref b ↦ do reference (λ x. x.blob_ref) b m.blobs; ok tt
  | RootTarget.manifest_ref f ↦ do reference (λ x. x.manifest_ref) f m.manifests; ok tt
]

unfoldable pub check_manifest_refs : Metadata → Manifest → Result (Unit {0})
check_manifest_refs m f =
    array (λ e. do reference (λ x. x.blob_ref) e.blob_ref m.blobs; ok tt) f.entries

-- `used_blobs` and `used_manifests`
abbrev pub root_blobs : List ContentRoot → List Text
root_blobs [] = []
root_blobs (r ∷ rs) = elim r.target [
  | RootTarget.blob_ref b ↦ b ∷ root_blobs rs
  | RootTarget.manifest_ref f ↦ root_blobs rs
]

abbrev pub root_manifests : List ContentRoot → List Text
root_manifests [] = []
root_manifests (r ∷ rs) = elim r.target [
  | RootTarget.blob_ref b ↦ root_manifests rs
  | RootTarget.manifest_ref f ↦ f ∷ root_manifests rs
]

abbrev pub entry_blobs : List Manifest → List Text
entry_blobs [] = []
entry_blobs (f ∷ fs) = map (λ e. e.blob_ref) f.entries ++ entry_blobs fs

-- No content record is unreachable.
unfoldable pub check_reachable : Metadata → Result (Unit {0})
check_reachable m = do
  require
      (same_set (map (λ r. r.content_root_ref) m.content_roots)
        (map (λ v. v.content_root_ref) m.versions))
      Code.integrity_failure
  require (same_set (map (λ r. r.manifest_ref) m.manifests) (root_manifests m.content_roots))
      Code.integrity_failure
  require
      (same_set (map (λ r. r.blob_ref) m.blobs)
        (root_blobs m.content_roots ++ entry_blobs m.manifests))
      Code.integrity_failure

unfoldable pub check_size : Metadata → Version → Result (Unit {0})
unfolding content_refs
check_size m v = do
  refs ← content_refs m.content_roots m.manifests v
  n ← closure_length m.blobs refs
  fail_if (ltb max_payload n) Code.resource_limit

unfoldable pub check_link : Metadata → ProvenanceLink → Result (Unit {0})
check_link m p = do
  reference (λ v. v.version_id) p.subject_version_ref m.versions
  if p.object.kind == text "artifact_version"
      then (do reference (λ v. v.version_id) p.object.ref m.versions; ok tt)
      else ok tt

unfoldable pub check_receipt_refs : Metadata → ImportReceipt → Result (Unit {0})
check_receipt_refs m r =
    array (λ i. do reference (λ a. a.artifact_id) i m.artifacts; ok tt) r.imported_artifact_refs

-- `result_kinds`
unfoldable pub check_result : Metadata → IdempotencyRecord → Result (Unit {0})
check_result m r = elim r.identity.operation_kind [
  | OperationKind.create_artifact ↦ do
    reference (λ a. a.artifact_id) r.result_ref m.artifacts
    ok tt
  | OperationKind.append_version ↦ do reference (λ v. v.version_id) r.result_ref m.versions; ok tt
  | OperationKind.import_bundle ↦ do
    reference (λ i. i.import_receipt_id) r.result_ref m.import_receipts
    ok tt
]

-- The part behind `check_closure`.
unfoldable pub check_closure : Metadata → Result (Unit {0})
check_closure m = do
  array (check_version_refs m) m.versions
  check_acyclic m.versions
  array (check_root m) m.content_roots
  array (check_manifest_refs m) m.manifests
  check_reachable m
  array (check_size m) m.versions
  array (check_link m) m.provenance_links
  array (check_receipt_refs m) m.import_receipts
  array (check_result m) m.idempotency_records

module _ (sha256 : Bytes → Text) where
  -- The loop over the records of all kinds, with the ids that are owned.
  unfoldable pub check_owned : List Text → List Record → Result (Unit {0})
  check_owned owned [] = ok tt
  check_owned owned (r ∷ rs) = do
    validate_record sha256 false r
    fail_if (contains (id_of r) owned) Code.identity_conflict
    check_owned (id_of r ∷ owned) rs

  unfoldable pub validate_metadata : Metadata → Result (Unit {0})
  unfolding check_header check_closure
  validate_metadata m = do
    check_header m
    check_owned [] (all_records m)
    check_operations [] m.idempotency_records
    check_closure m
