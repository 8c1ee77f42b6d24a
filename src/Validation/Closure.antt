-- ===== src/Validation/Closure.antt =====
-- What a valid metadata document promises of its references: each one resolves, to a record of its
-- kind, and no content record is left without a use.
pub mod Lookups
use Lookups.{Some, Resolves, first_ok, array-All, reference-Some, reference-Resolves, subset-All}
use infra_artifact_ledger.Prelude.{
  ℕ, ◌≤◌, ◌≡◌, refl, ap, ◌∙◌, subst, ◌⊎◌, inl, inr, Bool, true, false, ◌&&◌, List, [], ◌∷◌, ◌++◌,
  map, Option, some, none, arith, All, Bool-cases, if◌then◌else◌, Eq, ◌==◌, ==-sound, ==-refl, all,
  ltb, contains, subset, same_set,
}
use infra_artifact_ledger.Text.{Text, Bytes, text, text_eq}
use infra_artifact_ledger.Errors.{Code, Result, ok, err, ◌>>=◌, ◌>>◌}
use infra_artifact_ledger.Records.{
  Artifact, Version, RootTarget, blob_ref, manifest_ref, ContentRoot, Blob, Manifest, Entry,
  ProvenanceLink, ImportReceipt, IdempotencyRecord, OperationKind, Metadata,
}
use infra_artifact_ledger.Validation.Limits.{fail_if, require, max_payload}
use infra_artifact_ledger.Validation.Scalars.{array}
use infra_artifact_ledger.Validation.Graph.{
  by_id, reference, content_refs, closure_length, check_parents, check_version_refs, check_acyclic,
  check_root, check_manifest_refs, check_reachable, check_size, check_link, check_receipt_refs,
  check_result, check_closure, validate_metadata, root_blobs, root_manifests, entry_blobs,
}
use infra_artifact_ledger.Validation.Ownership.{>>-eq-ok, validate_metadata-Checked}

module _ (m : Metadata) where
  -- The references of a version: its artifact, its content root, and parents in the same artifact.
  pub record VersionResolves (v : Version) : Type 0 where
    pub of_artifact : Resolves (λ a. a.artifact_id) v.artifact_id m.artifacts
    pub of_root : Resolves (λ r. r.content_root_ref) v.content_root_ref m.content_roots
    pub of_parents :
        All
          (λ p. Some (λ w. (w.version_id ≡ p) × (w.artifact_id ≡ v.artifact_id)) m.versions)
          v.parent_version_refs

  abbrev pub TargetResolves : RootTarget → Type 0
  TargetResolves (blob_ref b) = Resolves (λ x. x.blob_ref) b m.blobs
  TargetResolves (manifest_ref f) = Resolves (λ x. x.manifest_ref) f m.manifests

  -- The payloads of a version's content fit one call.
  abbrev pub Fits : Version → Type 0
  Fits v =
      (refs : List Text) × (n : ℕ) × (content_refs m.content_roots m.manifests v ≡ ok refs)
      × (closure_length m.blobs refs ≡ ok n)
      × (n ≤ max_payload)

  abbrev pub ResultResolves : OperationKind → Text → Type 0
  ResultResolves OperationKind.create_artifact i = Resolves (λ a. a.artifact_id) i m.artifacts
  ResultResolves OperationKind.append_version i = Resolves (λ v. v.version_id) i m.versions
  ResultResolves OperationKind.import_bundle i =
      Resolves (λ r. r.import_receipt_id) i m.import_receipts

  check_parents-All :
      (v : Version) (ps : List Text)
      → check_parents m.versions v ps ≡ ok tt
      → All (λ p. Some (λ w. (w.version_id ≡ p) × (w.artifact_id ≡ v.artifact_id)) m.versions) ps
  unfolding check_parents
  check_parents-All v [] h = tt
  check_parents-All v (p ∷ ps) h =
      let (w, h1, found) = first_ok _ (reference (λ w. w.version_id) p m.versions) h in
      let ((_, same), h2) =
        >>-eq-ok (require (w.artifact_id == v.artifact_id) Code.integrity_failure) _ h1 in
      (
        reference-Some (λ w. w.version_id) _ p m.versions w found
            (λ e. (e, ==-sound w.artifact_id v.artifact_id (ground (arith, same)))),
        check_parents-All v ps h2,
      )

  check_version_refs-VersionResolves :
      (v : Version) → check_version_refs m v ≡ ok tt → VersionResolves v
  unfolding check_version_refs
  check_version_refs-VersionResolves v h =
      let ((a, artifact), h1) = >>-eq-ok _ _ h in
      let ((r, root), parents) = >>-eq-ok _ _ h1 in
      record {
        of_artifact = reference-Resolves _ _ _ a artifact;
        of_root = reference-Resolves _ _ _ r root;
        of_parents = check_parents-All v v.parent_version_refs parents;
      }

  check_size-Fits : (v : Version) → check_size m v ≡ ok tt → Fits v
  unfolding check_size
  check_size-Fits v h =
      let (refs, h1, e) = first_ok _ (content_refs m.content_roots m.manifests v) h in
      let (n, h2, f) = first_ok _ (closure_length m.blobs refs) h1 in (refs, n, e, f, ground arith)

  check_root-Resolves : (r : ContentRoot) → check_root m r ≡ ok tt → TargetResolves r.target
  unfolding check_root
  check_root-Resolves r h = at_target r.target h
    where
      at_target :
          (t : RootTarget)
          → elim t as (λ _. Result (Unit {0})) [
            | RootTarget.blob_ref b ↦ (reference (λ x. x.blob_ref) b m.blobs) >> ok (tt {0})
            | RootTarget.manifest_ref f ↦
                (reference (λ x. x.manifest_ref) f m.manifests) >> ok (tt {0})
          ]
            ≡ ok (tt {0})
          → TargetResolves t
      at_target (blob_ref b) e =
          let ((x, found), _) = >>-eq-ok _ _ e in reference-Resolves _ b m.blobs x found
      at_target (manifest_ref f) e =
          let ((x, found), _) = >>-eq-ok _ _ e in reference-Resolves _ f m.manifests x found

  check_manifest_refs-Resolves :
      (f : Manifest)
      → check_manifest_refs m f ≡ ok tt
      → All (λ e. Resolves (λ x. x.blob_ref) e.blob_ref m.blobs) f.entries
  unfolding check_manifest_refs
  check_manifest_refs-Resolves f h =
      array-All _ f.entries
        (λ e g.
          let ((x, found), _) = >>-eq-ok _ _ g in reference-Resolves _ e.blob_ref m.blobs x found)
        h

  -- A link's subject is a version, and so is its object where it says so.
  abbrev pub LinkResolves : ProvenanceLink → Type 0
  LinkResolves p =
      Resolves (λ v. v.version_id) p.subject_version_ref m.versions
      × ((p.object.kind ≡ text "artifact_version")
          → Resolves (λ v. v.version_id) p.object.ref m.versions)

  check_link-Resolves : (p : ProvenanceLink) → check_link m p ≡ ok tt → LinkResolves p
  unfolding check_link
  check_link-Resolves p h =
      let ((v, subject), object) = >>-eq-ok _ _ h in
      (
        reference-Resolves _ _ _ v subject,
        λ e.
            by_test (p.object.kind == text "artifact_version")
              (subst (λ k. (p.object.kind == k) ≡ true) e (==-refl p.object.kind)) object,
      )
    where
      by_test :
          (b : Bool)
          → b ≡ true
          → (if b
              then (reference (λ v. v.version_id) p.object.ref m.versions >> ok (tt {0}))
              else ok (tt {0}))
            ≡ ok (tt {0})
          → Resolves (λ v. v.version_id) p.object.ref m.versions
      by_test true _ e = let ((w, found), _) = >>-eq-ok _ _ e in reference-Resolves _ _ _ w found
      by_test false t e = cc

  check_receipt_refs-Resolves :
      (r : ImportReceipt)
      → check_receipt_refs m r ≡ ok tt
      → All (λ i. Resolves (λ a. a.artifact_id) i m.artifacts) r.imported_artifact_refs
  unfolding check_receipt_refs
  check_receipt_refs-Resolves r h =
      array-All _ r.imported_artifact_refs
        (λ i g. let ((a, found), _) = >>-eq-ok _ _ g in reference-Resolves _ i m.artifacts a found)
        h

  check_result-Resolves :
      (r : IdempotencyRecord)
      → check_result m r ≡ ok tt
      → ResultResolves r.identity.operation_kind r.result_ref
  unfolding check_result
  check_result-Resolves r h = at_kind r.identity.operation_kind h
    where
      at_kind :
          (k : OperationKind)
          → elim k as (λ _. Result (Unit {0})) [
            | OperationKind.create_artifact ↦
                reference (λ a. a.artifact_id) r.result_ref m.artifacts >> ok (tt {0})
            | OperationKind.append_version ↦
                reference (λ v. v.version_id) r.result_ref m.versions >> ok (tt {0})
            | OperationKind.import_bundle ↦
                reference (λ i. i.import_receipt_id) r.result_ref m.import_receipts >> ok (tt {0})
          ]
            ≡ ok (tt {0})
          → ResultResolves k r.result_ref
      at_kind OperationKind.create_artifact e =
          let ((x, found), _) = >>-eq-ok _ _ e in reference-Resolves _ _ m.artifacts x found
      at_kind OperationKind.append_version e =
          let ((x, found), _) = >>-eq-ok _ _ e in reference-Resolves _ _ m.versions x found
      at_kind OperationKind.import_bundle e =
          let ((x, found), _) = >>-eq-ok _ _ e in reference-Resolves _ _ m.import_receipts x found

  abbrev Used : List Text → Text → Type 0
  Used refs i = contains i refs ≡ true

  -- Every reference of the document resolves, and every content record is used.
  pub record IsClosed : Type 0 where
    pub versions : All VersionResolves m.versions
    pub targets : All (λ r. TargetResolves r.target) m.content_roots
    pub entries :
        All (λ f. All (λ e. Resolves (λ x. x.blob_ref) e.blob_ref m.blobs) f.entries) m.manifests
    pub roots_used :
        All
          (Used (map (λ v. v.content_root_ref) m.versions))
          (map (λ r. r.content_root_ref) m.content_roots)
    pub manifests_used :
        All (Used (root_manifests m.content_roots)) (map (λ f. f.manifest_ref) m.manifests)
    pub blobs_used :
        All
          (Used (root_blobs m.content_roots ++ entry_blobs m.manifests))
          (map (λ b. b.blob_ref) m.blobs)
    pub sizes : All Fits m.versions
    pub links : All LinkResolves m.provenance_links
    pub receipts :
        All
          (λ r. All (λ i. Resolves (λ a. a.artifact_id) i m.artifacts) r.imported_artifact_refs)
          m.import_receipts
    pub results :
        All (λ r. ResultResolves r.identity.operation_kind r.result_ref) m.idempotency_records

  same_set-All :
      (xs ys : List Text) (c : Code) → require (same_set xs ys) c ≡ ok tt → All (Used ys) xs
  same_set-All xs ys c h = subset-All xs ys (ground arith)

  check_closure-IsClosed : check_closure m ≡ ok tt → IsClosed
  unfolding check_closure check_reachable
  check_closure-IsClosed h =
      let ((_, versions), h1) = >>-eq-ok (array (check_version_refs m) m.versions) _ h in
      let ((_, acyclic), h2) = >>-eq-ok (check_acyclic m.versions) _ h1 in
      let ((_, roots), h3) = >>-eq-ok (array (check_root m) m.content_roots) _ h2 in
      let ((_, manifests), h4) = >>-eq-ok (array (check_manifest_refs m) m.manifests) _ h3 in
      let ((_, reachable), h5) = >>-eq-ok (check_reachable m) _ h4 in
      let ((_, sizes), h6) = >>-eq-ok (array (check_size m) m.versions) _ h5 in
      let ((_, links), h7) = >>-eq-ok (array (check_link m) m.provenance_links) _ h6 in
      let ((_, receipts), results) =
        >>-eq-ok (array (check_receipt_refs m) m.import_receipts) _ h7 in
      let ((_, root_use), r1) = >>-eq-ok _ _ reachable in
      let ((_, manifest_use), blob_use) = >>-eq-ok _ _ r1 in
      record {
        versions = array-All _ m.versions check_version_refs-VersionResolves versions;
        targets = array-All _ m.content_roots check_root-Resolves roots;
        entries = array-All _ m.manifests check_manifest_refs-Resolves manifests;
        roots_used = same_set-All _ _ Code.integrity_failure root_use;
        manifests_used = same_set-All _ _ Code.integrity_failure manifest_use;
        blobs_used = same_set-All _ _ Code.integrity_failure blob_use;
        sizes = array-All _ m.versions check_size-Fits sizes;
        links = array-All _ m.provenance_links check_link-Resolves links;
        receipts = array-All _ m.import_receipts check_receipt_refs-Resolves receipts;
        results = array-All _ m.idempotency_records check_result-Resolves results;
      }

-- In a valid document every reference resolves to a record of its kind, a version's parents belong
-- to its artifact, every content root, manifest and blob is used, and the content of each version
-- fits the payload limit.
pub validate_metadata-IsClosed :
    (sha256 : Bytes → Text) (m : Metadata) → validate_metadata sha256 m ≡ ok tt → IsClosed m
validate_metadata-IsClosed sha256 m h =
    check_closure-IsClosed m (validate_metadata-Checked sha256 m h).closure
