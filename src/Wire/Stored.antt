-- ===== src/Wire/Stored.antt =====
-- A metadata document is read back from the value that it is written as, keys sorted.
use infra_artifact_ledger.Prelude.{◌≡◌, refl, Bool, true, false, List, [], ◌∷◌, All}
use infra_artifact_ledger.Text.{Text-discrete, text_le}
use infra_artifact_ledger.Errors.{ok}
use infra_artifact_ledger.Records.{ImportReceipt, Metadata}
use infra_artifact_ledger.Canonical.{sort_value}
use infra_artifact_ledger.Fingerprint.{
  artifact_value, version_value, content_root_value, blob_value, manifest_value, provenance_value,
  receipt_value, idempotency_value, metadata_value,
}
use infra_artifact_ledger.Wire.{
  artifact_of, version_of, content_root_of, blob_of, manifest_of, provenance_of, receipt_of,
  idempotency_of,
}
use infra_artifact_ledger.Wire.Documents.{metadata_of, baseline_of}
use infra_artifact_ledger.Wire.RoundTrip.{
  IsTimed, items_of-values, artifact_back, version_back, content_root_back, blob_back,
  manifest_back, provenance_back, receipt_back, idempotency_back,
}

All-map :
    {A : Type 0} {P Q : A → Type 0} (xs : List A) → ((x : A) → P x → Q x) → All P xs → All Q xs
All-map [] k h = tt
All-map (x ∷ xs) k h = (k x h.0, All-map xs k h.1)

All-intro : {A : Type 0} {P : A → Type 0} (xs : List A) → ((x : A) → P x) → All P xs
All-intro [] k = tt
All-intro (x ∷ xs) k = (k x, All-intro xs k)

-- Receipts are in the document only if their key is.
abbrev Keyed : Bool → List ImportReceipt → Type 0
Keyed true rs = Unit
Keyed false rs = rs ≡ []

-- Every timed record of the document has its time.
pub record IsStored (m : Metadata) : Type 0 where
  pub artifacts : All (λ a. IsTimed a.recorded_at) m.artifacts
  pub versions : All (λ v. IsTimed v.recorded_at) m.versions
  pub links : All (λ p. IsTimed p.recorded_at) m.provenance_links
  pub receipts : All (λ r. IsTimed r.recorded_at) m.import_receipts
  pub operations : All (λ r. IsTimed r.recorded_at) m.idempotency_records
  pub keyed : Keyed m.has_receipts m.import_receipts

-- A document of stored records is read back from its JSON value with sorted keys.
pub metadata_of-metadata_value :
    (m : Metadata) → IsStored m → metadata_of (sort_value (metadata_value m)) ≡ ok m
unfolding metadata_of metadata_value sort_value text_le Text-discrete baseline_of
metadata_of-metadata_value m h = by_key m.has_receipts m.import_receipts h.keyed h.receipts
  where
    by_key :
        (b : Bool) (rs : List ImportReceipt)
        → Keyed b rs
        → All (λ r. IsTimed r.recorded_at) rs
        → metadata_of
            (sort_value (metadata_value (record m { has_receipts = b; import_receipts = rs })))
          ≡ ok (record m { has_receipts = b; import_receipts = rs })
    by_key true rs k t =
        rw
          (
            items_of-values artifact_value (artifact_of false) m.artifacts
                (All-map m.artifacts artifact_back h.artifacts),
            items_of-values version_value (version_of false) m.versions
                (All-map m.versions version_back h.versions),
            items_of-values content_root_value content_root_of m.content_roots
                (All-intro m.content_roots content_root_back),
            items_of-values blob_value blob_of m.blobs (All-intro m.blobs blob_back),
            items_of-values manifest_value manifest_of m.manifests
                (All-intro m.manifests manifest_back),
            items_of-values provenance_value (provenance_of false) m.provenance_links
                (All-map m.provenance_links provenance_back h.links),
            items_of-values receipt_value receipt_of rs (All-map rs receipt_back t),
            items_of-values idempotency_value idempotency_of m.idempotency_records
                (All-map m.idempotency_records idempotency_back h.operations),
          )
          refl
    by_key false rs k t =
        rw
          (
            k,
            items_of-values artifact_value (artifact_of false) m.artifacts
                (All-map m.artifacts artifact_back h.artifacts),
            items_of-values version_value (version_of false) m.versions
                (All-map m.versions version_back h.versions),
            items_of-values content_root_value content_root_of m.content_roots
                (All-intro m.content_roots content_root_back),
            items_of-values blob_value blob_of m.blobs (All-intro m.blobs blob_back),
            items_of-values manifest_value manifest_of m.manifests
                (All-intro m.manifests manifest_back),
            items_of-values provenance_value (provenance_of false) m.provenance_links
                (All-map m.provenance_links provenance_back h.links),
            items_of-values idempotency_value idempotency_of m.idempotency_records
                (All-map m.idempotency_records idempotency_back h.operations),
          )
          refl
