-- ===== src/Wire/RoundTrip.antt =====
-- What the reader of records makes of the values that the records are written as, keys sorted.
use infra_artifact_ledger.Prelude.{◌≡◌, refl, false, List, [], ◌∷◌, Option, some, none, All}
use infra_artifact_ledger.Text.{Text, Text-discrete, text_le}
use infra_artifact_ledger.Errors.{Result, ok}
use infra_artifact_ledger.Records.{
  Digest, Artifact, Version, RootTarget, ContentRoot, Blob, Entry, Manifest, ProvenanceLink,
  ImportReceipt, OperationKind, IdempotencyRecord,
}
use infra_artifact_ledger.Canonical.{Value, str, sort_value, sort_items}
use infra_artifact_ledger.Fingerprint.{
  values, digest_value, artifact_value, version_value, content_root_value, blob_value,
  manifest_value, provenance_value, receipt_value, idempotency_value,
}
use infra_artifact_ledger.Validation.RecordCheck.{entries_value}
use infra_artifact_ledger.Wire.{
  items_of, text_of, digest_of, artifact_of, version_of, content_root_of, blob_of, entry_of,
  manifest_of, provenance_of, receipt_of, idempotency_of,
}

pub digest_of-digest_value : (d : Digest) → digest_of (sort_value (digest_value d)) ≡ ok d
unfolding digest_of digest_value sort_value text_le Text-discrete
digest_of-digest_value d = refl

-- A list is read back if each element is.
pub items_of-values :
    {A : Type 0} (write : A → Value) (read : Value → Result A) (xs : List A)
    → All (λ x. read (sort_value (write x)) ≡ ok x) xs
    → items_of read (sort_items (values write xs)) ≡ ok xs
unfolding sort_value
items_of-values write read [] h = refl
items_of-values write read (x ∷ xs) h = rw (h.0, items_of-values write read xs h.1) refl

texts_back : (xs : List Text) → items_of text_of (sort_items (values str xs)) ≡ ok xs
unfolding sort_value
texts_back [] = refl
texts_back (x ∷ xs) = rw (texts_back xs) refl

-- The time of a stored record is there.
abbrev pub IsTimed : Option Text → Type 0
IsTimed none = ⊥
IsTimed (some t) = Unit

timed_some : (o : Option Text) → IsTimed o → (t : Text) × (o ≡ some t)
timed_some (some t) h = (t, refl)
timed_some none h = absurd h

pub artifact_back :
    (a : Artifact)
    → IsTimed a.recorded_at
    → artifact_of false (sort_value (artifact_value a)) ≡ ok a
unfolding artifact_of artifact_value sort_value text_le Text-discrete
artifact_back a h = rw ((timed_some a.recorded_at h).1) refl

pub version_back :
    (v : Version) → IsTimed v.recorded_at → version_of false (sort_value (version_value v)) ≡ ok v
unfolding version_of version_value sort_value text_le Text-discrete
version_back v h = by_principal v.principal_ref
  where
    by_principal :
        (p : Option Text)
        → version_of false (sort_value (version_value (record v { principal_ref = p })))
          ≡ ok (record v { principal_ref = p })
    by_principal none =
        rw
          (
            (timed_some v.recorded_at h).1,
            texts_back v.parent_version_refs,
            texts_back v.external_source_refs,
            texts_back v.capture_refs,
            texts_back v.handling_policy_refs,
          )
          refl
    by_principal (some p) =
        rw
          (
            (timed_some v.recorded_at h).1,
            texts_back v.parent_version_refs,
            texts_back v.external_source_refs,
            texts_back v.capture_refs,
            texts_back v.handling_policy_refs,
          )
          refl

pub content_root_back :
    (r : ContentRoot) → content_root_of (sort_value (content_root_value r)) ≡ ok r
unfolding content_root_of content_root_value sort_value text_le Text-discrete
content_root_back r = by_target r.target
  where
    by_target :
        (t : RootTarget)
        → content_root_of (sort_value (content_root_value (record r { target = t })))
          ≡ ok (record r { target = t })
    by_target (RootTarget.blob_ref b) = refl
    by_target (RootTarget.manifest_ref m) = refl

pub blob_back : (b : Blob) → blob_of (sort_value (blob_value b)) ≡ ok b
unfolding blob_of blob_value sort_value text_le Text-discrete
blob_back b = refl

entries_back : (es : List Entry) → items_of entry_of (sort_items (entries_value es)) ≡ ok es
unfolding entry_of entries_value sort_value text_le Text-discrete
entries_back [] = refl
entries_back (e ∷ es) = rw (entries_back es) refl

pub manifest_back : (m : Manifest) → manifest_of (sort_value (manifest_value m)) ≡ ok m
unfolding manifest_of manifest_value sort_value text_le Text-discrete
manifest_back m = rw (entries_back m.entries) refl

pub provenance_back :
    (p : ProvenanceLink)
    → IsTimed p.recorded_at
    → provenance_of false (sort_value (provenance_value p)) ≡ ok p
unfolding provenance_of provenance_value sort_value text_le Text-discrete
provenance_back p h = rw ((timed_some p.recorded_at h).1) refl

pub receipt_back :
    (r : ImportReceipt) → IsTimed r.recorded_at → receipt_of (sort_value (receipt_value r)) ≡ ok r
unfolding receipt_of receipt_value sort_value text_le Text-discrete
receipt_back r h = rw ((timed_some r.recorded_at h).1, texts_back r.imported_artifact_refs) refl

pub idempotency_back :
    (r : IdempotencyRecord)
    → IsTimed r.recorded_at
    → idempotency_of (sort_value (idempotency_value r)) ≡ ok r
unfolding idempotency_of idempotency_value sort_value text_le Text-discrete
idempotency_back r h = by_kind r.identity.operation_kind
  where
    by_kind :
        (k : OperationKind)
        → idempotency_of (
            sort_value (
              idempotency_value (record r { identity = record r.identity { operation_kind = k } })))
          ≡ ok (record r { identity = record r.identity { operation_kind = k } })
    by_kind OperationKind.create_artifact = rw ((timed_some r.recorded_at h).1) refl
    by_kind OperationKind.append_version = rw ((timed_some r.recorded_at h).1) refl
    by_kind OperationKind.import_bundle = rw ((timed_some r.recorded_at h).1) refl
