-- ===== src/Independent/Agreement.antt =====
-- What the second implementation accepts as a stored record, against validation.py.
use infra_artifact_ledger.Prelude.{
  ℕ, ◌≡◌, refl, ap, ◌∙◌, sym, subst, Bool, false, ◌&&◌, List, [], ◌∷◌, Option, some, none, arith,
  ltb, eqb, ◌==◌, ==-sym, ==-sound, length, contains,
}
use infra_artifact_ledger.Text.{Text, Bytes, text, text_eq, Text-discrete}
use infra_artifact_ledger.Errors.{Code, ok, ◌>>=◌, ◌>>◌}
use infra_artifact_ledger.Records.{
  Identity, IdempotencyRecord, Artifact, Version, ContentRoot, Blob, Entry, Manifest,
  ProvenanceLink, ImportReceipt, Record, digest_eq,
}
use infra_artifact_ledger.Canonical.{
  obj, arr, field, end, digest_bytes, check, check_items, canonical_bytes,
}
use infra_artifact_ledger.Validation.Limits.{require, fail_if, max_blob}
use infra_artifact_ledger.Validation.Scalars.{unicode, string, validate_stable_id, opaque, integer}
use infra_artifact_ledger.Validation.RecordCheck.{
  check_entries, check_artifact, check_version, check_content_root, check_blob, check_provenance,
  check_receipt, check_manifest, check_idempotency, operation_fields, check_payload,
  validate_record, target_ref, optional, entries_value, manifest_digest,
}
use infra_artifact_ledger.Independent.{
  operation_identity, operation_record, check_bytes, encode, manifest_record, object_kinds,
  blob_limit, blob_limit, bounded, stable, opaque_reference, safe, digest_shape, unique, qualified,
  stored_time, principal, artifact_record, version_record, content_root_record, blob_record,
  entry_records, link_record, receipt_record, contract_record,
}
use infra_artifact_ledger.Independent.Clock.{IsAscii, OnAscii}
use infra_artifact_ledger.Independent.Scalars.{
  string-bounded_string, validate_stable_id-stable, opaque-opaque_reference, digest-digest_shape,
  typed-qualified, require-true, recorded-stored_time, unique_array-unique, passed, then,
}

-- The record's time, where its kind has one.
abbrev pub recorded_at_of : Record → Option Text
recorded_at_of (Record.artifact r) = r.recorded_at
recorded_at_of (Record.version r) = r.recorded_at
recorded_at_of (Record.provenance_link r) = r.recorded_at
recorded_at_of (Record.import_receipt r) = r.recorded_at
recorded_at_of _ = none

check_artifact-artifact_record :
    (is_decimal : ℕ → Bool)
    → OnAscii is_decimal
    → (r : Artifact) → ((t : Text) → r.recorded_at ≡ some t → IsAscii t)
    → artifact_record is_decimal false r ≡ ok tt
    → check_artifact false r ≡ ok tt
unfolding artifact_record check_artifact
check_artifact-artifact_record is_decimal on_ascii r ascii h =
    let (id, rest0) = passed (stable r.artifact_id) _ h in
    let (at, rest1) = passed (stored_time is_decimal false r.recorded_at) _ rest0 in
    let (space, rest2) = passed (opaque_reference r.namespace_ref) _ rest1 in
    then (recorded-stored_time is_decimal on_ascii r.recorded_at ascii at) (
      then (validate_stable_id-stable r.artifact_id id)
        (then (opaque-opaque_reference r.namespace_ref space) (typed-qualified r.type_ref rest2)))

check_content_root-content_root_record :
    (r : ContentRoot) → content_root_record r ≡ ok tt → check_content_root r ≡ ok tt
unfolding content_root_record check_content_root
check_content_root-content_root_record r h = ground (
  arith,
  h,
  validate_stable_id-stable r.content_root_ref,
  validate_stable_id-stable (target_ref r.target),
)

check_receipt-receipt_record :
    (is_decimal : ℕ → Bool)
    → OnAscii is_decimal
    → (r : ImportReceipt) → ((t : Text) → r.recorded_at ≡ some t → IsAscii t)
    → receipt_record is_decimal false r ≡ ok tt
    → check_receipt r ≡ ok tt
unfolding receipt_record check_receipt
check_receipt-receipt_record is_decimal on_ascii r ascii h =
    let (id, rest0) = passed (stable r.import_receipt_id) _ h in
    let (at, rest1) = passed (stored_time is_decimal false r.recorded_at) _ rest0 in
    then (recorded-stored_time is_decimal on_ascii r.recorded_at ascii at) (
      then (validate_stable_id-stable r.import_receipt_id id) (
        unique_array-unique stable validate_stable_id validate_stable_id-stable
          r.imported_artifact_refs rest1))

check_provenance-link_record :
    (is_decimal : ℕ → Bool)
    → OnAscii is_decimal
    → (r : ProvenanceLink) → ((t : Text) → r.recorded_at ≡ some t → IsAscii t)
    → link_record is_decimal false r ≡ ok tt
    → check_provenance false r ≡ ok tt
unfolding link_record check_provenance
check_provenance-link_record is_decimal on_ascii r ascii h =
    let (id, rest0) = passed (stable r.provenance_id) _ h in
    let (at, rest1) = passed (stored_time is_decimal false r.recorded_at) _ rest0 in
    let (subject, rest2) = passed (stable r.subject_version_ref) _ rest1 in
    let (relation, rest3) = passed (qualified r.relation_ref) _ rest2 in
    let (kind, rest4) =
      passed (require (contains r.object.kind object_kinds) Code.invalid_input) _ rest3 in
    then (recorded-stored_time is_decimal on_ascii r.recorded_at ascii at) (
      then (validate_stable_id-stable r.provenance_id id) (
        then (validate_stable_id-stable r.subject_version_ref subject) (
          then (typed-qualified r.relation_ref relation)
            (then (kind) (opaque-opaque_reference r.object.ref rest4)))))

optional-principal : (o : Option Text) → principal o ≡ ok tt → optional opaque o ≡ ok tt
unfolding opaque_reference
optional-principal none h = refl
optional-principal (some p) h = opaque-opaque_reference p h

check_version-version_record :
    (is_decimal : ℕ → Bool)
    → OnAscii is_decimal
    → (r : Version) → ((t : Text) → r.recorded_at ≡ some t → IsAscii t)
    → version_record is_decimal false r ≡ ok tt
    → check_version false r ≡ ok tt
unfolding version_record check_version
check_version-version_record is_decimal on_ascii r ascii h =
    let (id, rest0) = passed (stable r.version_id) _ h in
    let (at, rest1) = passed (stored_time is_decimal false r.recorded_at) _ rest0 in
    let (artifact, rest2) = passed (stable r.artifact_id) _ rest1 in
    let (root, rest3) = passed (stable r.content_root_ref) _ rest2 in
    let (parents, rest4) = passed (unique stable r.parent_version_refs) _ rest3 in
    let (sources, rest5) = passed (unique opaque_reference r.external_source_refs) _ rest4 in
    let (captures, rest6) = passed (unique opaque_reference r.capture_refs) _ rest5 in
    let (policies, rest7) = passed (unique opaque_reference r.handling_policy_refs) _ rest6 in
    then (recorded-stored_time is_decimal on_ascii r.recorded_at ascii at) (
      then (validate_stable_id-stable r.version_id id) (
        then (validate_stable_id-stable r.artifact_id artifact) (
          then (validate_stable_id-stable r.content_root_ref root) (
            then
              (unique_array-unique stable validate_stable_id validate_stable_id-stable
                r.parent_version_refs parents)
              (then
                (unique_array-unique opaque_reference opaque opaque-opaque_reference
                  r.external_source_refs sources)
                (then
                  (unique_array-unique opaque_reference opaque opaque-opaque_reference
                    r.capture_refs captures)
                  (then
                    (unique_array-unique opaque_reference opaque opaque-opaque_reference
                      r.handling_policy_refs policies)
                    (optional-principal r.principal_ref rest7))))))))

check_entries-entry_records :
    (keys : List Text) (es : List Entry)
    → entry_records keys es ≡ ok tt
    → check_entries keys es ≡ ok tt
unfolding entry_records check_entries
check_entries-entry_records keys [] h = refl
check_entries-entry_records keys (e ∷ es) h = ground (
  arith,
  h,
  string-bounded_string e.entry_key 1 512,
  validate_stable_id-stable e.blob_ref,
  check_entries-entry_records (e.entry_key ∷ keys) es,
)

integer-bounded : (n : ℕ) → bounded n blob_limit ≡ ok tt → integer n max_blob ≡ ok tt
unfolding integer
integer-bounded n h = ground (arith, h)

available_only :
    (p : Text)
    → require (p == text "available") Code.unsupported_profile ≡ ok tt
    → (fail_if (p == text "erased") Code.unsupported_profile
        >> require (p == text "available") Code.invalid_input)
      ≡ ok tt
unfolding Text-discrete
available_only p h =
    let same = ==-sound p (text "available") (require-true _ Code.unsupported_profile h) in
    subst
      (λ t.
        (fail_if (t == text "erased") Code.unsupported_profile
          >> require (t == text "available") Code.invalid_input)
        ≡ ok tt)
      (sym same) refl

check_blob-blob_record : (r : Blob) → blob_record r ≡ ok tt → check_blob r ≡ ok tt
unfolding blob_record check_blob
check_blob-blob_record r h =
    let (id, rest0) = passed (stable r.blob_ref) _ h in
    let (hash, rest1) = passed (digest_shape r.digest) _ rest0 in
    let (exact, rest2) = passed (safe r.byte_length) _ rest1 in
    let (size, rest3) = passed (bounded r.byte_length blob_limit) _ rest2 in
    let (named, available) =
      passed
        (require (contains r.payload_availability (text "available" ∷ text "erased" ∷ []))
          Code.invalid_input)
        _ rest3 in
    then (validate_stable_id-stable r.blob_ref id) (
      then (digest-digest_shape r.digest hash) (
        then (integer-bounded r.byte_length size)
          (available_only r.payload_availability available)))

-- Entries that have been checked can be encoded.
check_items-entry_records :
    (keys : List Text) (es : List Entry)
    → check_entries keys es ≡ ok tt
    → check_items (entries_value es) 14 ≡ ok tt
unfolding check_entries entries_value check string unicode validate_stable_id
check_items-entry_records keys [] h = refl
check_items-entry_records keys (e ∷ es) h =
    let (key, rest0) = passed (string e.entry_key 1 512) _ h in
    let (ref, rest1) = passed (validate_stable_id e.blob_ref) _ rest0 in
    let (fresh, rest2) = passed (fail_if (contains e.entry_key keys) Code.invalid_input) _ rest1 in
    then (check_items-entry_records (e.entry_key ∷ keys) es rest2)
      (then (passed (unicode e.blob_ref) _ ref).0 (passed (unicode e.entry_key) _ key).0)

operation_fields-operation_identity :
    (i : Identity) → operation_identity i ≡ ok tt → operation_fields i ≡ ok tt
unfolding operation_identity operation_fields
operation_fields-operation_identity i h =
    let (scope, key) = passed (opaque_reference i.scope) _ h in
    then (opaque-opaque_reference i.scope scope) (string-bounded_string i.key 1 256 key)

-- An operation record that the second implementation accepts, validation.py accepts too, if its
-- recorded_at is ASCII text; `is_decimal` is the pattern's `\d`, which on ASCII takes the digits 0
-- to 9.
pub check_idempotency-operation_record :
    (is_decimal : ℕ → Bool)
    → OnAscii is_decimal
    → (r : IdempotencyRecord) → ((t : Text) → r.recorded_at ≡ some t → IsAscii t)
    → operation_record is_decimal r ≡ ok tt
    → check_idempotency r ≡ ok tt
unfolding operation_record check_idempotency
check_idempotency-operation_record is_decimal on_ascii r ascii h =
    let (own, rest0) = passed (operation_identity r.identity) _ h in
    let (hash, rest1) = passed (digest_shape r.request_fingerprint) _ rest0 in
    let (result, at) = passed (stable r.result_ref) _ rest1 in
    then (recorded-stored_time is_decimal on_ascii r.recorded_at ascii at) (
      then (operation_fields-operation_identity r.identity own) (
        then (digest-digest_shape r.request_fingerprint hash)
          (validate_stable_id-stable r.result_ref result)))

-- Bytes of the length that the record declares are within the limit.
blob-size : (b : Blob) → blob_record b ≡ ok tt → bounded b.byte_length blob_limit ≡ ok tt
unfolding blob_record
blob-size r h =
    let (id, rest0) = passed (stable r.blob_ref) _ h in
    let (hash, rest1) = passed (digest_shape r.digest) _ rest0 in
    let (exact, rest2) = passed (safe r.byte_length) _ rest1 in
    (passed (bounded r.byte_length blob_limit) _ rest2).0

short :
    (n size : ℕ) (same : Bool)
    → bounded size blob_limit ≡ ok tt
    → require (eqb n size && same) Code.integrity_failure ≡ ok tt
    → fail_if (ltb max_blob n) Code.resource_limit ≡ ok tt
short n size same h k = ground (arith, h, k)

nonempty :
    (n : ℕ)
    → require (ltb 0 n) Code.invalid_input ≡ ok tt
    → fail_if (eqb n 0) Code.invalid_input ≡ ok tt
nonempty n h = ground (arith, h)

module _ (sha256 : Bytes → Text) where
  manifest_digest-encode :
      (es : List Entry)
      → check_entries [] es ≡ ok tt
      → manifest_digest sha256 es
        ≡ ok (
            digest_bytes sha256
              (encode (obj (field (text "entries") (arr (entries_value es)) end))))
  unfolding manifest_digest canonical_bytes encode check
  manifest_digest-encode es h = rw (check_items-entry_records [] es h) refl

  check_manifest-manifest_record :
      (r : Manifest) → manifest_record sha256 r ≡ ok tt → check_manifest sha256 r ≡ ok tt
  unfolding manifest_record check_manifest
  check_manifest-manifest_record r h =
      let (id, rest0) = passed (stable r.manifest_ref) _ h in
      let (hash, rest1) = passed (digest_shape r.digest) _ rest0 in
      let (some_entry, rest2) =
        passed (require (ltb 0 (length r.entries)) Code.invalid_input) _ rest1 in
      let (entries, same) = passed (entry_records [] r.entries) _ rest2 in
      let checked = check_entries-entry_records [] r.entries entries in
      then (validate_stable_id-stable r.manifest_ref id) (
        then (digest-digest_shape r.digest hash) (
          then (nonempty (length r.entries) some_entry) (
            then checked (
              ap (λ d. d >>= λ expected. require (r.digest == expected) Code.integrity_failure)
                (manifest_digest-encode r.entries checked)
              ∙ ap (λ b. require b Code.integrity_failure) (==-sym r.digest _)
              ∙ same))))

  -- A payload that both accept: the second implementation tests the bytes alone, for a record that it
  -- has checked.
  pub check_payload-check_bytes :
      (b : Blob) (raw : Bytes)
      → blob_record b ≡ ok tt
      → check_bytes sha256 b.byte_length b.digest raw ≡ ok tt
      → check_payload sha256 b raw ≡ ok tt
  unfolding check_payload check_bytes
  check_payload-check_bytes b raw h k =
      then (check_blob-blob_record b h)
        (then (short (length raw) b.byte_length _ (blob-size b h) k) k)

  -- A stored record of any kind that the second implementation's checks accept, validate_record
  -- accepts too, if its recorded_at, where it has one, is ASCII text; `is_decimal` is the pattern's
  -- `\d`, which on ASCII takes the digits 0 to 9.
  pub validate_record-contract_record :
      (is_decimal : ℕ → Bool)
      → OnAscii is_decimal
      → (r : Record) → ((t : Text) → recorded_at_of r ≡ some t → IsAscii t)
      → contract_record sha256 is_decimal false r ≡ ok tt
      → validate_record sha256 false r ≡ ok tt
  unfolding contract_record validate_record
  validate_record-contract_record is_decimal on_ascii (Record.artifact r) ascii h =
      check_artifact-artifact_record is_decimal on_ascii r ascii h
  validate_record-contract_record is_decimal on_ascii (Record.version r) ascii h =
      check_version-version_record is_decimal on_ascii r ascii h
  validate_record-contract_record is_decimal on_ascii (Record.content_root r) ascii h =
      check_content_root-content_root_record r h
  validate_record-contract_record is_decimal on_ascii (Record.blob r) ascii h =
      check_blob-blob_record r h
  validate_record-contract_record is_decimal on_ascii (Record.manifest r) ascii h =
      check_manifest-manifest_record r h
  validate_record-contract_record is_decimal on_ascii (Record.provenance_link r) ascii h =
      check_provenance-link_record is_decimal on_ascii r ascii h
  validate_record-contract_record is_decimal on_ascii (Record.import_receipt r) ascii h =
      check_receipt-receipt_record is_decimal on_ascii r ascii h
