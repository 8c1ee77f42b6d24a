-- ===== src/Independent.antt =====
-- implementations/independent_b: the record checks of contract.py, over the same typed records.
pub mod Clock
pub mod Objects
pub mod Scalars
pub mod Agreement
use infra_artifact_ledger.Prelude.{
  ℕ, ◌+◌, ◌*◌, Bool, true, false, ◌&&◌, ◌||◌, not, List, [], ◌∷◌, Option, some, none, ltb, leb, eqb,
  ◌==◌, length, any, all, contains, distinct,
}
use infra_artifact_ledger.Text.{Text, Bytes, text, text_eq}
use infra_artifact_ledger.Errors.{Code, Result, ok, err, ◌>>=◌, ◌>>◌}
use infra_artifact_ledger.Records.{
  Digest, TypedRef, Artifact, Version, ContentRoot, Blob, Entry, Manifest, ProvenanceLink,
  ImportReceipt, Record, Identity, IdempotencyRecord, digest_eq,
}
use infra_artifact_ledger.Validation.Limits.{require}
use infra_artifact_ledger.Validation.Scalars.{is_alnum, is_id_char, is_surrogate, is_hex}
use infra_artifact_ledger.Validation.Time.{Stamp, month_days, zone_valid}
use infra_artifact_ledger.Independent.Clock.{timestamp_match}
use infra_artifact_ledger.Validation.RecordCheck.{entries_value, target_ref}
use infra_artifact_ledger.Canonical.{
  Value, arr, obj, end, field, sort_value, render, encode_utf8, digest_bytes,
}

abbrev pub safe_integer : ℕ
safe_integer = 9007199254740991

abbrev pub blob_limit : ℕ
blob_limit = 64 * 1048576

-- `bounded`
abbrev pub bounded : ℕ → ℕ → Result (Unit {0})
bounded size maximum = require (leb size maximum) Code.resource_limit

-- `string`
unfoldable pub bounded_string : Text → ℕ → ℕ → Result (Unit {0})
bounded_string value minimum maximum = do
  require (not (any is_surrogate value)) Code.invalid_input
  require (leb minimum (length value) && leb (length value) maximum) Code.invalid_input

-- `[A-Za-z0-9][A-Za-z0-9._:/-]*`
unfoldable pub owned_id : Text → Bool
owned_id [] = false
owned_id (c ∷ cs) = is_alnum c && all is_id_char cs

-- `stable`
unfoldable pub stable : Text → Result (Unit {0})
unfolding bounded_string owned_id
stable value = do bounded_string value 3 256; require (owned_id value) Code.invalid_input

-- `opaque`
unfoldable pub opaque_reference : Text → Result (Unit {0})
unfolding bounded_string
opaque_reference value = do
  bounded_string value 1 512
  require (not (any (λ c. ltb c 32 || eqb c 127) value)) Code.invalid_input

-- `integer`
unfoldable pub safe : ℕ → Result (Unit {0})
safe value = require (leb value safe_integer) Code.invalid_input

-- `digest_shape`
unfoldable pub digest_shape : Digest → Result (Unit {0})
digest_shape d =
    require (d.algorithm == text "sha256" && (all is_hex d.value && eqb (length d.value) 64))
      Code.invalid_input

-- `datetime.fromisoformat` of Python 3.11 to 3.13 on the matched text, and the offset's test: no year
-- 0 and no second 60.
unfoldable pub calendar_time : Stamp → Bool
unfolding month_days zone_valid
calendar_time s =
    (leb 1 s.year && (leb 1 s.month && leb s.month 12))
    && ((leb 1 s.day && leb s.day (month_days s.year s.month))
        && ((leb s.hour 23 && (leb s.minute 59 && leb s.second 59)) && zone_valid s.zone))

-- `timestamp`, where `is_decimal` is the `\d` of `re`, which takes the decimal digits of Unicode.
unfoldable pub timestamp : (ℕ → Bool) → Text → Result (Unit {0})
unfolding timestamp_match calendar_time
timestamp is_decimal value = do
  require (not (any is_surrogate value)) Code.invalid_input
  elim (timestamp_match is_decimal value) [
    | none ↦ err Code.invalid_input
    | some s ↦ require (calendar_time s) Code.invalid_input
  ]

-- `unique`
abbrev pub each : (Text → Result (Unit {0})) → List Text → Result (Unit {0})
each check [] = ok tt
each check (x ∷ xs) = check x >> each check xs

unfoldable pub unique : (Text → Result (Unit {0})) → List Text → Result (Unit {0})
unique check xs = do each check xs; require (distinct xs) Code.invalid_input

-- `qualified`
unfoldable pub qualified : TypedRef → Result (Unit {0})
unfolding bounded_string
qualified r = do
  bounded_string r.namespace 1 128
  bounded_string r.type_id 1 128
  bounded_string r.type_version 1 64

-- Whether `recorded_at` is there, as the kind and `new` want it, and its check.
unfoldable pub stored_time : (ℕ → Bool) → Bool → Option Text → Result (Unit {0})
unfolding timestamp
stored_time is_decimal true none = ok tt
stored_time is_decimal true (some t) = err Code.invalid_input
stored_time is_decimal false none = err Code.invalid_input
stored_time is_decimal false (some t) = timestamp is_decimal t

abbrev pub principal : Option Text → Result (Unit {0})
unfolding opaque_reference
principal none = ok tt
principal (some p) = opaque_reference p

abbrev pub object_kinds : List Text
object_kinds =
    text "artifact_version"
    ∷ text "external_source"
    ∷ text "capture"
    ∷ text "principal"
    ∷ text "policy"
    ∷ text "runtime_ref"
    ∷ text "other"
    ∷ []

unfoldable pub artifact_record : (ℕ → Bool) → Bool → Artifact → Result (Unit {0})
unfolding stable stored_time opaque_reference qualified
artifact_record is_decimal new r = do
  stable r.artifact_id
  stored_time is_decimal new r.recorded_at
  opaque_reference r.namespace_ref
  qualified r.type_ref

unfoldable pub version_record : (ℕ → Bool) → Bool → Version → Result (Unit {0})
unfolding stable stored_time opaque_reference unique
version_record is_decimal new r = do
  stable r.version_id
  stored_time is_decimal new r.recorded_at
  stable r.artifact_id
  stable r.content_root_ref
  unique stable r.parent_version_refs
  unique opaque_reference r.external_source_refs
  unique opaque_reference r.capture_refs
  unique opaque_reference r.handling_policy_refs
  principal r.principal_ref

unfoldable pub content_root_record : ContentRoot → Result (Unit {0})
unfolding stable
content_root_record r = do stable r.content_root_ref; stable (target_ref r.target)

unfoldable pub blob_record : Blob → Result (Unit {0})
unfolding stable digest_shape safe
blob_record r = do
  stable r.blob_ref
  digest_shape r.digest
  safe r.byte_length
  bounded r.byte_length blob_limit
  require (contains r.payload_availability (text "available" ∷ text "erased" ∷ []))
      Code.invalid_input
  require (r.payload_availability == text "available") Code.unsupported_profile

-- The loop over the entries, with the keys that were seen.
unfoldable pub entry_records : List Text → List Entry → Result (Unit {0})
unfolding stable bounded_string
entry_records keys [] = ok tt
entry_records keys (e ∷ es) = do
  bounded_string e.entry_key 1 512
  stable e.blob_ref
  require (not (contains e.entry_key keys)) Code.invalid_input
  entry_records (e.entry_key ∷ keys) es

unfoldable pub link_record : (ℕ → Bool) → Bool → ProvenanceLink → Result (Unit {0})
unfolding stable stored_time opaque_reference qualified
link_record is_decimal new r = do
  stable r.provenance_id
  stored_time is_decimal new r.recorded_at
  stable r.subject_version_ref
  qualified r.relation_ref
  require (contains r.object.kind object_kinds) Code.invalid_input
  opaque_reference r.object.ref

unfoldable pub receipt_record : (ℕ → Bool) → Bool → ImportReceipt → Result (Unit {0})
unfolding stable stored_time unique
receipt_record is_decimal new r = do
  stable r.import_receipt_id
  stored_time is_decimal new r.recorded_at
  unique stable r.imported_artifact_refs

-- `encode`, of a value whose strings have been checked.
unfoldable pub encode : Value → Bytes
unfolding sort_value render encode_utf8
encode v = encode_utf8 (render (sort_value v))

-- `operation_identity`; the operation kind is one by its type.
unfoldable pub operation_identity : Identity → Result (Unit {0})
unfolding opaque_reference bounded_string
operation_identity i = do opaque_reference i.scope; bounded_string i.key 1 256

-- `operation`
unfoldable pub operation_record : (ℕ → Bool) → IdempotencyRecord → Result (Unit {0})
unfolding operation_identity digest_shape stable stored_time
operation_record is_decimal r = do
  operation_identity r.identity
  digest_shape r.request_fingerprint
  stable r.result_ref
  stored_time is_decimal false r.recorded_at

module _ (sha256 : Bytes → Text) where
  -- `check_bytes`
  unfoldable pub check_bytes : ℕ → Digest → Bytes → Result (Unit {0})
  check_bytes size hash raw =
      require (eqb (length raw) size && digest_bytes sha256 raw == hash) Code.integrity_failure

  unfoldable pub manifest_record : Manifest → Result (Unit {0})
  unfolding stable digest_shape entry_records encode entries_value
  manifest_record r = do
    stable r.manifest_ref
    digest_shape r.digest
    require (ltb 0 (length r.entries)) Code.invalid_input
    entry_records [] r.entries
    require
        (digest_bytes sha256
            (encode (obj (field (text "entries") (arr (entries_value r.entries)) end)))
          == r.digest)
        Code.integrity_failure

  -- `record`
  unfoldable pub contract_record : (ℕ → Bool) → Bool → Record → Result (Unit {0})
  unfolding artifact_record version_record content_root_record blob_record manifest_record
      link_record receipt_record
  contract_record is_decimal new (Record.artifact r) = artifact_record is_decimal new r
  contract_record is_decimal new (Record.version r) = version_record is_decimal new r
  contract_record is_decimal new (Record.content_root r) = content_root_record r
  contract_record is_decimal new (Record.blob r) = blob_record r
  contract_record is_decimal new (Record.manifest r) = manifest_record r
  contract_record is_decimal new (Record.provenance_link r) = link_record is_decimal new r
  contract_record is_decimal new (Record.import_receipt r) = receipt_record is_decimal new r
