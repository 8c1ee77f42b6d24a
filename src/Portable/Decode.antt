-- ===== src/Portable/Decode.antt =====
-- `decode_bundle`.
use infra_artifact_ledger.Prelude.{
  ℕ, ◌+◌, Bool, true, false, ◌&&◌, List, [], ◌∷◌, map, Option, some, none, ltb, eqb, ◌==◌, length,
  contains, same_set,
}
use infra_artifact_ledger.Text.{Text, Bytes, text_eq}
use infra_artifact_ledger.Errors.{Code, Result, ok, err, ◌>>=◌, ◌>>◌}
use infra_artifact_ledger.Records.{Blob, Metadata, transport_version, profile, digest_eq}
use infra_artifact_ledger.Validation.Limits.{
  fail_if, require, max_payload, max_json, max_package, max_descriptor, max_blob,
}
use infra_artifact_ledger.Validation.RecordCheck.{check_payload}
use infra_artifact_ledger.Validation.Graph.{validate_metadata}
use infra_artifact_ledger.Canonical.{Value, Items, Fields, obj, arr, nil, cons, digest_bytes}
use infra_artifact_ledger.Json.Read.{parse_json}
use infra_artifact_ledger.Wire.{object_of, text_of, at_key}
use infra_artifact_ledger.Wire.Documents.{metadata_of}
use infra_artifact_ledger.Portable.Content.{
  Content, raw_within, length_of, checked_digest, named, content_header, decode_content,
}
use infra_artifact_ledger.Portable.Encode.{Payload, record_of}

abbrev entries_of : Value → Result Items
entries_of (arr xs) = ok xs
entries_of _ = err Code.invalid_input

-- `entry["blob_ref"]` of an entry with a valid header, which is an object that has the key.
abbrev reference_of : Value → Result Text
reference_of (obj fs) = at_key text_of "blob_ref" fs
reference_of _ = err Code.internal_error

abbrev declared : Option Blob → Result Blob
declared none = err Code.integrity_failure
declared (some b) = ok b

-- The loop over the entries before any payload is decoded; `seen` in the order of the entries.
unfoldable pub preflight : List Blob → List Text → ℕ → Items → Result (List (Text × Content))
unfolding content_header
preflight bs seen total nil = do
  require (same_set seen (map (λ b. b.blob_ref) bs)) Code.integrity_failure
  ok []
preflight bs seen total (cons v vs) = do
  c ← content_header max_blob true v
  i ← reference_of v
  fail_if (contains i seen) Code.invalid_input
  b ← declared (record_of i bs)
  require (eqb c.byte_length b.byte_length && c.digest == b.digest) Code.integrity_failure
  fail_if (ltb max_payload (total + c.byte_length)) Code.resource_limit
  rest ← preflight bs (i ∷ seen) (total + c.byte_length) vs
  ok ((i, c) ∷ rest)

module _ (sha256 : Bytes → Text) (finite : Text → Bool) where
  -- The descriptor names the package by its length and digest.
  unfoldable pub check_descriptor : Bytes → Bytes → Result (Unit {0})
  unfolding parse_json named length_of checked_digest
  check_descriptor transport descriptor = do
    description ← parse_json finite max_descriptor descriptor
    fs ←
        object_of ("transport_version" ∷ "package_byte_length" ∷ "package_digest" ∷ []) []
          description
    at_key (named transport_version Code.unsupported_version) "transport_version" fs
    size ← at_key (length_of max_package) "package_byte_length" fs
    digest ← at_key checked_digest "package_digest" fs
    require (eqb size (length transport) && digest == digest_bytes sha256 transport)
        Code.integrity_failure

  unfoldable pub read_metadata : Fields → Result Metadata
  unfolding content_header decode_content parse_json metadata_of validate_metadata
  read_metadata fs = do
    c ← at_key (content_header max_json false) "metadata" fs
    raw ← decode_content sha256 c
    document ← parse_json finite max_json raw
    m ← metadata_of document
    validate_metadata sha256 m
    ok m

  -- The payloads, in the order of the entries.
  unfoldable pub read_payloads : List Blob → List (Text × Content) → Result (List Payload)
  unfolding decode_content check_payload
  read_payloads bs [] = ok []
  read_payloads bs ((i, c) ∷ cs) = do
    raw ← decode_content sha256 c
    b ← declared (record_of i bs)
    check_payload sha256 b raw
    rest ← read_payloads bs cs
    ok ((i, raw) ∷ rest)

  -- `decode_bundle`
  unfoldable pub decode_bundle : Bytes → Bytes → Result (Metadata × List Payload)
  unfolding raw_within check_descriptor parse_json named read_metadata preflight read_payloads
  decode_bundle transport descriptor = do
    raw_within max_package transport
    raw_within max_descriptor descriptor
    check_descriptor transport descriptor
    envelope ← parse_json finite max_package transport
    fs ← object_of ("transport_version" ∷ "profile" ∷ "metadata" ∷ "payloads" ∷ []) [] envelope
    at_key (named transport_version Code.unsupported_version) "transport_version" fs
    at_key (named profile Code.unsupported_profile) "profile" fs
    m ← read_metadata fs
    entries ← at_key entries_of "payloads" fs
    contents ← preflight m.blobs [] 0 entries
    payloads ← read_payloads m.blobs contents
    ok (m, payloads)
