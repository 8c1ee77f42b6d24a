-- ===== src/Wire.antt =====
-- Records read out of JSON values: the checks of validation.py that a value has the declared keys
-- and types (`_object`, `_array`, `_unicode`'s and `_integer`'s type tests).
pub mod Documents
pub mod RoundTrip
pub mod Stored
pub mod Bytes
use Prim.Native.String.{String}
use infra_artifact_ledger.Prelude.{
  ℕ, Bool, true, false, ◌&&◌, List, [], ◌∷◌, ◌++◌, map, Option, some, none, ◌==◌, contains, subset,
  if◌then◌else◌,
}
use infra_artifact_ledger.Text.{Text, text, text_eq}
use infra_artifact_ledger.Errors.{Code, Result, ok, err, ◌>>=◌, ◌>>◌}
use infra_artifact_ledger.Records.{
  Digest, TypedRef, Artifact, Version, RootTarget, ContentRoot, Blob, Entry, Manifest, ObjectRef,
  ProvenanceLink, ImportReceipt, OperationKind, Identity, IdempotencyRecord,
}
use infra_artifact_ledger.Validation.Limits.{require}
use infra_artifact_ledger.Canonical.{
  keys, Value, Items, Fields, str, num, arr, obj, nil, cons, end, field,
}

abbrev pub lookup : Text → Fields → Option Value
lookup k end = none
lookup k (field j v fs) = if j == k then some v else lookup k fs

-- `_object`: every required key, and no undeclared one.
abbrev pub object_of : List String → List String → Value → Result Fields
object_of required optional (obj fs) =
    require
      (subset (map text required) (keys fs)
        && subset (keys fs) (map text required ++ map text optional))
      Code.invalid_input
    >> ok fs
object_of required optional _ = err Code.invalid_input

abbrev pub text_of : Value → Result Text
text_of (str s) = ok s
text_of _ = err Code.invalid_input

abbrev pub natural_of : Value → Result ℕ
natural_of (num n) = ok n
natural_of _ = err Code.invalid_input

abbrev pub items_of : {A : Type 0} → (Value → Result A) → Items → Result (List A)
items_of read nil = ok []
items_of read (cons x xs) = read x >>= λ a. items_of read xs >>= λ rest. ok (a ∷ rest)

abbrev pub list_of : {A : Type 0} → (Value → Result A) → Value → Result (List A)
list_of read (arr xs) = items_of read xs
list_of read _ = err Code.invalid_input

abbrev present : {A : Type 0} → (Value → Result A) → Option Value → Result A
present read none = err Code.internal_error
present read (some v) = read v

-- A field whose key is there, and one whose key may be missing.
abbrev pub at_key : {A : Type 0} → (Value → Result A) → String → Fields → Result A
at_key read k fs = present read (lookup (text k) fs)

abbrev maybe_text : Option Value → Result (Option Text)
maybe_text none = ok none
maybe_text (some v) = text_of v >>= λ s. ok (some s)

abbrev pub at_optional_key : String → Fields → Result (Option Text)
at_optional_key k fs = maybe_text (lookup (text k) fs)

-- A new record has no key `recorded_at`; a stored one has it.
abbrev pub timed : Bool → List String
timed new = if new then [] else "recorded_at" ∷ []

unfoldable pub digest_of : Value → Result Digest
digest_of v = do
  fs ← object_of ("algorithm" ∷ "value" ∷ []) [] v
  algorithm ← at_key text_of "algorithm" fs
  value ← at_key text_of "value" fs
  ok (record { algorithm = algorithm; value = value })

unfoldable pub typed_of : String → String → Value → Result TypedRef
typed_of id version v = do
  fs ← object_of ("namespace" ∷ id ∷ version ∷ []) [] v
  namespace ← at_key text_of "namespace" fs
  type_id ← at_key text_of id fs
  type_version ← at_key text_of version fs
  ok (record { namespace = namespace; type_id = type_id; type_version = type_version })

unfoldable pub artifact_of : Bool → Value → Result Artifact
unfolding typed_of
artifact_of new v = do
  fs ← object_of ("artifact_id" ∷ "namespace_ref" ∷ "type_ref" ∷ timed new) [] v
  artifact_id ← at_key text_of "artifact_id" fs
  namespace_ref ← at_key text_of "namespace_ref" fs
  type_ref ← at_key (typed_of "type_id" "type_version") "type_ref" fs
  recorded_at ← at_optional_key "recorded_at" fs
  ok (record {
    artifact_id = artifact_id;
    namespace_ref = namespace_ref;
    type_ref = type_ref;
    recorded_at = recorded_at;
  })

unfoldable pub version_of : Bool → Value → Result Version
version_of new v = do
  fs ←
      object_of
        ("version_id"
          ∷ "artifact_id"
          ∷ "content_root_ref"
          ∷ "parent_version_refs"
          ∷ "external_source_refs"
          ∷ "capture_refs"
          ∷ "handling_policy_refs"
          ∷ timed new)
        ("principal_ref" ∷ []) v
  version_id ← at_key text_of "version_id" fs
  artifact_id ← at_key text_of "artifact_id" fs
  content_root_ref ← at_key text_of "content_root_ref" fs
  parents ← at_key (list_of text_of) "parent_version_refs" fs
  sources ← at_key (list_of text_of) "external_source_refs" fs
  captures ← at_key (list_of text_of) "capture_refs" fs
  policies ← at_key (list_of text_of) "handling_policy_refs" fs
  principal_ref ← at_optional_key "principal_ref" fs
  recorded_at ← at_optional_key "recorded_at" fs
  ok (record {
    version_id = version_id;
    artifact_id = artifact_id;
    content_root_ref = content_root_ref;
    parent_version_refs = parents;
    external_source_refs = sources;
    capture_refs = captures;
    handling_policy_refs = policies;
    principal_ref = principal_ref;
    recorded_at = recorded_at;
  })

unfoldable pub blob_root_of : Value → Result ContentRoot
blob_root_of v = do
  fs ← object_of ("content_root_ref" ∷ "kind" ∷ "blob_ref" ∷ []) [] v
  content_root_ref ← at_key text_of "content_root_ref" fs
  blob_ref ← at_key text_of "blob_ref" fs
  ok (record { content_root_ref = content_root_ref; target = RootTarget.blob_ref blob_ref })

unfoldable pub manifest_root_of : Value → Result ContentRoot
manifest_root_of v = do
  fs ← object_of ("content_root_ref" ∷ "kind" ∷ "manifest_ref" ∷ []) [] v
  content_root_ref ← at_key text_of "content_root_ref" fs
  manifest_ref ← at_key text_of "manifest_ref" fs
  ok (record { content_root_ref = content_root_ref; target = RootTarget.manifest_ref manifest_ref })

-- `record.get("kind")`
abbrev kind_key : Value → Result (Option Text)
kind_key (obj fs) = at_optional_key "kind" fs
kind_key _ = err Code.invalid_input

-- The field `kind` says which reference the record has.
abbrev root_of_kind : Option Text → Value → Result ContentRoot
root_of_kind none v = err Code.invalid_input
root_of_kind (some k) v =
    if k == text "blob"
    then blob_root_of v
    else if k == text "manifest"
    then manifest_root_of v
    else err Code.invalid_input

unfoldable pub content_root_of : Value → Result ContentRoot
unfolding blob_root_of manifest_root_of
content_root_of v = kind_key v >>= λ kind. root_of_kind kind v

unfoldable pub blob_of : Value → Result Blob
unfolding digest_of
blob_of v = do
  fs ← object_of ("blob_ref" ∷ "digest" ∷ "byte_length" ∷ "payload_availability" ∷ []) [] v
  blob_ref ← at_key text_of "blob_ref" fs
  digest ← at_key digest_of "digest" fs
  byte_length ← at_key natural_of "byte_length" fs
  availability ← at_key text_of "payload_availability" fs
  ok (record {
    blob_ref = blob_ref;
    digest = digest;
    byte_length = byte_length;
    payload_availability = availability;
  })

unfoldable pub entry_of : Value → Result Entry
entry_of v = do
  fs ← object_of ("entry_key" ∷ "blob_ref" ∷ []) [] v
  entry_key ← at_key text_of "entry_key" fs
  blob_ref ← at_key text_of "blob_ref" fs
  ok (record { entry_key = entry_key; blob_ref = blob_ref })

unfoldable pub manifest_of : Value → Result Manifest
unfolding digest_of entry_of
manifest_of v = do
  fs ← object_of ("manifest_ref" ∷ "digest" ∷ "entries" ∷ []) [] v
  manifest_ref ← at_key text_of "manifest_ref" fs
  digest ← at_key digest_of "digest" fs
  entries ← at_key (list_of entry_of) "entries" fs
  ok (record { manifest_ref = manifest_ref; digest = digest; entries = entries })

unfoldable pub object_ref_of : Value → Result ObjectRef
object_ref_of v = do
  fs ← object_of ("kind" ∷ "ref" ∷ []) [] v
  kind ← at_key text_of "kind" fs
  ref ← at_key text_of "ref" fs
  ok (record { kind = kind; ref = ref })

unfoldable pub provenance_of : Bool → Value → Result ProvenanceLink
unfolding typed_of object_ref_of
provenance_of new v = do
  fs ←
      object_of ("provenance_id" ∷ "subject_version_ref" ∷ "relation_ref" ∷ "object" ∷ timed new) []
        v
  provenance_id ← at_key text_of "provenance_id" fs
  subject ← at_key text_of "subject_version_ref" fs
  relation ← at_key (typed_of "relation_id" "relation_version") "relation_ref" fs
  object ← at_key object_ref_of "object" fs
  recorded_at ← at_optional_key "recorded_at" fs
  ok (record {
    provenance_id = provenance_id;
    subject_version_ref = subject;
    relation_ref = relation;
    object = object;
    recorded_at = recorded_at;
  })

unfoldable pub receipt_of : Value → Result ImportReceipt
receipt_of v = do
  fs ← object_of ("import_receipt_id" ∷ "imported_artifact_refs" ∷ "recorded_at" ∷ []) [] v
  import_receipt_id ← at_key text_of "import_receipt_id" fs
  refs ← at_key (list_of text_of) "imported_artifact_refs" fs
  recorded_at ← at_optional_key "recorded_at" fs
  ok (record {
    import_receipt_id = import_receipt_id;
    imported_artifact_refs = refs;
    recorded_at = recorded_at;
  })

-- `OPERATIONS`
abbrev pub operation_kind_of : Text → Result OperationKind
operation_kind_of s =
    if s == text "create_artifact"
    then ok OperationKind.create_artifact
    else if s == text "append_version"
    then ok OperationKind.append_version
    else if s == text "import_bundle"
    then ok OperationKind.import_bundle
    else err Code.invalid_input

unfoldable pub idempotency_of : Value → Result IdempotencyRecord
unfolding digest_of
idempotency_of v = do
  fs ←
      object_of
        ("idempotency_scope_ref" ∷ "operation_kind" ∷ "idempotency_key" ∷ "request_fingerprint"
          ∷ "result_ref" ∷ "recorded_at" ∷ [])
        [] v
  scope ← at_key text_of "idempotency_scope_ref" fs
  name ← at_key text_of "operation_kind" fs
  operation_kind ← operation_kind_of name
  key ← at_key text_of "idempotency_key" fs
  fingerprint ← at_key digest_of "request_fingerprint" fs
  result_ref ← at_key text_of "result_ref" fs
  recorded_at ← at_optional_key "recorded_at" fs
  ok (record {
    identity = record { scope = scope; operation_kind = operation_kind; key = key };
    request_fingerprint = fingerprint;
    result_ref = result_ref;
    recorded_at = recorded_at;
  })
