-- ===== src/Service/Plans.antt =====
-- `_create`, `_append` and `_import` of service.py: what a fresh operation adds.
use infra_artifact_ledger.Prelude.{
  Bool, true, false, not, ◌&&◌, ◌||◌, List, [], ◌∷◌, ◌++◌, map, Option, some, none, ◌==◌,
  if◌then◌else◌, keep, all, contains, subset, same_set, ltb, sorted,
}
use infra_artifact_ledger.Text.{Text, Bytes, text_eq, text_le}
use infra_artifact_ledger.Errors.{Code, Result, ok, err}
use infra_artifact_ledger.Errors
use infra_artifact_ledger.Records.{
  Artifact, Version, RootTarget, ContentRoot, Blob, Manifest, ProvenanceLink, Record, Identity,
  IdempotencyRecord, Metadata, id_of, record_eq, identity_eq, idempotency_record_eq,
}
use infra_artifact_ledger.Requests.{AppendBody}
use infra_artifact_ledger.Validation.Limits.{fail_if, require, max_payload}
use infra_artifact_ledger.Validation.RecordCheck.{check_payload}
use infra_artifact_ledger.Validation.Graph.{
  all_records, by_id, content_blob_refs, closure_length, validate_metadata,
}
use infra_artifact_ledger.Store.Exec.{Exec, ledger, failure, pure, raise, lift, ◌>>=◌, ◌>>◌}
use infra_artifact_ledger.Store.Operations.{append_records}
use infra_artifact_ledger.Service.Indexes.{integrity, ensure, read_payload}

abbrev pub Payload : Type 0
Payload = Text × Bytes

-- The additions, the new payloads, the historical operations and the result reference.
pub record Plan : Type 0 where
  pub additions : List Record
  pub payloads : List Payload
  pub history : List IdempotencyRecord
  pub result_ref : Text

-- `_record_map(metadata).get(identity)`
abbrev pub owned : Metadata → Text → Option Record
owned m i = by_id id_of i (all_records m)

abbrev pub is_owned : Metadata → Text → Bool
is_owned m i = elim (owned m i) [ none ↦ false | some r ↦ true ]

abbrev pub supply : Text → List Payload → Option Bytes
supply i [] = none
supply i ((j, raw) ∷ ps) = if j == i then some raw else supply i ps

abbrev pub keys : List Payload → List Text
keys ps = map (λ p. p.0) ps

-- `_create`
unfoldable pub create : Artifact → Metadata → Text → Result Plan
create body current timestamp =
    let a = record body { recorded_at = some timestamp } in
    if is_owned current a.artifact_id
    then err Code.identity_conflict
    else ok (record {
      additions = Record.artifact a ∷ [];
      payloads = [];
      history = [];
      result_ref = a.artifact_id;
    })

abbrev stamped : Text → ProvenanceLink → ProvenanceLink
stamped timestamp p = record p { recorded_at = some timestamp }

-- The additions of an append in the order of the loop; a link of another version is refused.
unfoldable pub append_additions : AppendBody → Text → Result (List Record)
append_additions b timestamp =
    if all (λ (p : ProvenanceLink). p.subject_version_ref == b.version.version_id)
      b.provenance_links
    then ok (
        Record.version (record b.version { recorded_at = some timestamp })
        ∷ (map Record.content_root b.content_roots
            ++ (map Record.blob b.blobs
                ++ (map Record.manifest b.manifests
                    ++ map (λ p. Record.provenance_link (stamped timestamp p))
                        b.provenance_links))))
    else err Code.invalid_input

abbrev never_reused : Record → Bool
never_reused (Record.version v) = true
never_reused (Record.provenance_link p) = true
never_reused _ = false

-- The loop that keeps the records which are not yet stored.
unfoldable pub accept : Metadata → List Text → List Record → Result (List Record)
accept current seen [] = ok []
accept current seen (r ∷ rs) =
    if contains (id_of r) seen
    then err Code.invalid_input
    else let rest = accept current (id_of r ∷ seen) rs in
      elim (owned current (id_of r)) [
        | some old ↦ if never_reused r || not (old == r) then err Code.identity_conflict else rest
        | none ↦ Errors.◌>>=◌ rest (λ more. ok (r ∷ more))
      ]

abbrev is_artifact : Option Record → Bool
is_artifact (some (Record.artifact a)) = true
is_artifact _ = false

-- The tests of the body's content records against the closure `refs` of the new version.
unfoldable pub check_related : Metadata → AppendBody → List Text → List Payload → Result (Unit {0})
check_related combined b refs supplied =
    let related_manifest : Text → Bool = λ m.
      elim (by_id (λ r. r.content_root_ref) b.version.content_root_ref combined.content_roots) [
        | none ↦ false
        | some root ↦ elim root.target [
          | RootTarget.blob_ref _ ↦ false
          | RootTarget.manifest_ref f ↦ m == f
        ]
      ] in
    Errors.◌>>◌
      (require
        (all (λ (r : ContentRoot). r.content_root_ref == b.version.content_root_ref)
          b.content_roots)
        Code.invalid_input)
      (Errors.◌>>◌
        (require (all (λ (f : Manifest). related_manifest f.manifest_ref) b.manifests)
          Code.invalid_input)
        (require
          (all (λ (x : Blob). contains x.blob_ref refs) b.blobs && subset (keys supplied) refs)
          Code.invalid_input))

-- `_history`: the versions of an artifact and the links of those versions.
unfoldable pub history : Metadata → Text → List Record
history m i =
    let versions : List Version = keep (λ v. v.artifact_id == i) m.versions in
    map Record.version versions
    ++ map Record.provenance_link (
        keep (λ p. contains p.subject_version_ref (map (λ v. v.version_id) versions))
          m.provenance_links)

-- A repeated artifact has exactly the same record and history.
unfoldable pub check_repeated : Metadata → Metadata → List Artifact → Result (Unit {0})
unfolding history
check_repeated current incoming [] = ok tt
check_repeated current incoming (a ∷ as') =
    let rest = check_repeated current incoming as' in
    elim (owned current a.artifact_id) [
      | none ↦ rest
      | some old ↦
          if old == Record.artifact a
            && same_set (history current a.artifact_id) (history incoming a.artifact_id)
          then rest
          else err Code.identity_conflict
    ]

-- The records of the package that are not yet stored; a stored one must be the same record.
unfoldable pub import_additions : Metadata → List Record → Result (List Record)
import_additions current [] = ok []
import_additions current (r ∷ rs) =
    let rest = import_additions current rs in
    elim (owned current (id_of r)) [
      | some old ↦ if old == r then rest else err Code.identity_conflict
      | none ↦ Errors.◌>>=◌ rest (λ more. ok (r ∷ more))
    ]

abbrev operation_with : Identity → List IdempotencyRecord → Option IdempotencyRecord
operation_with i [] = none
operation_with i (r ∷ rs) = if r.identity == i then some r else operation_with i rs

-- The historical operations that are not yet stored.
unfoldable pub import_history :
    Identity → List IdempotencyRecord → List IdempotencyRecord → Result (List IdempotencyRecord)
import_history own stored [] = ok []
import_history own stored (r ∷ rs) =
    let rest = import_history own stored rs in
    if r.identity == own
    then err Code.idempotency_conflict
    else elim (operation_with r.identity stored) [
      | some old ↦ if old == r then rest else err Code.idempotency_conflict
      | none ↦ Errors.◌>>=◌ rest (λ more. ok (r ∷ more))
    ]

-- The payload loops: what each step adds, in order.
unfoldable pub gather : {A : Type 0} → (A → Exec (List Payload)) → List A → Exec (List Payload)
gather step [] = pure []
gather step (x ∷ xs) = do here ← step x; rest ← gather step xs; pure (here ++ rest)

module _ (sha256 : Bytes → Text) where
  unfoldable pub check_given : Blob → Option Bytes → Exec (Unit {0})
  check_given b none = pure tt
  check_given b (some raw) = lift (check_payload sha256 b raw)

  -- A stored blob is read back, a new one needs its bytes.
  unfoldable pub stored_or_given : Bool → Blob → Option Bytes → Exec (List Payload)
  stored_or_given true b given = do read_payload sha256 b; pure []
  stored_or_given false b none = raise (ledger Code.invalid_input)
  stored_or_given false b (some raw) = pure ((b.blob_ref, raw) ∷ [])

  unfoldable pub gather_blob : Metadata → List Payload → Option Blob → Exec (List Payload)
  unfolding check_given stored_or_given
  gather_blob current supplied none = raise failure
  gather_blob current supplied (some b) = do
    check_given b (supply b.blob_ref supplied)
    stored_or_given (is_owned current b.blob_ref) b (supply b.blob_ref supplied)

  -- One step of the last loop of `_append`.
  unfoldable pub gather_one : Metadata → Metadata → List Payload → Text → Exec (List Payload)
  unfolding gather_blob
  gather_one current combined supplied i =
      gather_blob current supplied (by_id (λ b. b.blob_ref) i combined.blobs)

  unfoldable pub import_blob : Payload → Option Record → Exec (List Payload)
  import_blob p none = pure (p ∷ [])
  import_blob p (some (Record.blob b)) = do
    persisted ← read_payload sha256 b
    ensure (persisted == p.1)
    pure []
  import_blob p (some _) = integrity

  -- One step of the payload loop of `_import`: stored bytes must agree with the package's.
  unfoldable pub import_one : Metadata → Payload → Exec (List Payload)
  unfolding import_blob
  import_one current p = import_blob p (owned current p.0)

  -- `_append`
  unfoldable pub append : AppendBody → Metadata → List Payload → Text → Exec Plan
  append b current supplied timestamp = do
    lift (require (is_artifact (owned current b.version.artifact_id)) Code.not_found)
    additions ← lift (append_additions b timestamp)
    accepted ← lift (accept current [] additions)
    let combined = append_records current accepted
    lift (validate_metadata sha256 combined)
    refs ← lift (content_blob_refs combined b.version)
    lift (check_related combined b refs supplied)
    total ← lift (closure_length combined.blobs refs)
    lift (fail_if (ltb max_payload total) Code.resource_limit)
    payloads ← gather (gather_one current combined supplied) refs
    pure (record {
      additions = accepted;
      payloads = payloads;
      history = [];
      result_ref = b.version.version_id;
    })

  -- `_import`
  unfoldable pub import : Text → Identity → Metadata → Metadata → List Payload → Text → Exec Plan
  import receipt_id own current incoming supplied timestamp = do
    lift (
        fail_if (is_owned current receipt_id || is_owned incoming receipt_id)
          Code.identity_conflict)
    lift (check_repeated current incoming incoming.artifacts)
    records ← lift (import_additions current (all_records incoming))
    history ← lift (import_history own current.idempotency_records incoming.idempotency_records)
    payloads ← gather (import_one current) supplied
    let receipt = Record.import_receipt (record {
      import_receipt_id = receipt_id;
      imported_artifact_refs = sorted text_le (map (λ a. a.artifact_id) incoming.artifacts);
      recorded_at = some timestamp;
    })
    let additions = records ++ receipt ∷ []
    let combined = append_records current additions
    lift (
        validate_metadata sha256
          (record combined { idempotency_records = combined.idempotency_records ++ history }))
    pure (record {
      additions = additions;
      payloads = payloads;
      history = history;
      result_ref = receipt_id;
    })
