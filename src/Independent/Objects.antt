-- ===== src/Independent/Objects.antt =====
-- `graph` of the second implementation, less its traversal of the parents, and `closure`: how the
-- objects of a document refer to each other.
use infra_artifact_ledger.Prelude.{
  Bool, false, ◌||◌, List, [], ◌∷◌, ◌++◌, map, some, none, ◌==◌, if◌then◌else◌, find, contains,
}
use infra_artifact_ledger.Text.{Text, text, text_eq}
use infra_artifact_ledger.Errors.{Code, Result, ok, err, ◌>>=◌, ◌>>◌}
use infra_artifact_ledger.Records.{
  Kind, OperationKind, RootTarget, Entry, Record, IdempotencyRecord, kind_of, id_of, kind_eq,
}
use infra_artifact_ledger.Validation.Limits.{require}

-- `target`; the objects are those of the dictionary, by their ids.
unfoldable pub target : List Record → Text → Kind → Result Record
target objects i k = elim (find (λ (r : Record). id_of r == i) objects) [
  | none ↦ err Code.integrity_failure
  | some r ↦ if kind_of r == k then ok r else err Code.integrity_failure
]

abbrev target_all : List Record → List Text → Kind → Result (Unit {0})
target_all objects [] k = ok tt
target_all objects (i ∷ is) k = target objects i k >> target_all objects is k

abbrev in_artifact : Text → Record → Bool
in_artifact a (Record.version v) = v.artifact_id == a
in_artifact a _ = false

-- The parents are versions of the same artifact.
abbrev target_parents : List Record → Text → List Text → Result (Unit {0})
target_parents objects a [] = ok tt
target_parents objects a (p ∷ ps) = do
  parent ← target objects p Kind.version
  require (in_artifact a parent) Code.integrity_failure
  target_parents objects a ps

abbrev root_ref : RootTarget → Text × Kind
root_ref (RootTarget.blob_ref b) = (b, Kind.blob)
root_ref (RootTarget.manifest_ref m) = (m, Kind.manifest)

-- The targets of one object.
unfoldable pub check_targets : List Record → Record → Result (Unit {0})
unfolding target
check_targets objects (Record.version v) = do
  target objects v.artifact_id Kind.artifact
  target objects v.content_root_ref Kind.content_root
  target_parents objects v.artifact_id v.parent_version_refs
check_targets objects (Record.content_root r) =
    let (i, k) = root_ref r.target in target objects i k >> ok tt
check_targets objects (Record.manifest m) =
    target_all objects (map (λ (e : Entry). e.blob_ref) m.entries) Kind.blob
check_targets objects (Record.provenance_link p) = do
  target objects p.subject_version_ref Kind.version
  if p.object.kind == text "artifact_version"
      then target objects p.object.ref Kind.version >> ok tt
      else ok tt
check_targets objects (Record.import_receipt r) =
    target_all objects r.imported_artifact_refs Kind.artifact
check_targets objects _ = ok tt

-- What an object adds to `used`.
unfoldable pub used_by : Record → List Text
used_by (Record.version v) = v.content_root_ref ∷ []
used_by (Record.content_root r) = (root_ref r.target).0 ∷ []
used_by (Record.manifest m) = map (λ (e : Entry). e.blob_ref) m.entries
used_by _ = []

abbrev pub used : List Record → List Text
used [] = []
used (r ∷ rs) = used_by r ++ used rs

abbrev is_content : Kind → Bool
is_content k = k == Kind.content_root || (k == Kind.manifest || k == Kind.blob)

-- Content that nothing uses is refused.
unfoldable pub check_used : List Text → List Record → Result (Unit {0})
check_used refs [] = ok tt
check_used refs (r ∷ rs) = do
  if is_content (kind_of r) then require (contains (id_of r) refs) Code.integrity_failure else ok tt
  check_used refs rs

-- `RESULT`
abbrev result_of : OperationKind → Kind
result_of OperationKind.create_artifact = Kind.artifact
result_of OperationKind.append_version = Kind.version
result_of OperationKind.import_bundle = Kind.import_receipt

unfoldable pub check_results : List Record → List IdempotencyRecord → Result (Unit {0})
unfolding target
check_results objects [] = ok tt
check_results objects (o ∷ os) = do
  target objects o.result_ref (result_of o.identity.operation_kind)
  check_results objects os

abbrev entry_refs : Record → List Text
entry_refs (Record.manifest m) = map (λ (e : Entry). e.blob_ref) m.entries
entry_refs _ = []

-- The Blobs behind a root's target.
abbrev closure_blobs : Kind → Text → Record → List Text
closure_blobs Kind.manifest i r = entry_refs r
closure_blobs _ i r = i ∷ []

abbrev closure_in : List Record → Text → Record → Result (List Text × List Text)
closure_in objects root (Record.content_root r) = do
  let i : Text = (root_ref r.target).0
  let k : Kind = (root_ref r.target).1
  found ← target objects i k
  target_all objects (closure_blobs k i found) Kind.blob
  ok (root ∷ i ∷ closure_blobs k i found, closure_blobs k i found)
closure_in objects root _ = err Code.integrity_failure

-- `closure`: the identities of a root's content, and its Blobs, as lists of the members.
unfoldable pub closure : List Record → Text → Result (List Text × List Text)
unfolding target
closure objects root = do
  found ← target objects root Kind.content_root
  closure_in objects root found
