-- ===== src/Store/Operations.antt =====
-- The methods of SQLiteStore that read and write rows.
use infra_artifact_ledger.Prelude.{
  ℕ, suc, Bool, false, ◌&&◌, List, [], ◌∷◌, ◌++◌, Option, some, none, ◌==◌, if◌then◌else◌, find,
  sorted, ltb, length,
}
use infra_artifact_ledger.Text.{Text, Bytes, text_eq, text_le}
use infra_artifact_ledger.Errors.{Code, Result, ok, err}
use infra_artifact_ledger.Errors
use infra_artifact_ledger.Records.{
  Kind, OperationKind, Record, Identity, IdempotencyRecord, Metadata, empty_metadata, kind_of,
  id_of, kind_eq, operation_kind_eq, identity_eq,
}
use infra_artifact_ledger.Store.Tables.{
  Stored, Misshapen, record_text, StoredOperation, operation_text, StoredPayload, blob_class,
  other_class, RecordRow, OperationRow, PayloadRow, RefRow, reference_rows, record_row,
  operation_row, payload_row, add_record, add_ref, add_payload, add_operation,
}
use infra_artifact_ledger.Store.Exec.{Exec, pure, raise, lift, ◌>>=◌, ◌>>◌, ledger}
use infra_artifact_ledger.Store.Statements.{query, write}

-- A row's object: a record of the row's kind, or an object of that kind's collection that is none.
pub data Decoded : Type 0 where
  typed : Record → Decoded
  odd : Kind → Misshapen → Decoded

abbrev has_id : Option Text → Text → Bool
has_id none i = false
has_id (some j) i = j == i

-- `_decode` and the test of the identity column, for the row's kind.
unfoldable pub decode_row : RecordRow → Result Decoded
decode_row r = elim r.kind [
  | none ↦ err Code.integrity_failure
  | some k ↦ elim r.content [
    | Stored.garbage ↦ err Code.integrity_failure
    | Stored.misshapen o ↦ if has_id o.id r.id then ok (odd k o) else err Code.integrity_failure
    | record_text s ↦
        if kind_of s == k && id_of s == r.id then ok (typed s) else err Code.integrity_failure
  ]
]

-- The object of a row whose four columns it has; `none` is one that is no operation record.
unfoldable pub decode_operation : OperationRow → Result (Option IdempotencyRecord)
decode_operation o = elim o.content [
  | StoredOperation.garbage ↦ err Code.integrity_failure
  | StoredOperation.misshapen same ↦ if same then ok none else err Code.integrity_failure
  | operation_text r ↦
      if r.identity == o.identity && r.result_ref == o.result_ref
      then ok (some r)
      else err Code.integrity_failure
]

abbrev pub decode_all : {A B : Type 0} → (A → Result B) → List A → Result (List B)
decode_all f [] = ok []
decode_all f (x ∷ xs) = Errors.◌>>=◌ (f x) (λ y. Errors.◌>>=◌ (decode_all f xs) (λ ys. ok (y ∷ ys)))

-- `metadata[KINDS[kind][0]].append(record)`
unfoldable pub append_record : Metadata → Record → Metadata
append_record m (Record.artifact r) = record m { artifacts = m.artifacts ++ r ∷ [] }
append_record m (Record.version r) = record m { versions = m.versions ++ r ∷ [] }
append_record m (Record.content_root r) = record m { content_roots = m.content_roots ++ r ∷ [] }
append_record m (Record.blob r) = record m { blobs = m.blobs ++ r ∷ [] }
append_record m (Record.manifest r) = record m { manifests = m.manifests ++ r ∷ [] }
append_record m (Record.provenance_link r) = record m {
  provenance_links = m.provenance_links ++ r ∷ [];
}
append_record m (Record.import_receipt r) = record m {
  import_receipts = m.import_receipts ++ r ∷ [];
}

abbrev pub append_records : Metadata → List Record → Metadata
append_records m [] = m
append_records m (r ∷ rs) = append_records (append_record m r) rs

abbrev kind_rank : OperationKind → ℕ
kind_rank OperationKind.append_version = 0
kind_rank OperationKind.create_artifact = 1
kind_rank OperationKind.import_bundle = 2

-- The order of the triples of scope, kind and key.
unfoldable pub identity_le : Identity → Identity → Bool
identity_le i j =
    if i.scope == j.scope
    then (if i.operation_kind == j.operation_kind
        then text_le i.key j.key
        else ltb (kind_rank i.operation_kind) (kind_rank j.operation_kind))
    else text_le i.scope j.scope

-- What `SQLiteStore.metadata` gives: the records and operations that have their shapes, as a
-- document, and what stands beside them in its lists. The place in a list is not kept for these: no
-- reader depends on it.
pub record Loaded : Type 0 where
  pub document : Metadata
  pub odd_records : List (Kind × Misshapen)
  pub odd_operations : ℕ

unfoldable pub append_decoded : Loaded → Decoded → Loaded
unfolding append_record
append_decoded l (typed r) = record l { document = append_record l.document r }
append_decoded l (odd k o) = record l { odd_records = l.odd_records ++ (k, o) ∷ [] }

abbrev append_all : Loaded → List Decoded → Loaded
append_all l [] = l
append_all l (x ∷ xs) = append_all (append_decoded l x) xs

abbrev shaped_operations : List (Option IdempotencyRecord) → List IdempotencyRecord
shaped_operations [] = []
shaped_operations (none ∷ os) = shaped_operations os
shaped_operations (some r ∷ os) = r ∷ shaped_operations os

abbrev count_odd : List (Option IdempotencyRecord) → ℕ
count_odd [] = 0
count_odd (none ∷ os) = suc (count_odd os)
count_odd (some r ∷ os) = count_odd os

-- The end of `SQLiteStore.metadata`: the operations in the order of their identities.
unfoldable pub load : List Decoded → List (Option IdempotencyRecord) → Loaded
unfolding append_decoded
load records operations =
    let l =
      append_all (record { document = empty_metadata; odd_records = []; odd_operations = 0 })
        records in
    record l {
      document = record l.document {
        idempotency_records =
            sorted (λ (a b : IdempotencyRecord). identity_le a.identity b.identity)
              (shaped_operations operations);
      };
      odd_operations = count_odd operations;
    }

-- `SQLiteStore.metadata`
unfoldable pub metadata : Exec Loaded
unfolding load decode_row decode_operation
metadata = do
  rows ← query (λ d. sorted (λ (a b : RecordRow). text_le a.id b.id) d.records)
  records ← lift (decode_all decode_row rows)
  ops ← query (λ d. d.operations)
  operations ← lift (decode_all decode_operation ops)
  pure (load records operations)

-- The `_decode` of a fetched row: its text is known to be a JSON object afterwards.
unfoldable pub decoded_row : Option RecordRow → Exec (Option RecordRow)
decoded_row none = pure none
decoded_row (some r) = elim r.content [
  | Stored.garbage ↦ raise (ledger Code.integrity_failure)
  | Stored.misshapen _ ↦ pure (some r)
  | record_text _ ↦ pure (some r)
]

-- `SQLiteStore.record`
unfoldable pub fetch_record : Text → Exec (Option RecordRow)
unfolding decoded_row
fetch_record i = do
  found ← query (λ d. find (λ (r : RecordRow). r.id == i) d.records)
  decoded_row found

unfoldable pub decoded_operation : Option OperationRow → Exec (Option OperationRow)
decoded_operation none = pure none
decoded_operation (some o) = elim o.content [
  | StoredOperation.garbage ↦ raise (ledger Code.integrity_failure)
  | StoredOperation.misshapen _ ↦ pure (some o)
  | operation_text _ ↦ pure (some o)
]

-- `SQLiteStore.operation`
unfoldable pub fetch_operation : Identity → Exec (Option OperationRow)
unfolding decoded_operation
fetch_operation i = do
  found ← query (λ d. find (λ (o : OperationRow). o.identity == i) d.operations)
  decoded_operation found

-- The storage class and the length are tested before the bytes are fetched.
unfoldable pub bounded_bytes : ℕ → StoredPayload → Exec Bytes
bounded_bytes limit other_class = raise (ledger Code.integrity_failure)
bounded_bytes limit (blob_class raw) =
    if ltb limit (length raw) then raise (ledger Code.integrity_failure) else query (λ _. raw)

unfoldable pub present_bytes : ℕ → Option PayloadRow → Exec Bytes
unfolding bounded_bytes
present_bytes limit none = raise (ledger Code.integrity_failure)
present_bytes limit (some p) = bounded_bytes limit p.content

-- `SQLiteStore.payload`
unfoldable pub fetch_payload : Text → ℕ → Exec Bytes
unfolding present_bytes
fetch_payload i limit = do
  info ← query (λ d. find (λ (p : PayloadRow). p.blob_ref == i) d.payloads)
  present_bytes limit info

-- A loop of statements.
unfoldable pub each : {A : Type 0} → (A → Exec (Unit {0})) → List A → Exec (Unit {0})
each f [] = pure tt
each f (x ∷ xs) = f x >> each f xs

unfoldable pub insert_record : Record → Exec (Unit {0})
insert_record r = write (add_record (record_row r))

unfoldable pub insert_reference : RefRow → Exec (Unit {0})
insert_reference r = write (add_ref r)

-- `insert_references`
unfoldable pub insert_references : Record → Exec (Unit {0})
unfolding reference_rows
insert_references r = each insert_reference (reference_rows r)

unfoldable pub insert_payload : Text × Bytes → Exec (Unit {0})
insert_payload p = write (add_payload (payload_row p))

unfoldable pub insert_operation : IdempotencyRecord → Exec (Unit {0})
insert_operation r = write (add_operation (operation_row r))
