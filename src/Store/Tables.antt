-- ===== src/Store/Tables.antt =====
-- The tables of sqlite_store.py with the constraints of its schema, and `reference_rows`.
use infra_artifact_ledger.Prelude.{
  ℕ, suc, Bool, not, ◌&&◌, List, [], ◌∷◌, ◌++◌, map, Option, some, none, Eq, ◌==◌, if◌then◌else◌,
  any, contains,
}
use native.Mathlib.Decide.{ℕ_discrete}
use infra_artifact_ledger.Text.{Text, Bytes, text, text_eq}
use infra_artifact_ledger.Records.{
  Kind, RootTarget, Record, Identity, IdempotencyRecord, kind_of, id_of, identity_eq,
}

-- The column `field` of `refs`, with the index that the source appends to a list's name.
pub data Field : Type 0 where
  artifact_id content_root_ref blob_ref manifest_ref subject_version_ref object_ref : Field
  parent_version_refs entries imported_artifact_refs : ℕ → Field

pub record RefRow : Type 0 where
  pub source_id : Text
  pub field : Field
  pub target_id : Text

-- What `reference_rows` does with an object that is no record of its kind: it raises KeyError or
-- TypeError, it gives a row whose target is no text, or it gives rows of text.
pub data Derived : Type 0 where
  unreadable untyped : Derived
  rows : List RefRow → Derived

-- An object that is no record of its row's kind, by what the readers take from it: the text at the
-- id field of the kind, and the rows of `reference_rows`.
pub record Misshapen : Type 0 where
  pub id : Option Text
  pub refs : Derived

-- The column `data` of `records`: text that is no JSON object, an object that is no record of the
-- row's kind, or a record.
pub data Stored : Type 0 where
  garbage : Stored
  misshapen : Misshapen → Stored
  record_text : Record → Stored

-- A row of `records`; the kind is `none` where the column holds no key of KINDS.
pub record RecordRow : Type 0 where
  pub id : Text
  pub kind : Option Kind
  pub content : Stored

-- The column `data` of `operations`: text that is no JSON object; an object that is no operation
-- record, of which the reader tests whether its scope, kind, key and result are the row's; or a
-- record.
pub data StoredOperation : Type 0 where
  garbage : StoredOperation
  misshapen : Bool → StoredOperation
  operation_text : IdempotencyRecord → StoredOperation

pub record OperationRow : Type 0 where
  pub identity : Identity
  pub result_ref : Text
  pub content : StoredOperation

-- The storage class of a payload: a blob, or anything else.
pub data StoredPayload : Type 0 where
  blob_class : Bytes → StoredPayload
  other_class : StoredPayload

pub record PayloadRow : Type 0 where
  pub blob_ref : Text
  pub content : StoredPayload

pub record Db : Type 0 where
  pub records : List RecordRow
  pub payloads : List PayloadRow
  pub operations : List OperationRow
  pub refs : List RefRow

-- The tables after `SQLiteStore._initialize`.
abbrev pub empty_db : Db
empty_db = record { records = []; payloads = []; operations = []; refs = [] }

unfoldable pub RefRow-discrete : Discrete RefRow
unfolding ℕ_discrete
RefRow-discrete = hlevel ℕ_discrete

instance abbrev pub ref_row_eq : Eq RefRow
ref_row_eq = record { dec = RefRow-discrete }

abbrev indexed : Text → (ℕ → Field) → ℕ → List Text → List RefRow
indexed source field i [] = []
indexed source field i (t ∷ ts) =
    record { source_id = source; field = field i; target_id = t } ∷ indexed source field (suc i) ts

abbrev row : Text → Field → Text → RefRow
row source field target = record { source_id = source; field = field; target_id = target }

-- `reference_rows`
unfoldable pub reference_rows : Record → List RefRow
reference_rows (Record.version v) =
    row v.version_id Field.artifact_id v.artifact_id
    ∷ row v.version_id Field.content_root_ref v.content_root_ref
    ∷ indexed v.version_id Field.parent_version_refs 0 v.parent_version_refs
reference_rows (Record.content_root r) = elim r.target [
  | RootTarget.blob_ref b ↦ row r.content_root_ref Field.blob_ref b ∷ []
  | RootTarget.manifest_ref m ↦ row r.content_root_ref Field.manifest_ref m ∷ []
]
reference_rows (Record.manifest m) =
    indexed m.manifest_ref Field.entries 0 (map (λ e. e.blob_ref) m.entries)
reference_rows (Record.provenance_link p) =
    row p.provenance_id Field.subject_version_ref p.subject_version_ref
    ∷ (if p.object.kind == text "artifact_version"
        then row p.provenance_id Field.object_ref p.object.ref ∷ []
        else [])
reference_rows (Record.import_receipt r) =
    indexed r.import_receipt_id Field.imported_artifact_refs 0 r.imported_artifact_refs
reference_rows _ = []

-- The reference rows of all records.
abbrev pub all_refs : List Record → List RefRow
all_refs [] = []
all_refs (r ∷ rs) = reference_rows r ++ all_refs rs

abbrev pub record_row : Record → RecordRow
record_row r = record { id = id_of r; kind = some (kind_of r); content = record_text r }

abbrev pub operation_row : IdempotencyRecord → OperationRow
operation_row r = record {
  identity = r.identity;
  result_ref = r.result_ref;
  content = operation_text r;
}

abbrev pub payload_row : Text × Bytes → PayloadRow
payload_row p = record { blob_ref = p.0; content = blob_class p.1 }

-- The foreign keys: the id is in `records`.
abbrev pub has_record : Text → Db → Bool
has_record i d = any (λ (r : RecordRow). r.id == i) d.records

-- The INSERT statements; `none` is a violated constraint.
unfoldable pub add_record : RecordRow → Db → Option Db
add_record r d =
    if has_record r.id d then none else some (record d { records = d.records ++ r ∷ [] })

unfoldable pub add_ref : RefRow → Db → Option Db
add_ref r d =
    if has_record r.source_id d && (has_record r.target_id d && not (contains r d.refs))
    then some (record d { refs = d.refs ++ r ∷ [] })
    else none

unfoldable pub add_payload : PayloadRow → Db → Option Db
add_payload p d =
    if has_record p.blob_ref d
      && not (any (λ (q : PayloadRow). q.blob_ref == p.blob_ref) d.payloads)
    then some (record d { payloads = d.payloads ++ p ∷ [] })
    else none

unfoldable pub add_operation : OperationRow → Db → Option Db
add_operation o d =
    if has_record o.result_ref d
      && not (any (λ (p : OperationRow). p.identity == o.identity) d.operations)
    then some (record d { operations = d.operations ++ o ∷ [] })
    else none
