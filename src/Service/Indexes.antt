-- ===== src/Service/Indexes.antt =====
-- `_metadata`, `_record`, `_blob` and `_verify_indexes` of service.py.
use infra_artifact_ledger.Prelude.{
  Bool, true, false, ◌&&◌, List, [], ◌∷◌, ◌++◌, eqb, map, Option, some, none, ◌==◌, if◌then◌else◌,
  same_set,
}
use infra_artifact_ledger.Text.{Text, Bytes, text_eq}
use infra_artifact_ledger.Errors.{Code, Result, ok, err}
use infra_artifact_ledger.Errors
use infra_artifact_ledger.Records.{Kind, Record, Blob, Metadata, kind_of, id_of, kind_eq}
use infra_artifact_ledger.Validation.Limits.{require, max_blob}
use infra_artifact_ledger.Validation.RecordCheck.{validate_record, check_payload}
use infra_artifact_ledger.Validation.Graph.{all_records, validate_metadata}
use infra_artifact_ledger.Store.Tables.{
  Stored, Misshapen, Derived, RecordRow, RefRow, record_text, all_refs, ref_row_eq,
}
use infra_artifact_ledger.Store.Exec.{Exec, ledger, pure, raise, lift, wrap, ◌>>=◌, ◌>>◌}
use infra_artifact_ledger.Store.Statements.{query}
use infra_artifact_ledger.Store.Operations
use infra_artifact_ledger.Store.Operations.{
  Loaded, decode_all, decode_row, decode_operation, fetch_record, fetch_payload,
}

unfoldable pub integrity : {A : Type 0} → Exec A
integrity = raise (ledger Code.integrity_failure)

-- `if not test: raise LedgerError("INTEGRITY_FAILURE", ...)`
unfoldable pub ensure : Bool → Exec (Unit {0})
unfolding integrity
ensure true = pure tt
ensure false = integrity

-- Whether all objects have the shapes of their kinds.
abbrev pub is_shaped : Loaded → Bool
is_shaped l = elim l.odd_records [ [] ↦ eqb l.odd_operations 0 | x ∷ xs ↦ false ]

module _ (sha256 : Bytes → Text) where
  -- `validate_metadata` on what the store gives: an object of another shape is refused.
  unfoldable pub validate_loaded : Loaded → Result (Unit {0})
  validate_loaded l =
      Errors.◌>>◌ (require (is_shaped l) Code.invalid_input) (validate_metadata sha256 l.document)

  -- `_metadata`
  unfoldable pub metadata : Exec Metadata
  unfolding validate_loaded
  metadata = do
    l ← Operations.metadata
    wrap Code.integrity_failure (lift (validate_loaded l))
    pure l.document

  -- The record of a fetched row, for the kind and the id that were asked for.
  unfoldable pub typed_record : Kind → Text → RecordRow → Result Record
  typed_record k i row = elim row.content [
    | Stored.garbage ↦ err Code.integrity_failure
    | Stored.misshapen _ ↦ err Code.integrity_failure
    | record_text r ↦ elim (validate_record sha256 false r) [
      | err _ ↦ err Code.integrity_failure
      | ok _ ↦ if kind_of r == k && id_of r == i then ok r else err Code.integrity_failure
    ]
  ]

  abbrev pub has_kind : Kind → Option Kind → Bool
  has_kind k none = false
  has_kind k (some j) = j == k

  unfoldable pub row_of_kind : Kind → Text → Option RecordRow → Exec Record
  unfolding typed_record
  row_of_kind k i none = raise (ledger Code.not_found)
  row_of_kind k i (some r) =
      if has_kind k r.kind then lift (typed_record k i r) else raise (ledger Code.not_found)

  -- `_record`
  unfoldable pub find_record : Kind → Text → Exec Record
  unfolding row_of_kind
  find_record k i = do row ← fetch_record i; row_of_kind k i row

  -- `_blob`
  unfoldable pub read_payload : Blob → Exec Bytes
  read_payload b =
      wrap Code.integrity_failure
        do raw ← fetch_payload b.blob_ref max_blob; lift (check_payload sha256 b raw); pure raw

-- The rows of all misshapen objects together.
abbrev join : Derived → Derived → Derived
join Derived.unreadable e = Derived.unreadable
join Derived.untyped Derived.unreadable = Derived.unreadable
join Derived.untyped e = Derived.untyped
join (Derived.rows xs) (Derived.rows ys) = Derived.rows (xs ++ ys)
join (Derived.rows xs) e = e

abbrev pub odd_refs : List (Kind × Misshapen) → Derived
odd_refs [] = Derived.rows []
odd_refs ((k, o) ∷ os) = join o.refs (odd_refs os)

-- The ids of the misshapen objects among the Blob records.
abbrev pub odd_blobs : List (Kind × Misshapen) → List Text
odd_blobs [] = []
odd_blobs ((k, o) ∷ os) = if k == Kind.blob then given o.id (odd_blobs os) else odd_blobs os
  where
    given : Option Text → List Text → List Text
    given none is = is
    given (some i) is = i ∷ is

-- The stored rows are those of the records; `none` is an expected row that no stored one equals.
abbrev pub rows_match : Metadata → Option (List RefRow) → List RefRow → Bool
rows_match m none refs = false
rows_match m (some rs) refs = same_set (all_refs (all_records m) ++ rs) refs

-- `_verify_indexes`, with the rows and the Blob ids of misshapen objects, once their rows are read.
unfoldable pub compare_indexes : Option (List RefRow) → List Text → Metadata → Exec (Unit {0})
unfolding ensure decode_row decode_operation
compare_indexes more blobs m = do
  refs ← query (λ d. d.refs)
  ensure (rows_match m more refs)
  rows ← query (λ d. d.records)
  lift (decode_all decode_row rows)
  operations ← query (λ d. d.operations)
  lift (decode_all decode_operation operations)
  payloads ← query (λ d. d.payloads)
  ensure (same_set (map (λ b. b.blob_ref) m.blobs ++ blobs) (map (λ p. p.blob_ref) payloads))

-- `_verify_indexes` of a document
unfoldable pub verify_indexes : Metadata → Exec (Unit {0})
unfolding compare_indexes
verify_indexes m = compare_indexes (some []) [] m
