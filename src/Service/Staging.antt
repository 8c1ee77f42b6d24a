-- ===== src/Service/Staging.antt =====
-- The inserts of a fresh operation: they append rows to the four tables and change no other row.
use infra_artifact_ledger.Prelude.{
  ◌≡◌, refl, ap, ◌∙◌, false, List, [], ◌∷◌, ◌++◌, map, arith, append-nil, append_assoc, subst, any,
  ◌==◌,
}
use infra_artifact_ledger.Text.{Text, Bytes}
use infra_artifact_ledger.Errors.{Result}
use infra_artifact_ledger.Records.{Identity, identity_eq, Record, IdempotencyRecord, Metadata}
use infra_artifact_ledger.Store.Tables.{
  Db, RecordRow, OperationRow, PayloadRow, RefRow, reference_rows, record_row, operation_row,
  payload_row, add_record, add_ref, add_payload, add_operation, all_refs,
}
use infra_artifact_ledger.Store.Exec.{Exec}
use infra_artifact_ledger.Store.Operations.{
  each, insert_record, insert_reference, insert_references, insert_payload, insert_operation,
}
use infra_artifact_ledger.Store.Triples.{
  Takes, Reads-pure, Takes-bind, Takes-write, Holds, Holds-bind, Holds-weaken, Holds-write, Working,
  Untouched,
}
use infra_artifact_ledger.Service.Plans.{Payload, Plan}
use infra_artifact_ledger.Service.Execute.{store_plan}

-- Rows at the end of a table.
abbrev pub with_records : List RecordRow → Db → Db
with_records rs d = record d { records = d.records ++ rs }

abbrev pub with_refs : List RefRow → Db → Db
with_refs rs d = record d { refs = d.refs ++ rs }

abbrev pub with_payloads : List PayloadRow → Db → Db
with_payloads rs d = record d { payloads = d.payloads ++ rs }

abbrev pub with_operations : List OperationRow → Db → Db
with_operations rs d = record d { operations = d.operations ++ rs }

-- The tables after the inserts of a plan and of the operation itself.
abbrev pub staged : Plan → IdempotencyRecord → Db → Db
staged plan operation d = record {
  records = d.records ++ map record_row plan.additions;
  payloads = d.payloads ++ map payload_row plan.payloads;
  operations = (d.operations ++ map operation_row plan.history) ++ operation_row operation ∷ [];
  refs = d.refs ++ all_refs plan.additions;
}

-- No row has the identity.
abbrev pub IsFree : Identity → List OperationRow → Type 0
IsFree i os = any (λ (o : OperationRow). o.identity == i) os ≡ false

module _ {A R : Type 0} (rows : A → List R) where
  abbrev rows_of : List A → List R
  rows_of [] = []
  rows_of (x ∷ xs) = rows x ++ rows_of xs

module _ {d0 : Db} {A R : Type 0} (put : List R → Db → Db) (put_nil : (d : Db) → put [] d ≡ d)
    (put_put : (rs qs : List R) (d : Db) → put qs (put rs d) ≡ put (rs ++ qs) d) where
  -- A loop whose steps each append their rows appends all of them.
  each-Takes :
      (f : A → Exec (Unit {0})) (rows : A → List R)
      → ((d : Db) (a : A) → Takes d0 d (put (rows a) d) (f a))
      → (xs : List A) (d : Db) → Takes d0 d (put (rows_of rows xs) d) (each f xs)
  unfolding each
  each-Takes f rows step [] d = rw put_nil (Reads-pure tt)
  each-Takes f rows step (x ∷ xs) d =
      rw (← put_put (rows x) (rows_of rows xs) d) (
        Takes-bind (f x) (λ _. each f xs) (step d x)
          λ _. each-Takes f rows step xs (put (rows x) d))

rows_of-map : {A R : Type 0} (f : A → R) (xs : List A) → rows_of (λ x. f x ∷ []) xs ≡ map f xs
rows_of-map f [] = refl
rows_of-map f (x ∷ xs) = ap (◌∷◌ (f x)) (rows_of-map f xs)

map_id : {A : Type 0} (xs : List A) → map (λ x. x) xs ≡ xs
map_id [] = refl
map_id (x ∷ xs) = ap (◌∷◌ x) (map_id xs)

rows_of-refs : (xs : List Record) → rows_of reference_rows xs ≡ all_refs xs
rows_of-refs [] = refl
rows_of-refs (x ∷ xs) = ap (λ r. reference_rows x ++ r) (rows_of-refs xs)

module _ {d0 : Db} where
  record-Takes :
      (d : Db) (r : Record) → Takes d0 d (with_records (record_row r ∷ []) d) (insert_record r)
  unfolding insert_record add_record
  record-Takes d r = Takes-write (add_record (record_row r)) λ e h. ground arith

  reference-Takes : (d : Db) (r : RefRow) → Takes d0 d (with_refs (r ∷ []) d) (insert_reference r)
  unfolding insert_reference add_ref
  reference-Takes d r = Takes-write (add_ref r) λ e h. ground arith

  payload-Takes :
      (d : Db) (p : Payload) → Takes d0 d (with_payloads (payload_row p ∷ []) d) (insert_payload p)
  unfolding insert_payload add_payload
  payload-Takes d p = Takes-write (add_payload (payload_row p)) λ e h. ground arith

  operation-Takes :
      (d : Db) (r : IdempotencyRecord)
      → Takes d0 d (with_operations (operation_row r ∷ []) d) (insert_operation r)
  unfolding insert_operation add_operation
  operation-Takes d r = Takes-write (add_operation (operation_row r)) λ e h. ground arith

  records-Takes :
      (xs : List Record) (d : Db)
      → Takes d0 d (with_records (map record_row xs) d) (each insert_record xs)
  records-Takes xs d =
      subst (λ rs. Takes d0 d (with_records rs d) (each insert_record xs))
        (rows_of-map record_row xs)
        (each-Takes with_records (λ d. rw append-nil) (λ rs qs d. rw append_assoc) insert_record
          (λ r. record_row r ∷ []) record-Takes xs d)

  one_ref-Takes :
      (d : Db) (r : Record) → Takes d0 d (with_refs (reference_rows r) d) (insert_references r)
  unfolding insert_references
  one_ref-Takes d r =
      subst (λ rs. Takes d0 d (with_refs rs d) (each insert_reference (reference_rows r)))
        (rows_of-map (λ x. x) (reference_rows r) ∙ map_id (reference_rows r))
        (each-Takes with_refs (λ d. rw append-nil) (λ rs qs d. rw append_assoc) insert_reference
          (λ r. r ∷ []) reference-Takes (reference_rows r) d)

  refs-Takes :
      (xs : List Record) (d : Db)
      → Takes d0 d (with_refs (all_refs xs) d) (each insert_references xs)
  refs-Takes xs d =
      subst (λ rs. Takes d0 d (with_refs rs d) (each insert_references xs)) (rows_of-refs xs)
        (each-Takes with_refs (λ d. rw append-nil) (λ rs qs d. rw append_assoc) insert_references
          reference_rows one_ref-Takes xs d)

  payloads-Takes :
      (xs : List Payload) (d : Db)
      → Takes d0 d (with_payloads (map payload_row xs) d) (each insert_payload xs)
  payloads-Takes xs d =
      subst (λ rs. Takes d0 d (with_payloads rs d) (each insert_payload xs))
        (rows_of-map payload_row xs)
        (each-Takes with_payloads (λ d. rw append-nil) (λ rs qs d. rw append_assoc) insert_payload
          (λ r. payload_row r ∷ []) payload-Takes xs d)

  operations-Takes :
      (xs : List IdempotencyRecord) (d : Db)
      → Takes d0 d (with_operations (map operation_row xs) d) (each insert_operation xs)
  operations-Takes xs d =
      subst (λ rs. Takes d0 d (with_operations rs d) (each insert_operation xs))
        (rows_of-map operation_row xs)
        (each-Takes with_operations (λ d. rw append-nil) (λ rs qs d. rw append_assoc)
          insert_operation (λ r. operation_row r ∷ []) operation-Takes xs d)

  -- The identity of an inserted operation was free.
  operation-Holds :
      (d : Db) (r : IdempotencyRecord)
      → Holds
          (Working d0 d)
          (λ _ w.
            Working d0 (with_operations (operation_row r ∷ []) d) w
            × IsFree r.identity d.operations)
          (Untouched d0)
          (insert_operation r)
  unfolding insert_operation add_operation
  operation-Holds d r =
      Holds-weaken _
        (λ a w (e, h, allowed). (subst (λ x. Working d0 x w) (ground arith) h, ground arith))
        (Holds-write (add_operation (operation_row r)))

module _ {d0 d : Db} (sha256 : Bytes → Text)
    (decode_bundle : Bytes → Bytes → Result (Metadata × List Payload)) where
  -- The inserts of a plan append exactly its rows, or stop and leave the file alone.
  pub store_plan-Holds :
      (plan : Plan) (operation : IdempotencyRecord)
      → Holds
          (Working d0 d)
          (λ _ w.
            Working d0 (staged plan operation d) w
            × IsFree operation.identity (d.operations ++ map operation_row plan.history))
          (Untouched d0)
          (store_plan sha256 decode_bundle plan operation)
  unfolding store_plan
  store_plan-Holds plan operation = Holds-bind _ _ (records-Takes plan.additions d) λ _.
      Holds-bind _ _ (refs-Takes plan.additions _) λ _.
        Holds-bind _ _ (payloads-Takes plan.payloads _)
          λ _. Holds-bind _ _ (operations-Takes plan.history _) λ _. operation-Holds _ operation
