-- ===== src/Service/Queries/Indexed.antt =====
-- The steps of `verify` before its Blob loop: what is loaded, and the comparison of the indexes.
use infra_artifact_ledger.Prelude.{
  ◌≡◌, refl, Bool, true, false, List, ◌++◌, map, Option, some, none, sorted, same_set,
}
use infra_artifact_ledger.Text.{Text, Bytes, text_eq, text_le}
use infra_artifact_ledger.Errors.{Result, ok}
use infra_artifact_ledger.Records.{Metadata, IdempotencyRecord}
use infra_artifact_ledger.Store.Tables.{Db, Derived, RecordRow, RefRow, ref_row_eq}
use infra_artifact_ledger.Store.Exec.{World, pure, raise, lift}
use infra_artifact_ledger.Store.Operations
use infra_artifact_ledger.Store.Operations.{
  Decoded, Loaded, decode_all, decode_row, decode_operation, load,
}
use infra_artifact_ledger.Store.Triples.{
  Holds, Working, Untouched, Holds-bind, Holds-given, Holds-weaken, Holds-lift, Reads-lift,
  Reads-query,
}
use infra_artifact_ledger.Service.Indexes.{integrity, ensure, rows_match, compare_indexes}
use infra_artifact_ledger.Service.Honesty.Phases.{query-Holds}
use infra_artifact_ledger.Service.Queries.Methods.{required, tolerated_indexes}
use infra_artifact_ledger.Service.Queries.Payloads.{Tried, tolerate-Holds}

-- The file's rows decode to what was loaded.
pub record Loads (d : Db) (l : Loaded) : Type 0 where
  pub records : List Decoded
  pub operations : List (Option IdempotencyRecord)
  pub records_decoded :
      decode_all decode_row (sorted (λ (a b : RecordRow). text_le a.id b.id) d.records) ≡ ok records
  pub operations_decoded : decode_all decode_operation d.operations ≡ ok operations
  pub loaded : l ≡ load records operations

-- The index tables have the rows that the records give.
abbrev pub IsIndexed : Db → Option (List RefRow) → List Text → Metadata → Type 0
IsIndexed d more blobs m =
    (rows_match m more d.refs ≡ true)
    × (same_set (map (λ b. b.blob_ref) m.blobs ++ blobs) (map (λ p. p.blob_ref) d.payloads) ≡ true)

module _ {d0 : Db} where
  pub ensure-Holds :
      (b : Bool)
      → Holds (Working d0 d0) (λ _ w. Working d0 d0 w × (b ≡ true)) (Untouched d0) (ensure b)
  unfolding ensure integrity pure raise
  ensure-Holds true = record { at = λ w h. (h, refl) }
  ensure-Holds false = record { at = λ w h. record { durable = h.durable } }

  pub required-Holds :
      {A : Type 0} {Q : A → World → Type 0} (o : Option A)
      → Holds (Tried Q (Untouched d0) o) Q (Untouched d0) (required o)
  unfolding required integrity pure raise
  required-Holds none = record { at = λ w h. record { durable = h.durable } }
  required-Holds (some a) = record { at = λ w h. h }

  lift-Holds :
      {A : Type 0} (r : Result A)
      → Holds (Working d0 d0) (λ a w. Working d0 d0 w × (r ≡ ok a)) (Untouched d0) (lift r)
  lift-Holds r = Holds-lift r (λ w h. record { durable = h.durable })

  pub metadata-Loads :
      Holds (Working d0 d0) (λ l w. Working d0 d0 w × Loads d0 l) (Untouched d0) Operations.metadata
  unfolding Operations.metadata pure
  metadata-Loads = Holds-bind _ _ (query-Holds _) λ rows. Holds-given _ λ of_rows.
      Holds-bind _ _ (lift-Holds _) λ records. Holds-given _ λ records_decoded.
        Holds-bind _ _ (query-Holds _) λ ops. Holds-given _ λ of_ops.
          Holds-bind _ _ (lift-Holds _) λ operations. Holds-given _ λ operations_decoded. record {
            at = λ w h. (
              h,
              record {
                records = records;
                operations = operations;
                records_decoded = rw (← of_rows) records_decoded;
                operations_decoded = rw (← of_ops) operations_decoded;
                loaded = refl;
              },
            );
          }

  compare_indexes-Holds :
      (more : Option (List RefRow)) (blobs : List Text) (m : Metadata)
      → Holds
          (Working d0 d0)
          (λ _ w. Working d0 d0 w × IsIndexed d0 more blobs m)
          (Untouched d0)
          (compare_indexes more blobs m)
  unfolding compare_indexes
  compare_indexes-Holds more blobs m = Holds-bind _ _ (query-Holds _) λ refs.
      Holds-given _ λ of_refs. Holds-bind _ _ (ensure-Holds _) λ _. Holds-given _ λ matched.
        Holds-bind _ _ (Reads-query _) λ rows. Holds-bind _ _ (Reads-lift _) λ _.
          Holds-bind _ _ (Reads-query _) λ ops. Holds-bind _ _ (Reads-lift _) λ _.
            Holds-bind _ _ (query-Holds _) λ payloads. Holds-given _ λ of_payloads.
              Holds-weaken _ (λ _ w q. (q.0, (rw (← of_refs) matched, rw (← of_payloads) (q.1))))
                (ensure-Holds _)

module _ (sha256 : Bytes → Text) (finite : Text → Bool) (d0 : Db) where
  -- The comparison that `verify` makes returned: no row of a misshapen object was unreadable.
  abbrev pub Compared : Derived → List Text → Metadata → Type 0
  Compared Derived.unreadable blobs m = ⊥
  Compared Derived.untyped blobs m = ⊥
  Compared (Derived.rows rs) blobs m = IsIndexed d0 (some rs) blobs m

  pub tolerated_indexes-Holds :
      (e : Derived) (blobs : List Text) (m : Metadata)
      → Holds
          (Working d0 d0)
          (Tried (λ _ w. Working d0 d0 w × Compared e blobs m) (Untouched d0))
          (Untouched d0)
          (tolerated_indexes sha256 finite e blobs m)
  unfolding tolerated_indexes pure
  tolerated_indexes-Holds Derived.unreadable blobs m = record {
    at = λ w h. record { durable = h.durable };
  }
  tolerated_indexes-Holds Derived.untyped blobs m =
      tolerate-Holds _
        (Holds-weaken _ (λ _ w q. absurd (cc (q.1.0))) (compare_indexes-Holds none blobs m))
  tolerated_indexes-Holds (Derived.rows rs) blobs m =
      tolerate-Holds _ (compare_indexes-Holds (some rs) blobs m)
