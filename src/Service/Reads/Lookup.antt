-- ===== src/Service/Reads/Lookup.antt =====
-- A record that is looked up is that of its id's row, and a payload that is read fits its record.
use infra_artifact_ledger.Prelude.{
  ◌≡◌, refl, sym, ap, ◌∙◌, Bool, true, false, ◌&&◌, Option, some, none, arith, Bool-cases, inl, inr,
  ◌==◌, ==-sound, if◌then◌else◌,
}
use infra_artifact_ledger.Text.{Text, Bytes, text_eq}
use infra_artifact_ledger.Errors.{Code, Result, ok, err}
use infra_artifact_ledger.Records.{Kind, Record, Blob, id_of, kind_of, kind_eq, digest_eq}
use infra_artifact_ledger.Validation.Limits.{max_blob}
use infra_artifact_ledger.Validation.RecordCheck.{validate_record, check_payload}
use infra_artifact_ledger.Store.Tables.{Db, RecordRow, Stored, record_text}
use infra_artifact_ledger.Store.Exec.{World, Exec, Outcome, returns, raises, pure, raise, lift}
use infra_artifact_ledger.Store.Exec
use infra_artifact_ledger.Store.Operations.{decoded_row, fetch_record}
use infra_artifact_ledger.Store.Triples.{
  Holds, Working, Untouched, Holds-bind, Holds-weaken, Holds-lift, Holds-wrap,
}
use infra_artifact_ledger.Service.Indexes.{
  typed_record, has_kind, row_of_kind, find_record, read_payload,
}
use infra_artifact_ledger.Service.Reading.{fetch_payload-Reads}
use infra_artifact_ledger.Service.Honesty.Phases.{query-Holds}
use infra_artifact_ledger.Service.History.{stored_record}
use infra_artifact_ledger.Service.Reads.{blob_of}

-- The row of an id, read and decoded.
module _ {d0 d : Db} where
  pub decoded_row-Holds :
      (x o : Option RecordRow)
      → Holds
          (λ w. Working d0 d w × (o ≡ x))
          (λ a w. Working d0 d w × (a ≡ x))
          (Untouched d0)
          (decoded_row o)
  unfolding decoded_row pure raise
  decoded_row-Holds x none = record { at = λ w h. h }
  decoded_row-Holds x (some row) = by_content row row.content
    where
      by_content :
          (row : RecordRow) (s : Stored)
          → Holds
              (λ w. Working d0 d w × (some (record row { content = s }) ≡ x))
              (λ a w. Working d0 d w × (a ≡ x))
              (Untouched d0)
              (decoded_row (some (record row { content = s })))
      by_content row Stored.garbage = record { at = λ w h. record { durable = h.0.durable } }
      by_content row (Stored.misshapen _) = record { at = λ w h. h }
      by_content row (record_text r) = record { at = λ w h. h }

  pub fetch_record-Holds :
      (i : Text)
      → Holds
          (Working d0 d)
          (λ o w. Working d0 d w × (o ≡ stored_record i d))
          (Untouched d0)
          (fetch_record i)
  unfolding fetch_record
  fetch_record-Holds i = Holds-bind _ _ (query-Holds _) λ o. decoded_row-Holds (stored_record i d) o

  pub blob_of-Holds :
      (r : Record)
      → Holds
          (Working d0 d)
          (λ b w. Working d0 d w × (r ≡ Record.blob b))
          (Untouched d0)
          (blob_of r)
  unfolding blob_of pure raise
  blob_of-Holds (Record.blob b) = record { at = λ w h. (h, refl) }
  blob_of-Holds _ = record { at = λ w h. record { durable = h.durable } }

module _ (sha256 : Bytes → Text) where
  -- The record that an id's row holds in a file.
  pub record Found (d : Db) (i : Text) (r : Record) : Type 0 where
    pub row : RecordRow
    pub stored : stored_record i d ≡ some row
    pub content : row.content ≡ record_text r
    pub named : id_of r ≡ i

  pub typed_record-content :
      (k : Kind) (i : Text) (row : RecordRow) (r : Record)
      → typed_record sha256 k i row ≡ ok r
      → (row.content ≡ record_text r) × (id_of r ≡ i)
  unfolding typed_record
  typed_record-content k i row r h = at_content row.content h
    where
      checked :
          (q : Record) (v : Result (Unit {0}))
          → elim v as (λ _. Result Record) [
            | err _ ↦ err Code.integrity_failure
            | ok _ ↦ if kind_of q == k && id_of q == i then ok q else err Code.integrity_failure
          ]
            ≡ ok r
          → (record_text q ≡ record_text r) × (id_of r ≡ i)
      checked q (err c) e = cc
      checked q (ok _) e = elim (Bool-cases (kind_of q == k && id_of q == i)) [
        | inl named ↦
            let same : q ≡ r = ground arith in
            (ap record_text same, ap id_of (sym same) ∙ ==-sound (id_of q) i (ground arith))
        | inr other ↦ absurd (ground arith)
      ]

      at_content :
          (t : Stored)
          → typed_record sha256 k i (record row { content = t }) ≡ ok r
          → (t ≡ record_text r) × (id_of r ≡ i)
      at_content Stored.garbage e = cc
      at_content (Stored.misshapen _) e = cc
      at_content (record_text q) e = checked q (validate_record sha256 false q) e

  module _ {d0 d : Db} where
    pub row_of_kind-Holds :
        (k : Kind) (i : Text) (o : Option RecordRow)
        → Holds
            (λ w. Working d0 d w × (o ≡ stored_record i d))
            (λ r w. Working d0 d w × Found d i r)
            (Untouched d0)
            (row_of_kind sha256 k i o)
    unfolding row_of_kind raise
    row_of_kind-Holds k i none = record { at = λ w h. record { durable = h.0.durable } }
    row_of_kind-Holds k i (some row) = by_kind (has_kind sha256 k row.kind)
      where
        by_kind :
            (b : Bool)
            → Holds
                (λ w. Working d0 d w × (some row ≡ stored_record i d))
                (λ r w. Working d0 d w × Found d i r)
                (Untouched d0)
                (if b
                  then lift (typed_record sha256 k i row)
                  else raise (Exec.ledger Code.not_found))
        by_kind false = record { at = λ w h. record { durable = h.0.durable } }
        by_kind true =
            Holds-weaken _
              (λ r w q. (
                q.0.0,
                record {
                  row = row;
                  stored = sym q.0.1;
                  content = (typed_record-content k i row r q.1).0;
                  named = (typed_record-content k i row r q.1).1;
                },
              ))
              (Holds-lift (typed_record sha256 k i row) (λ w h. record { durable = h.0.durable }))

    pub find_record-Holds :
        (k : Kind) (i : Text)
        → Holds
            (Working d0 d)
            (λ r w. Working d0 d w × Found d i r)
            (Untouched d0)
            (find_record sha256 k i)
    unfolding find_record
    find_record-Holds k i = Holds-bind _ _ (fetch_record-Holds i) λ o. row_of_kind-Holds k i o

    pub read_payload-Holds :
        (b : Blob)
        → Holds
            (Working d0 d)
            (λ raw w. Working d0 d w × (check_payload sha256 b raw ≡ ok tt))
            (Untouched d0)
            (read_payload sha256 b)
    unfolding read_payload pure
    read_payload-Holds b = Holds-wrap _ _ (
        Holds-bind _ _ (fetch_payload-Reads b.blob_ref max_blob) λ raw.
          Holds-bind _ _
            (Holds-lift (check_payload sha256 b raw) (λ w h. record { durable = h.durable }))
            λ _. record { at = λ w h. h })
