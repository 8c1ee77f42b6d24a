-- ===== src/Service/Reads/Verified.antt =====
-- What `read_blob` answers is the content of the stored record, under every sequence of faults.
use infra_artifact_ledger.Prelude.{
  ◌≡◌, refl, sym, ap, ◌∙◌, subst, ◌&&◌, Option, some, none, arith, ◌==◌, ==-sound, length, eqb,
}
use infra_artifact_ledger.Text.{Text, Bytes, text_eq}
use infra_artifact_ledger.Errors.{Code, ok}
use infra_artifact_ledger.Records.{Kind, Record, Blob, id_of, kind_eq, digest_eq}
use infra_artifact_ledger.Canonical.{digest_bytes}
use infra_artifact_ledger.Validation.Limits.{require}
use infra_artifact_ledger.Validation.RecordCheck.{check_payload, check_blob}
use infra_artifact_ledger.Validation.Ownership.{>>-eq-ok}
use infra_artifact_ledger.Store.Tables.{Db, RecordRow, record_text}
use infra_artifact_ledger.Store.Exec.{World, Exec, Outcome, returns, raises, pure}
use infra_artifact_ledger.Store.Triples.{
  Post, Holds, Working, Untouched, Holds-bind, Holds-given, Holds-weaken, Reads-lift,
}
use infra_artifact_ledger.Service.Honesty.Phases.{Idle, begin-Holds, rollback-Holds}
use infra_artifact_ledger.Service.Honesty.Handlers.{durable-rollback}
use infra_artifact_ledger.Service.History.{stored_record}
use infra_artifact_ledger.Service.Reads.{
  Answer, answered, refused, close_read, finish_read, in_transaction, read, blob_bytes, read_blob,
}
use infra_artifact_ledger.Service.Reads.Lookup.{
  blob_of-Holds, Found, find_record-Holds, read_payload-Holds,
}

module _ (sha256 : Bytes → Text) where
  -- The bytes are the content of the blob record that the id's row holds.
  pub record Verified (d : Db) (i : Text) (raw : Bytes) : Type 0 where
    pub row : RecordRow
    pub blob : Blob
    pub stored : stored_record i d ≡ some row
    pub content : row.content ≡ record_text (Record.blob blob)
    pub named : blob.blob_ref ≡ i
    pub whole : length raw ≡ blob.byte_length
    pub intact : digest_bytes sha256 raw ≡ blob.digest

  check_payload-whole :
      (b : Blob) (raw : Bytes)
      → check_payload sha256 b raw ≡ ok tt
      → (length raw ≡ b.byte_length) × (digest_bytes sha256 raw ≡ b.digest)
  unfolding check_payload
  check_payload-whole b raw h =
      let (_, h1) = >>-eq-ok (check_blob b) _ h in
      let (_, h2) =
        >>-eq-ok _
          (require (eqb (length raw) b.byte_length && digest_bytes sha256 raw == b.digest)
            Code.integrity_failure)
          h1 in
      (ground (arith, h2), ==-sound (digest_bytes sha256 raw) b.digest (ground (arith, h2)))

  Found-Verified :
      (d : Db) (i : Text) (r : Record) (b : Blob) (raw : Bytes)
      → Found sha256 d i r
      → r ≡ Record.blob b
      → check_payload sha256 b raw ≡ ok tt
      → Verified d i raw
  unfolding id_of
  Found-Verified d i r b raw f e c = record {
    row = f.row;
    blob = b;
    stored = f.stored;
    content = f.content ∙ ap record_text e;
    named = ap id_of (sym e) ∙ f.named;
    whole = (check_payload-whole b raw c).0;
    intact = (check_payload-whole b raw c).1;
  }

  module _ {d0 : Db} where
    blob_bytes-Holds :
        (i : Text)
        → Holds
            (Working d0 d0)
            (λ raw w. Working d0 d0 w × Verified d0 i raw)
            (Untouched d0)
            (blob_bytes sha256 i)
    unfolding blob_bytes
    blob_bytes-Holds i = Holds-bind _ _ (Reads-lift _) λ _.
        Holds-bind _ _ (find_record-Holds sha256 Kind.blob i) λ r. Holds-given _ λ found.
          Holds-bind _ _ (blob_of-Holds r) λ b. Holds-given _ λ same.
            Holds-weaken _ (λ raw w q. (q.0, Found-Verified d0 i r b raw found same q.1))
              (read_payload-Holds sha256 b)

    pub in_transaction-Holds :
        {A : Type 0} {C : A → Type 0} (body : Exec A)
        → Holds (Working d0 d0) (λ a w. Working d0 d0 w × C a) (Untouched d0) body
        → Holds (Idle d0) (λ a w. Idle d0 w × C a) (Untouched d0) (in_transaction body)
    unfolding pure
    in_transaction-Holds body h = Holds-bind _ _ begin-Holds λ _.
        Holds-bind _ _ h
          λ a. Holds-given _ λ c. Holds-bind _ _ rollback-Holds λ _. record { at = λ w q. (q, c) }

  pub durable-close_read : (o : Option Db) (w : World) → (close_read o w).durable ≡ w.durable
  durable-close_read none w = refl
  durable-close_read (some d) w = durable-rollback w

  -- What an answer tells: the content, and in every case that the file is as it was.
  abbrev pub ReadBack : Db → Text → Answer Bytes × World → Type 0
  ReadBack d i (answered raw, w) = (w.durable ≡ d) × (w.active ≡ none) × Verified d i raw
  ReadBack d i (refused e, w) = w.durable ≡ d

  -- On a connection with no open transaction, under every sequence of faults: if `read_blob` answers
  -- bytes, then the id's row holds a blob record of that id, the bytes have its length and digest,
  -- and no transaction is left open; and whatever the answer, the file is as it was.
  pub read_blob-ReadBack :
      (i : Text) (w : World) → w.active ≡ none → ReadBack w.durable i (read_blob sha256 i w)
  unfolding read_blob read
  read_blob-ReadBack i w h =
      subst (λ o. ReadBack w.durable i (finish_read o (in_transaction (blob_bytes sha256 i) w)))
        (sym h)
        (answer _ (
          (in_transaction-Holds _ (blob_bytes-Holds i)).at w
            (record { durable = refl; active = h })))
    where
      answer :
          (r : Outcome Bytes × World)
          → Post (λ raw v. Idle w.durable v × Verified w.durable i raw) (Untouched w.durable) r
          → ReadBack w.durable i (finish_read none r)
      answer (returns raw, v) q = (q.0.durable, q.0.active, q.1)
      answer (raises e, v) q = durable-close_read v.active v ∙ q.durable
