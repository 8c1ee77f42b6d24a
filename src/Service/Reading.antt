-- ===== src/Service/Reading.antt =====
-- The steps of a call that only read the open transaction: they leave its view, and what is on
-- disk, as they were.
use infra_artifact_ledger.Prelude.{ℕ, ◌++◌, Bool, true, false, List, [], ◌∷◌, Option, some, none}
use infra_artifact_ledger.Text.{Text, Bytes}
use infra_artifact_ledger.Errors.{Result, ok, err}
use infra_artifact_ledger.Records.{Kind, Record, Blob, Metadata, Identity, IdempotencyRecord}
use infra_artifact_ledger.Requests.{AppendBody, Body, Request}
use infra_artifact_ledger.Store.Tables.{
  Db, Stored, RecordRow, RefRow, StoredPayload, PayloadRow, OperationRow, StoredOperation,
  operation_text, blob_class, other_class, record_text,
}
use infra_artifact_ledger.Store.Exec.{Exec, rejected}
use infra_artifact_ledger.Store.Operations
use infra_artifact_ledger.Store.Operations.{
  decoded_row, fetch_record, decoded_operation, fetch_operation, bounded_bytes, present_bytes,
  fetch_payload, each,
}
use infra_artifact_ledger.Store.Triples.{Reads, Reads-bind, Reads-pure, Reads-raise, read_rules}
use infra_artifact_ledger.Service.Indexes.{
  integrity, ensure, metadata, row_of_kind, find_record, read_payload, verify_indexes,
  compare_indexes,
}
use infra_artifact_ledger.Service.Plans
use infra_artifact_ledger.Service.Plans.{
  Payload, Plan, gather, stored_or_given, gather_blob, gather_one, import_blob, import_one, append,
  import,
}
use infra_artifact_ledger.Service.Replay
use infra_artifact_ledger.Service.Replay.{
  reject, version_refs, require_record, require_operation, replayed_refs, replayed_blob,
  replay_payload, check_replay,
}
use infra_artifact_ledger.Service.Execute.{Prepared, previous_of, plan_body, plan_of}

module _ {d0 d : Db} where
  pub integrity-Reads : {A : Type 0} → Reads d0 d (integrity {A = A})
  unfolding integrity
  integrity-Reads = search read_rules

  pub ensure-Reads : (b : Bool) → Reads d0 d (ensure b)
  unfolding ensure
  ensure-Reads true = search read_rules
  ensure-Reads false = search read_rules

  decoded_row-Reads : (o : Option RecordRow) → Reads d0 d (decoded_row o)
  unfolding decoded_row
  decoded_row-Reads none = search read_rules
  decoded_row-Reads (some r) = by_content r r.content
    where
      by_content :
          (r : RecordRow) (s : Stored) → Reads d0 d (decoded_row (some (record r { content = s })))
      by_content r Stored.garbage = search read_rules
      by_content r (Stored.misshapen _) = search read_rules
      by_content r (record_text t) = search read_rules

  decoded_operation-Reads : (o : Option OperationRow) → Reads d0 d (decoded_operation o)
  unfolding decoded_operation
  decoded_operation-Reads none = search read_rules
  decoded_operation-Reads (some o) = by_content o o.content
    where
      by_content :
          (r : OperationRow) (s : StoredOperation)
          → Reads d0 d (decoded_operation (some (record r { content = s })))
      by_content r StoredOperation.garbage = search read_rules
      by_content r (StoredOperation.misshapen _) = search read_rules
      by_content r (operation_text t) = search read_rules

  fetch_record-Reads : (i : Text) → Reads d0 d (fetch_record i)
  unfolding fetch_record
  fetch_record-Reads i = search (read_rules, decoded_row-Reads)

  pub fetch_operation-Reads : (i : Identity) → Reads d0 d (fetch_operation i)
  unfolding fetch_operation
  fetch_operation-Reads i = search (read_rules, decoded_operation-Reads)

  pub store_metadata-Reads : Reads d0 d Operations.metadata
  unfolding Operations.metadata
  store_metadata-Reads = search read_rules

  bounded_bytes-Reads : (n : ℕ) (p : StoredPayload) → Reads d0 d (bounded_bytes n p)
  unfolding bounded_bytes
  bounded_bytes-Reads n other_class = search read_rules
  bounded_bytes-Reads n (blob_class raw) = search read_rules

  present_bytes-Reads : (n : ℕ) (o : Option PayloadRow) → Reads d0 d (present_bytes n o)
  unfolding present_bytes
  present_bytes-Reads n none = search read_rules
  present_bytes-Reads n (some p) = bounded_bytes-Reads n p.content

  pub fetch_payload-Reads : (i : Text) (n : ℕ) → Reads d0 d (fetch_payload i n)
  unfolding fetch_payload
  fetch_payload-Reads i n = search (read_rules, present_bytes-Reads)

  compare_indexes-Reads :
      (more : Option (List RefRow)) (blobs : List Text) (m : Metadata)
      → Reads d0 d (compare_indexes more blobs m)
  unfolding compare_indexes
  compare_indexes-Reads more blobs m = search (read_rules, ensure-Reads) depth 12

  pub verify_indexes-Reads : (m : Metadata) → Reads d0 d (verify_indexes m)
  unfolding verify_indexes
  verify_indexes-Reads m = compare_indexes-Reads (some []) [] m

  gather-Reads :
      {A : Type 0} (step : A → Exec (List Payload))
      → ((a : A) → Reads d0 d (step a))
      → (xs : List A) → Reads d0 d (gather step xs)
  unfolding gather
  gather-Reads step k [] = Reads-pure []
  gather-Reads step k (x ∷ xs) = Reads-bind (step x) _ (k x) λ here.
      Reads-bind (gather step xs) _ (gather-Reads step k xs) λ rest. Reads-pure (here ++ rest)

  reject-Reads : {A : Type 0} (r : Result A) → Reads d0 d (reject r)
  unfolding reject
  reject-Reads (ok a) = Reads-pure a
  reject-Reads (err c) = Reads-raise (rejected c)

  version_refs-Reads : (m : Metadata) (r : Record) → Reads d0 d (version_refs m r)
  unfolding version_refs
  version_refs-Reads m (Record.version v) = search read_rules
  version_refs-Reads m _ = search integrity-Reads

  module _ (sha256 : Bytes → Text) where
    pub metadata-Reads : Reads d0 d (metadata sha256)
    unfolding metadata
    metadata-Reads = search (read_rules, store_metadata-Reads)

    row_of_kind-Reads :
        (k : Kind) (i : Text) (o : Option RecordRow) → Reads d0 d (row_of_kind sha256 k i o)
    unfolding row_of_kind
    row_of_kind-Reads k i none = search read_rules
    row_of_kind-Reads k i (some r) = search read_rules

    pub find_record-Reads : (k : Kind) (i : Text) → Reads d0 d (find_record sha256 k i)
    unfolding find_record
    find_record-Reads k i = search (read_rules, fetch_record-Reads, row_of_kind-Reads)

    pub read_payload-Reads : (b : Blob) → Reads d0 d (read_payload sha256 b)
    unfolding read_payload
    read_payload-Reads b = search (read_rules, fetch_payload-Reads)

    given-Reads : (b : Blob) (o : Option Bytes) → Reads d0 d (Plans.check_given sha256 b o)
    unfolding Plans.check_given
    given-Reads b none = search read_rules
    given-Reads b (some raw) = search read_rules

    stored_or_given-Reads :
        (t : Bool) (b : Blob) (o : Option Bytes) → Reads d0 d (stored_or_given sha256 t b o)
    unfolding stored_or_given
    stored_or_given-Reads true b o = search (read_rules, read_payload-Reads)
    stored_or_given-Reads false b none = search read_rules
    stored_or_given-Reads false b (some raw) = search read_rules

    gather_blob-Reads :
        (m : Metadata) (ps : List Payload) (o : Option Blob)
        → Reads d0 d (gather_blob sha256 m ps o)
    unfolding gather_blob
    gather_blob-Reads m ps none = search read_rules
    gather_blob-Reads m ps (some b) = search (read_rules, given-Reads, stored_or_given-Reads)

    gather_one-Reads :
        (m n : Metadata) (ps : List Payload) (i : Text) → Reads d0 d (gather_one sha256 m n ps i)
    unfolding gather_one
    gather_one-Reads m n ps i = search gather_blob-Reads

    import_blob-Reads : (p : Payload) (o : Option Record) → Reads d0 d (import_blob sha256 p o)
    unfolding import_blob
    import_blob-Reads p none = search read_rules
    import_blob-Reads p (some (Record.blob b)) =
        search (read_rules, read_payload-Reads, ensure-Reads)
    import_blob-Reads p (some _) = search integrity-Reads

    import_one-Reads : (m : Metadata) (p : Payload) → Reads d0 d (import_one sha256 m p)
    unfolding import_one
    import_one-Reads m p = search import_blob-Reads

    append-Reads :
        (b : AppendBody) (m : Metadata) (ps : List Payload) (now : Text)
        → Reads d0 d (append sha256 b m ps now)
    unfolding append
    append-Reads b m ps now = search (read_rules, gather-Reads, gather_one-Reads) depth 24

    import-Reads :
        (i : Text) (own : Identity) (m n : Metadata) (ps : List Payload) (now : Text)
        → Reads d0 d (import sha256 i own m n ps now)
    unfolding import
    import-Reads i own m n ps now = search (read_rules, gather-Reads, import_one-Reads) depth 24

    ruleset replay_rules = (read_rules, ensure-Reads, find_record-Reads, reject-Reads)

    require_record-Reads : (t : Bool) (r : Record) → Reads d0 d (require_record sha256 t r)
    unfolding require_record
    require_record-Reads t r = search replay_rules

    require_operation-Reads : (r : IdempotencyRecord) → Reads d0 d (require_operation sha256 r)
    unfolding require_operation
    require_operation-Reads r = search (replay_rules, fetch_operation-Reads)

    replayed_refs-Reads :
        (b : Body) (m n : Metadata) (p : IdempotencyRecord) (r : Record)
        → Reads d0 d (replayed_refs sha256 b m n p r)
    unfolding replayed_refs
    replayed_refs-Reads (Body.create_artifact a) m n p r =
        search (replay_rules, require_record-Reads) depth 12
    replayed_refs-Reads (Body.append_version b) m n p r =
        search (replay_rules, require_record-Reads, version_refs-Reads) depth 12
    replayed_refs-Reads (Body.import_bundle i) m n p r =
        search (replay_rules, require_record-Reads, require_operation-Reads) depth 14

    replay_given-Reads : (b : Blob) (o : Option Bytes) → Reads d0 d (Replay.check_given sha256 b o)
    unfolding Replay.check_given
    replay_given-Reads b none = search read_rules
    replay_given-Reads b (some raw) = search replay_rules

    replayed_blob-Reads : (ps : List Payload) (r : Record) → Reads d0 d (replayed_blob sha256 ps r)
    unfolding replayed_blob
    replayed_blob-Reads ps (Record.blob b) =
        search (read_rules, replay_given-Reads, read_payload-Reads)
    replayed_blob-Reads ps _ = search integrity-Reads

    replay_payload-Reads : (ps : List Payload) (i : Text) → Reads d0 d (replay_payload sha256 ps i)
    unfolding replay_payload
    replay_payload-Reads ps i = search (read_rules, find_record-Reads, replayed_blob-Reads)

    pub check_replay-Reads :
        (q : Request) (m : Metadata) (ps : List Payload) (r : IdempotencyRecord)
        → Reads d0 d (check_replay sha256 q m ps r)
    unfolding check_replay
    check_replay-Reads q m ps r =
        search
          (
            replay_rules, metadata-Reads, verify_indexes-Reads, replayed_refs-Reads,
            replay_payload-Reads,
          )
          depth 20

module _ {d0 d : Db} (sha256 : Bytes → Text)
    (decode_bundle : Bytes → Bytes → Result (Metadata × List Payload)) where
  pub previous_of-Reads :
      (p : Prepared) (o : Option OperationRow) → Reads d0 d (previous_of sha256 decode_bundle p o)
  unfolding previous_of
  previous_of-Reads p none = search read_rules
  previous_of-Reads p (some row) = search read_rules

  plan_body-Reads :
      (b : Body) (p : Prepared) (m : Metadata) (now : Text)
      → Reads d0 d (plan_body sha256 decode_bundle b p m now)
  unfolding plan_body
  plan_body-Reads (Body.create_artifact a) p m now = search read_rules
  plan_body-Reads (Body.append_version b) p m now = search append-Reads
  plan_body-Reads (Body.import_bundle i) p m now = search import-Reads

  pub plan_of-Reads :
      (p : Prepared) (m : Metadata) (now : Text) → Reads d0 d (plan_of sha256 decode_bundle p m now)
  unfolding plan_of
  plan_of-Reads p m now = plan_body-Reads p.request.body p m now
