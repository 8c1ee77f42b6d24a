-- ===== src/Service/Queries/Untouched.antt =====
-- The read methods leave the file and the connection as they were.
use infra_artifact_ledger.Prelude.{
  ◌≡◌, refl, sym, ◌∙◌, subst, Bool, List, [], ◌∷◌, Option, some, none,
}
use infra_artifact_ledger.Text.{Text, Bytes}
use infra_artifact_ledger.Records.{Blob}
use infra_artifact_ledger.Store.Tables.{Db, OperationRow, StoredOperation, operation_text}
use infra_artifact_ledger.Store.Exec.{World, Exec, Outcome, returns, raises}
use infra_artifact_ledger.Store.Triples.{
  Post, Untouched, Reads, Reads-bind, Reads-pure, Holds-weaken, read_rules,
}
use infra_artifact_ledger.Service.Honesty.Phases.{Idle}
use infra_artifact_ledger.Service.Indexes.{read_payload}
use infra_artifact_ledger.Service.Reading.{
  fetch_operation-Reads, verify_indexes-Reads, metadata-Reads, ensure-Reads, find_record-Reads,
  read_payload-Reads,
}
use infra_artifact_ledger.Service.Reads.{
  Answer, answered, refused, finish_read, in_transaction, read,
}
use infra_artifact_ledger.Service.Reads.Verified.{in_transaction-Holds, durable-close_read}
use infra_artifact_ledger.Service.Queries.{record_of_row, row_present}
use infra_artifact_ledger.Service.Queries.Methods.{
  record_body, history_body, operation_body, export_payloads, export_body, get_record, get_history,
  get_operation, export_bundle,
}

-- The file is as it was, and an answer leaves no transaction open.
abbrev pub Leaves : {A : Type 0} → Db → Answer A × World → Type 0
Leaves d (answered a, w) = (w.durable ≡ d) × (w.active ≡ none)
Leaves d (refused e, w) = w.durable ≡ d

read-Leaves :
    {A : Type 0} (sha256 : Bytes → Text) (body : Exec A) (w : World)
    → w.active ≡ none
    → Reads w.durable w.durable body
    → Leaves w.durable (read body w)
unfolding read
read-Leaves {A} sha256 body w h k =
    subst (λ o. Leaves w.durable (finish_read o (in_transaction body w))) (sym h)
      (answer (in_transaction body w) (
        (in_transaction-Holds sha256 body (Holds-weaken body (λ a v q. (q, tt)) k)).at w
          (record { durable = refl; active = h })))
  where
    answer :
        (r : Outcome A × World)
        → Post (λ a v. Idle w.durable v × Unit {0}) (Untouched w.durable) r
        → Leaves w.durable (finish_read none r)
    answer (returns a, v) q = (q.0.durable, q.0.active)
    answer (raises e, v) q = durable-close_read sha256 v.active v ∙ q.durable

module _ {d0 d : Db} where
  record_of_row-Reads : (s : StoredOperation) → Reads d0 d (record_of_row s)
  record_of_row-Reads StoredOperation.garbage = search read_rules
  record_of_row-Reads (StoredOperation.misshapen _) = search read_rules
  record_of_row-Reads (operation_text r) = search read_rules

  row_present-Reads : (o : Option OperationRow) → Reads d0 d (row_present o)
  row_present-Reads none = search read_rules
  row_present-Reads (some r) = search read_rules

  ruleset query_rules = (
    read_rules, find_record-Reads, metadata-Reads, verify_indexes-Reads, read_payload-Reads,
    fetch_operation-Reads, ensure-Reads, row_present-Reads, record_of_row-Reads,
  )

  module _ (sha256 : Bytes → Text) (finite : Text → Bool) where
    record_body-Reads : (kind i : Text) → Reads d0 d (record_body sha256 finite kind i)
    unfolding record_body
    record_body-Reads kind i = search query_rules depth 24

    history_body-Reads : (i : Text) → Reads d0 d (history_body sha256 finite i)
    unfolding history_body
    history_body-Reads i = search query_rules depth 24

    operation_body-Reads :
        (scope kind key : Text) → Reads d0 d (operation_body sha256 finite scope kind key)
    unfolding operation_body
    operation_body-Reads scope kind key = search query_rules depth 32

    export_payloads-Reads : (bs : List Blob) → Reads d0 d (export_payloads sha256 finite bs)
    unfolding export_payloads
    export_payloads-Reads [] = search read_rules
    export_payloads-Reads (b ∷ bs) =
        Reads-bind (read_payload sha256 b) _ (read_payload-Reads sha256 b) λ raw.
          Reads-bind (export_payloads sha256 finite bs) _ (export_payloads-Reads bs)
            λ rest. Reads-pure ((b.blob_ref, raw) ∷ rest)

    export_body-Reads : Reads d0 d (export_body sha256 finite)
    unfolding export_body
    export_body-Reads = search (query_rules, export_payloads-Reads) depth 32

module _ (sha256 : Bytes → Text) (finite : Text → Bool) (w : World) (idle : w.active ≡ none) where
  -- On a connection with no open transaction, under every sequence of faults: `get_record`,
  -- `get_history`, `get_operation` and `export_bundle` leave the file as it was, and none that answers
  -- leaves a transaction open.
  pub queries-Leaves :
      (kind id scope key : Text)
      → Leaves w.durable (get_record sha256 finite kind id w)
        × Leaves w.durable (get_history sha256 finite id w)
        × Leaves w.durable (get_operation sha256 finite scope kind key w)
        × Leaves w.durable (export_bundle sha256 finite w)
  unfolding get_record get_history get_operation export_bundle
  queries-Leaves kind id scope key = (
    read-Leaves sha256 _ w idle (record_body-Reads sha256 finite kind id),
    read-Leaves sha256 _ w idle (history_body-Reads sha256 finite id),
    read-Leaves sha256 _ w idle (operation_body-Reads sha256 finite scope kind key),
    read-Leaves sha256 _ w idle (export_body-Reads sha256 finite),
  )
