-- ===== src/Service/Honesty/Phases.antt =====
-- The phases of `execute`: the lookup, the staging and the commit, each with what it leaves.
use infra_artifact_ledger.Prelude.{
  ◌≡◌, refl, sym, ap, ◌⊎◌, inl, inr, List, [], ◌∷◌, Option, some, none, arith, find, ◌==◌, ==-refl,
  ◌++◌, map,
}
use infra_artifact_ledger.Text.{Text, Bytes}
use infra_artifact_ledger.Errors.{Result, ok, err}
use infra_artifact_ledger.Records.{IdempotencyRecord, Metadata, identity_eq}
use infra_artifact_ledger.Requests.{identity_of}
use infra_artifact_ledger.Store.Tables.{
  Db, OperationRow, StoredOperation, operation_text, operation_row,
}
use infra_artifact_ledger.Store.Exec.{
  World, Fault, returns, runs, fails, late, ends, next_fault, later_faults, pure, raise, lift,
  ◌>>=◌,
}
use infra_artifact_ledger.Store.Statements.{
  commit, rollback, begin, query, read_on, begin_on, commit_on, rollback_on,
}
use infra_artifact_ledger.Store.Operations.{decoded_operation, fetch_operation}
use infra_artifact_ledger.Store.Triples.{
  Post, Holds, Working, Untouched, Holds-bind, Holds-given, Holds-ran, Holds-from,
}
use infra_artifact_ledger.Service.Indexes.{metadata}
use infra_artifact_ledger.Service.Plans.{Payload, Plan}
use infra_artifact_ledger.Service.Execute.{
  Prepared, match_previous, previous_of, open_transaction, stage, plan_of, operation_of,
}
use infra_artifact_ledger.Service.Reading.{metadata-Reads, verify_indexes-Reads, plan_of-Reads}
use infra_artifact_ledger.Service.Staging.{staged, IsFree, store_plan-Holds}
use infra_artifact_ledger.Service.Honesty.Meaning.{Bound, Unbound, Planned}

-- No transaction is open over the file `d0`.
pub record Idle (d0 : Db) (w : World) : Type 0 where
  pub durable : w.durable ≡ d0
  pub active : w.active ≡ none

module _ {d0 : Db} where
  pub begin-Holds : Holds (Idle d0) (λ _. Working d0 d0) (Untouched d0) begin
  unfolding begin
  begin-Holds = record { at = λ w h. go (next_fault w.faults) w h }
    where
      go :
          (t : Fault) (w : World)
          → Idle d0 w
          → Post
              (λ _. Working d0 d0)
              (Untouched d0)
              (begin_on t (record w { faults = later_faults w.faults }))
      go runs w h = rw h.active (record { durable = h.durable; active = ap some h.durable })
      go (fails e) w h = record { durable = h.durable }
      go (late e) w h = rw h.active (record { durable = h.durable })
      go (ends e) w h = record { durable = h.durable }

  pub rollback-Holds : {d : Db} → Holds (Working d0 d) (λ _. Idle d0) (Untouched d0) rollback
  unfolding rollback
  rollback-Holds {d} = record { at = λ w h. go (next_fault w.faults) w h }
    where
      go :
          (t : Fault) (w : World)
          → Working d0 d w
          → Post
              (λ _. Idle d0)
              (Untouched d0)
              (rollback_on t (record w { faults = later_faults w.faults }))
      go runs w h = rw h.active (record { durable = h.durable; active = refl })
      go (fails e) w h = record { durable = h.durable }
      go (late e) w h = record { durable = h.durable }
      go (ends e) w h = record { durable = h.durable }

-- After a COMMIT that raised: the file has the view or is as it was, and as it was if the
-- transaction is still open.
pub record CommitFailed (d0 d : Db) (w : World) : Type 0 where
  pub either : (w.durable ≡ d0) ⊎ (w.durable ≡ d)
  pub open_tx : (e : Db) → w.active ≡ some e → w.durable ≡ d0

pub commit-Holds : {d0 d : Db} → Holds (Working d0 d) (λ _. Idle d) (CommitFailed d0 d) commit
unfolding commit
commit-Holds {d0} {d} = record { at = λ w h. go (next_fault w.faults) w h }
  where
    go :
        (t : Fault) (w : World)
        → Working d0 d w
        → Post
            (λ _. Idle d)
            (CommitFailed d0 d)
            (commit_on t (record w { faults = later_faults w.faults }))
    go runs w h = rw h.active (record { durable = refl; active = refl })
    go (fails e) w h = record { either = inl h.durable; open_tx = λ _ _. h.durable }
    go (late e) w h = rw h.active (record { either = inr refl; open_tx = λ e a. cc })
    go (ends e) w h = record { either = inl h.durable; open_tx = λ _ _. h.durable }

-- A query returns what the view holds.
pub query-Holds :
    {A : Type 0} {d0 d : Db} (f : Db → A)
    → Holds (Working d0 d) (λ a w. Working d0 d w × (a ≡ f d)) (Untouched d0) (query f)
unfolding query
query-Holds {A} {d0} {d} f = record { at = λ w h. go (next_fault w.faults) w h }
  where
    go :
        (t : Fault) (w : World)
        → Working d0 d w
        → Post
            (λ a w'. Working d0 d w' × (a ≡ f d))
            (Untouched d0)
            (read_on f t (record w { faults = later_faults w.faults }))
    go runs w h = rw h.active (record { durable = h.durable; active = refl }, refl)
    go (fails e) w h = record { durable = h.durable }
    go (late e) w h = record { durable = h.durable }
    go (ends e) w h = record { durable = h.durable }

find-append_free :
    (r : IdempotencyRecord) (os : List OperationRow)
    → IsFree r.identity os
    → find (λ (o : OperationRow). o.identity == r.identity) (os ++ operation_row r ∷ [])
      ≡ some (operation_row r)
find-append_free r [] h = rw (==-refl r.identity)
find-append_free r (o ∷ os) h = ground (arith, find-append_free r os)

-- What the lookup returns is bound to the request's identity in the file.
abbrev pub Known : Prepared → Db → Option IdempotencyRecord → Type 0
Known p d none = Unbound (identity_of p.request) d
Known p d (some r) = Bound (identity_of p.request) r d

module _ (sha256 : Bytes → Text) (decode_bundle : Bytes → Bytes → Result (Metadata × List Payload))
    (p : Prepared) where
  match_previous-content :
      (row : OperationRow) (r : IdempotencyRecord)
      → match_previous sha256 decode_bundle p row ≡ ok r
      → row.content ≡ operation_text r
  unfolding match_previous
  match_previous-content row r h = ground arith

  module _ (d0 : Db) where
    abbrev pub Looked : Option IdempotencyRecord → World → Type 0
    Looked r w = Working d0 d0 w × Known p d0 r

    match_previous-Holds :
        (row : OperationRow) (m : Result IdempotencyRecord)
        → find (λ (x : OperationRow). x.identity == identity_of p.request) d0.operations ≡ some row
        → match_previous sha256 decode_bundle p row ≡ m
        → Holds (Working d0 d0) Looked (Untouched d0) (lift m >>= λ previous. pure (some previous))
    unfolding ◌>>=◌
    match_previous-Holds row (ok r) e q = record {
      at = λ w h. (h, (row, e, match_previous-content row r q));
    }
    match_previous-Holds row (err c) e q = record { at = λ w h. record { durable = h.durable } }

    previous_of-Holds :
        (o : Option OperationRow)
        → o ≡ find (λ (x : OperationRow). x.identity == identity_of p.request) d0.operations
        → Holds (Working d0 d0) Looked (Untouched d0) (previous_of sha256 decode_bundle p o)
    unfolding previous_of pure
    previous_of-Holds none e = record { at = λ w h. (h, sym e) }
    previous_of-Holds (some row) e = match_previous-Holds row _ (sym e) refl

    decoded_operation-Holds :
        (o : Option OperationRow)
        → Holds
            (Working d0 d0)
            (λ r w. Working d0 d0 w × (r ≡ o))
            (Untouched d0)
            (decoded_operation o)
    unfolding decoded_operation pure raise
    decoded_operation-Holds none = record { at = λ w h. (h, refl) }
    decoded_operation-Holds (some row) = record { at = λ w h. by_content row.content w h }
      where
        by_content :
            (s : StoredOperation) (w : World)
            → Working d0 d0 w
            → Post
                (λ r v. Working d0 d0 v × (r ≡ some (record row { content = s })))
                (Untouched d0)
                (decoded_operation (some (record row { content = s })) w)
        by_content StoredOperation.garbage w h = record { durable = h.durable }
        by_content (StoredOperation.misshapen _) w h = (h, refl)
        by_content (operation_text t) w h = (h, refl)

    -- BEGIN and the lookup of the identity, from a connection with no open transaction.
    pub open_transaction-Holds :
        Holds (Idle d0) Looked (Untouched d0) (open_transaction sha256 decode_bundle p)
    unfolding open_transaction fetch_operation
    open_transaction-Holds = Holds-bind _ _ begin-Holds λ _.
        Holds-bind _ _
          (Holds-bind _ _ (query-Holds _)
            λ found. Holds-given _ λ e. rw (← e) (decoded_operation-Holds found))
          λ found. Holds-given _ λ e. previous_of-Holds found e

    -- The view is the file and the rows of the request's plan and operation.
    abbrev pub Staged : Text → IdempotencyRecord → World → Type 0
    Staged now r w =
        (plan : Plan) × Working d0 (staged plan r d0) w
        × Bound (identity_of p.request) r (staged plan r d0)
        × Planned sha256 decode_bundle p now d0 plan
        × (r ≡ operation_of sha256 decode_bundle p plan now)

    staged-Bound :
        (plan : Plan) (r : IdempotencyRecord)
        → IsFree r.identity (d0.operations ++ map operation_row plan.history)
        → Bound r.identity r (staged plan r d0)
    staged-Bound plan r free = (operation_row r, find-append_free r _ free, refl)

    planned :
        (now : Text) (plan : Plan) (current : Metadata) (v w v' w' : World)
        → Working d0 d0 v
        → metadata sha256 v ≡ (returns current, w)
        → Working d0 d0 v'
        → plan_of sha256 decode_bundle p current now v' ≡ (returns plan, w')
        → Planned sha256 decode_bundle p now d0 plan
    planned now plan current v w v' w' h e h' e' = record {
      current = current;
      read_from = v;
      read_to = w;
      reading = h;
      current_read = e;
      plan_from = v';
      plan_to = w';
      planning = h';
      plan_made = e';
    }

    -- A fresh operation up to the commit: the view is the file and the rows of the whole plan that
    -- is computed from it.
    pub stage-Holds :
        (now : Text)
        → Holds (Working d0 d0) (Staged now) (Untouched d0) (stage sha256 decode_bundle p now)
    unfolding stage pure
    stage-Holds now = Holds-bind _ _ (Holds-ran _ (metadata-Reads sha256)) λ current.
        Holds-from _ λ read_to (v, h, e). Holds-bind _ _ (verify_indexes-Reads current) λ _.
          Holds-bind _ _ (Holds-ran _ (plan_of-Reads sha256 decode_bundle p current now)) λ plan.
            Holds-from _ λ plan_to (v', h', e').
              Holds-bind _ _
                (store_plan-Holds sha256 decode_bundle plan
                  (operation_of sha256 decode_bundle p plan now))
                λ _. record {
                  at = λ w q. (
                    plan,
                    q.0,
                    staged-Bound plan _ q.1,
                    planned now plan current v read_to v' plan_to h e h' e',
                    refl,
                  );
                }
