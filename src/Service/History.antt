-- ===== src/Service/History.antt =====
-- Consequences for the file over calls: an identity is bound once, and no stored row changes.
use infra_artifact_ledger.Prelude.{
  ◌≡◌, refl, sym, ◌∙◌, subst, inl, inr, Bool, true, false, List, [], ◌∷◌, ◌++◌, Option, some, none,
  arith, find, ◌==◌, if◌then◌else◌,
}
use infra_artifact_ledger.Text.{Text, Bytes, text_eq}
use infra_artifact_ledger.Errors.{Code, CommitState, Result, ok, err}
use infra_artifact_ledger.Records.{Identity, IdempotencyRecord, Metadata, identity_eq}
use infra_artifact_ledger.Requests.{Request, identity_of}
use infra_artifact_ledger.Store.Tables.{Db, RecordRow, OperationRow}
use infra_artifact_ledger.Store.Exec.{World, Outcome, returns, raises, Exn, rejected, interrupt}
use infra_artifact_ledger.Store.Statements.{rollback}
use infra_artifact_ledger.Store.Triples.{Post, Working, Untouched, Holds-bind}
use infra_artifact_ledger.Service.Failures.{CommittedDetails, public, passed_on, ledger_error}
use infra_artifact_ledger.Service.Plans.{Payload, Plan}
use infra_artifact_ledger.Service.Execute.{
  Transport, Success, Reply, committed, failed, Prepared, abort, abort_in, after_rollback,
  confirmed, abort_replay, replay, finish_replay, finish_open, run, run_in, open_transaction,
  prepare, execute, execute_prepared,
}
use infra_artifact_ledger.Service.Reading.{check_replay-Reads}
use infra_artifact_ledger.Service.Staging.{staged}
use infra_artifact_ledger.Service.Honesty.{execute-Honest, prepare-request}
use infra_artifact_ledger.Service.Honesty.Meaning.{Landed, Bound, Honest, Computed}
use infra_artifact_ledger.Service.Honesty.Handlers.{durable-rollback, durable-clean_up}
use infra_artifact_ledger.Service.Honesty.Phases.{
  Idle, Looked, rollback-Holds, open_transaction-Holds,
}

module _ {A : Type 0} (p : A → Bool) where
  find-append : (xs ys : List A) (a : A) → find p xs ≡ some a → find p (xs ++ ys) ≡ some a
  find-append [] ys a h = cc
  find-append (x ∷ xs) ys a h = ground (arith, find-append xs ys a)

  find-append_none : (xs ys : List A) → find p xs ≡ none → find p (xs ++ ys) ≡ find p ys
  find-append_none [] ys h = refl
  find-append_none (x ∷ xs) ys h = ground (arith, find-append_none xs ys)

-- The row of a record id, or of an operation's identity, in a file.
abbrev pub stored_record : Text → Db → Option RecordRow
stored_record i d = find (λ (r : RecordRow). r.id == i) d.records

abbrev pub stored_operation : Identity → Db → Option OperationRow
stored_operation i d = find (λ (o : OperationRow). o.identity == i) d.operations

-- What was stored in `d` is stored the same in `e`.
pub record Extends (d e : Db) : Type 0 where
  pub records : (i : Text) (r : RecordRow) → stored_record i d ≡ some r → stored_record i e ≡ some r
  pub operations :
      (i : Identity) (o : OperationRow)
      → stored_operation i d ≡ some o
      → stored_operation i e ≡ some o

Extends-refl : (d : Db) → Extends d d
Extends-refl d = record { records = λ i r h. h; operations = λ i o h. h }

staged-Extends : (plan : Plan) (r : IdempotencyRecord) (d : Db) → Extends d (staged plan r d)
staged-Extends plan r d = record {
  records = λ i row h. find-append _ d.records _ row h;
  operations = λ i o h. find-append _ (d.operations ++ _) _ o (find-append _ d.operations _ o h);
}

module _ {fits : Plan → IdempotencyRecord → Type 0} where
  Landed-Extends : {d : Db} (w : World) → Landed fits d w → Extends d w.durable
  Landed-Extends {d} w (inl same) = subst (Extends d) (sym same) (Extends-refl d)
  Landed-Extends {d} w (inr (plan, r, _, more)) =
      subst (Extends d) (sym more) (staged-Extends plan r d)

  Honest-Landed :
      (i : Identity) {d : Db} (r : Reply) (w : World) → Honest fits i d (r, w) → Landed fits d w
  Honest-Landed i (committed s) w h = by_flag s.replayed s.operation w h
    where
      by_flag :
          {d : Db} (b : Bool) (r : IdempotencyRecord) (w : World)
          → Honest fits i d (committed (record { operation = r; replayed = b }), w)
          → Landed fits d w
      by_flag true r w h = inl h.0
      by_flag false r w h = let (plan, fit, q) = h.3 in inr (plan, r, fit, q)
  Honest-Landed i (failed (public e)) w h = by_state e.commit_state e.code e.details w h
    where
      by_state :
          {d : Db} (c : CommitState) (k : Code) (o : Option CommittedDetails) (w : World)
          → Honest fits i d
              (failed (public (record { code = k; commit_state = c; details = o })), w)
          → Landed fits d w
      by_state CommitState.not_committed k o w h = inl h.0
      by_state CommitState.unknown k o w h = h
      by_state CommitState.committed k o w h = inl h.0
      by_state CommitState.not_applicable k o w h = absurd h
  Honest-Landed i (failed (passed_on e)) w h = h

module _ (sha256 : Bytes → Text)
    (decode_bundle : Bytes → Bytes → Result (Metadata × List Payload)) where
  -- On a connection with no open transaction, whatever the reply and the faults, a record or an
  -- operation that was stored before the call is stored the same after it.
  pub execute-Extends :
      (request : Request) (transport : Transport) (now : Text) (w : World)
      → w.active ≡ none
      → Extends w.durable (execute sha256 decode_bundle (ok request) transport now w).1.durable
  execute-Extends request transport now w h =
      let r = execute sha256 decode_bundle (ok request) transport now w in
      Landed-Extends r.1 (
        Honest-Landed (identity_of request) r.0 r.1 (
          execute-Honest sha256 decode_bundle w.durable request transport now w
            (record { durable = refl; active = h })))

  -- On a connection with no open transaction, after a success, fresh or replayed, the file binds the
  -- request's identity to the operation that the reply names.
  pub execute-Bound :
      (request : Request) (transport : Transport) (now : Text) (w : World) (s : Success)
      → w.active ≡ none
      → (execute sha256 decode_bundle (ok request) transport now w).0 ≡ committed s
      → Bound
          (identity_of request)
          s.operation
          (execute sha256 decode_bundle (ok request) transport now w).1.durable
  execute-Bound request transport now w s h e = success s.replayed s.operation _ (
      subst
        (λ r.
          Honest
            (Computed sha256 decode_bundle (prepare sha256 decode_bundle (ok request) transport) now
              w.durable)
            (identity_of request) w.durable
            (r, (execute sha256 decode_bundle (ok request) transport now w).1))
        e
        (execute-Honest sha256 decode_bundle w.durable request transport now w
          (record { durable = refl; active = h })))
    where
      success :
          (b : Bool) (r : IdempotencyRecord) (v : World)
          → Honest
              (Computed sha256 decode_bundle
                (prepare sha256 decode_bundle (ok request) transport)
                now
                w.durable)
              (identity_of request)
              w.durable
              (committed (record { operation = r; replayed = b }), v)
          → Bound (identity_of request) r v.durable
      success true r v q = subst (Bound (identity_of request) r) (sym q.0) q.2
      success false r v q = q.2

  durable-after_rollback :
      (e : Exn) (r : Outcome (Unit {0}) × World)
      → (after_rollback sha256 decode_bundle e r).1.durable ≡ r.1.durable
  durable-after_rollback e (raises _, w) = refl
  durable-after_rollback e (returns _, w) = by_active w.active
    where
      by_active : (o : Option Db) → (confirmed sha256 decode_bundle e o w).1.durable ≡ w.durable
      by_active none = refl
      by_active (some d) = refl

  durable-abort_in :
      (o : Option Db) (c : Bool) (e : Exn) (w : World)
      → (abort_in sha256 decode_bundle o c e w).1.durable ≡ w.durable
  durable-abort_in none true e w = refl
  durable-abort_in none false e w = refl
  durable-abort_in (some d) c e w = durable-after_rollback e (rollback w) ∙ durable-rollback w

  durable-abort :
      (c : Bool) (e : Exn) (w : World) → (abort sha256 decode_bundle c e w).1.durable ≡ w.durable
  unfolding abort
  durable-abort c interrupt w = durable-clean_up sha256 decode_bundle w
  durable-abort c _ w = durable-abort_in w.active c _ w

  durable-abort_replay :
      (r : IdempotencyRecord) (e : Exn) (w : World)
      → (abort_replay sha256 decode_bundle r e w).1.durable ≡ w.durable
  unfolding abort_replay
  durable-abort_replay r interrupt w = durable-clean_up sha256 decode_bundle w
  durable-abort_replay r (rejected c) w = durable-abort false (rejected c) w
  durable-abort_replay r _ w = durable-clean_up sha256 decode_bundle w

  module _ (p : Prepared) (d0 : Db) where
    durable-replay :
        (r : IdempotencyRecord) (w : World)
        → Working d0 d0 w
        → (replay sha256 decode_bundle p r w).1.durable ≡ d0
    unfolding replay
    durable-replay r w h = finished _ (
        (Holds-bind _ _ (check_replay-Reads sha256 p.request p.incoming p.supplied r)
            λ _. rollback-Holds).at
          w h)
      where
        finished :
            (o : Outcome (Unit {0}) × World)
            → Post (λ _. Idle d0) (Untouched d0) o
            → (finish_replay sha256 decode_bundle r o).1.durable ≡ d0
        finished (returns _, v) q = q.durable
        finished (raises e, v) q = durable-abort_replay r e v ∙ q.durable

    durable-finish_open :
        (now : Text) (row : OperationRow) (o : Outcome (Option IdempotencyRecord) × World)
        → stored_operation (identity_of p.request) d0 ≡ some row
        → Post (Looked sha256 decode_bundle p d0) (Untouched d0) o
        → (finish_open sha256 decode_bundle p now o).1.durable ≡ d0
    durable-finish_open now row (returns none, v) s (q, new) = cc
    durable-finish_open now row (returns (some r), v) s (q, b) = durable-replay r v q
    durable-finish_open now row (raises e, v) s q = durable-abort false e v ∙ q.durable

    durable-run :
        (now : Text) (row : OperationRow) (w : World)
        → stored_operation (identity_of p.request) d0 ≡ some row
        → Idle d0 w
        → (run sha256 decode_bundle p now w).1.durable ≡ d0
    unfolding run
    durable-run now row w s h =
        subst
          (λ o.
            (run_in sha256 decode_bundle o p now
              (open_transaction sha256 decode_bundle p w)).1.durable
            ≡ d0)
          (sym h.active)
          (durable-finish_open now row _ s
            ((open_transaction-Holds sha256 decode_bundle p d0).at w h))

  -- Once the file binds the request's identity, no call with that identity on a connection with no
  -- open transaction changes the file, whatever the rest of the request and the faults.
  pub execute_once :
      (request : Request) (transport : Transport) (now : Text) (w : World) (row : OperationRow)
      → w.active ≡ none
      → stored_operation (identity_of request) w.durable ≡ some row
      → (execute sha256 decode_bundle (ok request) transport now w).1.durable ≡ w.durable
  unfolding execute
  execute_once request transport now w row h s =
      prepared (prepare sha256 decode_bundle (ok request) transport)
        (prepare-request sha256 decode_bundle w.durable request transport)
    where
      by_closed :
          (p : Prepared) (b : Bool)
          → stored_operation (identity_of p.request) w.durable ≡ some row
          → (if b
              then (failed (ledger_error Code.io_error CommitState.not_committed), w)
              else run sha256 decode_bundle p now w).1.durable
            ≡ w.durable
      by_closed p true t = refl
      by_closed p false t =
          durable-run p w.durable now row w t (record { durable = refl; active = h })

      prepared :
          (r : Result Prepared)
          → ((p : Prepared) → r ≡ ok p → p.request ≡ request)
          → (execute_prepared sha256 decode_bundle r now w).1.durable ≡ w.durable
      prepared (err c) same = refl
      prepared (ok p) same = by_closed p w.closed (rw (same p refl) s)
