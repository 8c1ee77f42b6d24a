-- ===== src/Service/Honesty.antt =====
-- What `execute` says of the commit, against what is on disk.
pub mod Meaning
pub mod Handlers
pub mod Phases
use infra_artifact_ledger.Prelude.{
  ◌≡◌, refl, sym, subst, arith, inl, inr, Bool, true, false, List, Option, some, none,
  if◌then◌else◌, ◌⊎◌,
}
use infra_artifact_ledger.Text.{Text, Bytes}
use infra_artifact_ledger.Errors.{Code, CommitState, Result, ok, err}
use infra_artifact_ledger.Records.{Identity, IdempotencyRecord, Metadata}
use infra_artifact_ledger.Requests.{Request, identity_of}
use infra_artifact_ledger.Store.Tables.{Db}
use infra_artifact_ledger.Store.Exec.{World, Outcome, returns, raises, Exn, ◌>>=◌, ◌>>◌}
use infra_artifact_ledger.Store.Statements.{commit, rollback}
use infra_artifact_ledger.Store.Triples.{Post, Holds, Working, Untouched, Holds-bind}
use infra_artifact_ledger.Service.Plans.{Payload, Plan}
use infra_artifact_ledger.Service.Execute.{
  Transport, Reply, committed, failed, Prepared, replay, perform, run, finish_replay, finish_commit,
  finish_stage, finish_open, run_in, open_transaction, stage, prepare, execute, execute_prepared,
}
use infra_artifact_ledger.Service.Failures.{ledger_error}
use infra_artifact_ledger.Service.Reading.{check_replay-Reads}
use infra_artifact_ledger.Service.Staging.{staged}
use Meaning.{Bound, Unbound, Landed, Honest, Computed}
use Handlers.{Interrupted, Interrupted-Untouched, Honest-abort, Honest-abort_replay}
use Phases.{
  Idle, Known, Looked, Staged, CommitFailed, rollback-Holds, commit-Holds, open_transaction-Holds,
  stage-Holds,
}

module _ (sha256 : Bytes → Text) (decode_bundle : Bytes → Bytes → Result (Metadata × List Payload))
    (d0 : Db) where
  module _ (p : Prepared) (now : Text) where
    -- The plan and the record of this call.
    abbrev Fits : Plan → IdempotencyRecord → Type 0
    Fits = Computed sha256 decode_bundle (ok p) now d0

    abbrev own : Identity
    own = identity_of p.request

    Honest-replay :
        (r : IdempotencyRecord) (w : World)
        → Bound own r d0
        → Working d0 d0 w
        → Honest Fits own d0 (replay sha256 decode_bundle p r w)
    unfolding replay
    Honest-replay r w b h = finished _ (
        (Holds-bind _ _ (check_replay-Reads sha256 p.request p.incoming p.supplied r)
            λ _. rollback-Holds).at
          w h)
      where
        finished :
            (o : Outcome (Unit {0}) × World)
            → Post (λ _. Idle d0) (Untouched d0) o
            → Honest Fits own d0 (finish_replay sha256 decode_bundle r o)
        finished (returns _, v) q = (q.durable, q.active, b)
        finished (raises e, v) q =
            Honest-abort_replay sha256 decode_bundle Fits own d0 r b e v q.durable

    Honest-finish_commit :
        (r : IdempotencyRecord) (plan : Plan) (o : Outcome (Unit {0}) × World)
        → Unbound own d0
        → Bound own r (staged plan r d0)
        → Fits plan r
        → Post (λ _. Idle (staged plan r d0)) (CommitFailed d0 (staged plan r d0)) o
        → Honest Fits own d0 (finish_commit sha256 decode_bundle r o)
    Honest-finish_commit r plan (returns _, v) new b fit q =
        (q.active, new, subst (Bound own r) (sym q.durable) b, (plan, fit, q.durable))
    Honest-finish_commit r plan (raises e, v) new same fit q =
        Honest-abort sha256 decode_bundle Fits own d0 true e v
          (record { landed = landed q.either; open_tx = q.open_tx; early = λ f. cc })
      where
        landed : (v.durable ≡ d0) ⊎ (v.durable ≡ staged plan r d0) → Landed Fits d0 v
        landed (inl x) = inl x
        landed (inr x) = inr (plan, r, fit, x)

    Honest-perform :
        (w : World)
        → Unbound own d0
        → Working d0 d0 w
        → Honest Fits own d0 (perform sha256 decode_bundle p now w)
    unfolding perform
    Honest-perform w new h = finished _ ((stage-Holds sha256 decode_bundle p d0 now).at w h)
      where
        finished :
            (o : Outcome IdempotencyRecord × World)
            → Post (Staged sha256 decode_bundle p d0 now) (Untouched d0) o
            → Honest Fits own d0 (finish_stage sha256 decode_bundle o)
        finished (returns r, v) (plan, q, same, planned, made) =
            Honest-finish_commit r plan (commit v) new same (p, refl, planned, made)
              (commit-Holds.at v q)
        finished (raises e, v) q =
            Honest-abort sha256 decode_bundle Fits own d0 false e v
              (Interrupted-Untouched sha256 decode_bundle Fits own d0 v q)

    Honest-finish_open :
        (o : Outcome (Option IdempotencyRecord) × World)
        → Post (Looked sha256 decode_bundle p d0) (Untouched d0) o
        → Honest Fits own d0 (finish_open sha256 decode_bundle p now o)
    Honest-finish_open (returns none, v) (q, new) = Honest-perform v new q
    Honest-finish_open (returns (some r), v) (q, b) = Honest-replay r v b q
    Honest-finish_open (raises e, v) q =
        Honest-abort sha256 decode_bundle Fits own d0 false e v
          (Interrupted-Untouched sha256 decode_bundle Fits own d0 v q)

    run-Honest : (w : World) → Idle d0 w → Honest Fits own d0 (run sha256 decode_bundle p now w)
    unfolding run
    run-Honest w h =
        subst
          (λ o.
            Honest Fits own d0
              (run_in sha256 decode_bundle o p now (open_transaction sha256 decode_bundle p w)))
          (sym h.active)
          (Honest-finish_open _ ((open_transaction-Holds sha256 decode_bundle p d0).at w h))

  pub prepare-request :
      (request : Request) (transport : Transport) (p : Prepared)
      → prepare sha256 decode_bundle (ok request) transport ≡ ok p
      → p.request ≡ request
  unfolding prepare
  prepare-request request transport p h = ground arith

  Honest-prepared :
      (request : Request) (r : Result Prepared) (now : Text) (w : World)
      → ((p : Prepared) → r ≡ ok p → p.request ≡ request)
      → Idle d0 w
      → Honest
          (Computed sha256 decode_bundle r now d0)
          (identity_of request)
          d0
          (execute_prepared sha256 decode_bundle r now w)
  Honest-prepared request (err c) now w same h = (h.durable, h.active)
  Honest-prepared request (ok p) now w same h = by_closed w.closed
    where
      by_closed :
          (b : Bool)
          → Honest (Fits p now) (identity_of request) d0 (
              if b
              then (failed (ledger_error Code.io_error CommitState.not_committed), w)
              else run sha256 decode_bundle p now w)
      by_closed true = (h.durable, h.active)
      by_closed false =
          subst (λ q. Honest (Fits p now) (identity_of q) d0 (run sha256 decode_bundle p now w))
            (same p refl) (run-Honest p now w h)

  -- For a parsed request on a connection with no open transaction over the file `d0`, whatever
  -- faults the statements meet. The plan of the call is the one that is computed from the metadata
  -- in `d0`, for the request as `prepare` leaves it, and the call's record is the one made of it. A
  -- fresh success means that the file is `d0` with all rows of the call's plan and the row of its
  -- record, and nothing else changed, that the identity was free in `d0`, and that it is bound to
  -- the record of the reply, which is the call's; a replayed success, or a failure that says
  -- committed, means that the file is `d0` and a success is bound in it to the request's identity; a
  -- failure that says not committed means that the file is `d0` and no transaction is open; after an
  -- unknown state or a passed-on exception the file is `d0`, or `d0` with all rows of the call's
  -- plan and record.
  pub execute-Honest :
      (request : Request) (transport : Transport) (now : Text) (w : World)
      → Idle d0 w
      → Honest
          (Computed sha256 decode_bundle
            (prepare sha256 decode_bundle (ok request) transport)
            now
            d0)
          (identity_of request)
          d0
          (execute sha256 decode_bundle (ok request) transport now w)
  unfolding execute
  execute-Honest request transport now w h =
      Honest-prepared request _ now w (prepare-request request transport) h
