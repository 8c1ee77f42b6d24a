-- ===== src/Service/Honesty/Handlers.antt =====
-- The exception handlers of `execute`: what they report is true of the file.
use infra_artifact_ledger.Prelude.{
  ◌≡◌, refl, sym, ◌∙◌, subst, inl, Bool, true, false, List, Option, some, none, arith,
}
use infra_artifact_ledger.Text.{Text, Bytes}
use infra_artifact_ledger.Errors.{CommitState, Result}
use infra_artifact_ledger.Records.{Identity, IdempotencyRecord, Metadata, identity_eq}
use infra_artifact_ledger.Store.Tables.{Db}
use infra_artifact_ledger.Store.Exec.{
  World, Outcome, returns, raises, Exn, ledger, rejected, sqlite, checkpoint_interrupted, os_error,
  failure, interrupt,
}
use infra_artifact_ledger.Store.Statements.{rollback}
use infra_artifact_ledger.Store.Triples.{Untouched}
use infra_artifact_ledger.Service.Failures.{error}
use infra_artifact_ledger.Service.Plans.{Payload, Plan}
use infra_artifact_ledger.Service.Execute.{
  failed, clean_in, clean_up, abort_replay, abort, abort_in, after_rollback, confirmed,
}
use infra_artifact_ledger.Service.Honesty.Meaning.{Landed, Bound, Honest}

pub durable-rollback : (w : World) → (rollback w).1.durable ≡ w.durable
unfolding rollback
durable-rollback w = ground arith

module _ (sha256 : Bytes → Text)
    (decode_bundle : Bytes → Bytes → Result (Metadata × List Payload)) where
  durable-clean_in :
      (o : Option Db) (w : World) → (clean_in sha256 decode_bundle o w).durable ≡ w.durable
  durable-clean_in none w = refl
  durable-clean_in (some d) w = durable-rollback w

  pub durable-clean_up : (w : World) → (clean_up sha256 decode_bundle w).durable ≡ w.durable
  unfolding clean_up
  durable-clean_up w = durable-clean_in w.active w

module _ (sha256 : Bytes → Text) (decode_bundle : Bytes → Bytes → Result (Metadata × List Payload))
    (fits : Plan → IdempotencyRecord → Type 0) (i : Identity) (d0 : Db) where
  -- What is known when an exception arrives: `committing` tells whether COMMIT was sent.
  pub record Interrupted (committing : Bool) (w : World) : Type 0 where
    pub landed : Landed fits d0 w
    pub open_tx : (d : Db) → w.active ≡ some d → w.durable ≡ d0
    pub early : committing ≡ false → w.durable ≡ d0

  pub Honest-error :
      (e : Exn) (w : World)
      → w.durable ≡ d0
      → w.active ≡ none
      → Honest fits i d0 (failed (error e CommitState.not_committed), w)
  unfolding error
  Honest-error (ledger c) w h a = (h, a)
  Honest-error (rejected c) w h a = (h, a)
  Honest-error (sqlite c) w h a = (h, a)
  Honest-error checkpoint_interrupted w h a = inl h
  Honest-error os_error w h a = (h, a)
  Honest-error failure w h a = (h, a)
  Honest-error interrupt w h a = inl h

  Honest-after_rollback :
      (e : Exn) (r : Outcome (Unit {0}) × World)
      → r.1.durable ≡ d0
      → Honest fits i d0 (after_rollback sha256 decode_bundle e r)
  Honest-after_rollback e (raises _, w) h = inl h
  Honest-after_rollback e (returns _, w) h = by_active w.active refl
    where
      by_active :
          (o : Option Db) → w.active ≡ o → Honest fits i d0 (confirmed sha256 decode_bundle e o w)
      by_active none a = Honest-error e w h a
      by_active (some d) a = inl h

  Honest-abort_in :
      (o : Option Db) (committing : Bool) (e : Exn) (w : World)
      → w.active ≡ o
      → Interrupted committing w
      → Honest fits i d0 (abort_in sha256 decode_bundle o committing e w)
  Honest-abort_in none true e w a h = h.landed
  Honest-abort_in none false e w a h = Honest-error e w (h.early refl) a
  Honest-abort_in (some d) committing e w a h =
      Honest-after_rollback e (rollback w) (durable-rollback w ∙ h.open_tx d a)

  Landed-clean_up :
      (w : World) → Landed fits d0 w → Landed fits d0 (clean_up sha256 decode_bundle w)
  Landed-clean_up w h =
      subst (λ d. Landed fits d0 (record w { durable = d }))
        (sym (durable-clean_up sha256 decode_bundle w)) h

  -- The handler tells the truth.
  pub Honest-abort :
      (committing : Bool) (e : Exn) (w : World)
      → Interrupted committing w
      → Honest fits i d0 (abort sha256 decode_bundle committing e w)
  unfolding abort
  Honest-abort committing interrupt w h = Landed-clean_up w h.landed
  Honest-abort committing _ w h = Honest-abort_in w.active committing _ w refl h

  -- An exception that arrives while nothing but the open transaction has changed.
  pub Interrupted-Untouched : (w : World) → Untouched d0 w → Interrupted false w
  Interrupted-Untouched w h = record {
    landed = inl h.durable;
    open_tx = λ d a. h.durable;
    early = λ f. h.durable;
  }

  module _ (r : IdempotencyRecord) (bound : Bound i r d0) where
    pub Honest-abort_replay :
        (e : Exn) (w : World)
        → w.durable ≡ d0
        → Honest fits i d0 (abort_replay sha256 decode_bundle r e w)
    unfolding abort_replay error
    Honest-abort_replay interrupt w h = Landed-clean_up w (inl h)
    Honest-abort_replay (rejected c) w h =
        Honest-abort false (rejected c) w (Interrupted-Untouched w (record { durable = h }))
    Honest-abort_replay checkpoint_interrupted w h = Landed-clean_up w (inl h)
    Honest-abort_replay _ w h = (durable-clean_up sha256 decode_bundle w ∙ h, r, bound)
