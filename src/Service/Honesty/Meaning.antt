-- ===== src/Service/Honesty/Meaning.antt =====
-- What a reply of `execute` says of the file, by its commit state.
use infra_artifact_ledger.Prelude.{◌≡◌, ◌⊎◌, Bool, true, false, List, some, none, find, ◌==◌}
use infra_artifact_ledger.Text.{Text, Bytes}
use infra_artifact_ledger.Errors.{CommitState, Result, ok}
use infra_artifact_ledger.Records.{Identity, IdempotencyRecord, Metadata, identity_eq}
use infra_artifact_ledger.Store.Tables.{Db, OperationRow, operation_text}
use infra_artifact_ledger.Store.Exec.{World, returns}
use infra_artifact_ledger.Store.Triples.{Working}
use infra_artifact_ledger.Service.Failures.{public, passed_on}
use infra_artifact_ledger.Service.Indexes.{metadata}
use infra_artifact_ledger.Service.Plans.{Payload, Plan}
use infra_artifact_ledger.Service.Execute.{
  Prepared, Reply, committed, failed, plan_of, operation_of,
}
use infra_artifact_ledger.Service.Staging.{staged}

-- The file is as it was, or holds one whole operation more, whose plan and record fit the call.
abbrev pub Landed : (Plan → IdempotencyRecord → Type 0) → Db → World → Type 0
Landed fits d0 w =
    (w.durable ≡ d0)
    ⊎ ((plan : Plan) × (operation : IdempotencyRecord) × fits plan operation
        × (w.durable ≡ staged plan operation d0))

-- The identity is bound to this stored success.
abbrev pub Bound : Identity → IdempotencyRecord → Db → Type 0
Bound i r d =
    (row : OperationRow) × (find (λ (o : OperationRow). o.identity == i) d.operations ≡ some row)
    × (row.content ≡ operation_text r)

abbrev pub Unbound : Identity → Db → Type 0
Unbound i d = find (λ (o : OperationRow). o.identity == i) d.operations ≡ none

abbrev HonestState :
    CommitState → (Plan → IdempotencyRecord → Type 0) → Identity → Db → World → Type 0
HonestState CommitState.not_committed fits i d0 w = (w.durable ≡ d0) × (w.active ≡ none)
HonestState CommitState.unknown fits i d0 w = Landed fits d0 w
HonestState CommitState.committed fits i d0 w =
    (w.durable ≡ d0) × (r : IdempotencyRecord) × Bound i r d0
HonestState CommitState.not_applicable fits i d0 w = ⊥

abbrev HonestSuccess :
    Bool → IdempotencyRecord → (Plan → IdempotencyRecord → Type 0) → Identity → Db → World → Type 0
HonestSuccess true r fits i d0 w = (w.durable ≡ d0) × (w.active ≡ none) × Bound i r d0
HonestSuccess false r fits i d0 w =
    (w.active ≡ none)
    × Unbound i d0
    × Bound i r w.durable
    × ((plan : Plan) × fits plan r × (w.durable ≡ staged plan r d0))

-- A reply tells the truth about the file, for the plans and records that fit the call, the identity
-- of the request and the file before.
abbrev pub Honest : (Plan → IdempotencyRecord → Type 0) → Identity → Db → Reply × World → Type 0
Honest fits i d0 (committed s, w) = HonestSuccess s.replayed s.operation fits i d0 w
Honest fits i d0 (failed (public e), w) = HonestState e.commit_state fits i d0 w
Honest fits i d0 (failed (passed_on e), w) = Landed fits d0 w

module _ (sha256 : Bytes → Text)
    (decode_bundle : Bytes → Bytes → Result (Metadata × List Payload)) where
  -- The plan that a prepared request has over a file: `_metadata` answers the file's metadata, and
  -- `_create`, `_append` or `_import` this plan for it, in a transaction that still shows the file.
  pub record Planned (p : Prepared) (now : Text) (d0 : Db) (plan : Plan) : Type 0 where
    pub current : Metadata
    pub read_from : World
    pub read_to : World
    pub reading : Working d0 d0 read_from
    pub current_read : metadata sha256 read_from ≡ (returns current, read_to)
    pub plan_from : World
    pub plan_to : World
    pub planning : Working d0 d0 plan_from
    pub plan_made : plan_of sha256 decode_bundle p current now plan_from ≡ (returns plan, plan_to)

  -- The plan and the operation record that a request, as `prepare` left it, has over a file.
  abbrev pub Computed : Result Prepared → Text → Db → Plan → IdempotencyRecord → Type 0
  Computed r now d0 plan operation =
      (p : Prepared) × (r ≡ ok p)
      × Planned p now d0 plan
      × (operation ≡ operation_of sha256 decode_bundle p plan now)
