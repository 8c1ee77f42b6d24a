-- ===== src/Service/Reads.antt =====
-- `_read` and `read_blob` of service.py.
pub mod Lookup
pub mod Verified
use infra_artifact_ledger.Prelude.{Bool, true, Option, some, none}
use infra_artifact_ledger.Text.{Text, Bytes}
use infra_artifact_ledger.Errors.{Code, CommitState}
use infra_artifact_ledger.Records.{Kind, Record, Blob}
use infra_artifact_ledger.Validation.Limits.{require}
use infra_artifact_ledger.Validation.Scalars.{stable_id_match}
use infra_artifact_ledger.Store.Tables.{Db}
use infra_artifact_ledger.Store.Exec.{
  World, Exec, Outcome, returns, raises, failure, pure, raise, lift, ◌>>=◌, ◌>>◌,
}
use infra_artifact_ledger.Store.Statements.{begin, rollback}
use infra_artifact_ledger.Service.Failures.{Failure, error}
use infra_artifact_ledger.Service.Indexes.{find_record, read_payload}

-- What a read gives its caller.
pub data Answer (A : Type 0) : Type 0 where
  answered : A → Answer A
  refused : Failure → Answer A

-- A rollback whose own failure is only noted.
abbrev pub close_read : Option Db → World → World
close_read none w = w
close_read (some _) w = (rollback w).1

-- The handler: a transaction that was open before the read is not this read's to end.
abbrev pub finish_read : {A : Type 0} → Option Db → Outcome A × World → Answer A × World
finish_read before (returns a, w) = (answered a, w)
finish_read none (raises e, w) =
    (refused (error e CommitState.not_applicable), close_read w.active w)
finish_read (some _) (raises e, w) = (refused (error e CommitState.not_applicable), w)

-- The body in a transaction of its own, which is rolled back.
abbrev pub in_transaction : {A : Type 0} → Exec A → Exec A
in_transaction body = begin >> (body >>= λ a. rollback >> pure a)

-- `_read`
unfoldable pub read : {A : Type 0} → Exec A → World → Answer A × World
read body w = finish_read w.active (in_transaction body w)

unfoldable pub blob_of : Record → Exec Blob
blob_of (Record.blob b) = pure b
blob_of _ = raise failure

module _ (sha256 : Bytes → Text) where
  unfoldable pub blob_bytes : Text → Exec Bytes
  unfolding blob_of
  blob_bytes i = do
    lift (require (stable_id_match i) Code.invalid_input)
    r ← find_record sha256 Kind.blob i
    b ← blob_of r
    read_payload sha256 b

  -- `read_blob`
  unfoldable pub read_blob : Text → World → Answer Bytes × World
  unfolding read blob_bytes
  read_blob i w = read (blob_bytes i) w
