-- ===== src/Service/Queries/Stored.antt =====
-- What `get_record` answers is the stored record.
use infra_artifact_ledger.Prelude.{Bool, ◌≡◌, refl, sym, ◌∙◌, subst, none}
use infra_artifact_ledger.Text.{Text, Bytes}
use infra_artifact_ledger.Records.{Record}
use infra_artifact_ledger.Store.Tables.{Db}
use infra_artifact_ledger.Store.Exec.{World, Outcome, returns, raises, pure}
use infra_artifact_ledger.Store.Triples.{
  Post, Holds, Working, Untouched, Holds-bind, Holds-given, Reads-lift,
}
use infra_artifact_ledger.Service.Honesty.Phases.{Idle}
use infra_artifact_ledger.Service.Reads.{
  Answer, answered, refused, finish_read, in_transaction, read,
}
use infra_artifact_ledger.Service.Reads.Lookup.{Found, find_record-Holds}
use infra_artifact_ledger.Service.Reads.Verified.{in_transaction-Holds, durable-close_read}
use infra_artifact_ledger.Service.Queries.Methods.{record_body, get_record}

module _ (sha256 : Bytes → Text) (finite : Text → Bool) where
  record_body-Holds :
      {d0 : Db} (kind i : Text)
      → Holds
          (Working d0 d0)
          (λ r w. Working d0 d0 w × Found sha256 d0 i r)
          (Untouched d0)
          (record_body sha256 finite kind i)
  unfolding record_body pure
  record_body-Holds kind i = Holds-bind _ _ (Reads-lift _) λ k. Holds-bind _ _ (Reads-lift _) λ _.
      Holds-bind _ _ (find_record-Holds sha256 k i) λ r.
        Holds-given _ λ found. Holds-bind _ _ (Reads-lift _) λ _. record { at = λ w h. (h, found) }

  abbrev pub AsStored : Db → Text → Answer Record × World → Type 0
  AsStored d i (answered r, w) = (w.durable ≡ d) × (w.active ≡ none) × Found sha256 d i r
  AsStored d i (refused e, w) = w.durable ≡ d

  -- On a connection with no open transaction, under every sequence of faults: a record that
  -- `get_record` answers is the one that the id's row holds, it has that id, and no transaction is
  -- left open; and whatever the answer, the file is as it was.
  pub get_record-AsStored :
      (kind i : Text) (w : World)
      → w.active ≡ none
      → AsStored w.durable i (get_record sha256 finite kind i w)
  unfolding get_record read
  get_record-AsStored kind i w h =
      subst
        (λ o.
          AsStored w.durable i
            (finish_read o (in_transaction (record_body sha256 finite kind i) w)))
        (sym h)
        (answer _ (
          (in_transaction-Holds sha256 _ (record_body-Holds kind i)).at w
            (record { durable = refl; active = h })))
    where
      answer :
          (r : Outcome Record × World)
          → Post (λ a v. Idle w.durable v × Found sha256 w.durable i a) (Untouched w.durable) r
          → AsStored w.durable i (finish_read none r)
      answer (returns a, v) q = (q.0.durable, q.0.active, q.1)
      answer (raises e, v) q = durable-close_read sha256 v.active v ∙ q.durable
