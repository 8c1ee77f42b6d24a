-- ===== src/Service/Queries/Still.antt =====
-- Actions that leave the file as it was, in whatever state they begin and end.
use infra_artifact_ledger.Prelude.{
  ℕ, Bool, true, false, Option, some, none, ltb, length, if◌then◌else◌,
}
use infra_artifact_ledger.Text.{Text, Bytes}
use infra_artifact_ledger.Errors.{Code, Result, ok, err}
use infra_artifact_ledger.Records.{Blob}
use infra_artifact_ledger.Store.Tables.{Db, StoredPayload, PayloadRow, blob_class, other_class}
use infra_artifact_ledger.Store.Exec.{
  World, Exec, Outcome, returns, raises, Exn, Fault, runs, fails, late, ends, next_fault,
  later_faults, ledger, pure, raise, lift, wrap, ◌>>=◌,
}
use infra_artifact_ledger.Store.Statements.{query, read_on}
use infra_artifact_ledger.Store.Operations.{bounded_bytes, present_bytes, fetch_payload}
use infra_artifact_ledger.Store.Triples.{Post, Holds, Untouched, Holds-bind, Holds-wrap}
use infra_artifact_ledger.Service.Indexes.{read_payload}
use infra_artifact_ledger.Service.Queries.{tolerate, tolerated}

abbrev pub Still : {A : Type 0} → Db → Exec A → Type 0
Still d0 m = Holds (Untouched d0) (λ _. Untouched d0) (Untouched d0) m

module _ {A : Type 0} {d0 : Db} where
  Still-pure : (a : A) → Still d0 (pure a)
  unfolding pure
  Still-pure a = record { at = λ w h. h }

  Still-raise : (e : Exn) → Still d0 (raise {A = A} e)
  unfolding raise
  Still-raise e = record { at = λ w h. h }

  Still-lift : (r : Result A) → Still d0 (lift r)
  unfolding lift
  Still-lift (ok a) = record { at = λ w h. h }
  Still-lift (err c) = record { at = λ w h. h }

  Still-query : (f : Db → A) → Still d0 (query f)
  unfolding query
  Still-query f = record { at = λ w h. go (next_fault w.faults) w h }
    where
      go :
          (t : Fault) (w : World)
          → Untouched d0 w
          → Post
              (λ _. Untouched d0)
              (Untouched d0)
              (read_on f t (record w { faults = later_faults w.faults }))
      go runs w h = record { durable = h.durable }
      go (fails e) w h = record { durable = h.durable }
      go (late e) w h = record { durable = h.durable }
      go (ends e) w h = record { durable = h.durable }

  pub Still-tolerate : (m : Exec A) → Still d0 m → Still d0 (tolerate m)
  unfolding tolerate
  Still-tolerate m k = record { at = λ w h. go (m w) (k.at w h) }
    where
      kept : Bool → Exn → Outcome (Option A)
      kept b e = if b then returns none else raises e

      either :
          (b : Bool) (e : Exn) (w : World)
          → Untouched d0 w
          → Post (λ _. Untouched d0) (Untouched d0) (kept b e, w)
      either true e w h = h
      either false e w h = h

      go :
          (r : Outcome A × World)
          → Post (λ _. Untouched d0) (Untouched d0) r
          → Post (λ _. Untouched d0) (Untouched d0) (tolerated r.0, r.1)
      go (returns a, w) h = h
      go (raises e, w) h = either _ _ w h

  Still-wrap : (c : Code) (m : Exec A) → Still d0 m → Still d0 (wrap c m)
  Still-wrap c m k = Holds-wrap c m k

Still-bind :
    {A B : Type 0} {d0 : Db} (m : Exec A) (f : A → Exec B)
    → Still d0 m
    → ((a : A) → Still d0 (f a))
    → Still d0 (m >>= f)
Still-bind m f km kf = Holds-bind m f km kf

ruleset still_rules =
    (Still-pure, Still-raise, Still-lift, Still-query, Still-wrap, Still-bind, Still-tolerate)

module _ {d0 : Db} where
  bounded_bytes-Still : (n : ℕ) (p : StoredPayload) → Still d0 (bounded_bytes n p)
  unfolding bounded_bytes
  bounded_bytes-Still n other_class = search still_rules
  bounded_bytes-Still n (blob_class raw) = by_size (ltb n (length raw))
    where
      by_size :
          (b : Bool)
          → Still d0 (if b then raise (ledger Code.integrity_failure) else query (λ _. raw))
      by_size true = search still_rules
      by_size false = search still_rules

  present_bytes-Still : (n : ℕ) (o : Option PayloadRow) → Still d0 (present_bytes n o)
  unfolding present_bytes
  present_bytes-Still n none = search still_rules
  present_bytes-Still n (some p) = bounded_bytes-Still n p.content

  fetch_payload-Still : (i : Text) (n : ℕ) → Still d0 (fetch_payload i n)
  unfolding fetch_payload
  fetch_payload-Still i n = search (still_rules, present_bytes-Still)

  module _ (sha256 : Bytes → Text) (finite : Text → Bool) where
    pub read_payload-Still : (b : Blob) → Still d0 (read_payload sha256 b)
    unfolding read_payload
    read_payload-Still b = search (still_rules, fetch_payload-Still) depth 16
