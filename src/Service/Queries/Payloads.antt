-- ===== src/Service/Queries/Payloads.antt =====
-- The Blob loop of `verify`: with no failure counted, every payload was read and fits its record.
use infra_artifact_ledger.Prelude.{
  ℕ, zero, suc, ◌+◌, ◌≡◌, refl, sym, ◌∙◌, Bool, true, false, List, [], ◌∷◌, Option, some, none,
  arith, find, ltb, length, ◌==◌, All, if◌then◌else◌,
}
use infra_artifact_ledger.Text.{Text, Bytes, text_eq}
use infra_artifact_ledger.Errors.{Code, Result, ok, err}
use infra_artifact_ledger.Records.{Blob}
use infra_artifact_ledger.Validation.Limits.{max_blob}
use infra_artifact_ledger.Validation.RecordCheck.{check_payload, check_blob}
use infra_artifact_ledger.Store.Tables.{Db, PayloadRow, StoredPayload, blob_class, other_class}
use infra_artifact_ledger.Store.Exec.{
  World, Exec, Outcome, returns, raises, Exn, ledger, pure, raise, ◌>>=◌,
}
use infra_artifact_ledger.Store.Statements.{query}
use infra_artifact_ledger.Store.Operations.{bounded_bytes, present_bytes, fetch_payload}
use infra_artifact_ledger.Store.Triples.{
  Post, Holds, Working, Untouched, Holds-bind, Holds-given, Holds-pre, Holds-weaken, Holds-wrap,
  Holds-lift,
}
use infra_artifact_ledger.Service.Indexes.{read_payload}
use infra_artifact_ledger.Service.Honesty.Phases.{query-Holds}
use infra_artifact_ledger.Service.Queries.{tolerate, tolerated, Tally, failed, verified}
use infra_artifact_ledger.Service.Queries.Methods.{verify_blob, verify_blobs}
use infra_artifact_ledger.Service.Queries.Still.{Still-tolerate, read_payload-Still}

-- What is known after an action whose integrity failures are tolerated.
abbrev pub Tried :
    {A : Type 0} → (A → World → Type 0) → (World → Type 0) → Option A → World → Type 0
Tried Q E none w = E w
Tried Q E (some a) w = Q a w

pub tolerate-Holds :
    {A : Type 0} {P : World → Type 0} {Q : A → World → Type 0} {E : World → Type 0} (m : Exec A)
    → Holds P Q E m
    → Holds P (Tried Q E) E (tolerate m)
unfolding tolerate
tolerate-Holds {A} {P} {Q} {E} m k = record { at = λ w h. go (m w) (k.at w h) }
  where
    kept : Bool → Exn → Outcome (Option A)
    kept b e = if b then returns none else raises e

    either : (b : Bool) (e : Exn) (w : World) → E w → Post (Tried Q E) E (kept b e, w)
    either true e w h = h
    either false e w h = h

    go : (r : Outcome A × World) → Post Q E r → Post (Tried Q E) E (tolerated r.0, r.1)
    go (returns a, w) h = h
    go (raises e, w) h = either _ _ w h

-- The bytes that a file holds for a Blob.
abbrev pub IsStored : Db → Text → Bytes → Type 0
IsStored d i raw =
    (row : PayloadRow) × (find (λ (p : PayloadRow). p.blob_ref == i) d.payloads ≡ some row)
    × (row.content ≡ blob_class raw)

module _ {d0 d : Db} where
  bounded_bytes-Holds :
      (n : ℕ) (p : StoredPayload)
      → Holds
          (Working d0 d)
          (λ raw w. Working d0 d w × (p ≡ blob_class raw))
          (Untouched d0)
          (bounded_bytes n p)
  unfolding bounded_bytes raise
  bounded_bytes-Holds n other_class = record { at = λ w h. record { durable = h.durable } }
  bounded_bytes-Holds n (blob_class raw) = by_size (ltb n (length raw))
    where
      by_size :
          (b : Bool)
          → Holds
              (Working d0 d)
              (λ r w. Working d0 d w × (blob_class raw ≡ blob_class r))
              (Untouched d0)
              (if b then raise (ledger Code.integrity_failure) else query (λ _. raw))
      by_size true = record { at = λ w h. record { durable = h.durable } }
      by_size false = Holds-weaken _ (λ r w q. (q.0, rw (q.1) refl)) (query-Holds (λ _. raw))

  present_bytes-Holds :
      (n : ℕ) (o : Option PayloadRow)
      → Holds
          (Working d0 d)
          (λ raw w.
            Working d0 d w × ((row : PayloadRow) × (o ≡ some row) × (row.content ≡ blob_class raw)))
          (Untouched d0)
          (present_bytes n o)
  unfolding present_bytes raise
  present_bytes-Holds n none = record { at = λ w h. record { durable = h.durable } }
  present_bytes-Holds n (some p) =
      Holds-weaken _ (λ raw w q. (q.0, (p, refl, q.1))) (bounded_bytes-Holds n p.content)

  fetch_payload-Holds :
      (i : Text) (n : ℕ)
      → Holds
          (Working d0 d)
          (λ raw w. Working d0 d w × IsStored d i raw)
          (Untouched d0)
          (fetch_payload i n)
  unfolding fetch_payload
  fetch_payload-Holds i n = Holds-bind _ _ (query-Holds _) λ o. Holds-given _ λ e.
      Holds-weaken _ (λ raw w q. let (row, same, c) = q.1 in (q.0, (row, sym e ∙ same, c)))
        (present_bytes-Holds n o)

module _ (sha256 : Bytes → Text) (d0 : Db) where
  -- The stored bytes of a Blob fit its record.
  abbrev pub IsIntact : Blob → Type 0
  IsIntact b = (raw : Bytes) × IsStored d0 b.blob_ref raw × (check_payload sha256 b raw ≡ ok tt)

  read_payload-IsIntact :
      (b : Blob)
      → Holds
          (Working d0 d0)
          (λ raw w. Working d0 d0 w × IsIntact b)
          (Untouched d0)
          (read_payload sha256 b)
  unfolding read_payload pure
  read_payload-IsIntact b = Holds-wrap _ _ (
      Holds-bind _ _ (fetch_payload-Holds b.blob_ref max_blob) λ raw. Holds-given _ λ stored.
        Holds-bind _ _
          (Holds-lift (check_payload sha256 b raw) (λ w h. record { durable = h.durable }))
          λ _. record { at = λ w h. (h.0, (raw, stored, h.1)) })

  -- The transaction still shows the file, unless a failure was counted.
  pub record Clean (failures : ℕ) (w : World) : Type 0 where
    pub durable : w.durable ≡ d0
    pub working : failures ≡ 0 → Working d0 d0 w

  module _ (finite : Text → Bool) where
    -- What one more Blob without a failure tells.
    abbrev Passed : Blob → Tally → Tally → Type 0
    Passed b t s = (t.failures ≡ 0) × IsIntact b × (s.verified_count ≡ suc t.verified_count)

    abbrev After : Blob → Tally → Tally → World → Type 0
    After b t s w = Clean s.failures w × (s.failures ≡ 0 → Passed b t s)

    failed-Holds :
        (b : Blob) (t : Tally) → Holds (Untouched d0) (After b t) (Untouched d0) (pure (failed t))
    unfolding pure
    failed-Holds b t = record {
      at = λ w h. (
        record { durable = h.durable; working = λ z. absurd (omega (arith, z)) },
        λ z. absurd (omega (arith, z)),
      );
    }

    verified-Holds :
        (b : Blob) (t : Tally) (o : Option Bytes)
        → t.failures ≡ 0
        → Holds
            (Tried (λ raw w. Working d0 d0 w × IsIntact b) (Untouched d0) o)
            (After b t)
            (Untouched d0)
            (pure (verified o t))
    unfolding pure
    verified-Holds b t none e = failed-Holds b t
    verified-Holds b t (some raw) e = record {
      at = λ w h. (record { durable = h.0.durable; working = λ _. h.0 }, λ _. (e, h.1, refl));
    }

    dirty-Holds :
        (b : Blob) (t : Tally) (n : ℕ) (o : Option Bytes)
        → t.failures ≡ suc n
        → Holds (Untouched d0) (After b t) (Untouched d0) (pure (verified o t))
    unfolding pure
    dirty-Holds b t n none e = failed-Holds b t
    dirty-Holds b t n (some raw) e = record {
      at = λ w h. (
        record { durable = h.durable; working = λ z. absurd (omega (arith, e, z)) },
        λ z. absurd (omega (arith, e, z)),
      );
    }

    verify_blob-Holds :
        (b : Blob) (t : Tally)
        → Holds (Clean t.failures) (After b t) (Untouched d0) (verify_blob sha256 finite b t)
    unfolding verify_blob
    verify_blob-Holds b t = by_check (check_blob b)
      where
        read_on : Exec Tally
        read_on = tolerate (read_payload sha256 b) >>= λ raw. pure (verified raw t)

        by_failures :
            (n : ℕ) → t.failures ≡ n → Holds (Clean t.failures) (After b t) (Untouched d0) read_on
        by_failures zero e =
            Holds-pre _ (λ w h. h.working e)
              (Holds-bind _ _ (tolerate-Holds _ (read_payload-IsIntact b))
                λ o. verified-Holds b t o e)
        by_failures (suc n) e =
            Holds-pre _ (λ w h. record { durable = h.durable })
              (Holds-bind _ _ (Still-tolerate _ (read_payload-Still sha256 finite b))
                λ o. dirty-Holds b t n o e)

        by_check :
            (r : Result (Unit {0}))
            → Holds
                (Clean t.failures)
                (After b t)
                (Untouched d0)
                (elim r [ err c ↦ pure (failed t) | ok x ↦ read_on ])
        by_check (err c) = Holds-pre _ (λ w h. record { durable = h.durable }) (failed-Holds b t)
        by_check (ok x) = by_failures t.failures refl

    -- What the whole loop tells.
    abbrev pub AllPassed : List Blob → Tally → Tally → Type 0
    AllPassed bs t s =
        (t.failures ≡ 0) × All IsIntact bs × (s.verified_count ≡ length bs + t.verified_count)

    pub verify_blobs-Holds :
        (bs : List Blob) (t : Tally)
        → Holds
            (Clean t.failures)
            (λ s w. Clean s.failures w × (s.failures ≡ 0 → AllPassed bs t s))
            (Untouched d0)
            (verify_blobs sha256 finite bs t)
    unfolding verify_blobs pure
    verify_blobs-Holds [] t = record { at = λ w h. (h, λ z. (z, tt, omega arith)) }
    verify_blobs-Holds (b ∷ bs) t = Holds-bind _ _ (verify_blob-Holds b t) λ s. Holds-given _ λ one.
        Holds-weaken _
          (λ u w q. (
            q.0,
            λ z.
                let (clean, rest, n) = q.1 z in
                let (before, intact, m) = one clean in
                (before, (intact, rest), omega (arith, n, m)),
          ))
          (verify_blobs-Holds bs s)
