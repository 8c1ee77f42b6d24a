-- ===== src/Service/Queries/Intact.antt =====
-- What an answer of `verify` tells of the file.
use infra_artifact_ledger.Prelude.{
  ℕ, eqb, ◌+◌, ◌≡◌, refl, sym, ◌∙◌, subst, Bool, true, false, List, [], ◌∷◌, Option, some, none,
  arith, ltb, length, All, if◌then◌else◌,
}
use infra_artifact_ledger.Text.{Text, Bytes, text_eq}
use infra_artifact_ledger.Errors.{Code, Result, ok, err, ◌>>◌}
use infra_artifact_ledger.Records.{Kind}
use infra_artifact_ledger.Validation.Limits.{require}
use infra_artifact_ledger.Validation.Graph.{validate_metadata}
use infra_artifact_ledger.Store.Tables.{Db, Misshapen, ref_row_eq}
use infra_artifact_ledger.Store.Exec.{World, Outcome, returns, raises, pure, raise}
use infra_artifact_ledger.Store.Operations.{Loaded}
use infra_artifact_ledger.Store.Triples.{
  Post, Holds, Working, Untouched, Holds-bind, Holds-given, Holds-pre, Reads-lift,
}
use infra_artifact_ledger.Service.Indexes.{
  integrity, ensure, is_shaped, validate_loaded, odd_refs, odd_blobs,
}
use infra_artifact_ledger.Service.Honesty.Phases.{Idle}
use infra_artifact_ledger.Service.Reads.{
  Answer, answered, refused, finish_read, in_transaction, read,
}
use infra_artifact_ledger.Service.Reads.Verified.{in_transaction-Holds, durable-close_read}
use infra_artifact_ledger.Service.Queries.{misses, faults_of, Tally, Verification, counts_of}
use infra_artifact_ledger.Service.Queries.Methods.{verify_body, verify}
use infra_artifact_ledger.Service.Queries.Payloads.{
  Tried, tolerate-Holds, IsIntact, Clean, AllPassed, verify_blobs-Holds,
}
use infra_artifact_ledger.Service.Queries.Indexed.{
  Loads, IsIndexed, required-Holds, metadata-Loads, Compared, tolerated_indexes-Holds,
}

module _ (sha256 : Bytes → Text) (finite : Text → Bool) (d0 : Db) where
  -- What an answer of `verify` says of a file: its rows decode to a document of well-shaped records
  -- that `validate_metadata` accepts, the index tables have the rows of that document, the stored
  -- bytes of each Blob fit its record, and the counts are those of the document.
  pub record IsSound (d : Db) (v : Verification) : Type 0 where
    pub loaded : Loaded
    pub loads : Loads d loaded
    pub shaped : is_shaped loaded ≡ true
    pub valid : validate_metadata sha256 loaded.document ≡ ok tt
    pub indexed : IsIndexed d (some []) [] loaded.document
    pub intact : All (IsIntact sha256 d) loaded.document.blobs
    pub counts : v.counts ≡ counts_of loaded.document
    pub verified_blob_count : v.verified_blob_count ≡ length loaded.document.blobs

  is_shaped-odd_records : (l : Loaded) → is_shaped l ≡ true → l.odd_records ≡ []
  is_shaped-odd_records l h = by_odd l.odd_records h
    where
      by_odd :
          (os : List (Kind × Misshapen))
          → elim os as (λ _. Bool) [ [] ↦ eqb l.odd_operations 0 | x ∷ xs ↦ false ] ≡ true
          → os ≡ []
      by_odd [] h = refl
      by_odd (o ∷ os) h = cc

  validate_loaded-parts :
      (l : Loaded)
      → validate_loaded sha256 l ≡ ok tt
      → (is_shaped l ≡ true) × (validate_metadata sha256 l.document ≡ ok tt)
  unfolding validate_loaded
  validate_loaded-parts l h = by_shape (is_shaped l) h
    where
      by_shape :
          (b : Bool)
          → (require b Code.invalid_input >> validate_metadata sha256 l.document) ≡ ok tt
          → (b ≡ true) × (validate_metadata sha256 l.document ≡ ok tt)
      by_shape true h = (refl, h)
      by_shape false h = cc

  -- The failures that are counted before the Blob loop.
  abbrev early : Loaded → Option (Unit {0}) → ℕ
  early l o = faults_of (validate_loaded sha256 l) + misses o + length (odd_blobs l.odd_records)

  abbrev ComparedIn : Loaded → Type 0
  ComparedIn l =
      Compared sha256 finite d0 (odd_refs l.odd_records) (odd_blobs l.odd_records) l.document

  no_faults : (r : Result (Unit {0})) (n m : ℕ) → faults_of r + n + m ≡ 0 → r ≡ ok tt
  no_faults (ok x) n m h = refl
  no_faults (err c) n m h = absurd (omega (arith, h))

  compared :
      (l : Loaded) (o : Option (Unit {0})) (w : World)
      → Tried (λ _ v. Working d0 d0 v × ComparedIn l) (Untouched d0) o w
      → Clean sha256 d0 (early l o) w × (early l o ≡ 0 → ComparedIn l)
  compared l none w h = (
    record { durable = h.durable; working = λ z. absurd (omega (arith, z)) },
    λ z. absurd (omega (arith, z)),
  )
  compared l (some x) w h = (record { durable = h.0.durable; working = λ _. h.0 }, λ _. h.1)

  unfailed-Holds :
      (n : ℕ)
      → Holds
          (Clean sha256 d0 n)
          (λ _ w. Working d0 d0 w × (n ≡ 0))
          (Untouched d0)
          (ensure (if ltb 0 n then false else true))
  unfolding ensure integrity pure raise
  unfailed-Holds n = by_test (ltb 0 n) (λ e. ground (arith, e))
    where
      by_test :
          (b : Bool)
          → (b ≡ false → n ≡ 0)
          → Holds
              (Clean sha256 d0 n)
              (λ _ w. Working d0 d0 w × (n ≡ 0))
              (Untouched d0)
              (ensure (if b then false else true))
      by_test true k = record { at = λ w h. record { durable = h.durable } }
      by_test false k = record { at = λ w h. (h.working (k refl), k refl) }

  sound :
      (l : Loaded) (o : Option (Unit {0})) (t s : Tally) (v : Verification)
      → Loads d0 l
      → t.failures ≡ early l o
      → t.verified_count ≡ 0
      → (early l o ≡ 0 → ComparedIn l)
      → AllPassed sha256 d0 finite l.document.blobs t s
      → v.counts ≡ counts_of l.document
      → v.verified_blob_count ≡ s.verified_count
      → IsSound d0 v
  sound l o t s v loads counted start compare (clean, intact, n) counts same =
      let none_early : early l o ≡ 0 = sym counted ∙ clean in
      let (shaped, valid) =
        validate_loaded-parts l (no_faults (validate_loaded sha256 l) _ _ none_early) in
      record {
        loaded = l;
        loads = loads;
        shaped = shaped;
        valid = valid;
        indexed =
            subst (λ os. Compared sha256 finite d0 (odd_refs os) (odd_blobs os) l.document)
              (is_shaped-odd_records l shaped) (compare none_early);
        intact = intact;
        counts = counts;
        verified_blob_count = omega (arith, same, n, start);
      }

  verify_body-Holds :
      Holds
        (Working d0 d0)
        (λ v w. Working d0 d0 w × IsSound d0 v)
        (Untouched d0)
        (verify_body sha256 finite)
  unfolding verify_body pure
  verify_body-Holds = Holds-bind _ _ (tolerate-Holds _ metadata-Loads) λ read_back.
      Holds-bind _ _ (required-Holds read_back) λ l. Holds-given _ λ loads.
        Holds-bind _ _ (tolerated_indexes-Holds sha256 finite d0 _ _ _) λ indexes.
          Holds-pre _ (compared l indexes) (
            Holds-given _ λ compare.
              Holds-bind _ _ (verify_blobs-Holds sha256 d0 finite l.document.blobs _) λ t.
                Holds-given _ λ all. Holds-bind _ _ (unfailed-Holds t.failures) λ _.
                  Holds-given _ λ clean. Holds-bind _ _ (Reads-lift _) λ _.
                    Holds-bind _ _ (Reads-lift _) λ _. record {
                      at = λ w h. (
                        h,
                        sound l indexes
                            (record {
                              failures = early l indexes;
                              verified_count = 0;
                              verified_length = 0;
                            })
                            t _ loads refl refl compare (all clean) refl refl,
                      );
                    })

module _ (sha256 : Bytes → Text) (finite : Text → Bool) where
  -- What an answer tells: a sound file, and in every case that the file is as it was.
  abbrev pub VerifiedAs : Db → Answer Verification × World → Type 0
  VerifiedAs d (answered v, w) = (w.durable ≡ d) × (w.active ≡ none) × IsSound sha256 finite d d v
  VerifiedAs d (refused e, w) = w.durable ≡ d

  -- On a connection with no open transaction, under every sequence of faults: if `verify` answers,
  -- then the rows of the file decode to records and operations of their shapes, which make up a
  -- document that `validate_metadata` accepts, the index tables are those of the document, the
  -- stored bytes of each Blob pass `check_payload` for its record, the answer has the document's
  -- counts and the number of its Blobs, and no transaction is left open; and whatever the answer,
  -- the file is as it was.
  pub verify-IsSound : (w : World) → w.active ≡ none → VerifiedAs w.durable (verify sha256 finite w)
  unfolding verify read
  verify-IsSound w h =
      subst
        (λ o. VerifiedAs w.durable (finish_read o (in_transaction (verify_body sha256 finite) w)))
        (sym h)
        (answer _ (
          (in_transaction-Holds sha256 _ (verify_body-Holds sha256 finite w.durable)).at w
            (record { durable = refl; active = h })))
    where
      answer :
          (r : Outcome Verification × World)
          → Post
              (λ v u. Idle w.durable u × IsSound sha256 finite w.durable w.durable v)
              (Untouched w.durable)
              r
          → VerifiedAs w.durable (finish_read none r)
      answer (returns v, u) q = (q.0.durable, q.0.active, q.1)
      answer (raises e, u) q = durable-close_read sha256 u.active u ∙ q.durable
