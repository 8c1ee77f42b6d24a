-- ===== src/Validation/Ownership.antt =====
-- What a valid metadata document promises: one owner for each identity, and a parent relation with
-- no cycle.
use mathlib.Core.WellFounded.{Acc}
use infra_artifact_ledger.Prelude.{
  ◌≡◌, refl, ap, subst, false, List, [], ◌∷◌, ◌++◌, map, some, arith, contains, contains-append,
  All, map-append, length,
}
use infra_artifact_ledger.Text.{Text, Bytes, text_eq}
use infra_artifact_ledger.Errors.{Code, Result, ok, err, ◌>>◌}
use infra_artifact_ledger.Records.{Record, Version, Metadata, identity_eq, id_of}
use infra_artifact_ledger.Validation.Limits.{fail_if}
use infra_artifact_ledger.Validation.RecordCheck.{validate_record}
use infra_artifact_ledger.Validation.Graph.{
  all_records, check_owned, check_operations, check_acyclic, check_closure, validate_metadata,
}
use infra_artifact_ledger.Validation.Graph.Kahn.{visited_count}
use infra_artifact_ledger.Validation.Graph.Kahn.Counting.{IsDistinct, version_ids}
use infra_artifact_ledger.Validation.Graph.Kahn.Soundness.{Parent, visited_count-Acc}

pub >>-eq-ok {ℓ κ} :
    {A : Type ℓ} {B : Type κ} (m : Result A) (k : Result B) {b : B}
    → (m >> k) ≡ ok b
    → ((a : A) × (m ≡ ok a)) × (k ≡ ok b)
>>-eq-ok (ok a) k h = ((a, refl), h)
>>-eq-ok (err e) k h = cc

-- No identity of the list is in another.
abbrev Apart : List Text → List Text → Type 0
Apart xs owned = All (λ x. contains x owned ≡ false) xs

Apart-cons :
    (xs owned : List Text) (o : Text)
    → Apart xs (o ∷ owned)
    → Apart xs owned × (contains o xs ≡ false)
Apart-cons [] owned o h = (tt, refl)
Apart-cons (x ∷ xs) owned o h =
    let (rest, out) = Apart-cons xs owned o h.1 in
    ((ground (arith, h.0), rest), ground (arith, h.0, out))

IsDistinct-right : (xs ys : List Text) → IsDistinct (xs ++ ys) → IsDistinct ys
IsDistinct-right [] ys h = h
IsDistinct-right (x ∷ xs) ys h = IsDistinct-right xs ys h.1

IsDistinct-left : (xs ys : List Text) → IsDistinct (xs ++ ys) → IsDistinct xs
IsDistinct-left [] ys h = tt
IsDistinct-left (x ∷ xs) ys h =
    (ground (arith, h.0, contains-append x xs ys), IsDistinct-left xs ys h.1)

-- The identities of a metadata document, over all kinds.
abbrev pub owned_ids : Metadata → List Text
owned_ids m = map id_of (all_records m)

map-map-version : (vs : List Version) → map id_of (map Record.version vs) ≡ version_ids vs
unfolding id_of
map-map-version [] = refl
map-map-version (v ∷ vs) = ap (◌∷◌ v.version_id) (map-map-version vs)

versions-IsDistinct :
    (m : Metadata) → IsDistinct (owned_ids m) → IsDistinct (version_ids m.versions)
versions-IsDistinct m h = subst IsDistinct (map-map-version m.versions) (
    IsDistinct-left (map id_of (map Record.version m.versions)) _ (
      subst IsDistinct (map-append id_of (map Record.version m.versions) _) (
        IsDistinct-right (map id_of (map Record.artifact m.artifacts)) _
          (subst IsDistinct (map-append id_of (map Record.artifact m.artifacts) _) h))))

module _ (sha256 : Bytes → Text) where
  check_owned-Apart :
      (owned : List Text) (rs : List Record)
      → check_owned sha256 owned rs ≡ ok tt
      → IsDistinct (map id_of rs) × Apart (map id_of rs) owned
  unfolding check_owned
  check_owned-Apart owned [] h = (tt, tt)
  check_owned-Apart owned (r ∷ rs) h =
      let rest = check_owned sha256 (id_of r ∷ owned) rs in
      let new_id = fail_if (contains (id_of r) owned) Code.identity_conflict in
      let (_, h1) = >>-eq-ok (validate_record sha256 false r) (new_id >> rest) h in
      let ((_, new), h2) = >>-eq-ok new_id rest h1 in
      let (d, a) = check_owned-Apart (id_of r ∷ owned) rs h2 in
      let (a', out) = Apart-cons (map id_of rs) owned (id_of r) a in
      ((out, d), (ground (arith, new), a'))

  -- What `validate_metadata` has checked, part by part.
  pub record Checked (m : Metadata) : Type 0 where
    pub owned : check_owned sha256 [] (all_records m) ≡ ok tt
    pub operations : check_operations [] m.idempotency_records ≡ ok tt
    pub closure : check_closure m ≡ ok tt

  pub validate_metadata-Checked : (m : Metadata) → validate_metadata sha256 m ≡ ok tt → Checked m
  unfolding validate_metadata
  validate_metadata-Checked m h =
      let (_, h1) = >>-eq-ok _ _ h in
      let ((_, o), h2) = >>-eq-ok _ _ h1 in
      let ((_, p), c) = >>-eq-ok _ _ h2 in record { owned = o; operations = p; closure = c }

  -- In a valid document no identity is owned twice, over the records of all kinds.
  pub validate_metadata-IsDistinct :
      (m : Metadata) → validate_metadata sha256 m ≡ ok tt → IsDistinct (owned_ids m)
  validate_metadata-IsDistinct m h =
      (check_owned-Apart [] (all_records m) (validate_metadata-Checked m h).owned).0

  check_acyclic-count :
      (vs : List Version) → check_acyclic vs ≡ ok tt → visited_count vs ≡ some (length vs)
  unfolding check_acyclic
  check_acyclic-count vs h = ground arith

  -- In a valid document the parent relation between versions is well founded: it has no cycle.
  pub validate_metadata-Acc :
      (m : Metadata) → validate_metadata sha256 m ≡ ok tt → (i : Text) → Acc (Parent m.versions) i
  unfolding check_closure
  validate_metadata-Acc m h =
      let (_, h1) = >>-eq-ok _ _ (validate_metadata-Checked m h).closure in
      let ((_, acyclic), _) = >>-eq-ok _ _ h1 in
      visited_count-Acc m.versions (versions-IsDistinct m (validate_metadata-IsDistinct m h))
        (check_acyclic-count m.versions acyclic)
