-- ===== src/Validation/Closure/Lookups.antt =====
-- Lookups that succeed, and checks of every element, as properties of the lists.
use infra_artifact_ledger.Prelude.{
  ◌≡◌, refl, ap, ◌∙◌, subst, ◌⊎◌, inl, inr, true, List, [], ◌∷◌, Option, some, none, arith, All,
  Bool-cases, Eq, ◌==◌, ==-sound, contains, subset,
}
use infra_artifact_ledger.Text.{Text, text_eq}
use infra_artifact_ledger.Errors.{Code, Result, ok, err, ◌>>=◌}
use infra_artifact_ledger.Validation.Scalars.{array}
use infra_artifact_ledger.Validation.Graph.{by_id, reference}
use infra_artifact_ledger.Validation.Ownership.{>>-eq-ok}

-- Some element of the list has the property.
abbrev pub Some : {A : Type 0} → (A → Type 0) → List A → Type 0
Some P [] = ⊥
Some P (x ∷ xs) = P x ⊎ Some P xs

-- The identity is that of a record in the list.
abbrev pub Resolves : {A : Type 0} → (A → Text) → Text → List A → Type 0
Resolves key i xs = Some (λ x. key x ≡ i) xs

-- A chain that succeeds has a first result, from which the rest succeeds.
pub first_ok :
    {A B : Type 0} {y : B} (rest : A → Result B) (first : Result A)
    → first >>= rest ≡ ok y
    → (x : A) × (rest x ≡ ok y) × (first ≡ ok x)
first_ok rest (err c) e = cc
first_ok rest (ok x) e = (x, e, refl)

module _ {A : Type 0} where
  pub array-All :
      {P : A → Type 0} (check : A → Result (Unit {0})) (xs : List A)
      → ((x : A) → check x ≡ ok tt → P x)
      → array check xs ≡ ok tt
      → All P xs
  unfolding array
  array-All check [] sound h = tt
  array-All check (x ∷ xs) sound h =
      let ((_, first), rest) = >>-eq-ok (check x) (array check xs) h in
      (sound x first, array-All check xs sound rest)

  module _ (key : A → Text) where
    pub by_id-Some :
        (P : A → Type 0) (i : Text) (xs : List A) (x : A)
        → by_id key i xs ≡ some x
        → (key x ≡ i → P x)
        → Some P xs
    by_id-Some P i [] x h p = cc
    by_id-Some P i (y ∷ ys) x h p = elim (Bool-cases (key y == i)) [
      | inl same ↦
          let e : x ≡ y = ground arith in inl (subst P e (p (ap key e ∙ ==-sound (key y) i same)))
      | inr other ↦ inr (by_id-Some P i ys x (ground arith) p)
    ]

    pub reference-Some :
        (P : A → Type 0) (i : Text) (xs : List A) (x : A)
        → reference key i xs ≡ ok x
        → (key x ≡ i → P x)
        → Some P xs
    reference-Some P i xs x h p = by_id-Some P i xs x (found (by_id key i xs) h) p
      where
        found :
            (o : Option A)
            → (elim o [ none ↦ err Code.integrity_failure | some y ↦ ok y ]) ≡ ok x
            → o ≡ some x
        found none e = cc
        found (some y) e = cc

    pub reference-Resolves :
        (i : Text) (xs : List A) (x : A) → reference key i xs ≡ ok x → Resolves key i xs
    reference-Resolves i xs x h = reference-Some (λ y. key y ≡ i) i xs x h (λ e. e)

  pub subset-All :
      (xs ys : List A) ⦃e : Eq A⦄ → subset xs ys ≡ true → All (λ x. contains x ys ≡ true) xs
  subset-All [] ys h = tt
  subset-All (x ∷ xs) ys h = (ground arith, subset-All xs ys (ground arith))
