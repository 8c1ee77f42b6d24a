-- ===== src/Prelude/Sets.antt =====
-- Python sets as lists.
use mathlib.Core.Path.{◌≡◌, refl}
use mathlib.Core.Bool.{Bool, true, false, ◌||◌, ◌&&◌}
use mathlib.Core.List.{List, [], ◌∷◌, ◌++◌}
use native.Mathlib.Omega.{arith}
use infra_artifact_ledger.Prelude.Tests.{Eq, ◌==◌, if◌then◌else◌}
use infra_artifact_ledger.Prelude.Lists.{all}

module _ {ℓ} {A : Type ℓ} ⦃e : Eq A⦄ where
  -- `x in xs`
  abbrev pub contains : A → List A → Bool
  contains x [] = false
  contains x (y ∷ ys) = x == y || contains x ys

  -- `len(set(xs)) == len(xs)`
  abbrev pub distinct : List A → Bool
  distinct [] = true
  distinct (x ∷ xs) = if contains x xs then false else distinct xs

  -- `set(xs)`, each element at its last occurrence
  abbrev pub set_of : List A → List A
  set_of [] = []
  set_of (x ∷ xs) = if contains x xs then set_of xs else x ∷ set_of xs

  -- `set(xs) <= set(ys)`
  abbrev pub subset : List A → List A → Bool
  subset xs ys = all (λ x. contains x ys) xs

  -- `set(xs) == set(ys)`
  abbrev pub same_set : List A → List A → Bool
  same_set xs ys = subset xs ys && subset ys xs

  pub contains-append :
      (x : A) (xs ys : List A) → contains x (xs ++ ys) ≡ (contains x xs || contains x ys)
  contains-append x [] ys = refl
  contains-append x (y ∷ xs) ys = ground (arith, contains-append x xs ys)
