-- ===== src/Prelude/Tests.antt =====
-- Boolean tests on native numbers, and equality as an interface.
use Prim.Native.Nat.{ℕ, compare, Ordering}
use mathlib.Core.Path.{◌≡◌, refl, sym, ◌∙◌}
use mathlib.Core.Logic.{◌≢◌, ◌⊎◌, inl, inr}
use mathlib.Core.Bool.{Bool, true, false, ◌&&◌}
use mathlib.Core.Option.{Option, none, some}

abbrev pub ltb : ℕ → ℕ → Bool
ltb a b = elim (compare a b) [ Ordering.lt ↦ true | _ ↦ false ]

abbrev pub leb : ℕ → ℕ → Bool
leb a b = elim (compare a b) [ Ordering.gt ↦ false | _ ↦ true ]

abbrev pub eqb : ℕ → ℕ → Bool
eqb a b = elim (compare a b) [ Ordering.eq ↦ true | _ ↦ false ]

infix 1 if◌then◌else◌
abbrev pub if◌then◌else◌ {ℓ} : {A : Type ℓ} → Bool → A → A → A
if true then x else y = x
if false then x else y = y

pub Bool-cases : (b : Bool) → (b ≡ true) ⊎ (b ≡ false)
Bool-cases true = inl refl
Bool-cases false = inr refl

-- The two sides of a conjunction.
pub and_both : (a b : Bool) → (a && b) ≡ true → (a ≡ true) × (b ≡ true)
and_both true true e = (refl, refl)
and_both true false e = cc
and_both false b e = cc

pub Option-cases {ℓ} : {A : Type ℓ} (o : Option A) → (o ≡ none) ⊎ ((a : A) × (o ≡ some a))
Option-cases none = inl refl
Option-cases (some a) = inr (a, refl)

-- The types whose values the program compares by `==`.
pub record Eq {ℓ} (A : Type ℓ) : Type ℓ where
  pub dec : Discrete A

infix 50 ◌==◌
abbrev pub ◌==◌ {ℓ} : {A : Type ℓ} ⦃e : Eq A⦄ → A → A → Bool
◌==◌ ⦃e⦄ a b = elim (e.dec a b) [ yes p ↦ true | no p ↦ false ]

module _ {ℓ} {A : Type ℓ} ⦃e : Eq A⦄ where
  pub ==-sound : (a b : A) → (a == b) ≡ true → a ≡ b
  ==-sound a b h =
      elim (e.dec a b) as (λ d. elim d [ yes p ↦ true | no p ↦ false ] ≡ true → a ≡ b) [
        | yes p ↦ λ _. p
        | no p ↦ λ q. cc
      ]
        h

  pub ==-refl : (a : A) → (a == a) ≡ true
  ==-refl a = elim (e.dec a a) as (λ d. elim d [ yes p ↦ true | no p ↦ false ] ≡ true) [
    | yes p ↦ refl
    | no p ↦ absurd (p refl)
  ]

  pub ==-ne : (a b : A) → (a == b) ≡ false → a ≢ b
  ==-ne a b h p = cc (==-refl a)

  pub ==-false : (a b : A) → ¬ (a ≡ b) → (a == b) ≡ false
  ==-false a b n = elim (Bool-cases (a == b)) [
    | inl same ↦ absurd (n (==-sound a b same))
    | inr other ↦ other
  ]

  pub ==-sym : (a b : A) → (a == b) ≡ (b == a)
  ==-sym a b = elim (Bool-cases (a == b)) [
    | inl same ↦ let p = ==-sound a b same in cc
    | inr other ↦ other ∙ sym (==-false b a (λ p. ==-ne a b other (sym p)))
  ]
