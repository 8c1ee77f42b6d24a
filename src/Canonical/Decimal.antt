-- ===== src/Canonical/Decimal.antt =====
-- The decimal digits that `canonical_bytes` writes for an integer.
use infra_artifact_ledger.Prelude.{
  ℕ, zero, suc, ◌+◌, ◌-◌, ◌*◌, ◌/◌, ◌<◌, ◌≤◌, ◌≡◌, ap, ◌∙◌, inl, inr, true, [], ◌∷◌, arith, ltb,
  Bool-cases,
}
use infra_artifact_ledger.Text.{Text}
use infra_artifact_ledger.Validation.Limits.{max_integer}
use infra_artifact_ledger.Canonical.{decimal}

-- The number that a text of digits denotes, after the number `n`.
abbrev pub number_of : ℕ → Text → ℕ
number_of n [] = n
number_of n (c ∷ cs) = number_of (n * 10 + (c - b'0')) cs

abbrev pub ten_to : ℕ → ℕ
ten_to zero = 1
ten_to (suc k) = 10 * ten_to k

number_of-decimal_on :
    (fuel n : ℕ) (acc : Text)
    → n < ten_to fuel
    → 1 ≤ fuel
    → number_of 0 (decimal fuel n acc) ≡ number_of n acc
unfolding decimal
number_of-decimal_on zero n acc h k = absurd (omega (arith, k))
number_of-decimal_on (suc zero) n acc h k = rw (small) (ap (λ m. number_of m acc) (omega arith))
  where
    small : ltb n 10 ≡ true
    small = ground (arith, h)
number_of-decimal_on (suc (suc fuel)) n acc h k = elim (Bool-cases (ltb n 10)) [
  | inl small ↦ rw small (ap (λ m. number_of m acc) (omega arith))
  | inr large ↦ rw large (
      number_of-decimal_on (suc fuel) (n / 10) _ (omega (arith, h)) (omega arith)
      ∙ ap (λ m. number_of m acc) (omega arith))
]

-- The digits written for an integer up to the maximum exact integer denote it: the fuel is enough.
pub number_of-decimal : (n : ℕ) → n ≤ max_integer → number_of 0 (decimal 20 n []) ≡ n
number_of-decimal n h = number_of-decimal_on 20 n [] (omega (arith, h)) (omega arith)
