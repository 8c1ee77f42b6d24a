-- ===== src/Json/Integers.antt =====
-- The reader at the digits that `json.dumps` writes for an integer.
use infra_artifact_ledger.Prelude.{
  ℕ, zero, suc, ◌+◌, ◌/◌, ◌%◌, ◌≤◌, ◌<◌, ◌≡◌, refl, ap, ◌∙◌, sym, inl, inr, Bool-cases, Bool, true,
  false, ◌&&◌, [], ◌∷◌, ◌++◌, some, none, arith, ltb, length, all, if◌then◌else◌,
}
use infra_artifact_ledger.Text.{Text}
use infra_artifact_ledger.Errors.{ok, ◌>>=◌}
use infra_artifact_ledger.Validation.Limits.{max_integer}
use infra_artifact_ledger.Validation.Scalars.{is_digit, within}
use infra_artifact_ledger.Canonical.{num, negative, decimal}
use infra_artifact_ledger.Canonical.Decimal.{ten_to, number_of-decimal}
use infra_artifact_ledger.Json.Scan.Size.{ends}
use infra_artifact_ledger.Json.Numbers.{
  span_digits, whole_part, fraction_part, exponent_part, integer_value, unsigned_number, number,
}

-- The text is a digit from 1 to 9 and other digits behind it.
record Leads (s : Text) : Type 0 where
  first : ℕ
  more : Text
  is_cons : s ≡ first ∷ more
  nonzero : within b'1' b'9' first ≡ true
  digits : all is_digit more ≡ true

decimal-Leads_on :
    (fuel n : ℕ) (acc : Text)
    → 1 ≤ n
    → n < ten_to fuel
    → all is_digit acc ≡ true
    → Leads (decimal fuel n acc)
unfolding decimal
decimal-Leads_on zero n acc h k d = absurd (omega (arith, h, k))
decimal-Leads_on (suc fuel) n acc h k d = elim (Bool-cases (ltb n 10)) [
  | inl small ↦ rw small (record {
    first = b'0' + n;
    more = acc;
    is_cons = refl;
    nonzero = ground (arith, h, small);
    digits = d;
  })
  | inr large ↦ rw large (
      decimal-Leads_on fuel (n / 10) ((b'0' + n % 10) ∷ acc) (ground (arith, large))
        (omega (arith, k)) (ground (arith, d)))
]

length-decimal_on :
    (k fuel n : ℕ) (acc : Text)
    → n < ten_to k
    → 1 ≤ k
    → length (decimal fuel n acc) ≤ k + length acc
unfolding decimal
length-decimal_on k zero n acc h l = omega arith
length-decimal_on zero (suc fuel) n acc h l = absurd (omega (arith, l))
length-decimal_on (suc zero) (suc fuel) n acc h l = ground (arith, h)
length-decimal_on (suc (suc k)) (suc fuel) n acc h l = elim (Bool-cases (ltb n 10)) [
  | inl small ↦ rw small (omega arith)
  | inr large ↦ rw large (
      let r =
        length-decimal_on (suc k) fuel (n / 10) ((b'0' + n % 10) ∷ acc) (omega (arith, h))
          (omega arith) in
      omega (arith, r))
]

length-decimal : (n : ℕ) → n ≤ max_integer → ltb 16 (length (decimal 20 n [])) ≡ false
length-decimal n h =
    let r = length-decimal_on 16 20 n [] (omega (arith, h)) (omega arith) in ground (arith, r)

span_digits-append :
    (ds rest : Text)
    → all is_digit ds ≡ true
    → ends rest ≡ true
    → span_digits (ds ++ rest) ≡ (ds, rest)
unfolding span_digits
span_digits-append [] [] h e = refl
span_digits-append [] (c ∷ rest) h e = ground (arith, e)
span_digits-append (d ∷ ds) rest h e =
    ground (arith, h, span_digits-append ds rest (ground (arith, h)) e)

whole_part-Leads :
    (s rest : Text) → Leads s → ends rest ≡ true → whole_part (s ++ rest) ≡ some (s, rest)
unfolding whole_part
whole_part-Leads s rest l e =
    rw (l.is_cons) (rw (span_digits-append l.more rest l.digits e) (ground (arith, l.nonzero)))

whole_part-decimal :
    (n : ℕ) (rest : Text)
    → n ≤ max_integer
    → ends rest ≡ true
    → whole_part (decimal 20 n [] ++ rest) ≡ some (decimal 20 n [], rest)
unfolding whole_part decimal
whole_part-decimal zero rest h e = refl
whole_part-decimal (suc n) rest h e =
    whole_part-Leads _ rest (decimal-Leads_on 20 (suc n) [] (omega arith) (omega (arith, h)) refl) e

fraction_part-ends : (rest : Text) → ends rest ≡ true → fraction_part rest ≡ none
unfolding fraction_part
fraction_part-ends [] e = refl
fraction_part-ends (c ∷ cs) e = ground (arith, e)

exponent_part-ends : (rest : Text) → ends rest ≡ true → exponent_part rest ≡ none
unfolding exponent_part
exponent_part-ends [] e = refl
exponent_part-ends (c ∷ []) e = refl
exponent_part-ends (c ∷ s ∷ cs) e = ground (arith, e)

integer_value-decimal :
    (minus : Bool) (n : ℕ)
    → n ≤ max_integer
    → integer_value minus (decimal 20 n []) ≡ ok (if minus && ltb 0 n then negative n else num n)
unfolding integer_value
integer_value-decimal minus n h = rw (length-decimal n h, number_of-decimal n h) refl

-- A token with no fraction and no exponent is an integer.
unsigned_number-integer :
    (finite : Text → Bool) (minus : Bool) (s ds rest : Text)
    → whole_part s ≡ some (ds, rest)
    → fraction_part rest ≡ none
    → exponent_part rest ≡ none
    → unsigned_number finite minus s ≡ (integer_value minus ds >>= λ v. ok (v, rest))
unfolding unsigned_number
unsigned_number-integer finite minus s ds rest h f e = ground (arith, h, f, e)

unsigned_number-decimal :
    (finite : Text → Bool) (minus : Bool) (n : ℕ) (rest : Text)
    → n ≤ max_integer
    → ends rest ≡ true
    → unsigned_number finite minus (decimal 20 n [] ++ rest)
      ≡ ok ((if minus && ltb 0 n then negative n else num n), rest)
unsigned_number-decimal finite minus n rest h e =
    unsigned_number-integer finite minus _ (decimal 20 n []) rest (whole_part-decimal n rest h e)
      (fraction_part-ends rest e) (exponent_part-ends rest e)
    ∙ ap (λ r. r >>= λ v. ok (v, rest)) (integer_value-decimal minus n h)

within-digit : (c : ℕ) → within b'1' b'9' c ≡ true → is_digit c ≡ true
within-digit c h = ground (arith, h)

number-unsigned :
    (finite : Text → Bool) (c : ℕ) (cs : Text)
    → is_digit c ≡ true
    → number finite (c ∷ cs) ≡ unsigned_number finite false (c ∷ cs)
unfolding number
number-unsigned finite c cs h = ground (arith, h)

-- The digits of a number do not begin with a sign.
pub decimal-digit :
    (n : ℕ)
    → n ≤ max_integer
    → (c : ℕ) × (cs : Text) × (decimal 20 n [] ≡ c ∷ cs) × (is_digit c ≡ true)
unfolding decimal
decimal-digit zero h = (b'0', [], refl, refl)
decimal-digit (suc n) h =
    let l = decimal-Leads_on 20 (suc n) [] (omega arith) (omega (arith, h)) refl in
    (l.first, l.more, l.is_cons, within-digit l.first l.nonzero)

-- An integer is read back from its digits.
pub number-decimal :
    (finite : Text → Bool) (n : ℕ) (rest : Text)
    → n ≤ max_integer
    → ends rest ≡ true
    → number finite (decimal 20 n [] ++ rest) ≡ ok (num n, rest)
unfolding number
number-decimal finite n rest h e =
    let (c, cs, is_cons, digit) = decimal-digit n h in
    let unsigned = unsigned_number-decimal finite false n rest h e in
    ap (λ ds. number finite (ds ++ rest)) is_cons
    ∙ number-unsigned finite c (cs ++ rest) digit
    ∙ ap (λ ds. unsigned_number finite false (ds ++ rest)) (sym is_cons)
    ∙ unsigned

pub number-minus :
    (finite : Text → Bool) (n : ℕ) (rest : Text)
    → 1 ≤ n
    → n ≤ max_integer
    → ends rest ≡ true
    → number finite (b'-' ∷ (decimal 20 n [] ++ rest)) ≡ ok (negative n, rest)
unfolding number
number-minus finite n rest k h e =
    unsigned_number-decimal finite true n rest h e ∙ ground (arith, k)
