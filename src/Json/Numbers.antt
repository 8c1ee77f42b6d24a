-- ===== src/Json/Numbers.antt =====
-- Numbers as `json.loads` reads them, with the hooks `integer` and `floating` of `parse_json`.
use infra_artifact_ledger.Prelude.{
  Bool, true, false, ◌&&◌, ◌||◌, [], ◌∷◌, ◌++◌, Option, some, none, eqb, ltb, length, if◌then◌else◌,
}
use infra_artifact_ledger.Text.{Text}
use infra_artifact_ledger.Errors.{Code, Result, ok, err, ◌>>=◌, ◌>>◌}
use infra_artifact_ledger.Validation.Limits.{fail_if}
use infra_artifact_ledger.Validation.Scalars.{is_digit, within}
use infra_artifact_ledger.Canonical.Decimal.{number_of}
use infra_artifact_ledger.Canonical.{Value, num, negative, real}

-- `[0-9]*`, and the rest
unfoldable pub span_digits : Text → Text × Text
span_digits [] = ([], [])
span_digits (c ∷ cs) =
    let (ds, rest) = span_digits cs in if is_digit c then (c ∷ ds, rest) else ([], c ∷ cs)

-- `0|[1-9][0-9]*`
unfoldable pub whole_part : Text → Option (Text × Text)
unfolding span_digits
whole_part [] = none
whole_part (c ∷ cs) =
    if eqb c b'0'
    then some (c ∷ [], cs)
    else if within b'1' b'9' c
    then some (c ∷ (span_digits cs).0, (span_digits cs).1)
    else none

-- At least one digit, behind a prefix that has been read.
abbrev digits_behind : Text → Text × Text → Option (Text × Text)
digits_behind prefix ([], rest) = none
digits_behind prefix (d ∷ ds, rest) = some (prefix ++ d ∷ ds, rest)

-- `\.[0-9]+`
unfoldable pub fraction_part : Text → Option (Text × Text)
unfolding span_digits
fraction_part [] = none
fraction_part (c ∷ cs) = if eqb c b'.' then digits_behind (c ∷ []) (span_digits cs) else none

-- `[eE][-+]?[0-9]+`
unfoldable pub exponent_part : Text → Option (Text × Text)
unfolding span_digits
exponent_part [] = none
exponent_part (c ∷ []) = none
exponent_part (c ∷ s ∷ cs) =
    if eqb c b'e' || eqb c b'E'
    then (if eqb s b'-' || eqb s b'+'
        then digits_behind (c ∷ s ∷ []) (span_digits cs)
        else digits_behind (c ∷ []) (span_digits (s ∷ cs)))
    else none

-- An optional part: empty where it does not match.
abbrev part_of : Text → Option (Text × Text) → Text × Text
part_of s none = ([], s)
part_of s (some p) = p

-- `integer`: the token without its sign has at most 16 characters.
unfoldable pub integer_value : Bool → Text → Result Value
integer_value minus ds = do
  fail_if (ltb 16 (length ds)) Code.resource_limit
  ok (if minus && ltb 0 (number_of 0 ds) then negative (number_of 0 ds) else num (number_of 0 ds))

module _ (finite : Text → Bool) where
  -- `floating`: the value of the token is finite.
  unfoldable pub real_value : Text → Result Value
  real_value token = do
    fail_if (if finite token then false else true) Code.invalid_input
    ok (real token)

  -- The integer part stands alone, or makes a float with what is behind it.
  abbrev number_of_parts : Bool → Text → Text → Result Value
  number_of_parts minus ds [] = integer_value minus ds
  number_of_parts minus ds (c ∷ more) =
      real_value (if minus then b'-' ∷ (ds ++ c ∷ more) else ds ++ c ∷ more)

  unfoldable pub unsigned_number : Bool → Text → Result (Value × Text)
  unfolding whole_part fraction_part exponent_part integer_value real_value
  unsigned_number minus s = elim (whole_part s) [
    | none ↦ err Code.invalid_input
    | some (ds, s1) ↦
        let (frac, s2) = part_of s1 (fraction_part s1) in
        let (expo, s3) = part_of s2 (exponent_part s2) in
        number_of_parts minus ds (frac ++ expo) >>= λ v. ok (v, s3)
  ]

  unfoldable pub number : Text → Result (Value × Text)
  unfolding unsigned_number
  number [] = err Code.invalid_input
  number (c ∷ cs) = if eqb c b'-' then unsigned_number true cs else unsigned_number false (c ∷ cs)
