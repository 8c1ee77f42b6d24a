-- ===== src/Independent/Clock.antt =====
-- The pattern of `timestamp` of the second implementation, with the digits behind the point that
-- `datetime.fromisoformat` reads.
use infra_artifact_ledger.Prelude.{
  ℕ, zero, suc, ◌-◌, ◌+◌, ◌*◌, ◌≡◌, refl, ap, Bool, true, [], ◌∷◌, Option, some, none, arith, ltb,
  eqb, all, if◌then◌else◌, and_both,
}
use infra_artifact_ledger.Text.{Text}
use infra_artifact_ledger.Validation.Scalars.{is_digit}
use infra_artifact_ledger.Validation.Time.{
  Stamp, digits, literal, skip_digits, fraction, zone, then_with, time_letter, time_match,
}

module _ (is_decimal : ℕ → Bool) where
  unfoldable pub skip_decimals : Text → Text
  skip_decimals [] = []
  skip_decimals (c ∷ rest) = let r = skip_decimals rest in if is_decimal c then r else c ∷ rest

  -- `\d+` behind the point: `fromisoformat` wants ASCII digits up to the sixth place and passes over
  -- what is behind it.
  unfoldable pub decimals : ℕ → Text → Text
  unfolding skip_decimals
  decimals zero rest = skip_decimals rest
  decimals (suc n) [] = []
  decimals (suc n) (c ∷ rest) = let r = decimals n rest in if is_digit c then r else c ∷ rest

  -- `(?:\.\d+)?`
  unfoldable pub loose_fraction : Text → Option Text
  unfolding decimals
  loose_fraction [] = some []
  loose_fraction (c ∷ []) = if eqb c b'.' then none else some (c ∷ [])
  loose_fraction (c ∷ d ∷ rest) =
      if eqb c b'.'
      then (if is_digit d then some (decimals 5 rest) else none)
      else some (c ∷ d ∷ rest)

  -- The match of the pattern, with the digits in ASCII where `fromisoformat` reads them.
  unfoldable pub timestamp_match : Text → Option Stamp
  unfolding digits literal loose_fraction zone
  timestamp_match value = then_with (digits 4 0 value) λ y. then_with (literal b'-' y.1) λ r1.
      then_with (digits 2 0 r1) λ mo. then_with (literal b'-' mo.1) λ r2.
        then_with (digits 2 0 r2) λ d. then_with (time_letter d.1) λ r3.
          then_with (digits 2 0 r3) λ h. then_with (literal b':' h.1) λ r4.
            then_with (digits 2 0 r4) λ mi. then_with (literal b':' mi.1) λ r5.
              then_with (digits 2 0 r5) λ s. then_with (loose_fraction s.1) λ r6.
                then_with (zone r6) λ z. some (record {
                  year = y.0;
                  month = mo.0;
                  day = d.0;
                  hour = h.0;
                  minute = mi.0;
                  second = s.0;
                  zone = z;
                })

-- All characters are ASCII.
abbrev pub IsAscii : Text → Type 0
IsAscii t = all (λ c. ltb c 128) t ≡ true

-- On ASCII the pattern's digits are the ASCII ones, as `re` documents.
abbrev pub OnAscii : (ℕ → Bool) → Type 0
OnAscii is_decimal = (c : ℕ) → ltb c 128 ≡ true → is_decimal c ≡ is_digit c

then_agree :
    {A B : Type 0} (o : Option A) (f g : A → Option B)
    → ((a : A) → o ≡ some a → f a ≡ g a)
    → then_with o f ≡ then_with o g
then_agree none f g k = refl
then_agree (some a) f g k = k a refl

then_same :
    {A B : Type 0} {o p : Option A} (f : A → Option B) → o ≡ p → then_with o f ≡ then_with p f
then_same f e = ap (λ o. then_with o f) e

digits-IsAscii :
    (n acc : ℕ) (t : Text) (r : ℕ × Text) → digits n acc t ≡ some r → IsAscii t → IsAscii r.1
unfolding digits
digits-IsAscii zero acc t r e h = ground (arith, e, h)
digits-IsAscii (suc n) acc [] r e h = cc
digits-IsAscii (suc n) acc (c ∷ t) r e h =
    ground (arith, e, h, digits-IsAscii n (acc * 10 + (c - b'0')) t r)

literal-IsAscii : (c : ℕ) (t r : Text) → literal c t ≡ some r → IsAscii t → IsAscii r
unfolding literal
literal-IsAscii c [] r e h = cc
literal-IsAscii c (d ∷ t) r e h = ground (arith, e, h)

time_letter-IsAscii : (t r : Text) → time_letter t ≡ some r → IsAscii t → IsAscii r
time_letter-IsAscii [] r e h = cc
time_letter-IsAscii (c ∷ t) r e h = ground (arith, e, h)

module _ (is_decimal : ℕ → Bool) (on_ascii : OnAscii is_decimal) where
  skip_decimals-skip_digits : (t : Text) → IsAscii t → skip_decimals is_decimal t ≡ skip_digits t
  unfolding skip_decimals skip_digits
  skip_decimals-skip_digits [] h = refl
  skip_decimals-skip_digits (c ∷ t) h =
      let (ascii, rest) = and_both (ltb c 128) _ h in
      rw (on_ascii c ascii) (rw (skip_decimals-skip_digits t rest) refl)

  decimals-skip_digits : (n : ℕ) (t : Text) → IsAscii t → decimals is_decimal n t ≡ skip_digits t
  unfolding decimals skip_digits
  decimals-skip_digits zero t h = skip_decimals-skip_digits t h
  decimals-skip_digits (suc n) [] h = refl
  decimals-skip_digits (suc n) (c ∷ t) h =
      let (ascii, rest) = and_both (ltb c 128) _ h in rw (decimals-skip_digits n t rest) refl

  loose_fraction-fraction : (t : Text) → IsAscii t → loose_fraction is_decimal t ≡ fraction t
  unfolding loose_fraction fraction
  loose_fraction-fraction [] h = refl
  loose_fraction-fraction (c ∷ []) h = refl
  loose_fraction-fraction (c ∷ d ∷ t) h =
      let (ascii, rest) = and_both (ltb c 128) _ h in
      let (ascii2, rest2) = and_both (ltb d 128) _ rest in rw (decimals-skip_digits 5 t rest2) refl

  -- On ASCII text the two patterns read the same.
  pub timestamp_match-time_match :
      (t : Text) → IsAscii t → timestamp_match is_decimal t ≡ time_match t
  unfolding timestamp_match time_match
  timestamp_match-time_match t a0 = then_agree _ _ _ λ y e1.
      let a1 = digits-IsAscii 4 0 t y e1 a0 in
      then_agree _ _ _ λ r1 e2.
        let a2 = literal-IsAscii b'-' y.1 r1 e2 a1 in
        then_agree _ _ _ λ mo e3.
          let a3 = digits-IsAscii 2 0 r1 mo e3 a2 in
          then_agree _ _ _ λ r2 e4.
            let a4 = literal-IsAscii b'-' mo.1 r2 e4 a3 in
            then_agree _ _ _ λ d e5.
              let a5 = digits-IsAscii 2 0 r2 d e5 a4 in
              then_agree _ _ _ λ r3 e6.
                let a6 = time_letter-IsAscii d.1 r3 e6 a5 in
                then_agree _ _ _ λ h e7.
                  let a7 = digits-IsAscii 2 0 r3 h e7 a6 in
                  then_agree _ _ _ λ r4 e8.
                    let a8 = literal-IsAscii b':' h.1 r4 e8 a7 in
                    then_agree _ _ _ λ mi e9.
                      let a9 = digits-IsAscii 2 0 r4 mi e9 a8 in
                      then_agree _ _ _ λ r5 e10.
                        let a10 = literal-IsAscii b':' mi.1 r5 e10 a9 in
                        then_agree _ _ _ λ s e11.
                          then_same _
                            (loose_fraction-fraction s.1 (digits-IsAscii 2 0 r5 s e11 a10))
