-- ===== src/Json/Steps.antt =====
-- The steps of `json.loads` on the texts that containers and their elements are written as.
use infra_artifact_ledger.Prelude.{
  ℕ, suc, ◌≡◌, refl, ap, ◌∙◌, Bool, true, false, [], ◌∷◌, ◌++◌, some, none, arith, distinct,
  append_assoc,
}
use infra_artifact_ledger.Text.{Text, text_eq}
use infra_artifact_ledger.Errors.{Code, Result, ok, err, ◌>>=◌, ◌>>◌}
use infra_artifact_ledger.Validation.Limits.{require}
use infra_artifact_ledger.Validation.Scalars.{is_digit}
use infra_artifact_ledger.Canonical.{
  Value, Items, Fields, str, arr, obj, nil, cons, end, field, keys, escape_all, quoted,
}
use infra_artifact_ledger.Json.Numbers.{number}
use infra_artifact_ledger.Json.Read.{
  skip_space, object_pairs, string_token, expect, begins, behind, value, array, object, items,
  pairs,
}
use infra_artifact_ledger.Json.Tokens.{string_body-escape_all}

pub string_token-quoted : (s rest : Text) → string_token (escape_all s ++ 34 ∷ rest) ≡ ok (s, rest)
unfolding string_token
string_token-quoted s rest =
    ap
      (λ o. elim o as (λ _. Result (Text × Text)) [ none ↦ err Code.invalid_input | some p ↦ ok p ])
      (string_body-escape_all s rest)

module _ (finite : Text → Bool) where
  pub value-string :
      (fuel : ℕ) (s rest : Text) → value finite (suc fuel) (quoted s ++ rest) ≡ ok (str s, rest)
  unfolding value
  value-string fuel s rest =
      ap (λ r. r >>= λ p. ok (str p.0, p.1))
        (ap string_token (append_assoc (escape_all s) (34 ∷ []) rest) ∙ string_token-quoted s rest)

  pub value-number :
      (fuel c : ℕ) (cs : Text)
      → is_digit c ≡ true
      → value finite (suc fuel) (c ∷ cs) ≡ number finite (c ∷ cs)
  unfolding value
  value-number fuel c cs h = ground (arith, h)

  pub value-minus :
      (fuel : ℕ) (cs : Text) → value finite (suc fuel) (b'-' ∷ cs) ≡ number finite (b'-' ∷ cs)
  unfolding value
  value-minus fuel cs = refl

  pub value-array :
      (fuel : ℕ) (s t : Text)
      → skip_space s ≡ t
      → value finite (suc fuel) (b'[' ∷ s) ≡ array finite fuel t
  unfolding value
  value-array fuel s t h = ap (array finite fuel) h

  pub value-object :
      (fuel : ℕ) (s t : Text)
      → skip_space s ≡ t
      → value finite (suc fuel) (b'{' ∷ s) ≡ object finite fuel t
  unfolding value
  value-object fuel s t h = ap (object finite fuel) h

  pub array-items :
      (fuel : ℕ) (s : Text) (xs : Items) (rest : Text)
      → begins b']' s ≡ false
      → items finite fuel s ≡ ok (xs, rest)
      → array finite (suc fuel) s ≡ ok (arr xs, rest)
  unfolding array
  array-items fuel s xs rest h k =
      ap
        (λ b. elim b as (λ _. Result (Value × Text)) [
          | true ↦ ok (arr nil, behind s)
          | false ↦ items finite fuel s >>= λ p. ok (arr p.0, p.1)
        ])
        h
      ∙ ap (λ r. r >>= λ p. ok (arr p.0, p.1)) k

  pub object-pairs :
      (fuel : ℕ) (s : Text) (fs : Fields) (rest : Text)
      → begins b'}' s ≡ false
      → distinct (keys fs) ≡ true
      → pairs finite fuel s ≡ ok (fs, rest)
      → object finite (suc fuel) s ≡ ok (obj fs, rest)
  unfolding object object_pairs
  object-pairs fuel s fs rest h d k =
      ap
        (λ b. elim b as (λ _. Result (Value × Text)) [
          | true ↦ object_pairs end >>= λ v. ok (v, behind s)
          | false ↦ pairs finite fuel s >>= λ p. object_pairs p.0 >>= λ v. ok (v, p.1)
        ])
        h
      ∙ ap (λ r. r >>= λ p. object_pairs p.0 >>= λ v. ok (v, p.1)) k
      ∙ ap (λ b. (require b Code.invalid_input >> ok (obj fs)) >>= λ v. ok (v, rest)) d

  pub items-last :
      (fuel : ℕ) (s : Text) (x : Value) (rest : Text)
      → value finite fuel s ≡ ok (x, b']' ∷ rest)
      → items finite (suc fuel) s ≡ ok (cons x nil, rest)
  unfolding items skip_space
  items-last fuel s x rest h = rw h refl

  pub items-more :
      (fuel : ℕ) (s t u : Text) (x : Value) (xs : Items) (rest : Text)
      → value finite fuel s ≡ ok (x, b',' ∷ t)
      → skip_space t ≡ u
      → items finite fuel u ≡ ok (xs, rest)
      → items finite (suc fuel) s ≡ ok (cons x xs, rest)
  unfolding items skip_space expect
  items-more fuel s t u x xs rest h e k = rw h (rw e (rw k refl))

  pub pairs-last :
      (fuel : ℕ) (key s t : Text) (x : Value) (rest : Text)
      → skip_space s ≡ t
      → value finite fuel t ≡ ok (x, b'}' ∷ rest)
      → pairs finite (suc fuel) (quoted key ++ b':' ∷ s) ≡ ok (field key x end, rest)
  unfolding pairs skip_space expect
  pairs-last fuel key s t x rest e h =
      rw
        (ap string_token (append_assoc (escape_all key) (34 ∷ []) (b':' ∷ s))
          ∙ string_token-quoted key (b':' ∷ s))
        (rw e (rw h refl))

  pub pairs-more :
      (fuel : ℕ) (key s t u w : Text) (x : Value) (fs : Fields) (rest : Text)
      → skip_space s ≡ t
      → value finite fuel t ≡ ok (x, b',' ∷ u)
      → skip_space u ≡ w
      → pairs finite fuel w ≡ ok (fs, rest)
      → pairs finite (suc fuel) (quoted key ++ b':' ∷ s) ≡ ok (field key x fs, rest)
  unfolding pairs skip_space expect
  pairs-more fuel key s t u w x fs rest e h d k =
      rw
        (ap string_token (append_assoc (escape_all key) (34 ∷ []) (b':' ∷ s))
          ∙ string_token-quoted key (b':' ∷ s))
        (rw e (rw h (rw d (rw k refl))))
