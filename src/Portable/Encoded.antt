-- ===== src/Portable/Encoded.antt =====
-- The Base64 text of bytes passes the checks of `_content_header`, and has the length that they derive.
use infra_artifact_ledger.Prelude.{
  ℕ, ◌+◌, ◌*◌, ◌/◌, ◌%◌, ◌<◌, ◌≤◌, ◌≡◌, ◌≢◌, refl, ap, ◌∙◌, sym, Bool, true, false, ◌&&◌, ◌||◌, [],
  ◌∷◌, arith, eqb, leb, ltb, ◌==◌, ==-false, ==-refl, Bool-cases, inl, inr, length, all, All,
  if◌then◌else◌,
}
use infra_artifact_ledger.Text.{Text, Bytes, text, text_eq, Text-discrete}
use infra_artifact_ledger.Validation.Scalars.{is_alnum}
use infra_artifact_ledger.Portable.Base64.{digit64, b64encode, IsByte, digit64-pad, four_numbers}
use infra_artifact_ledger.Portable.Content.{
  ends_with, padding, base64_match, is_ascii, decoded_length,
}

digit64-alphabet :
    (n : ℕ) → n < 64 → (is_alnum (digit64 n) || eqb (digit64 n) b'+' || eqb (digit64 n) b'/') ≡ true
unfolding digit64
digit64-alphabet n h = ground (arith, h)

digit64-ascii : (n : ℕ) → n < 64 → ltb (digit64 n) 128 ≡ true
unfolding digit64
digit64-ascii n h = ground (arith, h)

base64_match-digit64 : (n : ℕ) (s : Text) → n < 64 → base64_match (digit64 n ∷ s) ≡ base64_match s
unfolding base64_match
base64_match-digit64 n s h =
    ap
      (λ b.
        if b
        then base64_match s
        else all (λ d. eqb d b'=') (digit64 n ∷ s) && leb (length (digit64 n ∷ s)) 2)
      (digit64-alphabet n h)

is_ascii-digit64 : (n : ℕ) (s : Text) → n < 64 → is_ascii (digit64 n ∷ s) ≡ is_ascii s
is_ascii-digit64 n s h = ap (λ b. b && is_ascii s) (digit64-ascii n h)

-- What the two tests say of a text behind characters of the alphabet.
abbrev plain : Text → Bool
plain s = base64_match s && is_ascii s

plain-digit64 : (n : ℕ) (s : Text) → n < 64 → plain (digit64 n ∷ s) ≡ plain s
plain-digit64 n s h = ground (arith, base64_match-digit64 n s h, is_ascii-digit64 n s h)

plain-four :
    (p q r k : ℕ) (s : Text)
    → (p < 64) × (q < 64) × (r < 64) × (k < 64)
    → plain (digit64 p ∷ digit64 q ∷ digit64 r ∷ digit64 k ∷ s) ≡ plain s
plain-four p q r k s (hp, hq, hr, hk) =
    plain-digit64 p (digit64 q ∷ digit64 r ∷ digit64 k ∷ s) hp
    ∙ plain-digit64 q (digit64 r ∷ digit64 k ∷ s) hq
    ∙ plain-digit64 r (digit64 k ∷ s) hr
    ∙ plain-digit64 k s hk

pub plain-b64encode : (raw : Bytes) → All IsByte raw → plain (b64encode raw) ≡ true
unfolding b64encode base64_match
plain-b64encode [] h = refl
plain-b64encode (a ∷ []) h =
    let (p, _, _, _) = four_numbers a 0 0 h.0 (omega arith) (omega arith) in
    plain-digit64 (a / 4) (digit64 (a % 4 * 16) ∷ 61 ∷ 61 ∷ []) p
    ∙ plain-digit64 (a % 4 * 16) (61 ∷ 61 ∷ []) (omega arith)
plain-b64encode (a ∷ b ∷ []) h =
    let (p, q, _, _) = four_numbers a b 0 h.0 h.1.0 (omega arith) in
    plain-digit64 (a / 4) (digit64 (a % 4 * 16 + b / 16) ∷ digit64 (b % 16 * 4) ∷ 61 ∷ []) p
    ∙ plain-digit64 (a % 4 * 16 + b / 16) (digit64 (b % 16 * 4) ∷ 61 ∷ []) q
    ∙ plain-digit64 (b % 16 * 4) (61 ∷ []) (omega arith)
plain-b64encode (a ∷ b ∷ c ∷ rest) h =
    plain-four (a / 4) (a % 4 * 16 + b / 16) (b % 16 * 4 + c / 64) (c % 64) (b64encode rest)
      (four_numbers a b c h.0 h.1.0 h.1.1.0)
    ∙ plain-b64encode rest h.1.1.1

-- A text that is longer than the suffix ends with it if its tail does.
ends_with-longer :
    (suffix : Text) (c : ℕ) (cs : Text)
    → length suffix ≤ length cs
    → ends_with suffix (c ∷ cs) ≡ ends_with suffix cs
ends_with-longer suffix c cs h =
    ap (λ b. b || ends_with suffix cs)
      (==-false (c ∷ cs) suffix (λ e. let k = ap length e in omega (arith, h, k)))

padding-longer : (c : ℕ) (cs : Text) → 2 ≤ length cs → padding (c ∷ cs) ≡ padding cs
unfolding padding
padding-longer c cs h =
    rw (ends_with-longer (text "==") c cs h)
      (rw (ends_with-longer (text "=") c cs (omega (arith, h))) refl)

padding-group :
    (a b c d : ℕ) (cs : Text) → 2 ≤ length cs → padding (a ∷ b ∷ c ∷ d ∷ cs) ≡ padding cs
padding-group a b c d cs h =
    padding-longer a (b ∷ c ∷ d ∷ cs) (omega (arith, h))
    ∙ padding-longer b (c ∷ d ∷ cs) (omega (arith, h))
    ∙ padding-longer c (d ∷ cs) (omega (arith, h))
    ∙ padding-longer d cs h

first_of : Text → ℕ
first_of [] = 0
first_of (c ∷ cs) = c

first-two : {c d x y : ℕ} → c ∷ d ∷ [] ≡ x ∷ y ∷ [] → c ≡ x
unfolding first_of
first-two e = ap first_of e

one-equal : (d : ℕ) → ((d ∷ []) == text "=") ≡ eqb d b'='
unfolding first_of
one-equal d = elim (Bool-cases (eqb d b'=')) [
  | inl same ↦
      let e : d ≡ b'=' = ground (arith, same) in
      ap (λ n. (n ∷ []) == text "=") e ∙ ==-refl (text "=") ∙ sym same
  | inr other ↦
      ==-false (d ∷ []) (text "=")
        (λ e. let k : d ≡ b'=' = ap first_of e in ground (arith, k, other))
      ∙ sym other
]

-- The last two characters decide the padding.
padding-last : (c d : ℕ) → eqb c b'=' ≡ false → padding (c ∷ d ∷ []) ≡ (if eqb d b'=' then 1 else 0)
unfolding padding
padding-last c d h =
    let n : c ≢ b'=' = (λ e. ground (arith, e, h)) in
    let f1 = ==-false (c ∷ d ∷ []) (text "==") (λ e. n (first-two e)) in
    let f2 = ==-false (d ∷ []) (text "==") (λ e. let k = ap length e in omega (arith, k)) in
    let f3 = ==-false [] (text "==") (λ e. let k = ap length e in omega (arith, k)) in
    let f4 = ==-false (c ∷ d ∷ []) (text "=") (λ e. let k = ap length e in omega (arith, k)) in
    let f5 = ==-false [] (text "=") (λ e. let k = ap length e in omega (arith, k)) in
    let f6 = one-equal d in ground (arith, f1, f2, f3, f4, f5, f6)

length-b64encode : (raw : Bytes) → length (b64encode raw) ≡ (length raw + 2) / 3 * 4
unfolding b64encode
length-b64encode [] = refl
length-b64encode (a ∷ []) = refl
length-b64encode (a ∷ b ∷ []) = refl
length-b64encode (a ∷ b ∷ c ∷ rest) = let e = length-b64encode rest in omega (arith, e)

padding-empty : padding [] ≡ 0
unfolding padding Text-discrete
padding-empty = refl

padding-double : padding (b'=' ∷ b'=' ∷ []) ≡ 2
unfolding padding Text-discrete
padding-double = refl

padding-short : (p q c d : ℕ) → padding (p ∷ q ∷ c ∷ d ∷ []) ≡ padding (c ∷ d ∷ [])
padding-short p q c d =
    padding-longer p (q ∷ c ∷ d ∷ []) (omega arith) ∙ padding-longer q (c ∷ d ∷ []) (omega arith)

padding-b64encode :
    (raw : Bytes) → All IsByte raw → length raw + padding (b64encode raw) ≡ (length raw + 2) / 3 * 3
unfolding b64encode
padding-b64encode [] h = rw padding-empty refl
padding-b64encode (a ∷ []) h =
    let e = padding-short (digit64 (a / 4)) (digit64 (a % 4 * 16)) b'=' b'=' in
    let f = padding-double in omega (arith, e, f)
padding-b64encode (a ∷ b ∷ []) h =
    let e =
      padding-short (digit64 (a / 4)) (digit64 (a % 4 * 16 + b / 16)) (digit64 (b % 16 * 4)) b'=' in
    let f = padding-last (digit64 (b % 16 * 4)) b'=' (digit64-pad (b % 16 * 4) (omega arith)) in
    omega (arith, e, f)
padding-b64encode (a ∷ b ∷ c ∷ []) h =
    let (_, _, r, k) = four_numbers a b c h.0 h.1.0 h.1.1.0 in
    let q = digit64 (b % 16 * 4 + c / 64) in
    let e = padding-short (digit64 (a / 4)) (digit64 (a % 4 * 16 + b / 16)) q (digit64 (c % 64)) in
    let f = padding-last q (digit64 (c % 64)) (digit64-pad (b % 16 * 4 + c / 64) r) in
    let g = ap (λ x. if x then 1 else 0) (digit64-pad (c % 64) k) in
    let sum = e ∙ f ∙ g in omega (arith, sum)
padding-b64encode (a ∷ b ∷ c ∷ d ∷ rest) h =
    let l = length-b64encode (d ∷ rest) in
    let e =
      padding-group (digit64 (a / 4)) (digit64 (a % 4 * 16 + b / 16))
        (digit64 (b % 16 * 4 + c / 64)) (digit64 (c % 64)) (b64encode (d ∷ rest))
        (omega (arith, l)) in
    let k = padding-b64encode (d ∷ rest) h.1.1.1 in omega (arith, e, k)

pub length-b64encode_whole : (raw : Bytes) → eqb (length (b64encode raw) % 4) 0 ≡ true
length-b64encode_whole raw = let e = length-b64encode raw in ground (arith, whole e)
  where
    whole : length (b64encode raw) ≡ (length raw + 2) / 3 * 4 → length (b64encode raw) % 4 ≡ 0
    whole e = omega (arith, e)

-- The length that the header derives from the text is the number of bytes.
pub decoded_length-b64encode :
    (raw : Bytes) → All IsByte raw → decoded_length (b64encode raw) ≡ length raw
unfolding decoded_length
decoded_length-b64encode raw h =
    let l = length-b64encode raw in let p = padding-b64encode raw h in omega (arith, l, p)
