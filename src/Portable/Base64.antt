-- ===== src/Portable/Base64.antt =====
-- `base64.b64encode`, and `base64.b64decode` with `validate=True` on texts of whole groups of four.
use infra_artifact_ledger.Prelude.{
  ℕ, ◌+◌, ◌-◌, ◌*◌, ◌/◌, ◌%◌, ◌<◌, ◌≡◌, refl, ap, ◌∙◌, false, [], ◌∷◌, Option, some, none, arith,
  eqb, ltb, All, if◌then◌else◌,
}
use infra_artifact_ledger.Text.{Text, Bytes}
use infra_artifact_ledger.Validation.Scalars.{within, is_digit}

-- The character of a number below 64.
unfoldable pub digit64 : ℕ → ℕ
digit64 n =
    if ltb n 26
    then b'A' + n
    else if ltb n 52
    then b'a' + (n - 26)
    else if ltb n 62
    then b'0' + (n - 52)
    else if eqb n 62
    then b'+'
    else b'/'

-- The number of a character.
unfoldable pub sextet : ℕ → Option ℕ
sextet c =
    if within b'A' b'Z' c
    then some (c - b'A')
    else if within b'a' b'z' c
    then some (c - b'a' + 26)
    else if is_digit c
    then some (c - b'0' + 52)
    else if eqb c b'+'
    then some 62
    else if eqb c b'/'
    then some 63
    else none

unfoldable pub b64encode : Bytes → Text
unfolding digit64
b64encode [] = []
b64encode (a ∷ []) = digit64 (a / 4) ∷ digit64 (a % 4 * 16) ∷ b'=' ∷ b'=' ∷ []
b64encode (a ∷ b ∷ []) =
    digit64 (a / 4) ∷ digit64 (a % 4 * 16 + b / 16) ∷ digit64 (b % 16 * 4) ∷ b'=' ∷ []
b64encode (a ∷ b ∷ c ∷ rest) =
    digit64 (a / 4)
    ∷ digit64 (a % 4 * 16 + b / 16)
    ∷ digit64 (b % 16 * 4 + c / 64)
    ∷ digit64 (c % 64)
    ∷ b64encode rest

-- The bytes of a group, from the numbers of its characters.
abbrev three_bytes : ℕ → ℕ → ℕ → ℕ → Bytes → Bytes
three_bytes p q r s rest = (p * 4 + q / 16) ∷ (q % 16 * 16 + r / 4) ∷ (r % 4 * 64 + s) ∷ rest

abbrev with_four : Option ℕ → Option ℕ → Option ℕ → Option ℕ → Option Bytes → Option Bytes
with_four (some p) (some q) (some r) (some s) (some rest) = some (three_bytes p q r s rest)
with_four _ _ _ _ _ = none

abbrev with_three : Option ℕ → Option ℕ → Option ℕ → Option Bytes
with_three (some p) (some q) (some r) = some ((p * 4 + q / 16) ∷ (q % 16 * 16 + r / 4) ∷ [])
with_three _ _ _ = none

abbrev with_two : Option ℕ → Option ℕ → Option Bytes
with_two (some p) (some q) = some ((p * 4 + q / 16) ∷ [])
with_two _ _ = none

-- The last group, which may be padded.
abbrev last_group : ℕ → ℕ → ℕ → ℕ → Option Bytes
unfolding sextet
last_group a b c d =
    if eqb d b'='
    then if eqb c b'='
      then with_two (sextet a) (sextet b)
      else with_three (sextet a) (sextet b) (sextet c)
    else with_four (sextet a) (sextet b) (sextet c) (sextet d) (some [])

unfoldable pub b64decode : Text → Option Bytes
unfolding sextet
b64decode [] = some []
b64decode (a ∷ b ∷ c ∷ d ∷ []) = last_group a b c d
b64decode (a ∷ b ∷ c ∷ d ∷ e ∷ rest) =
    with_four (sextet a) (sextet b) (sextet c) (sextet d) (b64decode (e ∷ rest))
b64decode _ = none

abbrev pub IsByte : ℕ → Type 0
IsByte b = b < 256

sextet-digit64 : (n : ℕ) → n < 64 → sextet (digit64 n) ≡ some n
unfolding digit64 sextet
sextet-digit64 n h = ground (arith, h)

pub digit64-pad : (n : ℕ) → n < 64 → eqb (digit64 n) b'=' ≡ false
unfolding digit64
digit64-pad n h = ground (arith, h)

-- The numbers of three bytes' characters, and the bytes that they make.
pub four_numbers :
    (a b c : ℕ)
    → a < 256
    → b < 256
    → c < 256
    → (a / 4 < 64) × (a % 4 * 16 + b / 16 < 64) × (b % 16 * 4 + c / 64 < 64) × (c % 64 < 64)
four_numbers a b c h k l = (omega (arith, h), omega (arith, k), omega (arith, l), omega arith)

three_sums :
    (a b c : ℕ)
    → b < 256
    → c < 256
    → (a / 4 * 4 + (a % 4 * 16 + b / 16) / 16 ≡ a)
      × ((a % 4 * 16 + b / 16) % 16 * 16 + (b % 16 * 4 + c / 64) / 4 ≡ b)
      × ((b % 16 * 4 + c / 64) % 4 * 64 + c % 64 ≡ c)
three_sums a b c k l = (omega (arith, k), omega (arith, k, l), omega (arith, l))

with_four-digit64 :
    (p q r s : ℕ) (rest : Bytes)
    → (p < 64) × (q < 64) × (r < 64) × (s < 64)
    → with_four
        (sextet (digit64 p))
        (sextet (digit64 q))
        (sextet (digit64 r))
        (sextet (digit64 s))
        (some rest)
      ≡ some (three_bytes p q r s rest)
with_four-digit64 p q r s rest (hp, hq, hr, hs) =
    rw (sextet-digit64 p hp)
      (rw (sextet-digit64 q hq) (rw (sextet-digit64 r hr) (rw (sextet-digit64 s hs) refl)))

three_bytes-sums :
    (a b c : ℕ) (rest : Bytes)
    → b < 256
    → c < 256
    → three_bytes (a / 4) (a % 4 * 16 + b / 16) (b % 16 * 4 + c / 64) (c % 64) rest
      ≡ a ∷ b ∷ c ∷ rest
three_bytes-sums a b c rest k l = let (p, q, r) = three_sums a b c k l in rw (p, q, r) refl

with_two-digit64 :
    (p q : ℕ)
    → p < 64
    → q < 64
    → with_two (sextet (digit64 p)) (sextet (digit64 q)) ≡ some ((p * 4 + q / 16) ∷ [])
with_two-digit64 p q hp hq = rw (sextet-digit64 p hp) (rw (sextet-digit64 q hq) refl)

last_three :
    (p q r : ℕ)
    → p < 64
    → q < 64
    → r < 64
    → last_group (digit64 p) (digit64 q) (digit64 r) b'='
      ≡ some ((p * 4 + q / 16) ∷ (q % 16 * 16 + r / 4) ∷ [])
unfolding last_group
last_three p q r hp hq hr =
    ap
      (λ b.
        if b
        then with_two (sextet (digit64 p)) (sextet (digit64 q))
        else with_three (sextet (digit64 p)) (sextet (digit64 q)) (sextet (digit64 r)))
      (digit64-pad r hr)
    ∙ rw (sextet-digit64 p hp) (rw (sextet-digit64 q hq) (rw (sextet-digit64 r hr) refl))

last_four :
    (p q r s : ℕ)
    → (p < 64) × (q < 64) × (r < 64) × (s < 64)
    → last_group (digit64 p) (digit64 q) (digit64 r) (digit64 s) ≡ some (three_bytes p q r s [])
unfolding last_group
last_four p q r s h =
    ap
      (λ b.
        if b
        then (if eqb (digit64 r) b'='
            then with_two (sextet (digit64 p)) (sextet (digit64 q))
            else with_three (sextet (digit64 p)) (sextet (digit64 q)) (sextet (digit64 r)))
        else with_four (sextet (digit64 p)) (sextet (digit64 q)) (sextet (digit64 r))
            (sextet (digit64 s)) (some []))
      (digit64-pad s h.3)
    ∙ with_four-digit64 p q r s [] h

pub b64encode_cons :
    (b : ℕ) (rest : Bytes) → (e : ℕ) × (cs : Text) × (b64encode (b ∷ rest) ≡ e ∷ cs)
unfolding b64encode
b64encode_cons b [] = (_, _, refl)
b64encode_cons b (c ∷ []) = (_, _, refl)
b64encode_cons b (c ∷ d ∷ rest) = (_, _, refl)

b64decode-group :
    (a b c d : ℕ) (s : Text) (e : ℕ) (cs : Text)
    → s ≡ e ∷ cs
    → b64decode (a ∷ b ∷ c ∷ d ∷ s)
      ≡ with_four (sextet a) (sextet b) (sextet c) (sextet d) (b64decode s)
unfolding b64decode
b64decode-group a b c d s e cs h = rw h refl

two_bytes :
    (a b : ℕ)
    → b < 256
    → some (
        (a / 4 * 4 + (a % 4 * 16 + b / 16) / 16)
        ∷ ((a % 4 * 16 + b / 16) % 16 * 16 + b % 16 * 4 / 4)
        ∷ [])
      ≡ some (a ∷ b ∷ [])
two_bytes a b l =
    let p : a / 4 * 4 + (a % 4 * 16 + b / 16) / 16 ≡ a = omega (arith, l) in
    let q : (a % 4 * 16 + b / 16) % 16 * 16 + b % 16 * 4 / 4 ≡ b = omega (arith, l) in
    rw (p, q) refl

-- Decoding undoes encoding.
pub b64decode-b64encode : (raw : Bytes) → All IsByte raw → b64decode (b64encode raw) ≡ some raw
unfolding b64encode b64decode
b64decode-b64encode [] h = refl
b64decode-b64encode (a ∷ []) h =
    let k = h.0 in
    with_two-digit64 (a / 4) (a % 4 * 16) (omega (arith, k)) (omega arith)
    ∙ ap (λ n. some (n ∷ [])) (omega arith)
b64decode-b64encode (a ∷ b ∷ []) h =
    let k = h.0 in
    let l = h.1.0 in
    last_three (a / 4) (a % 4 * 16 + b / 16) (b % 16 * 4) (omega (arith, k)) (omega (arith, l))
      (omega arith)
    ∙ two_bytes a b l
b64decode-b64encode (a ∷ b ∷ c ∷ []) h =
    last_four _ _ _ _ (four_numbers a b c h.0 h.1.0 h.1.1.0)
    ∙ ap some (three_bytes-sums a b c [] h.1.0 h.1.1.0)
b64decode-b64encode (a ∷ b ∷ c ∷ d ∷ rest) h =
    let (e, cs, is_cons) = b64encode_cons d rest in
    b64decode-group (digit64 (a / 4)) (digit64 (a % 4 * 16 + b / 16))
      (digit64 (b % 16 * 4 + c / 64)) (digit64 (c % 64)) (b64encode (d ∷ rest)) e cs is_cons
    ∙ ap
        (with_four (sextet (digit64 (a / 4))) (sextet (digit64 (a % 4 * 16 + b / 16)))
          (sextet (digit64 (b % 16 * 4 + c / 64))) (sextet (digit64 (c % 64))))
        (b64decode-b64encode (d ∷ rest) h.1.1.1)
    ∙ with_four-digit64 (a / 4) (a % 4 * 16 + b / 16) (b % 16 * 4 + c / 64) (c % 64) (d ∷ rest)
        (four_numbers a b c h.0 h.1.0 h.1.1.0)
    ∙ ap some (three_bytes-sums a b c (d ∷ rest) h.1.0 h.1.1.0)
