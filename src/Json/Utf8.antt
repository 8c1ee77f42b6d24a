-- ===== src/Json/Utf8.antt =====
-- `bytes.decode("utf-8", errors="strict")`, and that it undoes the encoding.
use infra_artifact_ledger.Prelude.{
  ℕ, zero, suc, ◌+◌, ◌-◌, ◌*◌, ◌/◌, ◌%◌, ◌<◌, ◌≤◌, ◌≡◌, refl, ap, ◌∙◌, inl, inr, Bool-cases, true,
  false, [], ◌∷◌, ◌++◌, Option, some, none, arith, eqb, ltb, All, if◌then◌else◌,
}
use infra_artifact_ledger.Text.{Text, Bytes}
use infra_artifact_ledger.Validation.Scalars.{within, is_surrogate}
use infra_artifact_ledger.Canonical.{utf8, encode_utf8}

-- Between characters, or before the last `1 + k` bytes of one, the next of which is in a range.
pub data Pending : Type 0 where
  start : Pending
  more : ℕ → ℕ → ℕ → ℕ → Pending

pub data ByteStep : Type 0 where
  emit : ℕ → ByteStep
  wait : Pending → ByteStep
  malformed : ByteStep

abbrev lead : ℕ → ByteStep
lead b =
    if ltb b 0x80
    then emit b
    else if within 0xc2 0xdf b
    then wait (more 0 (b - 0xc0) 0x80 0xbf)
    else if eqb b 0xe0
    then wait (more 1 0 0xa0 0xbf)
    else if eqb b 0xed
    then wait (more 1 13 0x80 0x9f)
    else if within 0xe1 0xef b
    then wait (more 1 (b - 0xe0) 0x80 0xbf)
    else if eqb b 0xf0
    then wait (more 2 0 0x90 0xbf)
    else if eqb b 0xf4
    then wait (more 2 4 0x80 0x8f)
    else if within 0xf1 0xf3 b
    then wait (more 2 (b - 0xf0) 0x80 0xbf)
    else malformed

unfoldable pub byte_step : Pending → ℕ → ByteStep
byte_step start b = lead b
byte_step (more zero acc lo hi) b =
    if within lo hi b then emit (acc * 64 + (b - 0x80)) else malformed
byte_step (more (suc k) acc lo hi) b =
    if within lo hi b then wait (more k (acc * 64 + (b - 0x80)) 0x80 0xbf) else malformed

abbrev prepend : ℕ → Option Text → Option Text
prepend c none = none
prepend c (some cs) = some (c ∷ cs)

unfoldable pub decode : Pending → Bytes → Option Text
unfolding byte_step
decode start [] = some []
decode (more k acc lo hi) [] = none
decode p (b ∷ bs) = elim (byte_step p b) [
  | emit c ↦ prepend c (decode start bs)
  | wait next ↦ decode next bs
  | malformed ↦ none
]

unfoldable pub decode_utf8 : Bytes → Option Text
unfolding decode
decode_utf8 raw = decode start raw

-- A code point that is no surrogate.
abbrev pub IsScalar : ℕ → Type 0
IsScalar c = (is_surrogate c ≡ false) × (c < 0x110000)

-- The bytes of a code point, one by one.
module _ (c : ℕ) where
  lead_two :
      0x80 ≤ c → c < 0x800 → byte_step start (0xc0 + c / 64) ≡ wait (more 0 (c / 64) 0x80 0xbf)
  unfolding byte_step
  lead_two h k = let e : 0xc0 + c / 64 - 0xc0 ≡ c / 64 = omega arith in ground (arith, e)

  lead_three :
      0x800 ≤ c
      → c < 0x10000
      → is_surrogate c ≡ false
      → (lo : ℕ) × (hi : ℕ) × (byte_step start (0xe0 + c / 4096) ≡ wait (more 1 (c / 4096) lo hi))
        × (lo ≤ 0x80 + c / 64 % 64)
        × (0x80 + c / 64 % 64 ≤ hi)
  unfolding byte_step
  lead_three h k s = elim (Bool-cases (ltb c 0x1000)) [
    | inl small ↦
        let e : c / 4096 ≡ 0 = ground (arith, small) in
        (0xa0, 0xbf, rw e refl, ground (arith, small), omega arith)
    | inr large ↦ elim (Bool-cases (eqb (c / 4096) 13)) [
      | inl last ↦
          let e : c / 4096 ≡ 13 = ground (arith, last) in
          (0x80, 0x9f, rw e refl, omega arith, ground (arith, s))
      | inr other ↦
          let e : 0xe0 + c / 4096 - 0xe0 ≡ c / 4096 = omega arith in
          (0x80, 0xbf, ground (arith, e, large, other), omega arith, omega arith)
    ]
  ]

  lead_four :
      0x10000 ≤ c
      → c < 0x110000
      → (lo : ℕ) × (hi : ℕ) × (byte_step start (0xf0 + c / 262144)
          ≡ wait (more 2 (c / 262144) lo hi))
        × (lo ≤ 0x80 + c / 4096 % 64)
        × (0x80 + c / 4096 % 64 ≤ hi)
  unfolding byte_step
  lead_four h k = elim (Bool-cases (ltb c 0x40000)) [
    | inl small ↦
        let e : c / 262144 ≡ 0 = ground (arith, small) in
        (0x90, 0xbf, rw e refl, omega arith, omega arith)
    | inr large ↦ elim (Bool-cases (eqb (c / 262144) 4)) [
      | inl last ↦
          let e : c / 262144 ≡ 4 = ground (arith, last) in
          (0x80, 0x8f, rw e refl, omega arith, omega arith)
      | inr other ↦
          let e : 0xf0 + c / 262144 - 0xf0 ≡ c / 262144 = omega arith in
          (0x80, 0xbf, ground (arith, e, large, other), omega arith, omega arith)
    ]
  ]

next_byte :
    (k acc lo hi x : ℕ)
    → lo ≤ 0x80 + x
    → 0x80 + x ≤ hi
    → byte_step (more (suc k) acc lo hi) (0x80 + x) ≡ wait (more k (acc * 64 + x) 0x80 0xbf)
unfolding byte_step
next_byte k acc lo hi x h l = let e : 0x80 + x - 0x80 ≡ x = omega arith in ground (arith, e)

last_byte : (acc x : ℕ) → x < 64 → byte_step (more 0 acc 0x80 0xbf) (0x80 + x) ≡ emit (acc * 64 + x)
unfolding byte_step
last_byte acc x h = let e : 0x80 + x - 0x80 ≡ x = omega arith in ground (arith, e)

decode-utf8_one :
    (c : ℕ) (rest : Bytes)
    → ltb c 0x80 ≡ true
    → decode start (utf8 c ++ rest) ≡ prepend c (decode start rest)
unfolding decode byte_step utf8
decode-utf8_one c rest h = ground (arith, h)

utf8_two :
    (c : ℕ)
    → ltb c 0x80 ≡ false
    → ltb c 0x800 ≡ true
    → utf8 c ≡ (0xc0 + c / 64) ∷ (0x80 + c % 64) ∷ []
unfolding utf8
utf8_two c h k = ground (arith, h, k)

utf8_three :
    (c : ℕ)
    → ltb c 0x80 ≡ false
    → ltb c 0x800 ≡ false
    → ltb c 0x10000 ≡ true
    → utf8 c ≡ (0xe0 + c / 4096) ∷ (0x80 + c / 64 % 64) ∷ (0x80 + c % 64) ∷ []
unfolding utf8
utf8_three c h k l = ground (arith, h, k, l)

utf8_four :
    (c : ℕ)
    → ltb c 0x80 ≡ false
    → ltb c 0x800 ≡ false
    → ltb c 0x10000 ≡ false
    → utf8 c
      ≡ (0xf0 + c / 262144) ∷ (0x80 + c / 4096 % 64) ∷ (0x80 + c / 64 % 64) ∷ (0x80 + c % 64) ∷ []
unfolding utf8
utf8_four c h k l = ground (arith, h, k, l)

decode_wait :
    (p q : Pending) (b : ℕ) (bs : Bytes) → byte_step p b ≡ wait q → decode p (b ∷ bs) ≡ decode q bs
unfolding decode byte_step
decode_wait start q b bs h = ground (arith, h)
decode_wait (more zero acc lo hi) q b bs h = ground (arith, h)
decode_wait (more (suc k) acc lo hi) q b bs h = ground (arith, h)

decode_emit :
    (p : Pending) (c b : ℕ) (bs : Bytes)
    → byte_step p b ≡ emit c
    → decode p (b ∷ bs) ≡ prepend c (decode start bs)
unfolding decode byte_step
decode_emit start c b bs h = ground (arith, h)
decode_emit (more zero acc lo hi) c b bs h = ground (arith, h)
decode_emit (more (suc k) acc lo hi) c b bs h = ground (arith, h)

-- The last byte of a code point gives it out.
decode_last :
    (c acc : ℕ) (rest : Bytes)
    → acc * 64 + c % 64 ≡ c
    → decode (more 0 acc 0x80 0xbf) ((0x80 + c % 64) ∷ rest) ≡ prepend c (decode start rest)
decode_last c acc rest e =
    decode_emit _ (acc * 64 + c % 64) _ rest (last_byte acc (c % 64) (omega arith))
    ∙ ap (λ x. prepend x (decode start rest)) e

decode-utf8 :
    (c : ℕ) (rest : Bytes)
    → IsScalar c
    → decode start (utf8 c ++ rest) ≡ prepend c (decode start rest)
decode-utf8 c rest (s, h) = elim (Bool-cases (ltb c 0x80)) [
  | inl one ↦ decode-utf8_one c rest one
  | inr n1 ↦ elim (Bool-cases (ltb c 0x800)) [
    | inl two ↦
        ap (λ bs. decode start (bs ++ rest)) (utf8_two c n1 two)
        ∙ decode_wait _ _ _ _ (lead_two c (ground arith) (ground arith))
        ∙ decode_last c (c / 64) rest (omega arith)
    | inr n2 ↦ elim (Bool-cases (ltb c 0x10000)) [
      | inl three ↦
          let (lo, hi, e, l, r) = lead_three c (ground arith) (ground arith) s in
          ap (λ bs. decode start (bs ++ rest)) (utf8_three c n1 n2 three)
          ∙ decode_wait _ _ _ _ e
          ∙ decode_wait _ _ _ _ (next_byte 0 (c / 4096) lo hi (c / 64 % 64) l r)
          ∙ decode_last c (c / 4096 * 64 + c / 64 % 64) rest (omega arith)
      | inr n3 ↦
          let (lo, hi, e, l, r) = lead_four c (ground arith) h in
          ap (λ bs. decode start (bs ++ rest)) (utf8_four c n1 n2 n3)
          ∙ decode_wait _ _ _ _ e
          ∙ decode_wait _ _ _ _ (next_byte 1 (c / 262144) lo hi (c / 4096 % 64) l r)
          ∙ decode_wait _ _ _ _ (
              next_byte 0 (c / 262144 * 64 + c / 4096 % 64) 0x80 0xbf (c / 64 % 64) (omega arith)
                (omega arith))
          ∙ decode_last c ((c / 262144 * 64 + c / 4096 % 64) * 64 + c / 64 % 64) rest (omega arith)
    ]
  ]
]

-- Decoding undoes the encoding of every text of code points without surrogates.
pub decode_utf8-encode_utf8 : (s : Text) → All IsScalar s → decode_utf8 (encode_utf8 s) ≡ some s
unfolding decode_utf8 decode encode_utf8
decode_utf8-encode_utf8 [] h = refl
decode_utf8-encode_utf8 (c ∷ cs) h =
    decode-utf8 c (encode_utf8 cs) h.0 ∙ ap (prepend c) (decode_utf8-encode_utf8 cs h.1)
