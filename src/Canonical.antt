-- ===== src/Canonical.antt =====
-- fingerprint.py: the canonical JSON encoding and the digests. `hashlib.sha256` is a parameter.
pub mod Decimal
use infra_artifact_ledger.Prelude.{
  ℕ, zero, suc, ◌+◌, ◌-◌, ◌/◌, ◌%◌, Bool, true, ◌&&◌, List, [], ◌∷◌, ◌++◌, ltb, eqb, if◌then◌else◌,
  any, all,
}
use infra_artifact_ledger.Text.{Text, Bytes, text, text_le}
use infra_artifact_ledger.Errors.{Code, Result, ok, err, ◌>>◌}
use infra_artifact_ledger.Records.{Digest}
use infra_artifact_ledger.Validation.Limits.{fail_if, max_depth}
use infra_artifact_ledger.Validation.Scalars.{is_surrogate}

-- The JSON values. A negative integer has its absolute value, a float the text of its token.
mutual
  pub data Value : Type 0 where
    str : Text → Value
    num : ℕ → Value
    negative : ℕ → Value
    real : Text → Value
    boolean : Bool → Value
    null : Value
    arr : Items → Value
    obj : Fields → Value

  pub data Items : Type 0 where
    nil : Items
    cons : Value → Items → Items

  pub data Fields : Type 0 where
    end : Fields
    field : Text → Value → Fields → Fields

abbrev pub keys : Fields → List Text
keys end = []
keys (field k v fs) = k ∷ keys fs

-- Every key is an ASCII string.
abbrev keys_ascii : Fields → Bool
keys_ascii end = true
keys_ascii (field k v fs) = all (λ c. ltb c 128) k && keys_ascii fs

-- The stack of `canonical_bytes` takes the value that was pushed last: later siblings come first.
-- The number is the depth that is left.
unfoldable mutual
  pub check : Value → ℕ → Result (Unit {0})
  check (str s) left = fail_if (any is_surrogate s) Code.invalid_input
  check (num n) left = ok tt
  check (negative n) left = ok tt
  check (real t) left = err Code.invalid_input
  check (boolean b) left = ok tt
  check null left = ok tt
  check (arr xs) left = elim left [ zero ↦ err Code.resource_limit | suc d ↦ check_items xs d ]
  check (obj fs) left = elim left [
    | zero ↦ err Code.resource_limit
    | suc d ↦ if keys_ascii fs then check_fields fs d else err Code.invalid_input
  ]

  pub check_items : Items → ℕ → Result (Unit {0})
  check_items nil left = ok tt
  check_items (cons x xs) left = check_items xs left >> check x left

  pub check_fields : Fields → ℕ → Result (Unit {0})
  check_fields end left = ok tt
  check_fields (field k v fs) left = check_fields fs left >> check v left

-- `sort_keys=True`
unfoldable pub insert_field : Text → Value → Fields → Fields
unfolding text_le
insert_field k v end = field k v end
insert_field k v (field j w fs) =
    if text_le k j then field k v (field j w fs) else field j w (insert_field k v fs)

unfoldable mutual
  unfolding insert_field

  pub sort_value : Value → Value
  sort_value (str s) = str s
  sort_value (num n) = num n
  sort_value (negative n) = negative n
  sort_value (real t) = real t
  sort_value (boolean b) = boolean b
  sort_value null = null
  sort_value (arr xs) = arr (sort_items xs)
  sort_value (obj fs) = obj (sort_fields fs)

  pub sort_items : Items → Items
  sort_items nil = nil
  sort_items (cons x xs) = cons (sort_value x) (sort_items xs)

  pub sort_fields : Fields → Fields
  sort_fields end = end
  sort_fields (field k v fs) = insert_field k (sort_value v) (sort_fields fs)

abbrev pub hex_digit : ℕ → ℕ
hex_digit n = if ltb n 10 then b'0' + n else b'a' + (n - 10)

-- The escapes of `json.dumps` with `ensure_ascii=False`.
unfoldable pub escape : ℕ → Text
escape c =
    if eqb c 34
    then 92 ∷ 34 ∷ []
    else if eqb c 92
    then 92 ∷ 92 ∷ []
    else if eqb c 10
    then 92 ∷ b'n' ∷ []
    else if eqb c 13
    then 92 ∷ b'r' ∷ []
    else if eqb c 9
    then 92 ∷ b't' ∷ []
    else if eqb c 12
    then 92 ∷ b'f' ∷ []
    else if eqb c 8
    then 92 ∷ b'b' ∷ []
    else if ltb c 32
    then 92 ∷ b'u' ∷ b'0' ∷ b'0' ∷ hex_digit (c / 16) ∷ hex_digit (c % 16) ∷ []
    else c ∷ []

abbrev pub escape_all : Text → Text
escape_all [] = []
escape_all (c ∷ cs) = escape c ++ escape_all cs

abbrev pub quoted : Text → Text
quoted s = 34 ∷ (escape_all s ++ 34 ∷ [])

-- The decimal digits of a number, before those of `acc`; a number below 2 ^ 63 has at most 19.
unfoldable pub decimal : ℕ → ℕ → Text → Text
decimal zero n acc = acc
decimal (suc fuel) n acc =
    let rest = decimal fuel (n / 10) ((b'0' + n % 10) ∷ acc) in
    if ltb n 10 then (b'0' + n) ∷ acc else rest

unfoldable mutual
  pub render : Value → Text
  render (str s) = quoted s
  render (num n) = decimal 20 n []
  render (negative n) = b'-' ∷ decimal 20 n []
  render (real t) = t
  render (boolean b) = if b then text "true" else text "false"
  render null = text "null"
  render (arr xs) = b'[' ∷ render_items xs
  render (obj fs) = b'{' ∷ render_fields fs

  pub render_items : Items → Text
  render_items nil = b']' ∷ []
  render_items (cons x xs) =
      render x ++ elim xs [ nil ↦ b']' ∷ [] | cons y ys ↦ b',' ∷ render_items xs ]

  pub render_fields : Fields → Text
  render_fields end = b'}' ∷ []
  render_fields (field k v fs) =
      quoted k
      ++ b':' ∷ (render v ++ elim fs [ end ↦ b'}' ∷ [] | field j w gs ↦ b',' ∷ render_fields fs ])

-- `str.encode("utf-8")` of a code point that is no surrogate.
unfoldable pub utf8 : ℕ → Bytes
utf8 c =
    if ltb c 0x80
    then c ∷ []
    else if ltb c 0x800
    then (0xc0 + c / 64) ∷ (0x80 + c % 64) ∷ []
    else if ltb c 0x10000
    then (0xe0 + c / 4096) ∷ (0x80 + c / 64 % 64) ∷ (0x80 + c % 64) ∷ []
    else (0xf0 + c / 262144) ∷ (0x80 + c / 4096 % 64) ∷ (0x80 + c / 64 % 64) ∷ (0x80 + c % 64) ∷ []

unfoldable pub encode_utf8 : Text → Bytes
unfolding utf8
encode_utf8 [] = []
encode_utf8 (c ∷ cs) = utf8 c ++ encode_utf8 cs

unfoldable pub canonical_bytes : Value → Result Bytes
unfolding check sort_value render encode_utf8
canonical_bytes v = do check v max_depth; ok (encode_utf8 (render (sort_value v)))

-- `digest_bytes`, over `hashlib.sha256(data).hexdigest()`
abbrev pub digest_bytes : (Bytes → Text) → Bytes → Digest
digest_bytes sha256 raw = record { algorithm = text "sha256"; value = sha256 raw }
