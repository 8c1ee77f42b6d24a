-- ===== src/Json/Read.antt =====
-- `json.loads` with the hooks of `parse_json`, and `parse_json` of validation.py.
use infra_artifact_ledger.Prelude.{
  ℕ, zero, suc, ◌+◌, ◌*◌, Bool, true, false, ◌&&◌, [], ◌∷◌, Option, some, none, eqb, ltb, distinct,
  length, if◌then◌else◌,
}
use infra_artifact_ledger.Text.{Text, Bytes, text, text_eq}
use infra_artifact_ledger.Errors.{Code, Result, ok, err, ◌>>=◌, ◌>>◌}
use infra_artifact_ledger.Validation.Limits.{fail_if, require}
use infra_artifact_ledger.Validation.Scalars.{unicode}
use infra_artifact_ledger.Canonical.{
  keys, Value, Items, Fields, str, num, negative, real, boolean, null, arr, obj, nil, cons, end,
  field,
}
use infra_artifact_ledger.Json.Scan.{is_space, scan_limits}
use infra_artifact_ledger.Json.Utf8.{decode_utf8}
use infra_artifact_ledger.Json.Strings.{inside, string_body}
use infra_artifact_ledger.Json.Numbers.{number}

unfoldable pub skip_space : Text → Text
skip_space [] = []
skip_space (c ∷ cs) = let rest = skip_space cs in if is_space c then rest else c ∷ cs

-- A word behind its first character.
unfoldable pub word : Text → Value → Text → Result (Value × Text)
word [] v s = ok (v, s)
word (w ∷ ws) v [] = err Code.invalid_input
word (w ∷ ws) v (c ∷ cs) =
    let rest = word ws v cs in if eqb c w then rest else err Code.invalid_input

-- `object_pairs`
unfoldable pub object_pairs : Fields → Result Value
object_pairs fs = do require (distinct (keys fs)) Code.invalid_input; ok (obj fs)

-- The string behind an opening quote.
unfoldable pub string_token : Text → Result (Text × Text)
unfolding string_body
string_token s = elim (string_body (inside none) s) [
  | none ↦ err Code.invalid_input
  | some p ↦ ok p
]

-- The first character of a value, of what is behind an element, and of a key.
pub data Start : Type 0 where
  quote brace bracket letter_t letter_f letter_n other : Start

abbrev start_of : ℕ → Start
start_of c =
    if eqb c 34
    then quote
    else if eqb c b'{'
    then brace
    else if eqb c b'['
    then bracket
    else if eqb c b't'
    then letter_t
    else if eqb c b'f'
    then letter_f
    else if eqb c b'n'
    then letter_n
    else other

-- A given character, and the spaces behind it.
unfoldable pub expect : ℕ → Text → Result Text
unfolding skip_space
expect w [] = err Code.invalid_input
expect w (c ∷ cs) = if eqb c w then ok (skip_space cs) else err Code.invalid_input

-- Whether the text begins with a character.
abbrev pub begins : ℕ → Text → Bool
begins w [] = false
begins w (c ∷ cs) = eqb c w

abbrev pub behind : Text → Text
behind [] = []
behind (c ∷ cs) = cs

-- Nothing but spaces is behind the value.
abbrev pub ended : Value × Text → Result Value
unfolding skip_space
ended (v, s) = elim (skip_space s) [ [] ↦ ok v | _ ∷ _ ↦ err Code.invalid_input ]

module _ (finite : Text → Bool) where
  -- The number bounds the calls in one another; at 0 the fuel has run out.
  unfoldable mutual
    unfolding skip_space word object_pairs string_token expect number

    pub value : ℕ → Text → Result (Value × Text)
    value zero s = err Code.internal_error
    value (suc fuel) [] = err Code.invalid_input
    value (suc fuel) (c ∷ cs) = elim (start_of c) [
      | quote ↦ string_token cs >>= λ p. ok (str p.0, p.1)
      | brace ↦ object fuel (skip_space cs)
      | bracket ↦ array fuel (skip_space cs)
      | letter_t ↦ word (text "rue") (boolean true) cs
      | letter_f ↦ word (text "alse") (boolean false) cs
      | letter_n ↦ word (text "ull") null cs
      | other ↦ number finite (c ∷ cs)
    ]

    pub array : ℕ → Text → Result (Value × Text)
    array zero s = err Code.internal_error
    array (suc fuel) s = elim (begins b']' s) [
      | true ↦ ok (arr nil, behind s)
      | false ↦ items fuel s >>= λ p. ok (arr p.0, p.1)
    ]

    pub object : ℕ → Text → Result (Value × Text)
    object zero s = err Code.internal_error
    object (suc fuel) s = elim (begins b'}' s) [
      | true ↦ object_pairs end >>= λ v. ok (v, behind s)
      | false ↦ pairs fuel s >>= λ p. object_pairs p.0 >>= λ v. ok (v, p.1)
    ]

    pub items : ℕ → Text → Result (Items × Text)
    items zero s = err Code.internal_error
    items (suc fuel) s = value fuel s >>= λ p. elim (begins b']' (skip_space p.1)) [
      | true ↦ ok (cons p.0 nil, behind (skip_space p.1))
      | false ↦ expect b',' (skip_space p.1) >>= λ t. items fuel t >>= λ q. ok (cons p.0 q.0, q.1)
    ]

    pub pairs : ℕ → Text → Result (Fields × Text)
    pairs zero s = err Code.internal_error
    pairs (suc fuel) s =
        require (begins 34 s) Code.invalid_input
        >> (string_token (behind s) >>= λ k. expect b':' (skip_space k.1) >>= λ t.
            value fuel t >>= λ p. elim (begins b'}' (skip_space p.1)) [
              | true ↦ ok (field k.0 p.0 end, behind (skip_space p.1))
              | false ↦ expect b',' (skip_space p.1) >>= λ u.
                  pairs fuel u >>= λ q. ok (field k.0 p.0 q.0, q.1)
            ])

  -- `json.loads`: one value, with nothing but spaces around it.
  unfoldable pub loads : Text → Result Value
  unfolding value skip_space ended
  loads s = value (3 * length s + 3) (skip_space s) >>= ended

-- No string of the value, and no key, has a lone surrogate.
unfoldable mutual
  unfolding unicode

  pub check_unicode : Value → Result (Unit {0})
  check_unicode (str s) = unicode s
  check_unicode (arr xs) = check_unicode_items xs
  check_unicode (obj fs) = check_unicode_fields fs
  check_unicode (num n) = ok tt
  check_unicode (negative n) = ok tt
  check_unicode (real t) = ok tt
  check_unicode (boolean b) = ok tt
  check_unicode null = ok tt

  pub check_unicode_items : Items → Result (Unit {0})
  check_unicode_items nil = ok tt
  check_unicode_items (cons x xs) = check_unicode x >> check_unicode_items xs

  pub check_unicode_fields : Fields → Result (Unit {0})
  check_unicode_fields end = ok tt
  check_unicode_fields (field k v fs) = unicode k >> (check_unicode v >> check_unicode_fields fs)

abbrev pub byte_order_mark : Bytes → Bool
byte_order_mark (a ∷ b ∷ c ∷ _) = eqb a 0xef && eqb b 0xbb && eqb c 0xbf
byte_order_mark _ = false

abbrev decoded : Option Text → Result Text
decoded none = err Code.invalid_input
decoded (some s) = ok s

-- `parse_json`
unfoldable pub parse_json : (Text → Bool) → ℕ → Bytes → Result Value
unfolding decode_utf8 scan_limits loads check_unicode
parse_json finite limit raw =
    fail_if (ltb limit (length raw)) Code.resource_limit
    >> (fail_if (byte_order_mark raw) Code.invalid_input
        >> (decoded (decode_utf8 raw) >>= λ s.
            scan_limits s >> (loads finite s >>= λ v. check_unicode v >> ok v)))
