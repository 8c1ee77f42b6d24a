-- ===== src/Json/Strings.antt =====
-- Strings as `json.loads` reads them, from behind the opening quote.
use infra_artifact_ledger.Prelude.{
  ℕ, zero, suc, ◌+◌, ◌-◌, ◌*◌, [], ◌∷◌, ◌++◌, Option, some, none, eqb, ltb, if◌then◌else◌,
}
use infra_artifact_ledger.Text.{Text}
use infra_artifact_ledger.Validation.Scalars.{within, is_digit}

-- Where the reader stands in a string. `unit` is a `\u` escape with its last `1 + k` digits to come;
-- the Option is a high surrogate that is not yet given out.
pub data StringMode : Type 0 where
  inside : Option ℕ → StringMode
  escaped : Option ℕ → StringMode
  unit : Option ℕ → ℕ → ℕ → StringMode

-- What a character does: give out code points and go on, end the string, or fail.
pub data StringStep : Type 0 where
  gives : Text → StringMode → StringStep
  stops : Text → StringStep
  wrong : StringStep

abbrev held : Option ℕ → Text
held none = []
held (some h) = h ∷ []

-- The escapes but `\u`
abbrev unescaped : ℕ → Option ℕ
unescaped c =
    if eqb c 34
    then some 34
    else if eqb c 92
    then some 92
    else if eqb c b'/'
    then some b'/'
    else if eqb c b'b'
    then some 8
    else if eqb c b'f'
    then some 12
    else if eqb c b'n'
    then some 10
    else if eqb c b'r'
    then some 13
    else if eqb c b't'
    then some 9
    else none

abbrev hex_value : ℕ → Option ℕ
hex_value c =
    if is_digit c
    then some (c - b'0')
    else if within b'a' b'f' c
    then some (c - b'a' + 10)
    else if within b'A' b'F' c
    then some (c - b'A' + 10)
    else none

-- A whole `\u` escape: a low surrogate joins a high one before it.
abbrev joined : Option ℕ → ℕ → StringStep
joined none u =
    if within 0xd800 0xdbff u then gives [] (inside (some u)) else gives (u ∷ []) (inside none)
joined (some h) u =
    if within 0xdc00 0xdfff u
    then gives ((0x10000 + (h - 0xd800) * 1024 + (u - 0xdc00)) ∷ []) (inside none)
    else if within 0xd800 0xdbff u
    then gives (h ∷ []) (inside (some u))
    else gives (h ∷ u ∷ []) (inside none)

abbrev hex_step : Option ℕ → ℕ → ℕ → Option ℕ → StringStep
hex_step high k acc none = wrong
hex_step high zero acc (some d) = joined high (acc * 16 + d)
hex_step high (suc k) acc (some d) = gives [] (unit high k (acc * 16 + d))

abbrev escape_step : Option ℕ → Option ℕ → StringStep
escape_step high none = wrong
escape_step high (some c) = gives (held high ++ c ∷ []) (inside none)

unfoldable pub string_step : StringMode → ℕ → StringStep
string_step (inside high) c =
    if eqb c 34
    then stops (held high)
    else if eqb c 92
    then gives [] (escaped high)
    else if ltb c 32
    then wrong
    else gives (held high ++ c ∷ []) (inside none)
string_step (escaped high) c =
    if eqb c b'u' then gives [] (unit high 3 0) else escape_step high (unescaped c)
string_step (unit high k acc) c = hex_step high k acc (hex_value c)

abbrev pub given : Text → Option (Text × Text) → Option (Text × Text)
given cs none = none
given cs (some (t, rest)) = some (cs ++ t, rest)

-- The string and what is behind its closing quote.
unfoldable pub string_body : StringMode → Text → Option (Text × Text)
unfolding string_step
string_body mode [] = none
string_body mode (c ∷ cs) = elim (string_step mode c) [
  | gives out next ↦ given out (string_body next cs)
  | stops out ↦ some (out, cs)
  | wrong ↦ none
]
