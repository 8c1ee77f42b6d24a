-- ===== src/Validation/Scalars.antt =====
-- The scalar checks of validation.py: strings, stable ids, opaque references, integers, digests.
use infra_artifact_ledger.Prelude.{
  ℕ, Bool, false, ◌&&◌, ◌||◌, List, [], ◌∷◌, ltb, leb, eqb, ◌==◌, length, any, all, distinct,
}
use infra_artifact_ledger.Text.{Text, text, text_eq}
use infra_artifact_ledger.Errors.{Code, Result, ok, ◌>>◌}
use infra_artifact_ledger.Records.{Digest, TypedRef}
use infra_artifact_ledger.Validation.Limits.{fail_if, require, max_integer}

abbrev pub within : ℕ → ℕ → ℕ → Bool
within lo hi c = leb lo c && leb c hi

abbrev pub is_digit : ℕ → Bool
is_digit c = within b'0' b'9' c

abbrev pub is_alnum : ℕ → Bool
is_alnum c = within b'A' b'Z' c || within b'a' b'z' c || is_digit c

-- `[A-Za-z0-9._:/-]`
abbrev pub is_id_char : ℕ → Bool
is_id_char c = is_alnum c || eqb c b'.' || eqb c b'_' || eqb c b':' || eqb c b'/' || eqb c b'-'

abbrev pub is_surrogate : ℕ → Bool
is_surrogate c = within 0xd800 0xdfff c

-- `_unicode`: the strict encoding fails exactly at a lone surrogate.
unfoldable pub unicode : Text → Result (Unit {0})
unicode value = fail_if (any is_surrogate value) Code.invalid_input

-- `_string`
unfoldable pub string : Text → ℕ → ℕ → Result (Unit {0})
unfolding unicode
string value minimum maximum = do
  unicode value
  require (leb minimum (length value) && leb (length value) maximum) Code.invalid_input

-- `_STABLE_ID.fullmatch`
unfoldable pub stable_id_match : Text → Bool
stable_id_match [] = false
stable_id_match (c ∷ rest) =
    is_alnum c && (all is_id_char rest && (leb 2 (length rest) && leb (length rest) 255))

-- `validate_stable_id`
unfoldable pub validate_stable_id : Text → Result (Unit {0})
unfolding unicode stable_id_match
validate_stable_id value = do unicode value; require (stable_id_match value) Code.invalid_input

-- `_opaque`
unfoldable pub opaque : Text → Result (Unit {0})
unfolding string
opaque value = do
  string value 1 512
  fail_if (any (λ c. ltb c 32 || eqb c 127) value) Code.invalid_input

-- `_integer`; the token is nonnegative by its type.
unfoldable pub integer : ℕ → ℕ → Result (Unit {0})
integer value maximum = do
  fail_if (ltb max_integer value) Code.resource_limit
  fail_if (ltb maximum value) Code.resource_limit

abbrev pub is_hex : ℕ → Bool
is_hex c = is_digit c || within b'a' b'f' c

-- `_DIGEST.fullmatch`
unfoldable pub digest_match : Text → Bool
digest_match value = all is_hex value && eqb (length value) 64

-- `_digest`
unfoldable pub digest : Digest → Result (Unit {0})
unfolding unicode digest_match
digest d = do
  require (d.algorithm == text "sha256") Code.invalid_input
  unicode d.value
  require (digest_match d.value) Code.invalid_input

-- `_typed`
unfoldable pub typed : TypedRef → Result (Unit {0})
unfolding string
typed r = do string r.namespace 1 128; string r.type_id 1 128; string r.type_version 1 64

-- `_version`
unfoldable pub expect_version : Text → Text → Code → Result (Unit {0})
unfolding unicode
expect_version value expected code = do unicode value; require (value == expected) code

-- `_array` with a validator.
unfoldable pub array : {A : Type 0} → (A → Result (Unit {0})) → List A → Result (Unit {0})
array check [] = ok tt
array check (x ∷ xs) = do check x; array check xs

-- `_array` with `unique=True`
unfoldable pub unique_array : (Text → Result (Unit {0})) → List Text → Result (Unit {0})
unfolding array
unique_array check xs = do array check xs; require (distinct xs) Code.invalid_input
