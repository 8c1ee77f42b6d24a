-- ===== src/Portable/Content.antt =====
-- The Base64 entries of a bundle: `_content_entry`, `_content_header` and `_decode_content`.
use Prim.Native.String.{String}
use infra_artifact_ledger.Prelude.{
  ℕ, ◌-◌, ◌*◌, ◌/◌, ◌%◌, Bool, true, ◌&&◌, ◌||◌, List, [], ◌∷◌, Option, some, none, eqb, leb, ltb,
  ◌==◌, length, all, if◌then◌else◌,
}
use infra_artifact_ledger.Text.{Text, Bytes, text, text_eq}
use infra_artifact_ledger.Errors.{Code, Result, ok, err, ◌>>=◌, ◌>>◌}
use infra_artifact_ledger.Records.{Digest, digest_eq}
use infra_artifact_ledger.Validation.Limits.{fail_if, require, max_integer}
use infra_artifact_ledger.Validation.Scalars.{is_alnum, digest_match}
use infra_artifact_ledger.Canonical.{Value, Fields, str, num, obj, end, field, digest_bytes}
use infra_artifact_ledger.Fingerprint.{digest_value}
use infra_artifact_ledger.Wire.{object_of, text_of, at_key, digest_of}
use infra_artifact_ledger.Portable.Base64.{b64encode, b64decode}

-- `_length`
unfoldable pub length_of : ℕ → Value → Result ℕ
length_of limit (num n) = do fail_if (ltb max_integer n || ltb limit n) Code.resource_limit; ok n
length_of limit _ = err Code.invalid_input

-- `_digest`
unfoldable pub checked_digest : Value → Result Digest
unfolding digest_of digest_match
checked_digest v = do
  d ← digest_of v
  require (d.algorithm == text "sha256") Code.invalid_input
  require (digest_match d.value) Code.invalid_input
  ok d

-- `_version`
unfoldable pub named : Text → Code → Value → Result (Unit {0})
named expected code v = do s ← text_of v; require (s == expected) code

-- `_raw`
unfoldable pub raw_within : ℕ → Bytes → Result (Unit {0})
raw_within limit raw = fail_if (ltb limit (length raw)) Code.resource_limit

-- `str.endswith`
abbrev pub ends_with : Text → Text → Bool
ends_with suffix [] = suffix == []
ends_with suffix (c ∷ cs) = (c ∷ cs) == suffix || ends_with suffix cs

unfoldable pub padding : Text → ℕ
padding encoded =
    if ends_with (text "==") encoded then 2 else if ends_with (text "=") encoded then 1 else 0

-- `[A-Za-z0-9+/]*={0,2}`
unfoldable pub base64_match : Text → Bool
base64_match [] = true
base64_match (c ∷ cs) =
    let rest = base64_match cs in
    if is_alnum c || eqb c b'+' || eqb c b'/'
    then rest
    else all (λ d. eqb d b'=') (c ∷ cs) && leb (length (c ∷ cs)) 2

pub record Content : Type 0 where
  pub encoded : Text
  pub byte_length : ℕ
  pub digest : Digest

abbrev pub content_keys : List String
content_keys = "encoding" ∷ "data" ∷ "byte_length" ∷ "digest" ∷ []

-- `data.isascii()`
abbrev pub is_ascii : Text → Bool
is_ascii s = all (λ c. ltb c 128) s

unfoldable pub decoded_length : Text → ℕ
unfolding padding
decoded_length encoded = length encoded / 4 * 3 - padding encoded

-- `_content_header` gives `decoded_length`, which is the entry's `byte_length`, and the fields that it
-- has read.
unfoldable pub content_header : ℕ → Bool → Value → Result Content
unfolding length_of checked_digest base64_match decoded_length named
content_header limit payload v = do
  fs ← object_of (if payload then "blob_ref" ∷ content_keys else content_keys) [] v
  at_key (named (text "base64") Code.invalid_input) "encoding" fs
  byte_length ← at_key (length_of limit) "byte_length" fs
  digest ← at_key checked_digest "digest" fs
  encoded ← at_key text_of "data" fs
  require (is_ascii encoded) Code.invalid_input
  require (eqb (length encoded % 4) 0) Code.invalid_input
  fail_if (ltb limit (decoded_length encoded)) Code.resource_limit
  require (base64_match encoded) Code.invalid_input
  require (eqb (decoded_length encoded) byte_length) Code.integrity_failure
  ok (record { encoded = encoded; byte_length = byte_length; digest = digest })

abbrev some_bytes : Option Bytes → Result Bytes
some_bytes none = err Code.invalid_input
some_bytes (some raw) = ok raw

module _ (sha256 : Bytes → Text) where
  abbrev pub content_fields : Bytes → Fields
  content_fields raw = field (text "encoding") (str (text "base64")) (
      field (text "data") (str (b64encode raw)) (
        field (text "byte_length") (num (length raw))
          (field (text "digest") (digest_value (digest_bytes sha256 raw)) end)))

  -- `_content_entry`
  unfoldable pub content_entry : Bytes → Value
  unfolding b64encode digest_value
  content_entry raw = obj (content_fields raw)

  -- `_decode_content`
  unfoldable pub decode_content : Content → Result Bytes
  unfolding b64encode b64decode
  decode_content c = do
    raw ← some_bytes (b64decode c.encoded)
    require (b64encode raw == c.encoded) Code.invalid_input
    require (eqb (length raw) c.byte_length && digest_bytes sha256 raw == c.digest)
        Code.integrity_failure
    ok raw
