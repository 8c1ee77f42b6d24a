-- ===== src/Portable/Entries.antt =====
-- The entry that `_content_entry` makes of bytes passes `_content_header`, and `_decode_content` gives
-- the bytes back.
use infra_artifact_ledger.Prelude.{
  and_both, ℕ, ◌≤◌, ◌≡◌, refl, ap, ◌∙◌, true, false, arith, eqb, ltb, ==-refl, length, All,
}
use infra_artifact_ledger.Text.{Text, Bytes, text, text_le, text_eq, Text-discrete}
use infra_artifact_ledger.Errors.{ok, ◌>>=◌}
use infra_artifact_ledger.Records.{digest_eq}
use infra_artifact_ledger.Validation.Limits.{max_integer}
use infra_artifact_ledger.Validation.Scalars.{digest_match}
use infra_artifact_ledger.Canonical.{Value, num, str, obj, field, sort_value, digest_bytes}
use infra_artifact_ledger.Fingerprint.{digest_value}
use infra_artifact_ledger.Wire.{digest_of}
use infra_artifact_ledger.Portable.Base64.{b64encode, b64decode-b64encode, IsByte}
use infra_artifact_ledger.Portable.Content.{
  Content, content_header, content_entry, content_fields, decode_content, length_of, checked_digest,
  named, base64_match, is_ascii,
}
use infra_artifact_ledger.Portable.Encoded.{
  plain-b64encode, length-b64encode_whole, decoded_length-b64encode,
}

module _ (sha256 : Bytes → Text) where
  abbrev pub content_of : Bytes → Content
  content_of raw = record {
    encoded = b64encode raw;
    byte_length = length raw;
    digest = digest_bytes sha256 raw;
  }

  checked_digest-digest_value :
      (raw : Bytes)
      → digest_match (sha256 raw) ≡ true
      → checked_digest (sort_value (digest_value (digest_bytes sha256 raw)))
        ≡ ok (digest_bytes sha256 raw)
  unfolding checked_digest digest_value sort_value text_le Text-discrete digest_of
  checked_digest-digest_value raw h = rw h refl

  decode_content-content_of :
      (raw : Bytes) → All IsByte raw → decode_content sha256 (content_of raw) ≡ ok raw
  unfolding decode_content
  decode_content-content_of raw h = rw (b64decode-b64encode raw h) (
      rw (==-refl (b64encode raw)) (
        rw (==-refl (digest_bytes sha256 raw))
          (let e : eqb (length raw) (length raw) ≡ true = ground arith in rw e refl)))

  length_of-within : (limit n : ℕ) → n ≤ limit → n ≤ max_integer → length_of limit (num n) ≡ ok n
  unfolding length_of
  length_of-within limit n h k = ground (arith, h, k)

  content_header-content_entry :
      (limit : ℕ) (raw : Bytes)
      → All IsByte raw
      → length raw ≤ limit
      → length raw ≤ max_integer
      → digest_match (sha256 raw) ≡ true
      → content_header limit false (sort_value (content_entry sha256 raw)) ≡ ok (content_of raw)
  unfolding content_header content_entry sort_value text_le Text-discrete named
  content_header-content_entry limit raw h l k d =
      let (matches, ascii) =
        and_both (base64_match (b64encode raw)) (is_ascii (b64encode raw))
          (plain-b64encode raw h) in
      let same : eqb (length raw) (length raw) ≡ true = ground arith in
      let fits : ltb limit (length raw) ≡ false = ground (arith, l) in
      rw (length_of-within limit (length raw) l k) (
        rw (checked_digest-digest_value raw d) (
          rw ascii (
            rw (length-b64encode_whole raw)
              (rw (decoded_length-b64encode raw h) (rw fits (rw matches (rw same refl)))))))

  abbrev pub payload_fields : Text → Bytes → Value
  payload_fields i raw =
      sort_value (obj (field (text "blob_ref") (str i) (content_fields sha256 raw)))

  pub content_header-payload :
      (limit : ℕ) (i : Text) (raw : Bytes)
      → All IsByte raw
      → length raw ≤ limit
      → length raw ≤ max_integer
      → digest_match (sha256 raw) ≡ true
      → content_header limit true (payload_fields i raw) ≡ ok (content_of raw)
  unfolding content_header sort_value text_le Text-discrete named
  content_header-payload limit i raw h l k d =
      let (matches, ascii) =
        and_both (base64_match (b64encode raw)) (is_ascii (b64encode raw))
          (plain-b64encode raw h) in
      let same : eqb (length raw) (length raw) ≡ true = ground arith in
      let fits : ltb limit (length raw) ≡ false = ground (arith, l) in
      rw (length_of-within limit (length raw) l k) (
        rw (checked_digest-digest_value raw d) (
          rw ascii (
            rw (length-b64encode_whole raw)
              (rw (decoded_length-b64encode raw h) (rw fits (rw matches (rw same refl)))))))

  -- Bytes within the limit, whose digest is 64 lowercase hexadecimal digits, are given back from the
  -- entry that is made of them, keys sorted: the header's checks pass, and so do the decoder's.
  pub decode_content-content_entry :
      (limit : ℕ) (raw : Bytes)
      → All IsByte raw
      → length raw ≤ limit
      → length raw ≤ max_integer
      → digest_match (sha256 raw) ≡ true
      → (content_header limit false (sort_value (content_entry sha256 raw))
          >>= decode_content sha256)
        ≡ ok raw
  decode_content-content_entry limit raw h l k d =
      ap (λ c. c >>= decode_content sha256) (content_header-content_entry limit raw h l k d)
      ∙ decode_content-content_of raw h
