-- ===== src/Tests/Encodings.antt =====
-- A metadata document as bytes, and payloads as Base64.
use infra_artifact_ledger.Prelude.{◌≤◌, ◌≡◌, refl, Bool, true, false, [], ◌∷◌, arith, any, length}
use infra_artifact_ledger.Text.{Text, Bytes, text, text_le, Text-discrete}
use infra_artifact_ledger.Errors.{Result, ok, err, ◌>>=◌}
use infra_artifact_ledger.Validation.Limits.{max_json, max_nodes}
use infra_artifact_ledger.Validation.Scalars.{is_surrogate, digest_match}
use infra_artifact_ledger.Canonical.{
  utf8, encode_utf8, canonical_bytes, check, sort_value, insert_field, render, escape, decimal,
}
use infra_artifact_ledger.Fingerprint.{metadata_value}
use infra_artifact_ledger.Json.Scan.Size.{nodes}
use infra_artifact_ledger.Json.Read.{parse_json}
use infra_artifact_ledger.Json.Readable.{readable}
use infra_artifact_ledger.Wire.Documents.{metadata_of}
use infra_artifact_ledger.Wire.Stored.{IsStored, metadata_of-metadata_value}
use infra_artifact_ledger.Wire.Bytes.{parse_json-metadata_value}
use infra_artifact_ledger.Portable.Base64.{digit64, b64encode}
use infra_artifact_ledger.Portable.Content.{content_header, content_entry, decode_content}
use infra_artifact_ledger.Portable.Entries.{decode_content-content_entry}
use infra_artifact_ledger.Portable.Pieces.{json_bytes, json_bytes-render}
use infra_artifact_ledger.Tests.Documents.{document}

abbrev every_float : Text → Bool
every_float t = true

document-IsStored : IsStored document
document-IsStored = record {
  artifacts = (tt, tt);
  versions = (tt, (tt, tt));
  links = tt;
  receipts = tt;
  operations = tt;
  keyed = tt;
}

metadata_of-metadata_value_example :
    metadata_of (sort_value (metadata_value document)) ≡ ok document
metadata_of-metadata_value_example = metadata_of-metadata_value document document-IsStored

abbrev bytes_of : Result Bytes → Bytes
bytes_of (ok raw) = raw
bytes_of (err c) = []

document_bytes : Bytes
unfolding canonical_bytes check sort_value insert_field render encode_utf8 utf8 text_le escape
    decimal metadata_value
document_bytes = bytes_of (canonical_bytes (metadata_value document))

document_written : canonical_bytes (metadata_value document) ≡ ok document_bytes
unfolding document_bytes canonical_bytes check sort_value insert_field render encode_utf8 utf8
    text_le escape decimal metadata_value
document_written = refl

document-readable : readable (metadata_value document) ≡ true
unfolding readable metadata_value Text-discrete
document-readable = refl

document-nodes : nodes (metadata_value document) ≤ max_nodes
unfolding nodes metadata_value
document-nodes = omega arith

document_short : length document_bytes ≤ max_json
unfolding document_bytes canonical_bytes check sort_value insert_field render encode_utf8 utf8
    text_le escape decimal metadata_value
document_short = omega arith

parse_json-metadata_value_example :
    (parse_json every_float max_json document_bytes >>= metadata_of) ≡ ok document
parse_json-metadata_value_example =
    parse_json-metadata_value every_float max_json document document_bytes document-IsStored
      document_written document-readable document-nodes document_short

-- "ledger" in Base64
ledger_text : b64encode (text "ledger!") ≡ text "bGVkZ2VyIQ=="
unfolding b64encode digit64
ledger_text = refl

abbrev zero_hash : Bytes → Text
zero_hash raw = text "0000000000000000000000000000000000000000000000000000000000000000"

zero_hash_match : digest_match (zero_hash (1 ∷ 2 ∷ [])) ≡ true
unfolding digest_match
zero_hash_match = refl

decode_content-content_entry_example :
    (content_header 10 false (sort_value (content_entry zero_hash (1 ∷ 2 ∷ [])))
      >>= decode_content zero_hash)
    ≡ ok (1 ∷ 2 ∷ [])
decode_content-content_entry_example =
    decode_content-content_entry zero_hash 10 (1 ∷ 2 ∷ []) (omega arith, (omega arith, tt))
      (omega arith) (omega arith) zero_hash_match

document_scalar : any is_surrogate (render (sort_value (metadata_value document))) ≡ false
unfolding sort_value insert_field render text_le escape decimal metadata_value
document_scalar = refl

document_fits : length (encode_utf8 (render (sort_value (metadata_value document)))) ≤ max_json
unfolding sort_value insert_field render encode_utf8 utf8 text_le escape decimal metadata_value
document_fits = omega arith

json_bytes-render_example :
    json_bytes max_json (metadata_value document)
    ≡ ok (encode_utf8 (render (sort_value (metadata_value document))))
json_bytes-render_example =
    json_bytes-render max_json (metadata_value document) document_scalar document_fits
