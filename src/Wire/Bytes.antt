-- ===== src/Wire/Bytes.antt =====
-- A metadata document as bytes: written by `canonical_bytes`, read by `parse_json`.
use infra_artifact_ledger.Prelude.{ℕ, ◌≤◌, ◌≡◌, ap, ◌∙◌, Bool, true, length}
use infra_artifact_ledger.Text.{Text, Bytes}
use infra_artifact_ledger.Errors.{ok, ◌>>=◌}
use infra_artifact_ledger.Records.{Metadata}
use infra_artifact_ledger.Validation.Limits.{max_nodes}
use infra_artifact_ledger.Canonical.{canonical_bytes}
use infra_artifact_ledger.Fingerprint.{metadata_value}
use infra_artifact_ledger.Json.Scan.Size.{nodes}
use infra_artifact_ledger.Json.Read.{parse_json}
use infra_artifact_ledger.Json.Readable.{readable}
use infra_artifact_ledger.Json.Sorted.{parse_json-canonical_bytes}
use infra_artifact_ledger.Wire.Documents.{metadata_of}
use infra_artifact_ledger.Wire.Stored.{IsStored, metadata_of-metadata_value}

-- The canonical bytes of a document of stored records are read back as that document, if its value is
-- readable and has at most the limit's nodes, and the bytes are within the reader's limit.
pub parse_json-metadata_value :
    (finite : Text → Bool) (limit : ℕ) (m : Metadata) (raw : Bytes)
    → IsStored m
    → canonical_bytes (metadata_value m) ≡ ok raw
    → readable (metadata_value m) ≡ true
    → nodes (metadata_value m) ≤ max_nodes
    → length raw ≤ limit
    → (parse_json finite limit raw >>= metadata_of) ≡ ok m
parse_json-metadata_value finite limit m raw stored written r n l =
    ap (λ v. v >>= metadata_of)
      (parse_json-canonical_bytes finite limit (metadata_value m) raw written r n l)
    ∙ metadata_of-metadata_value m stored
