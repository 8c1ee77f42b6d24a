-- ===== src/Tests/Blobs.antt =====
-- A ledger that holds one blob, and reads of it.
use infra_artifact_ledger.Prelude.{
  ◌≡◌, refl, List, [], ◌∷◌, Option, some, none, false, true, Bool, map,
}
use infra_artifact_ledger.Text.{Text, Bytes, text, Text-discrete}
use infra_artifact_ledger.Errors.{Code, ok, err}
use infra_artifact_ledger.Independent.Objects.{closure, target, check_targets}
use infra_artifact_ledger.Records.{
  Artifact, Version, RootTarget, Record, Blob, id_of, kind_of, Kind-discrete, Digest-discrete,
}
use infra_artifact_ledger.Validation.Scalars.{
  stable_id_match, validate_stable_id, digest, digest_match, integer,
}
use infra_artifact_ledger.Validation.RecordCheck.{validate_record, check_blob, check_payload}
use infra_artifact_ledger.Store.Tables.{empty_db, all_refs, record_row, payload_row}
use infra_artifact_ledger.Store.Exec.{World, pure, raise, lift, wrap, ◌>>=◌}
use infra_artifact_ledger.Store.Statements.{begin, query, rollback}
use infra_artifact_ledger.Store.Operations.{fetch_record, fetch_payload, decoded_row}
use infra_artifact_ledger.Service.Indexes.{find_record, row_of_kind, typed_record, read_payload}
use infra_artifact_ledger.Service.Reads.{answered, read, read_blob, blob_bytes}
use infra_artifact_ledger.Service.Reads.Verified.{ReadBack, read_blob-ReadBack}
use infra_artifact_ledger.Service.Queries.Methods.{
  get_record, get_history, get_operation, export_bundle, verify,
}
use infra_artifact_ledger.Service.Queries.Intact.{VerifiedAs, verify-IsSound}
use infra_artifact_ledger.Service.Queries.Untouched.{Leaves, queries-Leaves}
use infra_artifact_ledger.Service.Queries.Stored.{AsStored, get_record-AsStored}

abbrev page_hash : Bytes → Text
page_hash raw = text "00000000000000000000000000000000000000000000000000000000000000ff"

abbrev page_blob : Blob
page_blob = record {
  blob_ref = text "page";
  digest = record { algorithm = text "sha256"; value = page_hash [] };
  byte_length = 3;
  payload_availability = text "available";
}

abbrev page_ledger : World
page_ledger = record {
  durable = record empty_db {
    records = record_row (Record.blob page_blob) ∷ [];
    payloads = payload_row (text "page", 1 ∷ 2 ∷ 3 ∷ []) ∷ [];
  };
  active = none;
  closed = false;
  faults = [];
}

read_blob-ReadBack_example :
    ReadBack page_hash page_ledger.durable
      (text "page")
      (read_blob page_hash (text "page") page_ledger)
read_blob-ReadBack_example = read_blob-ReadBack page_hash (text "page") page_ledger refl

-- The read answers the stored bytes.
page_read : (read_blob page_hash (text "page") page_ledger).0 ≡ answered (1 ∷ 2 ∷ 3 ∷ [])
unfolding read_blob read blob_bytes begin query rollback ◌>>=◌ pure raise lift wrap fetch_record
    fetch_payload decoded_row find_record row_of_kind typed_record read_payload validate_record
    check_blob check_payload id_of kind_of Kind-discrete Digest-discrete Text-discrete
    stable_id_match validate_stable_id digest digest_match integer
page_read = refl

abbrev any_float : Text → Bool
any_float t = true

get_record-AsStored_example :
    AsStored page_hash any_float page_ledger.durable
      (text "page")
      (get_record page_hash any_float (text "blob") (text "page") page_ledger)
get_record-AsStored_example =
    get_record-AsStored page_hash any_float (text "blob") (text "page") page_ledger refl

queries-Leaves_example :
    Leaves page_ledger.durable
      (get_record page_hash any_float (text "blob") (text "page") page_ledger)
    × Leaves page_ledger.durable (get_history page_hash any_float (text "page") page_ledger)
    × Leaves page_ledger.durable
        (get_operation page_hash any_float (text "team") (text "blob") (text "key") page_ledger)
    × Leaves page_ledger.durable (export_bundle page_hash any_float page_ledger)
queries-Leaves_example =
    queries-Leaves page_hash any_float page_ledger refl (text "blob") (text "page") (text "team")
      (text "key")

-- A ledger with one version of one artifact, whose content is the page.
abbrev recorded_noon : Option Text
recorded_noon = some (text "2026-01-01T12:00:00Z")

abbrev diary : Artifact
diary = record {
  artifact_id = text "diary";
  namespace_ref = text "team";
  type_ref = record { namespace = text "docs"; type_id = text "note"; type_version = text "1" };
  recorded_at = recorded_noon;
}

abbrev first_version : Version
first_version = record {
  version_id = text "first";
  artifact_id = text "diary";
  content_root_ref = text "root";
  parent_version_refs = [];
  external_source_refs = [];
  capture_refs = [];
  handling_policy_refs = [];
  principal_ref = none;
  recorded_at = recorded_noon;
}

abbrev diary_records : List Record
diary_records =
    Record.artifact diary
    ∷ Record.version first_version
    ∷ Record.content_root
        (record { content_root_ref = text "root"; target = RootTarget.blob_ref (text "page") })
    ∷ Record.blob page_blob
    ∷ []

abbrev diary_ledger : World
diary_ledger = record page_ledger {
  durable = record page_ledger.durable {
    records = map record_row diary_records;
    refs = all_refs diary_records;
  };
}

verify-IsSound_example :
    VerifiedAs page_hash any_float diary_ledger.durable (verify page_hash any_float diary_ledger)
verify-IsSound_example = verify-IsSound page_hash any_float diary_ledger refl

-- The content of the version's root, for the second implementation
diary_closure :
    closure diary_records (text "root")
    ≡ ok (text "root" ∷ text "page" ∷ text "page" ∷ [], text "page" ∷ [])
unfolding closure target id_of kind_of Kind-discrete Text-discrete
diary_closure = refl

-- Without the artifact the version's target is missing.
diary_orphan : check_targets [] (Record.version first_version) ≡ err Code.integrity_failure
unfolding check_targets target
diary_orphan = refl
