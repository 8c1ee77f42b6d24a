-- ===== src/Tests/Documents.antt =====
-- A metadata document with two versions, a leap second, and the theorems at these inputs.
use mathlib.Core.WellFounded.{Acc}
use infra_artifact_ledger.Prelude.{
  ℕ, ◌≤◌, ◌≡◌, ◌↔◌, refl, true, [], ◌∷◌, some, none, length, sorted,
}
use infra_artifact_ledger.Text.{Text, Bytes, text, Text-discrete}
use infra_artifact_ledger.Errors.{ok}
use infra_artifact_ledger.Records.{
  Artifact, Version, blob_ref, ContentRoot, Blob, Metadata, empty_metadata, id_of, kind_of,
}
use infra_artifact_ledger.Validation.Scalars.{
  expect_version, opaque, validate_stable_id, typed, array, unique_array, digest, digest_match,
  stable_id_match, integer,
}
use infra_artifact_ledger.Validation.RecordCheck.{
  validate_record, check_artifact, check_version, check_content_root, check_blob, recorded,
}
use infra_artifact_ledger.Validation.Time.{
  Stamp, behind, leap_valid, local_valid, month_days, zone_valid, time,
}
use infra_artifact_ledger.Validation.Time.LeapSeconds.{LastMinute, leap_valid_iff}
use infra_artifact_ledger.Validation.Graph.{
  validate_metadata, check_owned, check_operations, check_acyclic, check_reachable,
  check_version_refs, check_root, check_size, closure_length, content_refs,
}
use infra_artifact_ledger.Validation.Graph.Kahn.{visited_count}
use infra_artifact_ledger.Validation.Graph.Kahn.Termination.{visited_count-some}
use infra_artifact_ledger.Validation.Graph.Kahn.Counting.{IsDistinct, version_ids}
use infra_artifact_ledger.Validation.Graph.Kahn.Soundness.{Parent, visited_count-Acc}
use infra_artifact_ledger.Validation.Closure.{IsClosed, validate_metadata-IsClosed}
use infra_artifact_ledger.Validation.Ownership.{
  owned_ids, validate_metadata-IsDistinct, validate_metadata-Acc,
}

abbrev fixed_hash : Bytes → Text
fixed_hash raw = text "00000000000000000000000000000000000000000000000000000000000000ff"

abbrev paper : Artifact
paper = record {
  artifact_id = text "paper";
  namespace_ref = text "team";
  type_ref = record { namespace = text "docs"; type_id = text "paper"; type_version = text "1" };
  recorded_at = some (text "2026-01-01T12:00:00Z");
}

abbrev draft : Version
draft = record {
  version_id = text "draft";
  artifact_id = text "paper";
  content_root_ref = text "root";
  parent_version_refs = [];
  external_source_refs = [];
  capture_refs = [];
  handling_policy_refs = [];
  principal_ref = none;
  recorded_at = some (text "2026-01-01T12:00:00Z");
}

abbrev final : Version
final = record draft { version_id = text "final"; parent_version_refs = text "draft" ∷ [] }

abbrev root : ContentRoot
root = record { content_root_ref = text "root"; target = blob_ref (text "blob") }

abbrev page : Blob
page = record {
  blob_ref = text "blob";
  digest = record { algorithm = text "sha256"; value = fixed_hash [] };
  byte_length = 3;
  payload_availability = text "available";
}

-- The later version stands first: the traversal has to come to it by its parent.
abbrev pub document : Metadata
document = record empty_metadata {
  artifacts = paper ∷ [];
  versions = final ∷ draft ∷ [];
  content_roots = root ∷ [];
  blobs = page ∷ [];
}

document_valid : validate_metadata fixed_hash document ≡ ok tt
unfolding validate_metadata expect_version Text-discrete check_owned check_operations check_acyclic
    check_reachable validate_record check_artifact check_version check_content_root check_blob
    recorded opaque validate_stable_id typed array unique_array digest digest_match stable_id_match
    id_of kind_of visited_count sorted time month_days integer check_version_refs check_root
    check_size closure_length content_refs
document_valid = refl

validate_metadata-IsDistinct_example : IsDistinct (owned_ids document)
validate_metadata-IsDistinct_example =
    validate_metadata-IsDistinct fixed_hash document document_valid

validate_metadata-Acc_example : Acc (Parent document.versions) (text "final")
validate_metadata-Acc_example =
    validate_metadata-Acc fixed_hash document document_valid (text "final")

visited_count-some_example :
    (n : ℕ) × (visited_count (final ∷ draft ∷ []) ≡ some n) × (n ≤ length (final ∷ draft ∷ []))
visited_count-some_example = visited_count-some (final ∷ draft ∷ [])

both_distinct : IsDistinct (version_ids (final ∷ draft ∷ []))
unfolding Text-discrete
both_distinct = (refl, (refl, tt))

both_counted : visited_count (final ∷ draft ∷ []) ≡ some (length (final ∷ draft ∷ []))
unfolding visited_count Text-discrete
both_counted = refl

visited_count-Acc_example : Acc (Parent (final ∷ draft ∷ [])) (text "final")
visited_count-Acc_example =
    visited_count-Acc (final ∷ draft ∷ []) both_distinct both_counted (text "final")

-- 2016-12-31T18:59:60-05:00, the leap second at the end of 2016 in UTC.
abbrev new_year : Stamp
new_year = record {
  year = 2016;
  month = 12;
  day = 31;
  hour = 18;
  minute = 59;
  second = 60;
  zone = behind 5 0;
}

leap_valid_iff_example : (leap_valid new_year ≡ true) ↔ LastMinute new_year (behind 5 0)
unfolding local_valid month_days zone_valid
leap_valid_iff_example = leap_valid_iff new_year refl refl

validate_metadata-IsClosed_example : IsClosed document
validate_metadata-IsClosed_example = validate_metadata-IsClosed fixed_hash document document_valid
