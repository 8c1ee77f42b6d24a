-- ===== src/Tests/Second.antt =====
-- Records that both implementations accept, and times that only one of them does.
use mathlib.Core.Option.{some-injective}
use infra_artifact_ledger.Prelude.{
  ℕ, Bool, ◌||◌, ◌&&◌, leb, arith, ◌++◌, subst, ◌≡◌, refl, false, some, [], ◌∷◌,
}
use infra_artifact_ledger.Text.{Text, Bytes, text, Text-discrete}
use infra_artifact_ledger.Errors.{Code, ok, err}
use infra_artifact_ledger.Records.{
  Artifact, Blob, IdempotencyRecord, OperationKind, Record, Digest-discrete,
}
use infra_artifact_ledger.Validation.Scalars.{unicode, is_digit}
use infra_artifact_ledger.Independent.Clock.{OnAscii, IsAscii, timestamp_match}
use infra_artifact_ledger.Validation.Time.{time, time_match, stamp_check, month_days}
use infra_artifact_ledger.Validation.RecordCheck.{validate_record, check_payload, check_idempotency}
use infra_artifact_ledger.Independent.{
  contract_record, artifact_record, blob_record, operation_record, operation_identity, check_bytes,
  stable, stored_time, opaque_reference, qualified, bounded_string, owned_id, timestamp,
  calendar_time, digest_shape, safe,
}
use infra_artifact_ledger.Independent.Agreement.{
  validate_record-contract_record, check_payload-check_bytes, check_idempotency-operation_record,
}

-- `\d` on ASCII and on the Arabic-Indic digits
abbrev decimal_digit : ℕ → Bool
decimal_digit c = is_digit c || (leb 1632 c && leb c 1641)

decimal_digit-OnAscii : OnAscii decimal_digit
decimal_digit-OnAscii c h = ground (arith, h)

abbrev ones : Bytes → Text
ones raw = text "1111111111111111111111111111111111111111111111111111111111111111"

at_noon : (t : Text) → some (text "2026-01-01T12:00:00Z") ≡ some t → IsAscii t
at_noon t e = subst IsAscii (some-injective _ _ e) refl

abbrev note : Artifact
note = record {
  artifact_id = text "note";
  namespace_ref = text "team";
  type_ref = record { namespace = text "docs"; type_id = text "note"; type_version = text "1" };
  recorded_at = some (text "2026-01-01T12:00:00Z");
}

note_contract : contract_record ones decimal_digit false (Record.artifact note) ≡ ok tt
unfolding contract_record artifact_record stable stored_time opaque_reference qualified
    bounded_string owned_id timestamp calendar_time timestamp_match month_days
note_contract = refl

validate_record-contract_record_example : validate_record ones false (Record.artifact note) ≡ ok tt
validate_record-contract_record_example =
    validate_record-contract_record ones decimal_digit decimal_digit-OnAscii (Record.artifact note)
      at_noon note_contract

abbrev sheet : Blob
sheet = record {
  blob_ref = text "sheet";
  digest = record { algorithm = text "sha256"; value = ones [] };
  byte_length = 2;
  payload_availability = text "available";
}

sheet_contract : blob_record sheet ≡ ok tt
unfolding blob_record stable bounded_string owned_id digest_shape safe Text-discrete
sheet_contract = refl

sheet_bytes :
    check_bytes ones 2 (record { algorithm = text "sha256"; value = ones [] }) (7 ∷ 8 ∷ []) ≡ ok tt
unfolding check_bytes Digest-discrete Text-discrete
sheet_bytes = refl

check_payload-check_bytes_example : check_payload ones sheet (7 ∷ 8 ∷ []) ≡ ok tt
check_payload-check_bytes_example =
    check_payload-check_bytes ones sheet (7 ∷ 8 ∷ []) sheet_contract sheet_bytes

abbrev made : IdempotencyRecord
made = record {
  identity = record {
    scope = text "team";
    operation_kind = OperationKind.create_artifact;
    key = text "k1";
  };
  request_fingerprint = record { algorithm = text "sha256"; value = ones [] };
  result_ref = text "note";
  recorded_at = some (text "2026-01-01T12:00:00Z");
}

made_contract : operation_record decimal_digit made ≡ ok tt
unfolding operation_record operation_identity stable stored_time opaque_reference bounded_string
    owned_id timestamp calendar_time timestamp_match month_days digest_shape Text-discrete
made_contract = refl

check_idempotency-operation_record_example : check_idempotency made ≡ ok tt
check_idempotency-operation_record_example =
    check_idempotency-operation_record decimal_digit decimal_digit-OnAscii made at_noon
      made_contract

-- The leap second at the end of 2016
leap_second_first : time (text "2016-12-31T23:59:60Z") ≡ ok tt
unfolding time unicode time_match stamp_check month_days
leap_second_first = refl

leap_second_second : timestamp decimal_digit (text "2016-12-31T23:59:60Z") ≡ err Code.invalid_input
unfolding timestamp timestamp_match calendar_time
leap_second_second = refl

-- A time with an Arabic-Indic digit in the seventh place of the fraction
abbrev seventh_place : Text
seventh_place = text "2026-01-01T12:00:00.123456" ++ 1635 ∷ text "Z"

seventh_place_first : time seventh_place ≡ err Code.invalid_input
unfolding time unicode time_match stamp_check month_days
seventh_place_first = refl

seventh_place_second : timestamp decimal_digit seventh_place ≡ ok tt
unfolding timestamp timestamp_match calendar_time month_days
seventh_place_second = refl
