-- ===== src/Tests/Reader.antt =====
-- Texts and bytes that the JSON reader takes, and what it makes of them.
use infra_artifact_ledger.Prelude.{
  ◌≤◌, ◌≡◌, refl, Bool, true, ◌&&◌, [], ◌∷◌, arith, leb, if◌then◌else◌,
}
use infra_artifact_ledger.Text.{Text, Bytes, text, text_le, Text-discrete}
use infra_artifact_ledger.Errors.{Code, ok, err}
use infra_artifact_ledger.Validation.Limits.{max_depth, max_nodes}
use infra_artifact_ledger.Canonical.{
  utf8, encode_utf8, canonical_bytes, check, sort_value, insert_field, render, escape, decimal,
  Value, str, num, negative, real, boolean, null, arr, obj, nil, cons, end, field,
}
use infra_artifact_ledger.Json.Scan.{scan_limits}
use infra_artifact_ledger.Json.Scan.Size.{depth, nodes, exact}
use infra_artifact_ledger.Json.Scan.Exact.{scan_limits-render}
use infra_artifact_ledger.Json.Read.{parse_json}
use infra_artifact_ledger.Json.Readable.{readable}
use infra_artifact_ledger.Json.Sorted.{parse_json-canonical_bytes}

abbrev every_float : Text → Bool
every_float t = true

sample_read :
    parse_json every_float 100
      (encode_utf8 (text " {\"a\": [1, -20, 3.5e2, \"x\\u00e9\\n\", true], \"b\" :null} "))
    ≡ ok (
        obj (
          field
            (text "a")
            (arr (
              cons (num 1) (
                cons (negative 20) (
                  cons
                    (real (text "3.5e2"))
                    (cons (str (120 ∷ 0xe9 ∷ 10 ∷ [])) (cons (boolean true) nil))))))
            (field (text "b") null end)))
unfolding parse_json encode_utf8 Text-discrete
sample_read = refl

long_integer :
    parse_json every_float 100 (encode_utf8 (text "12345678901234567x")) ≡ err Code.resource_limit
unfolding parse_json encode_utf8
long_integer = refl

repeated_key :
    parse_json every_float 100 (encode_utf8 (text "{\"a\":1,\"a\":2}")) ≡ err Code.invalid_input
unfolding parse_json encode_utf8 Text-discrete
repeated_key = refl

-- `{"b": ["x\n", -2], "a": {}}`
abbrev sample : Value
sample = obj (
    field (text "b") (arr (cons (str (120 ∷ 10 ∷ [])) (cons (negative 2) nil)))
      (field (text "a") (obj end) end))

abbrev sample_bytes : Bytes
sample_bytes = text "{\"a\":{},\"b\":[\"x\\n\",-2]}"

sample_written : canonical_bytes sample ≡ ok sample_bytes
unfolding canonical_bytes check sort_value insert_field render encode_utf8 utf8 text_le escape
    decimal
sample_written = refl

sample-readable : readable sample ≡ true
unfolding readable Text-discrete
sample-readable = refl

sample-nodes : nodes sample ≤ max_nodes
unfolding nodes
sample-nodes = omega arith

parse_json-canonical_bytes_example :
    parse_json every_float 100 sample_bytes ≡ ok (sort_value sample)
parse_json-canonical_bytes_example =
    parse_json-canonical_bytes every_float 100 sample sample_bytes sample_written sample-readable
      sample-nodes (omega arith)

sample-exact : exact sample ≡ true
unfolding exact
sample-exact = refl

scan_limits-render_example : scan_limits (render sample) ≡ (
    if leb (depth sample) max_depth && leb (nodes sample) max_nodes
    then ok tt
    else err Code.resource_limit)
scan_limits-render_example = scan_limits-render sample sample-exact
