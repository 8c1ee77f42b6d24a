-- ===== src/Validation/Limits.antt =====
-- The limits of validation.py, and its two ways to fail.
use infra_artifact_ledger.Prelude.{ℕ, ◌*◌, Bool, true, false}
use infra_artifact_ledger.Errors.{Code, Result, ok, err}

abbrev pub max_json : ℕ
max_json = 8 * 1024 * 1024

abbrev pub max_blob : ℕ
max_blob = 64 * 1024 * 1024

abbrev pub max_payload : ℕ
max_payload = 256 * 1024 * 1024

abbrev pub max_package : ℕ
max_package = 384 * 1024 * 1024

abbrev pub max_descriptor : ℕ
max_descriptor = 4096

abbrev pub max_depth : ℕ
max_depth = 16

abbrev pub max_nodes : ℕ
max_nodes = 500000

abbrev pub max_integer : ℕ
max_integer = 9007199254740991

-- `if test: _fail(..., code)`
abbrev pub fail_if : Bool → Code → Result (Unit {0})
fail_if true c = err c
fail_if false c = ok tt

abbrev pub require : Bool → Code → Result (Unit {0})
require true c = ok tt
require false c = err c
