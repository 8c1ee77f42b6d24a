-- ===== src/Lib.antt =====
-- The artifact ledger: validation, canonical encoding, the JSON reader, transport bundles, the SQLite
-- store and the service.
--
-- The program keeps immutable records (artifacts, versions, content roots, blobs, manifests,
-- provenance links, import receipts) in a SQLite file. A caller sends a request with an idempotency
-- identity; `Ledger.execute` validates it, opens a transaction, looks the identity up, and either
-- replays the stored success or computes, stores and commits a new operation. A reply names a commit
-- state that the caller relies on to retry. The other methods of `Ledger` only read. A bundle carries
-- the whole state, metadata and payloads, to another ledger.
--
-- Files, and the code that they model (paths from the repository's root):
--   Records, Errors      src/infra_artifact_ledger/records.py, errors.py: kinds, constants, codes.
--   Canonical            fingerprint.py: `canonical_bytes` and `digest_bytes`.
--   Fingerprint          fingerprint.py: `request_fingerprint`, over the JSON shapes of the records.
--   Validation           validation.py: Limits and Scalars (the `_string` family), Time (`_time`),
--     RecordCheck (`validate_record`, `check_payload`), Graph (`validate_metadata`), Graph/Kahn (its
--     traversal of the parent graph).
--   Json                 validation.py: Scan (`_scan_limits`), Read (`parse_json` with its hooks, over
--     `json.loads`), Utf8 (strict decoding), Strings, Numbers; Readable, Steps, RoundTrip and Sorted
--     have the proofs on what the canonical encoding writes.
--   Wire                 validation.py: JSON objects read as records, with the key and type tests of
--     `_object`, `_array` and the scalar checks; Documents has metadata and requests.
--   Portable             portable.py: Base64, Content (the entries), Pieces (`_json_bytes`), Encode
--     (`encode_bundle`), Decode (`decode_bundle`).
--   Independent          implementations/independent_b/src/infra_artifact_ledger/contract.py: the
--     record checks of the second implementation; Clock has its time pattern, Objects the targets and
--     the closure of a document's objects (`graph` less its traversal, `closure`), and Scalars and
--     Agreement compare the checks with Validation.
--   Requests             validation.py: `validate_request`.
--   Store                sqlite_store.py: Tables (the schema, `reference_rows`), Exec (faults and
--     exceptions), Statements (begin, commit, rollback, queries), Operations (the methods of
--     `SQLiteStore`), Triples (rules for reasoning on stateful code).
--   Service              service.py: Failures (`_error`), Indexes (`_metadata`, `_record`, `_blob`,
--     `_verify_indexes`), Plans (`_create`, `_append`, `_import`), Replay (`_check_replay`), Execute
--     (`execute`), Reads (`_read`, `read_blob`), Queries (the other reads, `verify`, `export_bundle`).
--   Tests                concrete ledgers, documents and faults.
--
-- State. A `World` is the durable file, the working copy of an open transaction, whether the handle
-- is closed, and a script of faults. Every SQL statement takes one fault from the script: it runs,
-- it fails without effect, it raises after its effect, or it raises and the transaction is over. An
-- exhausted script means that statements run. A statement can so break off at every point of
-- `execute`, COMMIT and ROLLBACK included.
--
-- Records are typed values: the checks that a JSON object has the declared keys, of the declared
-- types, are carried by the types. The key `recorded_at`, which a new record must omit, is an
-- Option. Text is a list of Unicode code points, surrogates included; a payload is a list of bytes.
-- A table row holds a record of its kind, text that is no JSON object, or an object of another shape,
-- which is kept as what the code takes from it: the id, and the rows that `reference_rows` makes of
-- it or the exception that it raises. The store's reader passes such an object on; `_metadata`
-- refuses it, and `verify` counts it and goes on.
--
-- Parameters. SHA-256 is a function from bytes to text. `execute` takes a function from package
-- and descriptor to metadata and payloads, for every one of which its theorems hold; the program's is
-- Portable.Decode.decode_bundle. It takes a request that has been read, and the time of the call.
-- `finite` tells whether `float` takes a token to a finite number; a float is kept as its token.
-- `is_decimal` is the `\d` of the second implementation's time pattern. A theorem says so where it
-- assumes anything of these: that a digest is 64 hexadecimal digits, or that the `\d` of an ASCII
-- character is a digit 0 to 9.
--
-- Order of faults. A document is read as records first and checked then, so a document with a fault
-- of shape and another fault gives the code of the former; the program may meet the latter first.
--
-- Fuel. The traversal of the parent graph takes as fuel the number of versions, which is enough for
-- every list of versions (see the results). `decimal` has fuel for twenty digits, and the maximum exact
-- integer, 2 ^ 53 - 1, has sixteen. `json.loads` has as fuel three calls for each
-- character and three more, which is enough for every text that the canonical encoding writes (see
-- the results). All other loops are structural.
--
-- Not modelled: the texts of messages, and details other than those of a committed failure; other
-- connections, since a write transaction holds the file's lock; the callbacks of _checkpoints.py,
-- beyond the exception that they raise; opening and initialising a file; the command line, snapshots
-- and recovery, which are file-system code around the parts that are modelled; the rest
-- of the second implementation; the drivers under tools/.

pub mod Prelude
pub mod Text
pub mod Errors
pub mod Records
pub mod Validation
pub mod Canonical
pub mod Requests
pub mod Fingerprint
pub mod Json
pub mod Wire
pub mod Portable
pub mod Independent
pub mod Store
pub mod Service
pub mod Tests
