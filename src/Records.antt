-- ===== src/Records.antt =====
-- records.py, and the shapes of the JSON records that validation.py declares.
use native.Mathlib.Decide.{ℕ_discrete}
use infra_artifact_ledger.Prelude.{ℕ, Bool, true, List, [], Option, Eq}
use infra_artifact_ledger.Text.{Text, text, Text-discrete}

abbrev pub profile : Text
profile = text "bounded-local-v0.1"

abbrev pub contract_version : Text
contract_version = text "0.1.0"

abbrev pub transport_version : Text
transport_version = text "0.1.0"

abbrev pub schema_id : Text
schema_id = text "urn:code-driver-theory:artifact-ledger:v0.1:candidate"

pub record TheoryBaseline : Type 0 where
  pub repository : Text
  pub commit : Text

abbrev pub theory_baseline : TheoryBaseline
theory_baseline = record {
  repository = text "kongbu0621/code-driver-theory";
  commit = text "9e2bc8217f05d5b604e24fa56dad2525f35983f1";
}

-- The keys of KINDS, in its order.
pub data Kind : Type 0 where
  artifact version content_root blob manifest provenance_link import_receipt : Kind

pub data OperationKind : Type 0 where
  create_artifact append_version import_bundle : OperationKind

pub record Digest : Type 0 where
  pub algorithm : Text
  pub value : Text

-- `type_ref` and `relation_ref`
pub record TypedRef : Type 0 where
  pub namespace : Text
  pub type_id : Text
  pub type_version : Text

-- The key `recorded_at` may be absent: a new record omits it.
pub record Artifact : Type 0 where
  pub artifact_id : Text
  pub namespace_ref : Text
  pub type_ref : TypedRef
  pub recorded_at : Option Text

pub record Version : Type 0 where
  pub version_id : Text
  pub artifact_id : Text
  pub content_root_ref : Text
  pub parent_version_refs : List Text
  pub external_source_refs : List Text
  pub capture_refs : List Text
  pub handling_policy_refs : List Text
  pub principal_ref : Option Text
  pub recorded_at : Option Text

-- The field `kind` of a content root, with the reference that it requires.
pub data RootTarget : Type 0 where
  blob_ref : Text → RootTarget
  manifest_ref : Text → RootTarget

pub record ContentRoot : Type 0 where
  pub content_root_ref : Text
  pub target : RootTarget

pub record Blob : Type 0 where
  pub blob_ref : Text
  pub digest : Digest
  pub byte_length : ℕ
  pub payload_availability : Text

pub record Entry : Type 0 where
  pub entry_key : Text
  pub blob_ref : Text

pub record Manifest : Type 0 where
  pub manifest_ref : Text
  pub digest : Digest
  pub entries : List Entry

pub record ObjectRef : Type 0 where
  pub kind : Text
  pub ref : Text

pub record ProvenanceLink : Type 0 where
  pub provenance_id : Text
  pub subject_version_ref : Text
  pub relation_ref : TypedRef
  pub object : ObjectRef
  pub recorded_at : Option Text

pub record ImportReceipt : Type 0 where
  pub import_receipt_id : Text
  pub imported_artifact_refs : List Text
  pub recorded_at : Option Text

-- A record with its kind.
pub data Record : Type 0 where
  artifact : Artifact → Record
  version : Version → Record
  content_root : ContentRoot → Record
  blob : Blob → Record
  manifest : Manifest → Record
  provenance_link : ProvenanceLink → Record
  import_receipt : ImportReceipt → Record

-- `idempotency_scope_ref`, `operation_kind` and `idempotency_key`
pub record Identity : Type 0 where
  pub scope : Text
  pub operation_kind : OperationKind
  pub key : Text

pub record IdempotencyRecord : Type 0 where
  pub identity : Identity
  pub request_fingerprint : Digest
  pub result_ref : Text
  pub recorded_at : Option Text

pub record Metadata : Type 0 where
  pub contract_version : Text
  pub contract_status : Text
  pub schema_id : Text
  pub theory_baseline : TheoryBaseline
  pub artifacts : List Artifact
  pub versions : List Version
  pub content_roots : List ContentRoot
  pub blobs : List Blob
  pub manifests : List Manifest
  pub provenance_links : List ProvenanceLink
  pub import_receipts : List ImportReceipt
  -- whether the optional key `import_receipts` is there
  pub has_receipts : Bool
  pub idempotency_records : List IdempotencyRecord

abbrev pub empty_metadata : Metadata
empty_metadata = record {
  contract_version = contract_version;
  contract_status = text "candidate";
  schema_id = schema_id;
  theory_baseline = theory_baseline;
  artifacts = [];
  versions = [];
  content_roots = [];
  blobs = [];
  manifests = [];
  provenance_links = [];
  import_receipts = [];
  has_receipts = true;
  idempotency_records = [];
}

unfoldable pub kind_of : Record → Kind
kind_of (Record.artifact r) = Kind.artifact
kind_of (Record.version r) = Kind.version
kind_of (Record.content_root r) = Kind.content_root
kind_of (Record.blob r) = Kind.blob
kind_of (Record.manifest r) = Kind.manifest
kind_of (Record.provenance_link r) = Kind.provenance_link
kind_of (Record.import_receipt r) = Kind.import_receipt

-- `record[KINDS[kind][1]]`
unfoldable pub id_of : Record → Text
id_of (Record.artifact r) = r.artifact_id
id_of (Record.version r) = r.version_id
id_of (Record.content_root r) = r.content_root_ref
id_of (Record.blob r) = r.blob_ref
id_of (Record.manifest r) = r.manifest_ref
id_of (Record.provenance_link r) = r.provenance_id
id_of (Record.import_receipt r) = r.import_receipt_id

unfoldable pub Digest-discrete : Discrete Digest
unfolding Text-discrete
Digest-discrete = hlevel Text-discrete

unfoldable pub OperationKind-discrete : Discrete OperationKind
OperationKind-discrete = hlevel

unfoldable pub Kind-discrete : Discrete Kind
Kind-discrete = hlevel

unfoldable pub Identity-discrete : Discrete Identity
unfolding Text-discrete OperationKind-discrete
Identity-discrete = hlevel (Text-discrete, OperationKind-discrete)

unfoldable pub Record-discrete : Discrete Record
unfolding ℕ_discrete
Record-discrete = hlevel ℕ_discrete

unfoldable pub IdempotencyRecord-discrete : Discrete IdempotencyRecord
unfolding ℕ_discrete
IdempotencyRecord-discrete = hlevel ℕ_discrete

unfoldable pub TheoryBaseline-discrete : Discrete TheoryBaseline
unfolding ℕ_discrete
TheoryBaseline-discrete = hlevel ℕ_discrete

instance abbrev pub digest_eq : Eq Digest
digest_eq = record { dec = Digest-discrete }

instance abbrev pub kind_eq : Eq Kind
kind_eq = record { dec = Kind-discrete }

instance abbrev pub operation_kind_eq : Eq OperationKind
operation_kind_eq = record { dec = OperationKind-discrete }

instance abbrev pub identity_eq : Eq Identity
identity_eq = record { dec = Identity-discrete }

instance abbrev pub record_eq : Eq Record
record_eq = record { dec = Record-discrete }

instance abbrev pub idempotency_record_eq : Eq IdempotencyRecord
idempotency_record_eq = record { dec = IdempotencyRecord-discrete }
