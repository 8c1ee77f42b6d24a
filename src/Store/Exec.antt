-- ===== src/Store/Exec.antt =====
-- Python exceptions, one connection, and actions that read and write it and may raise.
use infra_artifact_ledger.Prelude.{List, [], ◌∷◌, Option, Bool}
use infra_artifact_ledger.Errors.{Code, Result, ok, err}
use infra_artifact_ledger.Store.Tables.{Db}

-- The primary result code of a sqlite3.Error.
pub data SqliteCode : Type 0 where
  busy locked corrupt notadb constraint other : SqliteCode

-- What a call may raise: `ledger` is a LedgerError, `rejected` a _RejectedReplayInput, `os_error` an
-- OSError, `failure` any other Exception, `interrupt` a BaseException that is no Exception.
pub data Exn : Type 0 where
  ledger rejected : Code → Exn
  sqlite : SqliteCode → Exn
  checkpoint_interrupted os_error failure interrupt : Exn

-- What happens to one statement: it runs; it fails and leaves the transaction alone; it takes
-- effect and then raises; it raises and SQLite has rolled the transaction back.
pub data Fault : Type 0 where
  runs : Fault
  fails late ends : Exn → Fault

-- A connection: what is on disk, the open transaction's view, and what awaits the next statements.
pub record World : Type 0 where
  pub durable : Db
  pub active : Option Db
  pub closed : Bool
  pub faults : List Fault

pub data Outcome (A : Type 0) : Type 0 where
  returns : A → Outcome A
  raises : Exn → Outcome A

-- What was written before a raise stays written.
abbrev pub Exec : Type 0 → Type 0
Exec A = World → Outcome A × World

unfoldable pub pure : {A : Type 0} → A → Exec A
pure a w = (returns a, w)

unfoldable pub raise : {A : Type 0} → Exn → Exec A
raise e w = (raises e, w)

abbrev pub outcome : {A : Type 0} → Result A → Outcome A
outcome (ok a) = returns a
outcome (err c) = raises (ledger c)

unfoldable pub lift : {A : Type 0} → Result A → Exec A
lift r w = (outcome r, w)

abbrev continue : {A B : Type 0} → Outcome A → (A → Exec B) → Exec B
continue (returns a) f w = f a w
continue (raises e) f w = (raises e, w)

infixl 5 ◌>>=◌ ◌>>◌
unfoldable pub ◌>>=◌ : {A B : Type 0} → Exec A → (A → Exec B) → Exec B
unfolding pure raise lift
◌>>=◌ m f w = let (r, w') = m w in continue r f w'

abbrev pub ◌>>◌ : {A B : Type 0} → Exec A → Exec B → Exec B
m >> k = m >>= λ _. k

-- `except LedgerError as error: raise LedgerError("INTEGRITY_FAILURE", ...)`
abbrev wrap_outcome : {A : Type 0} → Code → Outcome A → Outcome A
wrap_outcome c (returns a) = returns a
wrap_outcome c (raises (ledger d)) = raises (ledger c)
wrap_outcome c (raises e) = raises e

unfoldable pub wrap : {A : Type 0} → Code → Exec A → Exec A
wrap c m w = let (r, w') = m w in (wrap_outcome c r, w')

-- The faults that are left after the next statement, and the fault of that statement.
abbrev pub next_fault : List Fault → Fault
next_fault [] = runs
next_fault (f ∷ fs) = f

abbrev pub later_faults : List Fault → List Fault
later_faults [] = []
later_faults (f ∷ fs) = fs
