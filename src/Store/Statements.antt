-- ===== src/Store/Statements.antt =====
-- `SQLiteStore.execute` and the transaction methods: every SQL statement meets one fault.
use infra_artifact_ledger.Prelude.{Option, some, none}
use infra_artifact_ledger.Store.Tables.{Db}
use infra_artifact_ledger.Store.Exec.{
  World, Exec, Outcome, returns, raises, Fault, runs, fails, late, ends, sqlite, SqliteCode,
  next_fault, later_faults,
}

-- What the connection reads: the transaction's view, or the file.
abbrev view_of : Option Db → Db → Db
view_of none file = file
view_of (some d) file = d

abbrev pub view : World → Db
view w = view_of w.active w.durable

abbrev pub read_on : {A : Type 0} → (Db → A) → Fault → World → Outcome A × World
read_on f runs w = (returns (f (view w)), w)
read_on f (fails e) w = (raises e, w)
read_on f (late e) w = (raises e, w)
read_on f (ends e) w = (raises e, record w { active = none })

-- A SELECT, all of its rows fetched.
unfoldable pub query : {A : Type 0} → (Db → A) → Exec A
query f w = read_on f (next_fault w.faults) (record w { faults = later_faults w.faults })

-- Outside a transaction a statement commits by itself.
abbrev put_in : Option Db → Db → World → World
put_in none d w = record w { durable = d }
put_in (some _) d w = record w { active = some d }

-- The effect of an INSERT whose new view is given, or that violates a constraint.
abbrev wrote : Outcome (Unit {0}) → Option Db → World → Outcome (Unit {0}) × World
wrote r none w = (raises (sqlite SqliteCode.constraint), w)
wrote r (some d) w = (r, put_in w.active d w)

abbrev pub write_on : (Db → Option Db) → Fault → World → Outcome (Unit {0}) × World
write_on g runs w = wrote (returns tt) (g (view w)) w
write_on g (fails e) w = (raises e, w)
write_on g (late e) w = wrote (raises e) (g (view w)) w
write_on g (ends e) w = (raises e, record w { active = none })

-- An INSERT.
unfoldable pub write : (Db → Option Db) → Exec (Unit {0})
write g w = write_on g (next_fault w.faults) (record w { faults = later_faults w.faults })

-- BEGIN inside a transaction, and COMMIT or ROLLBACK outside one, are errors.
abbrev began : Outcome (Unit {0}) → Option Db → World → Outcome (Unit {0}) × World
began r none w = (r, record w { active = some w.durable })
began r (some _) w = (raises (sqlite SqliteCode.other), w)

abbrev pub begin_on : Fault → World → Outcome (Unit {0}) × World
begin_on runs w = began (returns tt) w.active w
begin_on (fails e) w = (raises e, w)
begin_on (late e) w = began (raises e) w.active w
begin_on (ends e) w = (raises e, record w { active = none })

-- `begin`: BEGIN IMMEDIATE or BEGIN
unfoldable pub begin : Exec (Unit {0})
begin w = begin_on (next_fault w.faults) (record w { faults = later_faults w.faults })

abbrev ended : Outcome (Unit {0}) → Option Db → World → Outcome (Unit {0}) × World
ended r none w = (raises (sqlite SqliteCode.other), w)
ended r (some d) w = (r, record w { durable = d; active = none })

abbrev pub commit_on : Fault → World → Outcome (Unit {0}) × World
commit_on runs w = ended (returns tt) w.active w
commit_on (fails e) w = (raises e, w)
commit_on (late e) w = ended (raises e) w.active w
commit_on (ends e) w = (raises e, record w { active = none })

unfoldable pub commit : Exec (Unit {0})
commit w = commit_on (next_fault w.faults) (record w { faults = later_faults w.faults })

abbrev undone : Option Db → World → Outcome (Unit {0}) × World
undone none w = (raises (sqlite SqliteCode.other), w)
undone (some d) w = (returns tt, record w { active = none })

abbrev pub rollback_on : Fault → World → Outcome (Unit {0}) × World
rollback_on runs w = undone w.active w
rollback_on (fails e) w = (raises e, w)
rollback_on (late e) w = (raises e, record w { active = none })
rollback_on (ends e) w = (raises e, record w { active = none })

unfoldable pub rollback : Exec (Unit {0})
rollback w = rollback_on (next_fault w.faults) (record w { faults = later_faults w.faults })
