-- ===== src/Store.antt =====
-- sqlite_store.py: the tables, one connection with explicit transactions, and the statements.
pub mod Tables
pub mod Exec
pub mod Statements
pub mod Operations
pub mod Triples
