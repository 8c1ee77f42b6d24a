-- ===== src/Service.antt =====
-- service.py: the public operations with their transactions.
pub mod Failures
pub mod Indexes
pub mod Plans
pub mod Replay
pub mod Reads
pub mod Execute
pub mod Reading
pub mod Staging
pub mod Honesty
pub mod History
pub mod Conflict
pub mod Queries
