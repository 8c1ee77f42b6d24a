-- ===== src/Validation.antt =====
-- validation.py: strict checks of scalars, records, requests and the graph of a metadata document.
pub mod Limits
pub mod Scalars
pub mod Time
pub mod RecordCheck
pub mod Graph
pub mod Ownership
pub mod Closure
