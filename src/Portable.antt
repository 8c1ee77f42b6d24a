-- ===== src/Portable.antt =====
-- portable.py: transport bundles.
pub mod Base64
pub mod Pieces
pub mod Content
pub mod Encoded
pub mod Entries
pub mod Encode
pub mod Decode
