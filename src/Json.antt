-- ===== src/Json.antt =====
-- The JSON reader of validation.py: the limits, the decoder that it calls, and its hooks.
pub mod Scan
pub mod Utf8
pub mod Strings
pub mod Numbers
pub mod Read
pub mod Tokens
pub mod Integers
pub mod Steps
pub mod Readable
pub mod RoundTrip
pub mod Sorted
