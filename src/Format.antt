-- ===== src/Format.antt =====
-- The format of the log in aeordb-lib/src/engine: the enumerations with their numbers, and the
-- header that stands before every entry.
pub mod HashAlgorithm
pub mod Compression
pub mod EntryType
pub mod EntryHeader
mod Examples
