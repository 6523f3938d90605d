-- ===== src/Records.antt =====
-- The records that aeordb-lib/src/engine stores besides the directories: deletion_record.rs,
-- symlink_record.rs and file_record.rs.
pub mod Deletion
pub mod Symlink
pub mod File
mod Examples
