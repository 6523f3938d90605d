-- ===== src/Kv.antt =====
-- The KV store: the index from hashes to the places of entries in the log.
pub mod Entry
pub mod Pages
pub mod Stages
mod Examples
