-- ===== src/Merge.antt =====
-- aeordb-lib/src/engine/merge.rs: the three-way merge of two diffs against a common base.
pub mod Types
pub mod Files
pub mod Symlinks
pub mod ThreeWay
pub mod Paths
pub mod View
pub mod Converge
mod Examples
