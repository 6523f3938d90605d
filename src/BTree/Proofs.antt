-- ===== src/BTree/Proofs.antt =====
-- About the operations of aeordb-lib/src/engine/btree.rs.
pub mod Names
pub mod Entries
pub mod Chain
pub mod Focus
pub mod Halves
pub mod LeafSearch
pub mod Views
pub mod Tree
pub mod Insertion
pub mod InsertNode
pub mod Insert
pub mod Queries
pub mod Refines
pub mod Unbatched
