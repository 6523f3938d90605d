-- ===== src/Lib.antt =====
-- AeorDB: a content-addressed, append-only database. The engine writes entries to one data file
-- (a log), finds them through a hash index (the KV store), reuses the space of dead entries through
-- a tracker of voids, keeps what the index has not yet written in a hot tail at the end of the
-- file, and synchronizes nodes by a three-way merge of their directory trees. The code is in
-- aeordb-lib/src/engine.
--
-- Files:
--   Prelude, Bytes, Strings, Errors: what the parts share. Prelude has Boolean tests and lists over
--     native numbers, ordered maps (`BTreeMap`) and integers; Bytes the little-endian codecs and
--     slices; Strings the byte order of strings and sets of them; Errors `EngineError` and `?`.
--   Format: entry_type.rs, hash_algorithm.rs, compression.rs and entry_header.rs. The 31 bytes of
--     the fixed header and the hash behind them are `serialize` and `deserialize`.
--   FileHeader: file_header.rs. Commit and Crash are about the two slots in a file of bytes, with the
--     histories of completed and torn writes as a relation.
--   VoidManager: void_manager.rs. The two `BTreeMap`s are sorted association lists; every method is
--     a function of the same name from the tracker to the tracker.
--   Kv: the index entries of kv_store.rs, the bucket pages of kv_pages.rs and the growth of the
--     block in kv_stages.rs.
--   HotTail: hot_tail.rs, with its loops as recursion on the record counts, over a file of bytes.
--   Directory: directory_entry.rs, with the readers of binary_utils.rs in Bytes.Readers.
--   BTree: btree.rs. Leaf and Internal are the methods of the two kinds of node, Codec their bytes,
--     Store what is used of the storage engine (an interface), Batch and Insert the two insertions,
--     Query lookup and listing; Spec is a sorted list of entries, and Proofs relates the two.
--   Records: file_record.rs, symlink_record.rs and deletion_record.rs.
--   Merge: merge.rs. The loop over the paths is `merge_paths` over one step for files and one for
--     symlinks; a `HashMap` is a list of pairs and a `BTreeSet` an ordered list.
--   MergePatch: merge_patch.rs, over JSON values.
--   Permissions: permissions.rs, permission_resolver.rs, grants_index.rs and api_key_rules.rs. The
--     caches that the resolver asks are a parameter, `AccessData`, and so is `glob_match`.
--   RateLimiter: aeordb-lib/src/auth/rate_limiter.rs, with the runs of requests as a step relation.
--   PathUtils: path_utils.rs.
--
-- Numbers are natural numbers, with the wrap-around of machine words written out where the code can
-- reach it. `BLAKE3`, zstd, CRC-32 and `glob_match` are parameters. Loops are
-- by recursion on a list or a count, but for two. `child_entries_from` has the length of its input as
-- fuel: each round consumes a byte or more. The recursions over a B-tree have a bound on the levels of
-- the tree, and succeed with the bound that a tree keeps and with every larger one. A file is its
-- bytes, without I/O errors. Threads, locks,
-- fsync and the network are not modelled, nor the storage engine, the directory operations, the
-- queries and the server around these parts. Of btree.rs, `btree_delete` and `btree_from_entries` are
-- left out.
pub mod Prelude
pub mod Errors
pub mod Bytes
pub mod Format
pub mod FileHeader
pub mod VoidManager
pub mod Kv
pub mod HotTail
pub mod Strings
pub mod Directory
pub mod BTree
pub mod Records
pub mod Merge
pub mod MergePatch
pub mod Permissions
pub mod RateLimiter
pub mod PathUtils
