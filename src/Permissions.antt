-- ===== src/Permissions.antt =====
-- Who may do what at a path: permissions.rs, permission_resolver.rs, api_key_rules.rs and the queries
-- of grants_index.rs, all in aeordb-lib/src/engine.
pub mod Flags
pub mod Paths
pub mod Grants
pub mod Resolver
pub mod Opinions
pub mod Walk
pub mod Ancestors
pub mod Below
pub mod KeyRules
pub mod KeyFlags
mod Examples
