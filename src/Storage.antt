-- ===== src/Storage.antt =====
-- src/nplg_mcp/storage.py and src/nplg_mcp/storage_lifecycle.py: what the artifact store may publish, what it
-- deletes, and when it trusts its clock. The file system enters as observations.
pub mod Lifecycle
pub mod Publication
pub mod Prune
pub mod Clock
pub mod Insertion
pub mod Leases
mod Tests
