-- ===== src/Tokens.antt =====
-- src/nplg_mcp/tokens.py: signed asset tokens and search cursors.
pub mod Checks
pub mod Halves
pub mod Base64
pub mod Paths
pub mod Assets
pub mod Json
pub mod Cursors
mod Tests
