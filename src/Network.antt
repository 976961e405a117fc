-- ===== src/Network.antt =====
-- The outbound network: src/nplg_mcp/security.py.
pub mod Resolution
mod Tests
