-- ===== src/Http.antt =====
-- src/nplg_mcp/http_security.py: the admission of HTTP requests around the MCP application.
pub mod Headers
pub mod Policy
pub mod Body
pub mod Credentials
pub mod Authenticated
pub mod Host
pub mod Security
pub mod Admitted
pub mod Gates
pub mod Flight
pub mod Unread
mod Tests
