-- ===== src/Preflight.antt =====
-- src/nplg_mcp/json_preflight.py: a lexical check of a JSON request body that builds no value tree.
-- The unread bytes stand for the payload and the index into it: the index is what has been taken off.
-- A raise of `JsonPreflightError` is `rejected`; `out_of_fuel` belongs to the model's loops alone.
pub mod Limits
pub mod Scan
pub mod Text
pub mod Parser
pub mod Post
pub mod Progress
pub mod Bounds
pub mod Grammar
pub mod Tests
