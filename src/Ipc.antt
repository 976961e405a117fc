-- ===== src/Ipc.antt =====
-- The frames between the server and its worker processes: src/nplg_mcp/pdf_ipc.py, the readers of
-- src/nplg_mcp/pdf_worker_main.py and src/nplg_mcp/pdf_worker_client.py, and src/nplg_mcp/parser_ipc.py.
pub mod Frames
pub mod Values
pub mod Parser
mod Tests
