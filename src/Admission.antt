-- ===== src/Admission.antt =====
-- src/nplg_mcp/admission.py and src/nplg_mcp/bounded_work.py: permits and who holds them.
pub mod Gate
pub mod Principals
pub mod Paths
pub mod Workers
mod Tests
