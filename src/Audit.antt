-- ===== src/Audit.antt =====
-- The hosted audit subsystem of kernel/audit_core.c.
pub mod Rows
pub mod Sqlite
pub mod State
pub mod Ops
pub mod Init
pub mod Report
