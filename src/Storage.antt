-- ===== src/Storage.antt =====
-- The hosted storage facade of kernel/storage.c.
pub mod Paths
pub mod Host
pub mod Files
