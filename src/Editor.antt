-- ===== src/Editor.antt =====
-- The line-oriented note editor of kernel/editor.c.
pub mod NotePath
pub mod Session
pub mod State
pub mod Save
pub mod Commands
pub mod Notes
