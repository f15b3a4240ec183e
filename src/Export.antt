-- ===== src/Export.antt =====
-- kernel/session_jsonl_export.c: a report on the session as lines of JSON. Export.Json is the
-- builder, Export.Lines the lines, and Export.Write the export. Export.Session is the report of
-- kernel/session_export.c.
pub mod Json
pub mod Lines
pub mod Write
pub mod Session
