-- ===== src/Tests.antt =====
-- Concrete instances of the interfaces, tests of the definitions, and the theorems at concrete
-- inputs.
mod Sessions
mod Fixtures
mod Digest
mod Logging
mod Files
mod Editing
mod Reports
mod Cooperation
mod Names
mod Recording
mod Printing
mod Exporting
mod Completing
mod Commanding
