-- ===== src/Audit/Sqlite.antt =====
-- What kernel/audit_core.c uses of SQLite, which is not under the repository: a database is opened,
-- rows are inserted by one statement each, and the events are read back by their id.
use vita_os.Prelude.{Bool, true, false, Option, List, [], ◌∷◌, ◌++◌, ◌≡◌}
use vita_os.Text.{Bytes}
use vita_os.Audit.Rows.{EventRow, Row, audit_event}

-- The rows that a statement appends to `audit_event`, if it succeeds.
abbrev pub new_events : Row → List EventRow
new_events (audit_event e) = e ∷ []
new_events _ = []

-- An INSERT that reports SQLITE_DONE has written its row, and any other has written nothing.
abbrev pub appended : Bool → Row → List EventRow
appended true row = new_events row
appended false row = []

pub record Sqlite : Type 1 where
  pub Db : Type 0
  -- `sqlite3_open`
  pub open_db : Bytes → Option Db
  -- the text of a file, as `fopen` and `fread` give it
  pub read_file : Bytes → Option Bytes
  -- `sqlite3_exec`
  pub exec : Db → Bytes → Bool × Db
  -- `PRAGMA table_info(hardware_snapshot)`: the column names
  pub columns : Db → List Bytes
  -- prepare, bind, step and finalize of one INSERT
  pub insert : Db → Row → Bool × Db
  -- the rows of `audit_event` by ascending id
  pub events : Db → List EventRow
  pub events-insert :
      (db : Db) (row : Row) → events (insert db row).1 ≡ events db ++ appended (insert db row).0 row
