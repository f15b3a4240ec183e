-- ===== src/Audit/Init.antt =====
-- `audit_init_persistent_backend` of kernel/audit_core.c: the database is opened, its schema is
-- brought up to date, the boot session is recorded, and the early events are flushed.
pub mod Chain
use vita_os.Prelude.{
  ℕ, ◌+◌, Bool, true, false, ◌||◌, Option, none, some, List, [], ◌∷◌, ◌++◌, codes, length, take,
  leb, if◌then◌else◌,
}
use vita_os.Text.{Bytes, str_eq, str_copy, u64_to_dec, safe_text}
use vita_os.Boot.{Handoff}
use vita_os.Audit.Rows.{boot_session}
use vita_os.Audit.Sqlite.{Sqlite}
use vita_os.Audit.State.{EarlyEvent, Call, AuditState, append_event_internal}

-- the columns of `ensure_hardware_snapshot_schema`, each with the same definition
abbrev snapshot_columns : List Bytes
snapshot_columns =
    codes "display_count"
    ∷ codes "keyboard_count"
    ∷ codes "mouse_count"
    ∷ codes "audio_count"
    ∷ codes "microphone_count"
    ∷ codes "ethernet_count"
    ∷ codes "usb_controller_count"
    ∷ []

abbrev column_definition : Bytes
column_definition = codes "INTEGER NOT NULL DEFAULT 0"

has_name : Bytes → List Bytes → Bool
has_name column [] = false
has_name column (name ∷ names) = str_eq name column || has_name column names

pub db_path : Option Handoff → Bytes
db_path none = codes "build/audit/vitaos-audit.db"
db_path (some h) = elim h.audit_db_path [
  | none ↦ codes "build/audit/vitaos-audit.db"
  | some path ↦ path
]

arch_of : Option Handoff → Option Bytes
arch_of none = none
arch_of (some h) = h.arch_name

module _ (sql : Sqlite) where
  open sql use {Db, open_db, read_file, exec, columns, insert}

  exec_text : Db → Option Bytes → Bool × Db
  exec_text db none = (false, db)
  exec_text db (some []) = (false, db)
  exec_text db (some (c ∷ text)) = exec db (c ∷ text)

  exec_sql_file : Db → Bytes → Bool × Db
  exec_sql_file db path = exec_text db (read_file path)

  ensure_hardware_snapshot_column : Db → Bytes → Bytes → Bool × Db
  unfolding has_name
  ensure_hardware_snapshot_column db column definition =
      let statement =
        codes "ALTER TABLE hardware_snapshot ADD COLUMN "
        ++ (column ++ (b' ' ∷ (definition ++ (b';' ∷ [])))) in
      if has_name column (columns db)
      then (true, db)
      else if leb 192 (length statement)
      then (false, db)
      else exec db statement

  -- the chain of `&&`: the first failure stops it
  ensure_columns : Db → List Bytes → Bool × Db
  ensure_columns db [] = (true, db)
  ensure_columns db (column ∷ rest) =
      let (done, db') = ensure_hardware_snapshot_column db column column_definition in
      let later = ensure_columns db' rest in if done then later else (false, db')

  ensure_hardware_snapshot_schema : Db → Bool × Db
  ensure_hardware_snapshot_schema db = ensure_columns db snapshot_columns

  -- The loop over the buffered events from index `i` on; the result of each append is dropped.
  pub flush_early_events : (ℕ → Call) → ℕ → AuditState Db → List EarlyEvent → AuditState Db
  flush_early_events calls i s [] = s
  flush_early_events calls i s (e ∷ rest) =
      flush_early_events calls (i + 1)
        (append_event_internal sql s (some e.event_type) (some e.summary) e.monotonic_ns
          (calls i)).1
        rest

  after_session : AuditState Db → Bool × Db → Bool × AuditState Db
  after_session s (false, db) = (false, record s { db = none })
  after_session s (true, db) = (true, record s { db = some db; persistent_ready = true })

  after_columns : AuditState Db → Option Handoff → Call → Bool × Db → Bool × AuditState Db
  after_columns s handoff call (false, db) = (false, record s { db = none })
  after_columns s handoff call (true, db) =
      let boot_id = take 63 (codes "boot-" ++ u64_to_dec call.unix) in
      let node_id = str_copy s.node_id 64 (some (codes "node-local")) in
      let arch = str_copy s.arch_name 32 (some (safe_text (arch_of handoff) (codes "x86_64"))) in
      after_session
        (record s {
          boot_started_unix = call.unix;
          boot_id = boot_id;
          node_id = node_id;
          arch_name = arch;
        })
        (insert db (boot_session boot_id node_id arch call.unix call.mono))

  after_schema : AuditState Db → Option Handoff → Call → Bool × Db → Bool × AuditState Db
  after_schema s handoff call (false, db) = (false, record s { db = none })
  after_schema s handoff call (true, db) =
      after_columns s handoff call (ensure_hardware_snapshot_schema db)

  open_backend : AuditState Db → Option Db → Option Handoff → Call → Bool × AuditState Db
  open_backend s none handoff call = (false, record s { db = none })
  open_backend s (some db) handoff call =
      after_schema s handoff call (exec_sql_file db (codes "schema/audit.sql"))

  -- the flush of the early events, where the backend was opened
  after_open : (ℕ → Call) → Bool × AuditState Db → Bool × AuditState Db
  after_open calls (false, s) = (false, s)
  after_open calls (true, s) =
      (true, record (flush_early_events calls 0 s s.early_events) { early_events = [] })

  -- `call` is read at the boot session, and `calls i` at the append of the i-th early event.
  unfoldable pub audit_init_persistent_backend :
      AuditState Db → Option Handoff → Call → (ℕ → Call) → Bool × AuditState Db
  unfolding open_backend after_session after_columns after_schema after_open exec_sql_file exec_text
      ensure_hardware_snapshot_schema ensure_hardware_snapshot_column ensure_columns db_path arch_of
      has_name flush_early_events
  audit_init_persistent_backend s handoff call calls =
      after_open calls (open_backend s (open_db (db_path handoff)) handoff call)
