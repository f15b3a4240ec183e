-- ===== src/Audit/Init/Chain.antt =====
-- The chain of a boot session, from the first early event on.
use vita_os.Prelude.{
  ℕ, ◌+◌, Bool, true, false, Option, some, List, [], ◌∷◌, ◌≡◌, refl, sym, ◌∙◌, subst, append-nil,
  length, codes, Bool-cases, inl, inr, arith,
}
use vita_os.Boot.{Handoff}
use vita_os.Audit.Rows.{EventRow, boot_session}
use vita_os.Text.{Bytes}
use vita_os.Audit.Sqlite.{Sqlite}
use vita_os.Audit.State.{EarlyEvent, Call, AuditState}
use vita_os.Audit.State.Chain.{IsChained, append_event_internal-IsChained}
use vita_os.Audit.Init.{
  flush_early_events, after_session, after_columns, after_schema, open_backend, after_open, db_path,
  exec_sql_file, ensure_hardware_snapshot_schema, audit_init_persistent_backend,
}

-- Nothing has been appended yet.
pub record IsEarly {Db : Type 0} (s : AuditState Db) : Type 0 where
  pub no_seq : s.event_seq ≡ 0
  pub no_prev : s.prev_hash ≡ []

module _ (sql : Sqlite) where
  open sql use {Db, events, events-insert}

  -- What the database holds once its schema is brought up to date.
  pub held : Db → List EventRow
  held db =
      events
        (ensure_hardware_snapshot_schema sql (exec_sql_file sql db (codes "schema/audit.sql")).1).1

  flush-IsChained :
      (base : List EventRow) (calls : ℕ → Call) (frames : (i : ℕ) → length (calls i).stack ≡ 64)
      (i : ℕ) (s : AuditState Db) (early : List EarlyEvent)
      → IsChained sql base s
      → IsChained sql base (flush_early_events sql calls i s early)
  unfolding flush_early_events
  flush-IsChained base calls frames i s [] inv = inv
  flush-IsChained base calls frames i s (e ∷ rest) inv =
      flush-IsChained base calls frames (i + 1) _ rest (
        append_event_internal-IsChained sql base s inv (some e.event_type) (some e.summary)
          e.monotonic_ns (calls i) (frames i))

  after_session-IsChained :
      (base : List EventRow) (s : AuditState Db) (r : Bool × Db)
      → IsEarly s
      → events r.1 ≡ base
      → (after_session sql s r).0 ≡ true
      → IsChained sql base (after_session sql s r).1
  unfolding after_session
  after_session-IsChained base s (false, db) early same h = cc
  after_session-IsChained base s (true, db) early same h = record {
    db = db;
    rows = [];
    ready = refl;
    db_is = refl;
    stored = same ∙ sym (append-nil base);
    chained = tt;
    hash_at_end = early.no_prev;
    seq_at_end = early.no_seq;
    seq_bound = omega (arith, early.no_seq);
  }

  -- the insertion of the boot session adds no event
  session_row-events :
      (db : Db) (boot_id node_id arch : Bytes) (unix mono : ℕ)
      → events (sql.insert db (boot_session boot_id node_id arch unix mono)).1 ≡ events db
  session_row-events db boot_id node_id arch unix mono =
      let row = boot_session boot_id node_id arch unix mono in
      events-insert db row ∙ elim (Bool-cases (sql.insert db row).0) [
        | inl e ↦ rw e (append-nil (events db))
        | inr e ↦ rw e (append-nil (events db))
      ]

  after_columns-IsChained :
      (s : AuditState Db) (handoff : Option Handoff) (call : Call) (r : Bool × Db)
      → IsEarly s
      → (after_columns sql s handoff call r).0 ≡ true
      → IsChained sql (events r.1) (after_columns sql s handoff call r).1
  unfolding after_columns
  after_columns-IsChained s handoff call (false, db) early h = cc
  after_columns-IsChained s handoff call (true, db) early h =
      after_session-IsChained (events db) _ _
        (record { no_seq = early.no_seq; no_prev = early.no_prev })
        (session_row-events db _ _ _ call.unix call.mono) h

  after_schema-IsChained :
      (s : AuditState Db) (handoff : Option Handoff) (call : Call) (r : Bool × Db)
      → IsEarly s
      → (after_schema sql s handoff call r).0 ≡ true
      → IsChained sql
          (events (ensure_hardware_snapshot_schema sql r.1).1)
          (after_schema sql s handoff call r).1
  unfolding after_schema
  after_schema-IsChained s handoff call (false, db) early h = cc
  after_schema-IsChained s handoff call (true, db) early h =
      after_columns-IsChained s handoff call (ensure_hardware_snapshot_schema sql db) early h

  open_backend-IsChained :
      (s : AuditState Db) (db : Db) (handoff : Option Handoff) (call : Call)
      → IsEarly s
      → (open_backend sql s (some db) handoff call).0 ≡ true
      → IsChained sql (held db) (open_backend sql s (some db) handoff call).1
  unfolding open_backend held
  open_backend-IsChained s db handoff call early h =
      after_schema-IsChained s handoff call (exec_sql_file sql db (codes "schema/audit.sql")) early
        h

  after_open-IsChained :
      (base : List EventRow) (calls : ℕ → Call) (r : Bool × AuditState Db)
      → ((i : ℕ) → length (calls i).stack ≡ 64)
      → (r.0 ≡ true → IsChained sql base r.1)
      → (after_open sql calls r).0 ≡ true
      → IsChained sql base (after_open sql calls r).1
  unfolding after_open
  after_open-IsChained base calls (false, s) frames opened h = cc
  after_open-IsChained base calls (true, s) frames opened h =
      let flushed = flush-IsChained base calls frames 0 s s.early_events (opened refl) in
      record {
        db = flushed.db;
        rows = flushed.rows;
        ready = flushed.ready;
        db_is = flushed.db_is;
        stored = flushed.stored;
        chained = flushed.chained;
        hash_at_end = flushed.hash_at_end;
        seq_at_end = flushed.seq_at_end;
        seq_bound = flushed.seq_bound;
      }

  -- A successful initialisation leaves the early events as the first rows of a hash chain, behind
  -- what the database held.
  pub init-IsChained :
      (s : AuditState Db) (db : Db) (handoff : Option Handoff) (call : Call) (calls : ℕ → Call)
      → IsEarly s
      → sql.open_db (db_path handoff) ≡ some db
      → ((i : ℕ) → length (calls i).stack ≡ 64)
      → (audit_init_persistent_backend sql s handoff call calls).0 ≡ true
      → IsChained sql (held db) (audit_init_persistent_backend sql s handoff call calls).1
  unfolding audit_init_persistent_backend
  init-IsChained s db handoff call calls early found frames =
      subst
        (λ (o : Option Db).
          (after_open sql calls (open_backend sql s o handoff call)).0 ≡ true
          → IsChained sql (held db) (after_open sql calls (open_backend sql s o handoff call)).1)
        (sym found)
        (after_open-IsChained (held db) calls (open_backend sql s (some db) handoff call) frames
          (open_backend-IsChained s db handoff call early))
