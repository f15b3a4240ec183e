-- ===== src/Audit/Report.antt =====
-- The reports of kernel/audit_core.c: readiness, chain verification, identity, and the block of
-- recent events for replication.
pub mod Blind
pub mod Block
use vita_os.Prelude.{
  ℕ, ◌+◌, ◌-◌, Bool, true, false, not, Option, none, some, List, [], ◌∷◌, ◌++◌, codes, length, take,
  leb, ltb, ◌==◌, if◌then◌else◌,
}
use mathlib.Core.List.{reverse}
use vita_os.Text.{Bytes, str_copy, u64_to_dec}
use vita_os.Audit.Rows.{EventRow}
use vita_os.Audit.Sqlite.{Sqlite}
use vita_os.Audit.State.{AuditState}

-- A report is the result and the new content of `out`, for a buffer of `cap` bytes.
pub audit_readiness_report : {Db : Type 0} → AuditState Db → Bytes → ℕ → Bool × Bytes
audit_readiness_report s out cap = if cap == 0 then (false, out) else (
  true,
  take (cap - 1) (
      codes "audit_ready="
      ++ ((if s.persistent_ready then codes "yes" else codes "no")
          ++ (codes "\nmode="
              ++ ((if s.persistent_ready
                    then codes "hosted_sqlite"
                    else codes "restricted_diagnostic")
                  ++ (b'\n' ∷ []))))),
)

pub audit_verify_current_chain : {Db : Type 0} → AuditState Db → Bytes → ℕ → Bool × Bytes
audit_verify_current_chain s out cap =
    if cap == 0
    then (false, out)
    else if not s.persistent_ready
    then (false, take (cap - 1) (codes "status=unavailable\nreason=restricted_diagnostic\n"))
    else (
      true,
      take (cap - 1) (
          codes "status=ok\nboot_id="
          ++ (s.boot_id ++ (codes "\nevents=" ++ (u64_to_dec s.event_seq ++ (b'\n' ∷ []))))),
    )

-- `audit_export_verify_report` and `audit_export_current_session_events` ignore their paths.
pub audit_export_verify_report : {Db : Type 0} → AuditState Db → Bytes → Bytes → Bool
audit_export_verify_report s txt_path jsonl_path = s.persistent_ready

pub audit_export_current_session_events : {Db : Type 0} → AuditState Db → Bytes → Bytes → Bool
audit_export_current_session_events s txt_path jsonl_path = s.persistent_ready

-- the text of `audit_sqlite_summary`
summary_text : ℕ × ℕ × ℕ × ℕ × ℕ → Bytes
summary_text (boots, events, snapshots, proposals, peers) =
    codes "boot_session="
    ++ (u64_to_dec boots
        ++ (codes "\naudit_event="
            ++ (u64_to_dec events
                ++ (codes "\nhardware_snapshot="
                    ++ (u64_to_dec snapshots
                        ++ (codes "\nai_proposal="
                            ++ (u64_to_dec proposals
                                ++ (codes "\nnode_peer=" ++ (u64_to_dec peers ++ b'\n' ∷ [])))))))))

-- what is written for the counts of a query, where it gives a row
counted : ℕ → Option (ℕ × ℕ × ℕ × ℕ × ℕ) → Bool × Bytes
unfolding summary_text
counted cap none = (false, [])
counted cap (some counts) = (true, take (cap - 1) (summary_text counts))

-- `query` is what SQLite gives for the numbers of the rows of the five tables.
pub audit_sqlite_summary :
    {Db : Type 0} → (Db → Option (ℕ × ℕ × ℕ × ℕ × ℕ)) → AuditState Db → Bytes → ℕ → Bool × Bytes
unfolding counted
audit_sqlite_summary query s out cap =
    if cap == 0
    then (false, out)
    else elim s.db [ none ↦ (false, out) | some db ↦ counted cap (query db) ]

or_unknown : Bytes → Bytes
or_unknown [] = codes "unknown"
or_unknown (c ∷ s) = c ∷ s

-- The result and the new contents of the two buffers.
pub audit_get_identity :
    {Db : Type 0} → AuditState Db → Bytes → ℕ → Bytes → ℕ → Bool × Bytes × Bytes
unfolding or_unknown
audit_get_identity s boot_id boot_id_cap node_id node_id_cap =
    if boot_id_cap == 0
    then (false, boot_id, node_id)
    else if node_id_cap == 0
    then (false, boot_id, node_id)
    else (
      true,
      str_copy boot_id boot_id_cap (some (or_unknown s.boot_id)),
      str_copy node_id node_id_cap (some (or_unknown s.node_id)),
    )

-- `snprintf` of one line, before its length is tested
unfoldable pub block_line : Bool → EventRow → Bytes
block_line first r =
    (if first then [] else b';' ∷ [])
    ++ (u64_to_dec r.event_seq ++ (b':' ∷ (r.event_type ++ (b':' ∷ r.event_hash))))

nonempty : Bytes → Bool
nonempty [] = false
nonempty (c ∷ s) = true

-- The loop over the rows of the query: the result and what `out` holds.
pub block_loop : ℕ → Bytes → Bool → List EventRow → Bool × Bytes
unfolding nonempty
block_loop cap out first [] = (nonempty out, out)
block_loop cap out first (r ∷ rows) =
    let line = block_line first r in
    let rest = block_loop cap (out ++ line) false rows in
    if leb 192 (length line)
    then (false, out)
    else if leb cap (length out + length line + 1)
    then (nonempty out, out)
    else rest

-- `SELECT ... ORDER BY id DESC LIMIT 8`
abbrev pub recent : List EventRow → List EventRow
recent rows = take 8 (reverse rows)

export_block : (sql : Sqlite) → Option sql.Db → Bool → Bytes → ℕ → Bool × Bytes
export_block sql none ready out cap = (false, out)
export_block sql (some db) ready out cap =
    if ready then block_loop cap [] true (recent (sql.events db)) else (false, out)

pub audit_export_recent_event_block : (sql : Sqlite) → AuditState sql.Db → Bytes → ℕ → Bool × Bytes
unfolding export_block
audit_export_recent_event_block sql s out cap =
    if ltb cap 2 then (false, out) else export_block sql s.db s.persistent_ready out cap
