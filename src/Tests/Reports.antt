-- ===== src/Tests/Reports.antt =====
-- The reports of the audit subsystem, and the buffer of early events.
use vita_os.Prelude.{none, some, List, [], ◌∷◌, ◌≡◌, refl, codes, true, arith}
use vita_os.Audit.Rows.{EventRow}
use vita_os.Audit.State.{AuditState, audit_early_buffer_init}
use vita_os.Audit.State.Early.{IsBuffering, audit_early_buffer_init-IsBuffering}
use vita_os.Audit.Ops.{AuditOp, emit, perform_all}
use vita_os.Audit.Ops.Session.{perform_all-IsBuffering}
use vita_os.Audit.Report.{
  audit_verify_current_chain, block_loop, recent, audit_export_recent_event_block,
}
use vita_os.Audit.Report.Blind.{audit_verify_current_chain_blind}
use vita_os.Audit.Report.Block.{
  IsBlock, block_loop-IsBlock, audit_export_recent_event_block-IsBlock,
}
use vita_os.Tests.Fixtures.{memory_sqlite, call}

abbrev row : EventRow
row = record {
  boot_id = codes "b";
  event_seq = 1;
  event_type = codes "BOOT_STARTED";
  summary = codes "boot";
  monotonic_ns = 7;
  rtc_unix = 9;
  prev_hash = [];
  event_hash = codes "ab";
}

abbrev Events : Type 0
Events = List EventRow

abbrev ready : AuditState Events
ready = record (audit_early_buffer_init Events) { persistent_ready = true; db = some (row ∷ []) }

audit_verify_current_chain_blind_example :
    ((audit_verify_current_chain (record ready { db = some []; prev_hash = codes "x" }) [] 256).0
      ≡ true)
    × (audit_verify_current_chain (record ready { db = some []; prev_hash = codes "x" }) [] 256
        ≡ audit_verify_current_chain ready [] 256)
audit_verify_current_chain_blind_example =
    audit_verify_current_chain_blind ready (some []) (codes "x") [] 256 refl (omega arith)

block_loop-IsBlock_example :
    IsBlock 64 [] true (row ∷ row ∷ []) (block_loop 64 [] true (row ∷ row ∷ [])).1
block_loop-IsBlock_example = block_loop-IsBlock 64 [] true (row ∷ row ∷ []) (omega arith)

audit_export_recent_event_block-IsBlock_example :
    IsBlock 64 [] true
      (recent (row ∷ []))
      (audit_export_recent_event_block memory_sqlite ready [] 64).1
audit_export_recent_event_block-IsBlock_example =
    audit_export_recent_event_block-IsBlock memory_sqlite ready (row ∷ []) [] 64 refl refl
      (omega arith)

abbrev early : List AuditOp
early = emit (some (codes "BOOT_STARTED")) none call ∷ emit none none call ∷ []

perform_all-IsBuffering_example :
    IsBuffering (perform_all memory_sqlite (audit_early_buffer_init Events) early)
perform_all-IsBuffering_example =
    perform_all-IsBuffering memory_sqlite (audit_early_buffer_init Events) early
      (audit_early_buffer_init-IsBuffering Events)
