-- ===== src/Command/Reports.antt =====
-- The reports that kernel/command_core.c writes, reads back and compares.
pub mod Verified
pub mod Lengths
pub mod Vitair
pub mod Chain
use vita_os.Prelude.{
  ℕ, Bool, true, false, not, ◌&&◌, Option, none, some, List, [], ◌∷◌, ◌++◌, codes, if◌then◌else◌,
  ◌>>=◌, ◌>>◌, pure,
}
use vita_os.Text.{text_or, Bytes, str_eq, starts_with, u64_to_dec}
use vita_os.Storage.Files.{StorageState, storage_write_text, storage_read_text, storage_last_error}
use vita_os.VitaIr.{
  Status, status_ok, RuntimeStatus, Claim, ir_version_text, vita_tri_to_json_number,
  vita_ir_severity_to_string,
}
use vita_os.Command.{Platform, Here, Do, say, say_all, on_world}
use vita_os.Command.Status.{resolve_audit_runtime_status, claims_now, show_audit}
use vita_os.Command.Claims.{append_text, append_texts, claim_pieces}
use vita_os.Command.Texts.{
  verify_ok, verify_limited, verify_jsonl_ok, verify_jsonl_limited, events_text, events_jsonl,
  diagnostic_txt_ready_uefi, diagnostic_txt_ready_other, diagnostic_txt_limited_uefi,
  diagnostic_txt_limited_other, diagnostic_jsonl_ready_uefi, diagnostic_jsonl_ready_other,
  diagnostic_jsonl_limited_uefi, diagnostic_jsonl_limited_other, selftest_txt_pass,
  selftest_txt_warn_storage_ok, selftest_txt_warn_storage_degraded, selftest_jsonl_pass,
  selftest_jsonl_warn,
}
use vita_os.Command.ReportTexts.{
  chosen, named, claim_text, json_pieces, claim_jsonl, or_unknown_text, state_jsonl, append_claims,
  text_claims, jsonl_claims, no_claims, vitair_report, on_uefi, diagnostic_txt, diagnostic_jsonl,
  diagnostic_reports, storage_ok, selftest_reports, vitair_path,
}

module _ (platform : Platform) where
  open platform use {host}

  -- a failure of `write_report_verified`, with the last error of the storage
  storage_failed : Bytes → Bytes → Do platform Bool
  storage_failed line path = do
    say platform line
    say platform path
    λ m. say platform (storage_last_error m.site.station.world) m
    pure false

  differs : Bytes → Do platform Bool
  differs path = do
    say_all platform
        (codes "report verify compare failed:" ∷ path ∷ codes "write/read verify failed" ∷ [])
    pure false

  -- the comparison behind a read
  compared : Bytes → Bytes → Bool × Bytes → Do platform Bool
  unfolding storage_failed differs
  compared path body (found, readback) =
      if not found
      then storage_failed (codes "report verify read failed:") path
      else if not (str_eq readback body)
      then differs path
      else pure true

  read_back : Bytes → Bytes → Do platform Bool
  unfolding compared
  read_back path body = do
    read ← on_world platform (storage_read_text host path [] 2048)
    compared path body read

  -- A path and a body that are there. The buffer of 2048 bytes keeps what an earlier report left,
  -- which only a read that fails would show.
  unfoldable pub write_report_verified : Bytes → Bytes → Do platform Bool
  unfolding storage_failed read_back
  write_report_verified path body = do
    written ← on_world platform (storage_write_text host path body)
    if not written then storage_failed (codes "report write failed:") path else read_back path body

  write_report_pair_verified : Bytes → Bytes → Bytes → Bytes → Do platform Bool
  unfolding write_report_verified
  write_report_pair_verified txt_path txt jsonl_path jsonl = do
    ok ← write_report_verified txt_path txt
    if not ok then pure false else write_report_verified jsonl_path jsonl

  -- one of two lists of lines, for a result
  report : List Bytes → Bytes → Bool → Do platform Unit
  report written failed true = say_all platform written
  report written failed false = say platform failed

  pub handle_audit_verify : Do platform Unit
  handle_audit_verify = do
    say platform (codes "Audit verify / Verificacion de auditoria:")
    λ m.
        say_all platform
          (if m.ctx.boot_status.audit_ready
            then codes "hosted hash chain: OK (current boot)"
              ∷ codes "cadena hash hosted: OK (arranque actual)"
              ∷ []
            else codes "UEFI restricted diagnostic: hash verification unavailable"
              ∷ codes "UEFI diagnostico restringido: verificacion hash no disponible"
              ∷ [])
          m

  pub handle_audit_export : Do platform Unit
  unfolding write_report_pair_verified report chosen
  handle_audit_export m =
      let ready = m.ctx.boot_status.audit_ready in
      let txt_path = codes "/vita/export/audit/audit-verify.txt" in
      let jsonl_path = codes "/vita/export/audit/audit-verify.jsonl" in
      let run : Do platform Unit = do
        ok ←
            write_report_pair_verified txt_path (chosen ready verify_ok verify_limited) jsonl_path
              (chosen ready verify_jsonl_ok verify_jsonl_limited)
        report (codes "audit export: written" ∷ txt_path ∷ jsonl_path ∷ [])
            (codes "audit export: failed") ok
      in run m

  pub handle_audit_events_export : Do platform Unit
  unfolding write_report_pair_verified report
  handle_audit_events_export = do
    let txt_path = codes "/vita/export/audit/current-session-events.txt"
    let jsonl_path = codes "/vita/export/audit/current-session-events.jsonl"
    ok ← write_report_pair_verified txt_path events_text jsonl_path events_jsonl
    report (codes "audit events: written" ∷ txt_path ∷ jsonl_path ∷ [])
        (codes "audit events: failed") ok

  -- the lines of `handle_audit_sqlite_summary` for what the database file holds
  count_lines : List Bytes → List ℕ → List Bytes
  count_lines [] counts = []
  count_lines (name ∷ names) [] = []
  count_lines (name ∷ names) (n ∷ counts) = name ∷ u64_to_dec n ∷ count_lines names counts

  sqlite_lines : Option (Option (List ℕ)) → List Bytes
  unfolding count_lines
  sqlite_lines none = codes "audit sqlite: open failed" ∷ []
  sqlite_lines (some none) = codes "audit sqlite: query failed" ∷ []
  sqlite_lines (some (some counts)) =
      codes "audit sqlite summary:"
      ∷ count_lines
          (codes "boot_session:"
            ∷ codes "audit_event:"
            ∷ codes "hardware_snapshot:"
            ∷ codes "ai_proposal:"
            ∷ codes "node_peer:"
            ∷ [])
          counts

  database : Option Bytes → Bytes
  database none = codes "build/audit/vitaos-audit.db"
  database (some []) = codes "build/audit/vitaos-audit.db"
  database (some (c ∷ path)) = c ∷ path

  -- the hosted build
  pub handle_audit_sqlite_summary : Do platform Unit
  unfolding sqlite_lines database
  handle_audit_sqlite_summary m =
      say_all platform (sqlite_lines (platform.counts m.kernel (database m.audit_db_path))) m

  pub handle_diagnostic_bundle : Do platform Unit
  unfolding diagnostic_reports write_report_pair_verified report claims_now
  handle_diagnostic_bundle m =
      let (txt, jsonl) =
        diagnostic_reports m.site.station.world.storage m.ctx.boot_status.audit_ready
          (claims_now platform m) in
      let run : Do platform Unit = do
        ok ←
            write_report_pair_verified (codes "/vita/export/reports/diagnostic-bundle.txt") txt
              (codes "/vita/export/reports/diagnostic-bundle.jsonl") jsonl
        report (codes "diagnostic: written" ∷ []) (codes "diagnostic: failed") ok
      in run m

  pub handle_selftest : Do platform Unit
  unfolding selftest_reports write_report_pair_verified report claims_now
      resolve_audit_runtime_status
  handle_selftest m =
      let (txt, jsonl) =
        selftest_reports (resolve_audit_runtime_status platform m) m.ctx.boot_status.audit_ready
          (claims_now platform m) in
      let run : Do platform Unit = do
        ok ←
            write_report_pair_verified (codes "/vita/export/reports/self-test.txt") txt
              (codes "/vita/export/reports/self-test.jsonl") jsonl
        report (codes "selftest: written" ∷ []) (codes "selftest: failed") ok
      in run m

  unfoldable pub write_vitair : Do platform Bool
  unfolding vitair_report write_report_verified claims_now
  write_vitair m = write_report_verified vitair_path (vitair_report (claims_now platform m)) m

  pub handle_export_vitair : Do platform Unit
  unfolding write_vitair report
  handle_export_vitair = do
    ok ← write_vitair
    report (codes "export vitair: written" ∷ vitair_path ∷ []) (codes "export vitair: failed") ok

  -- the files that `handle_export_index` looks for
  indexed : List Bytes
  indexed =
      codes "/vita/export/reports/last-session.txt"
      ∷ codes "/vita/export/reports/last-session.jsonl"
      ∷ codes "/vita/export/reports/diagnostic-bundle.txt"
      ∷ codes "/vita/export/reports/diagnostic-bundle.jsonl"
      ∷ codes "/vita/export/reports/self-test.txt"
      ∷ codes "/vita/export/reports/self-test.jsonl"
      ∷ codes "/vita/export/reports/vitair-state.jsonl"
      ∷ codes "/vita/export/audit/audit-verify.txt"
      ∷ codes "/vita/export/audit/audit-verify.jsonl"
      ∷ codes "/vita/export/audit/current-session-events.txt"
      ∷ codes "/vita/export/audit/current-session-events.jsonl"
      ∷ []

  -- The lines of the index, in a text of 1024 bytes: one for each file that can be read.
  index_from : Bytes → List Bytes → Do platform Bytes
  unfolding append_text
  index_from txt [] = pure txt
  index_from txt (path ∷ paths) = do
    read ← on_world platform (storage_read_text host path [] 8)
    index_from (if read.0 then append_text 1024 txt (codes "- " ++ (path ++ codes "\n")) else txt)
        paths

  pub handle_export_index : Do platform Unit
  unfolding index_from indexed write_report_pair_verified report
  handle_export_index = do
    txt ← index_from (codes "export_index:\n") indexed
    ok ←
        write_report_pair_verified (codes "/vita/export/export-index.txt") txt
          (codes "/vita/export/export-index.jsonl")
          (codes "{\"type\":\"export_index\",\"status\":\"written\"}\n")
    report (codes "export index: written" ∷ []) (codes "export index: failed") ok
