-- ===== src/Command/Reports/Chain.antt =====
-- The reports keep the hash chain of the audit log.
use vita_os.Prelude.{ℕ, Bool, true, false, not, List, [], ◌∷◌, ◌≡◌, codes, length}
use vita_os.Text.{Bytes, str_eq}
use vita_os.Audit.Rows.{EventRow}
use vita_os.Storage.Files.{storage_write_text, storage_read_text}
use vita_os.Command.{Platform, Do, on_site, on_world, say, say_all}
use vita_os.Command.Chain.{Safe, world-Safe, choose-Safe}
use vita_os.Command.Reports.{
  storage_failed, differs, compared, read_back, write_report_verified, write_report_pair_verified,
  report, handle_audit_verify, handle_audit_export, handle_audit_events_export,
  handle_audit_sqlite_summary, handle_diagnostic_bundle, handle_selftest, write_vitair,
  handle_export_vitair, indexed, index_from, handle_export_index,
}

module _ (platform : Platform) (base : List EventRow)
    (frames : (i : ℕ) → length (platform.clock i).stack ≡ 64) where
  open platform use {host}

  abbrev Good : {A : Type 0} → Do platform A → Type 0
  Good f = Safe platform base frames f

  failed-Safe : (line path : Bytes) → Good (storage_failed platform line path)
  unfolding storage_failed say on_site
  failed-Safe line path m inv = inv

  differs-Safe : (path : Bytes) → Good (differs platform path)
  unfolding differs say_all on_site
  differs-Safe path m inv = inv

  compared-Safe :
      (path body : Bytes) (read : Bool × Bytes) → Good (compared platform path body read)
  unfolding compared
  compared-Safe path body (found, readback) =
      choose-Safe platform base frames (not found) _ _ (failed-Safe _ path) (
        choose-Safe platform base frames (not (str_eq readback body)) _ _ (differs-Safe path)
          (λ m inv. inv))

  read_back-Safe : (path body : Bytes) → Good (read_back platform path body)
  unfolding read_back
  read_back-Safe path body m inv =
      let read = on_world platform (storage_read_text host path [] 2048) m in
      compared-Safe path body read.0 read.1
        (world-Safe platform base frames (storage_read_text host path [] 2048) m inv)

  pub write_report_verified-Safe :
      (path body : Bytes) → Good (write_report_verified platform path body)
  unfolding write_report_verified
  write_report_verified-Safe path body m inv =
      let written = on_world platform (storage_write_text host path body) m in
      choose-Safe platform base frames (not written.0) _ _ (failed-Safe _ path)
        (read_back-Safe path body) written.1
        (world-Safe platform base frames (storage_write_text host path body) m inv)

  pair-Safe :
      (txt_path txt jsonl_path jsonl : Bytes)
      → Good (write_report_pair_verified platform txt_path txt jsonl_path jsonl)
  unfolding write_report_pair_verified
  pair-Safe txt_path txt jsonl_path jsonl m inv =
      let first = write_report_verified platform txt_path txt m in
      choose-Safe platform base frames (not first.0) _ _ (λ s h. h)
        (write_report_verified-Safe jsonl_path jsonl) first.1
        (write_report_verified-Safe txt_path txt m inv)

  report-Safe :
      (written : List Bytes) (failed : Bytes) (ok : Bool) → Good (report platform written failed ok)
  unfolding report say say_all on_site
  report-Safe written failed true m inv = inv
  report-Safe written failed false m inv = inv

  pub verify-Safe : Good (handle_audit_verify platform)
  unfolding handle_audit_verify say say_all on_site
  verify-Safe m inv = inv

  pub export-Safe : Good (handle_audit_export platform)
  unfolding handle_audit_export
  export-Safe m inv = report-Safe _ _ _ _ (pair-Safe _ _ _ _ m inv)

  pub events-Safe : Good (handle_audit_events_export platform)
  unfolding handle_audit_events_export
  events-Safe m inv = report-Safe _ _ _ _ (pair-Safe _ _ _ _ m inv)

  pub sqlite-Safe : Good (handle_audit_sqlite_summary platform)
  unfolding handle_audit_sqlite_summary say_all on_site
  sqlite-Safe m inv = inv

  pub diagnostic-Safe : Good (handle_diagnostic_bundle platform)
  unfolding handle_diagnostic_bundle
  diagnostic-Safe m inv = report-Safe _ _ _ _ (pair-Safe _ _ _ _ m inv)

  pub selftest-Safe : Good (handle_selftest platform)
  unfolding handle_selftest
  selftest-Safe m inv = report-Safe _ _ _ _ (pair-Safe _ _ _ _ m inv)

  pub vitair-Safe : Good (handle_export_vitair platform)
  unfolding handle_export_vitair write_vitair
  vitair-Safe m inv = report-Safe _ _ _ _ (write_report_verified-Safe _ _ m inv)

  index_from-Safe : (paths : List Bytes) (txt : Bytes) → Good (index_from platform txt paths)
  unfolding index_from
  index_from-Safe [] txt m inv = inv
  index_from-Safe (path ∷ paths) txt m inv =
      index_from-Safe paths _ (on_world platform (storage_read_text host path [] 8) m).1
        (world-Safe platform base frames (storage_read_text host path [] 8) m inv)

  pub index-Safe : Good (handle_export_index platform)
  unfolding handle_export_index
  index-Safe m inv =
      let ix = index_from platform (codes "export_index:\n") (indexed platform) m in
      report-Safe (codes "export index: written" ∷ []) (codes "export index: failed") _ _ (
        pair-Safe (codes "/vita/export/export-index.txt") ix.0
          (codes "/vita/export/export-index.jsonl")
          (codes "{\"type\":\"export_index\",\"status\":\"written\"}\n") ix.1
          (index_from-Safe (indexed platform) (codes "export_index:\n") m inv))
