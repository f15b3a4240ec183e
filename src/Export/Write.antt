-- ===== src/Export/Write.antt =====
-- session_export_write_jsonl of kernel/session_jsonl_export.c.
pub mod Stored
use vita_os.Prelude.{
  Bool, true, false, not, ◌&&◌, Option, List, [], ◌∷◌, ◌++◌, codes, if◌then◌else◌,
}
use vita_os.Text.{text_or, Bytes, str_eq}
use vita_os.Storage.Host.{Host}
use vita_os.Storage.Files.{World, storage_write_text, storage_read_text}
use vita_os.Transcript.{Transcript}
use vita_os.Console.{Terminal, Site, write_all}
use vita_os.Export.Json.{jb_append, json_joined}
use vita_os.Export.Lines.{
  Context, session_line, hardware_line, storage_line, network_line, ai_line, paths_line,
  limitations_line, part_count,
}

abbrev pub report_path : Bytes
report_path = codes "/vita/export/reports/last-session.jsonl"

-- the lines one after the other, in a buffer of 4096 bytes
in_buffer : List Bytes → Bytes
in_buffer pieces = jb_append 4096 (json_joined pieces) []

-- a call of `audit_emit_boot_event`
abbrev pub AuditCall : Type 0
AuditCall = Bytes × Bytes

module _ (terminal : Terminal) (host : Host) where
  abbrev pub Here : Type 0
  Here = Site host.Fs terminal.Device

  -- The text of the report; only the count of the parts reads files, behind the line that shows the
  -- state of the storage.
  pub report_text :
      Option (Bytes × Bytes) → Context → Transcript → World host.Fs → Bytes × World host.Fs
  unfolding in_buffer
  report_text identity ctx t w =
      let (count, w') = part_count host t w in
      (
        in_buffer (
            session_line identity ctx w.storage
            ++ (hardware_line ctx
                ++ (storage_line w.storage
                    ++ (network_line ctx
                        ++ (ai_line ++ (paths_line count t ++ limitations_line)))))),
        w',
      )

  -- The write, the read behind its success, and the comparison.
  write_report : Bytes → World host.Fs → Bool × World host.Fs
  write_report text w =
      let (written, w1) = storage_write_text host report_path text w in
      let ((found, readback), w2) = storage_read_text host report_path [] 4096 w1 in
      if not written
      then (false, w1)
      else if not found
      then (false, w2)
      else (str_eq text readback, w2)

  with_world : World host.Fs → Here → Here
  with_world w s = record s { station = record s.station { world = w } }

  -- The message, with the audit call behind it.
  finish_report : Bool × World host.Fs → Here → (Bool × AuditCall) × Here
  unfolding text_or with_world
  finish_report (true, w) s = (
    (true, (codes "SESSION_JSONL_EXPORT_WRITTEN", report_path)),
    write_all terminal host (codes "export jsonl: written" ∷ report_path ∷ []) (with_world w s),
  )
  finish_report (false, w) s =
      let reason = text_or w.storage.last_error (codes "write/read verify failed") in
      (
        (false, (codes "SESSION_JSONL_EXPORT_FAILED", reason)),
        write_all terminal host (codes "export jsonl: failed" ∷ reason ∷ []) (with_world w s),
      )

  -- The result with the last audit call; SESSION_JSONL_EXPORT_REQUESTED goes before the write. Both
  -- calls touch the audit log alone, and are the caller's here.
  pub session_export_write_jsonl :
      Option (Bytes × Bytes) → Context → Here → (Bool × AuditCall) × Here
  unfolding write_report finish_report
  session_export_write_jsonl identity ctx s =
      let (text, w) = report_text identity ctx s.station.transcript s.station.world in
      finish_report (write_report text w) s
