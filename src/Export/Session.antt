-- ===== src/Export/Session.antt =====
-- The report of kernel/session_export.c: a text of the session, written and read back.
use vita_os.Prelude.{
  ℕ, Bool, true, false, not, Option, none, some, List, [], ◌∷◌, ◌++◌, codes, if◌then◌else◌,
}
use vita_os.Text.{text_or, Bytes, str_eq, u64_to_dec}
use vita_os.Audit.Rows.{HwSnapshot}
use vita_os.Storage.Host.{Host}
use vita_os.Storage.Files.{World, StorageState, storage_write_text, storage_read_text}
use vita_os.Transcript.{Transcript}
use vita_os.Transcript.Output.{
  session_transcript_txt_path, session_transcript_jsonl_path, session_transcript_state,
}
use vita_os.Console.{Terminal, Site, write_all}
use vita_os.Export.Json.{jb_append, json_joined}
use vita_os.Export.Lines.{Context, boot_mode_name, runs_hosted, known}
use vita_os.Export.Write.{AuditCall}

abbrev pub session_export_path : Bytes
session_export_path = codes "/vita/export/reports/last-session.txt"

-- `rb_line`, `rb_kv`, `rb_kv_u64` and `rb_kv_bool`: what they append
rb_line : Bytes → Bytes
rb_line text = text ++ b'\n' ∷ []

rb_kv : Bytes → Bytes → Bytes
rb_kv key value = key ++ (value ++ b'\n' ∷ [])

rb_kv_u64 : Bytes → ℕ → Bytes
unfolding rb_kv
rb_kv_u64 key value = rb_kv key (u64_to_dec value)

yes_no : Bool → Bytes
yes_no true = codes "yes"
yes_no false = codes "no"

rb_kv_bool : Bytes → Bool → Bytes
unfolding rb_kv yes_no
rb_kv_bool key value = rb_kv key (yes_no value)

-- what `audit_get_identity` gives, where it succeeds
identity_lines : Option (Bytes × Bytes) → List Bytes
unfolding rb_kv known
identity_lines none =
    rb_kv (codes "boot_id: ") (codes "unknown") ∷ rb_kv (codes "node_id: ") (codes "unknown") ∷ []
identity_lines (some (boot_id, node_id)) =
    rb_kv (codes "boot_id: ") (known boot_id) ∷ rb_kv (codes "node_id: ") (known node_id) ∷ []

boot_lines : Option (Bytes × Bytes) → Context → StorageState → List Bytes
unfolding rb_line rb_kv rb_kv_u64 rb_kv_bool identity_lines known boot_mode_name
boot_lines identity ctx st =
    (rb_line (codes "Resumen de sesion VitaOS / VitaOS session summary")
      ∷ rb_line (codes "version: f1a-f1b-session-export-v1")
      ∷ rb_line []
      ∷ rb_line (codes "[boot]")
      ∷ rb_kv (codes "arch: ") (known ctx.boot_status.arch_name)
      ∷ rb_kv (codes "firmware: ") (boot_mode_name ctx.firmware)
      ∷ rb_kv (codes "boot_mode: ") (boot_mode_name ctx.firmware)
      ∷ [])
    ++ (identity_lines identity
        ++ (rb_kv (codes "host_id: ") (codes "unknown")
            ∷ rb_kv (codes "storage_backend: ") (known st.backend_name)
            ∷ rb_kv (codes "storage_state: ")
                (if st.bootstrap_verified then codes "verified" else codes "degraded")
            ∷ rb_kv (codes "boot_mode: ") (boot_mode_name ctx.firmware)
            ∷ rb_kv_bool (codes "console_ready: ") ctx.boot_status.console_ready
            ∷ rb_kv_bool (codes "audit_ready: ") ctx.boot_status.audit_ready
            ∷ rb_kv_bool (codes "restricted_diagnostic: ") (not ctx.boot_status.audit_ready)
            ∷ rb_kv_bool (codes "proposal_engine_ready: ") ctx.proposal_ready
            ∷ rb_kv_bool (codes "node_core_ready: ") ctx.node_ready
            ∷ rb_kv_u64 (codes "peers_discovered: ") ctx.console_state.peer_count
            ∷ rb_kv_u64 (codes "pending_proposals: ") ctx.console_state.pending_proposal_count
            ∷ []))

snapshot_lines : HwSnapshot → List Bytes
unfolding rb_line rb_kv rb_kv_u64 known
snapshot_lines hw =
    rb_line (codes "available: yes")
    ∷ rb_kv (codes "cpu_arch: ") (known hw.cpu_arch)
    ∷ rb_kv (codes "cpu_model: ") (text_or hw.cpu_model (codes "unavailable"))
    ∷ rb_kv_u64 (codes "ram_bytes: ") hw.ram_bytes
    ∷ rb_kv (codes "firmware_type: ") (known hw.firmware_type)
    ∷ rb_kv (codes "console_type: ") (known hw.console_type)
    ∷ rb_kv_u64 (codes "display_count: ") hw.display_count
    ∷ rb_kv_u64 (codes "keyboard_count: ") hw.keyboard_count
    ∷ rb_kv_u64 (codes "mouse_count: ") hw.mouse_count
    ∷ rb_kv_u64 (codes "audio_count: ") hw.audio_count
    ∷ rb_kv_u64 (codes "microphone_count: ") hw.microphone_count
    ∷ rb_kv_u64 (codes "net_count: ") hw.net_count
    ∷ rb_kv_u64 (codes "ethernet_count: ") hw.ethernet_count
    ∷ rb_kv_u64 (codes "wifi_count: ") hw.wifi_count
    ∷ rb_kv_u64 (codes "storage_count: ") hw.storage_count
    ∷ rb_kv_u64 (codes "usb_count: ") hw.usb_count
    ∷ rb_kv_u64 (codes "usb_controller_count: ") hw.usb_controller_count
    ∷ rb_kv_u64 (codes "detected_at_unix: ") hw.detected_at_unix
    ∷ []

append_hardware : Context → List Bytes
unfolding rb_line snapshot_lines
append_hardware ctx =
    rb_line []
    ∷ rb_line (codes "[hardware]")
    ∷ (if ctx.hw_ready
        then snapshot_lines ctx.hw_snapshot
        else rb_line (codes "available: no") ∷ [])

append_storage_status : StorageState → List Bytes
unfolding rb_line rb_kv rb_kv_bool
append_storage_status st =
    rb_line []
    ∷ rb_line (codes "[storage]")
    ∷ rb_kv_bool (codes "initialized: ") st.initialized
    ∷ rb_kv_bool (codes "writable: ") st.writable
    ∷ rb_kv_bool (codes "bootstrap_attempted: ") st.bootstrap_attempted
    ∷ rb_kv_bool (codes "bootstrap_verified: ") st.bootstrap_verified
    ∷ rb_kv (codes "backend: ") (text_or st.backend_name (codes "none"))
    ∷ rb_kv (codes "root_hint: ") (text_or st.root_hint (codes "/vita"))
    ∷ rb_kv (codes "last_error: ") (text_or st.last_error (codes "none"))
    ∷ []

append_network_summary : Context → List Bytes
unfolding rb_line rb_kv_u64 runs_hosted
append_network_summary ctx =
    rb_line []
    ∷ rb_line (codes "[network]")
    ∷ (if ctx.hw_ready
        then rb_kv_u64 (codes "net_count: ") ctx.hw_snapshot.net_count
          ∷ rb_kv_u64 (codes "ethernet_count: ") ctx.hw_snapshot.ethernet_count
          ∷ rb_kv_u64 (codes "wifi_count: ") ctx.hw_snapshot.wifi_count
          ∷ rb_line (
              if runs_hosted ctx.firmware
              then codes "transport_stage: hosted TCP test path may be available"
              else codes "transport_stage: UEFI diagnostic/status only for now")
          ∷ rb_line (codes "next_step: DHCP/TCP/remote AI transport remains staged work")
          ∷ []
        else rb_line (codes "available: unknown")
          ∷ rb_line (codes "note: hardware snapshot unavailable")
          ∷ [])

append_ai_summary : List Bytes
unfolding rb_line
append_ai_summary =
    rb_line []
    ∷ rb_line (codes "[ai_gateway]")
    ∷ rb_line (codes "stage: command stub / local fallback")
    ∷ rb_line (codes "commands: ai status, ai connect, ai ask, ai disconnect")
    ∷ rb_line (codes "remote_call: not implemented in UEFI yet")
    ∷ rb_line (codes "audit_policy: future remote decisions must produce auditable proposals")
    ∷ []

append_notes : Transcript → List Bytes
unfolding rb_line rb_kv
append_notes t =
    rb_line []
    ∷ rb_line (codes "[notes]")
    ∷ rb_line (codes "notes_path: /vita/notes/")
    ∷ rb_line (codes "messages_path: /vita/messages/")
    ∷ rb_line (codes "emergency_reports_path: /vita/emergency/reports/")
    ∷ rb_line (codes "manual_review: use notes list and cat /vita/notes/<file>")
    ∷ rb_kv (codes "transcript_txt_path: ") (session_transcript_txt_path t)
    ∷ rb_kv (codes "transcript_jsonl_path: ") (session_transcript_jsonl_path t)
    ∷ rb_kv (codes "transcript_state: ") (session_transcript_state t)
    ∷ []

closing_lines : List Bytes
unfolding rb_line rb_kv
closing_lines =
    rb_line []
    ∷ rb_line (codes "[limitaciones]")
    ∷ rb_line (codes "- UEFI SQLite persistence: no implementado completo.")
    ∷ rb_line (codes "- Transporte de red UEFI: no disponible fuera de diagnostico.")
    ∷ rb_line (codes "- Este reporte TXT es un punto de control para revision humana.")
    ∷ rb_line []
    ∷ rb_kv (codes "saved_to: ") session_export_path
    ∷ []

-- The report, in a buffer of 4096 bytes.
pub session_report : Option (Bytes × Bytes) → Context → StorageState → Transcript → Bytes
unfolding boot_lines append_hardware append_storage_status append_network_summary append_ai_summary
    append_notes closing_lines
session_report identity ctx st t =
    jb_append 4096
      (json_joined (
        boot_lines identity ctx st
        ++ (append_hardware ctx
            ++ (append_storage_status st
                ++ (append_network_summary ctx
                    ++ (append_ai_summary ++ (append_notes t ++ closing_lines)))))))
      []

module _ (terminal : Terminal) (host : Host) where
  -- The write, the read into a buffer of 2048 bytes, and the comparison.
  write_session : Bytes → World host.Fs → Bool × World host.Fs
  write_session text w =
      let (written, w1) = storage_write_text host session_export_path text w in
      let ((found, readback), w2) = storage_read_text host session_export_path [] 2048 w1 in
      if not written
      then (false, w1)
      else if not found
      then (false, w2)
      else (str_eq text readback, w2)

  end_session :
      Bool × World host.Fs
      → Site host.Fs terminal.Device
      → (Bool × AuditCall) × Site host.Fs terminal.Device
  end_session (true, w) s = (
    (true, (codes "SESSION_EXPORT_WRITTEN", session_export_path)),
    write_all terminal host (codes "export session: written" ∷ session_export_path ∷ [])
        (record s { station = record s.station { world = w } }),
  )
  end_session (false, w) s =
      let reason = text_or w.storage.last_error (codes "write/read verify failed") in
      (
        (false, (codes "SESSION_EXPORT_FAILED", reason)),
        write_all terminal host (codes "export session: failed" ∷ reason ∷ [])
            (record s { station = record s.station { world = w } }),
      )

  -- The result with the last audit call; SESSION_EXPORT_REQUESTED goes before the write.
  pub session_export_write_report :
      Option (Bytes × Bytes)
      → Context
      → Site host.Fs terminal.Device
      → (Bool × AuditCall) × Site host.Fs terminal.Device
  unfolding write_session end_session
  session_export_write_report identity ctx s =
      end_session
        (write_session (session_report identity ctx s.station.world.storage s.station.transcript)
          s.station.world)
        s
