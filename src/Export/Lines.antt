-- ===== src/Export/Lines.antt =====
-- The lines of the report of kernel/session_jsonl_export.c.
use vita_os.Prelude.{
  ℕ, zero, suc, ◌+◌, ◌-◌, Bool, true, false, not, Option, none, some, List, [], ◌∷◌, ◌++◌, codes,
  length, take, drop, leb, ltb, if◌then◌else◌,
}
use vita_os.Text.{text_or, Bytes, str_eq}
use vita_os.Audit.Rows.{HwSnapshot}
use vita_os.Storage.Host.{Host}
use vita_os.Storage.Files.{World, StorageState, storage_read_text}
use vita_os.Transcript.{Transcript}
use vita_os.Transcript.Lines.{u4}
use vita_os.Transcript.Start.{Firmware, firmware_unknown, firmware_uefi, firmware_hosted}
use vita_os.Transcript.Output.{
  session_transcript_txt_path, session_transcript_jsonl_path, session_transcript_state,
}
use vita_os.Console.Screens.{BootStatus, ConsoleState}
use vita_os.Export.Json.{
  json_string, json_begin, json_prop_name, json_prop_str, json_prop_bool, json_prop_u64, json_end,
}

-- `vita_command_context_t`; a handoff that is missing is an unknown firmware
pub record Context : Type 0 where
  pub firmware : Firmware
  pub boot_status : BootStatus
  pub console_state : ConsoleState
  pub hw_snapshot : HwSnapshot
  pub hw_ready : Bool
  pub proposal_ready : Bool
  pub node_ready : Bool

unfoldable pub boot_mode_name : Firmware → Bytes
boot_mode_name firmware_unknown = codes "unknown"
boot_mode_name firmware_uefi = codes "uefi"
boot_mode_name firmware_hosted = codes "hosted"

unfoldable pub runs_hosted : Firmware → Bool
runs_hosted firmware_hosted = true
runs_hosted _ = false

unfoldable pub known : Bytes → Bytes
unfolding text_or
known text = text_or text (codes "unknown")

-- what `audit_get_identity` gives, where it succeeds
identity_fields : Option (Bytes × Bytes) → List Bytes
unfolding known
identity_fields none =
    json_prop_str (codes "boot_id") (codes "unknown")
    ∷ json_prop_str (codes "node_id") (codes "unknown")
    ∷ []
identity_fields (some (boot_id, node_id)) =
    json_prop_str (codes "boot_id") (known boot_id)
    ∷ json_prop_str (codes "node_id") (known node_id)
    ∷ []

pub session_line : Option (Bytes × Bytes) → Context → StorageState → List Bytes
unfolding known boot_mode_name identity_fields
session_line identity ctx st =
    (json_begin (codes "session")
      ∷ json_prop_str (codes "version") (codes "f1a-f1b-session-jsonl-v1")
      ∷ json_prop_str (codes "arch") (known ctx.boot_status.arch_name)
      ∷ json_prop_str (codes "boot_mode") (boot_mode_name ctx.firmware)
      ∷ [])
    ++ (identity_fields identity
        ++ (json_prop_str (codes "host_id") (codes "unknown")
            ∷ json_prop_str (codes "firmware") (boot_mode_name ctx.firmware)
            ∷ json_prop_str (codes "storage_backend") (known st.backend_name)
            ∷ json_prop_str (codes "storage_state")
                (if st.bootstrap_verified then codes "verified" else codes "degraded")
            ∷ json_prop_bool (codes "console_ready") ctx.boot_status.console_ready
            ∷ json_prop_bool (codes "audit_ready") ctx.boot_status.audit_ready
            ∷ json_prop_bool (codes "restricted_diagnostic") (not ctx.boot_status.audit_ready)
            ∷ json_prop_bool (codes "proposal_engine_ready") ctx.proposal_ready
            ∷ json_prop_bool (codes "node_core_ready") ctx.node_ready
            ∷ json_prop_u64 (codes "peers_discovered") ctx.console_state.peer_count
            ∷ json_prop_u64 (codes "pending_proposals") ctx.console_state.pending_proposal_count
            ∷ json_end
            ∷ []))

hardware_fields : HwSnapshot → List Bytes
unfolding known text_or
hardware_fields hw =
    json_prop_str (codes "cpu_arch") (known hw.cpu_arch)
    ∷ json_prop_str (codes "cpu_model") (text_or hw.cpu_model (codes "unavailable"))
    ∷ json_prop_u64 (codes "ram_bytes") hw.ram_bytes
    ∷ json_prop_str (codes "firmware_type") (known hw.firmware_type)
    ∷ json_prop_str (codes "console_type") (known hw.console_type)
    ∷ json_prop_u64 (codes "display_count") hw.display_count
    ∷ json_prop_u64 (codes "keyboard_count") hw.keyboard_count
    ∷ json_prop_u64 (codes "mouse_count") hw.mouse_count
    ∷ json_prop_u64 (codes "audio_count") hw.audio_count
    ∷ json_prop_u64 (codes "microphone_count") hw.microphone_count
    ∷ json_prop_u64 (codes "net_count") hw.net_count
    ∷ json_prop_u64 (codes "ethernet_count") hw.ethernet_count
    ∷ json_prop_u64 (codes "wifi_count") hw.wifi_count
    ∷ json_prop_u64 (codes "storage_count") hw.storage_count
    ∷ json_prop_u64 (codes "usb_count") hw.usb_count
    ∷ json_prop_u64 (codes "usb_controller_count") hw.usb_controller_count
    ∷ json_prop_u64 (codes "detected_at_unix") hw.detected_at_unix
    ∷ []

pub hardware_line : Context → List Bytes
unfolding hardware_fields
hardware_line ctx =
    (json_begin (codes "hardware") ∷ json_prop_bool (codes "available") ctx.hw_ready ∷ [])
    ++ ((if ctx.hw_ready then hardware_fields ctx.hw_snapshot else []) ++ (json_end ∷ []))

pub storage_line : StorageState → List Bytes
unfolding text_or
storage_line st =
    json_begin (codes "storage")
    ∷ json_prop_bool (codes "initialized") st.initialized
    ∷ json_prop_bool (codes "writable") st.writable
    ∷ json_prop_bool (codes "bootstrap_attempted") st.bootstrap_attempted
    ∷ json_prop_bool (codes "bootstrap_verified") st.bootstrap_verified
    ∷ json_prop_str (codes "backend") (text_or st.backend_name (codes "none"))
    ∷ json_prop_str (codes "root_hint") (text_or st.root_hint (codes "/vita"))
    ∷ json_prop_str (codes "last_error") (text_or st.last_error (codes "none"))
    ∷ json_end
    ∷ []

pub network_line : Context → List Bytes
unfolding runs_hosted
network_line ctx =
    json_begin (codes "network")
    ∷ json_prop_bool (codes "hardware_snapshot_available") ctx.hw_ready
    ∷ json_prop_u64 (codes "net_count") (if ctx.hw_ready then ctx.hw_snapshot.net_count else 0)
    ∷ json_prop_u64 (codes "ethernet_count")
        (if ctx.hw_ready then ctx.hw_snapshot.ethernet_count else 0)
    ∷ json_prop_u64 (codes "wifi_count") (if ctx.hw_ready then ctx.hw_snapshot.wifi_count else 0)
    ∷ json_prop_str (codes "transport_stage") (
        if runs_hosted ctx.firmware
        then codes "hosted_tcp_test_path"
        else codes "uefi_diagnostic_status_only")
    ∷ json_prop_bool (codes "dhcp_ready") false
    ∷ json_prop_bool (codes "wifi_credentials_ready") false
    ∷ json_end
    ∷ []

pub ai_line : List Bytes
ai_line =
    json_begin (codes "ai_gateway")
    ∷ json_prop_str (codes "stage") (codes "command_stub_local_fallback")
    ∷ json_prop_bool (codes "remote_call_ready") false
    ∷ json_prop_str (codes "commands") (codes "ai status, ai connect, ai ask, ai disconnect")
    ∷ json_prop_str (codes "audit_policy")
        (codes "future remote decisions must produce auditable proposals")
    ∷ json_end
    ∷ []

pub limitations_line : List Bytes
limitations_line =
    json_begin (codes "limitations")
    ∷ json_prop_bool (codes "uefi_sqlite_persistence_complete") false
    ∷ json_prop_bool (codes "uefi_network_transport_complete") false
    ∷ json_prop_bool (codes "wifi_association_complete") false
    ∷ json_prop_bool (codes "full_vfs_complete") false
    ∷ json_prop_str (codes "note") (
        codes
          "This JSONL report is a small machine-readable checkpoint, not a full SQLite audit export.")
    ∷ json_end
    ∷ []

pub path_has_jsonl_suffix : Bytes → Bool
path_has_jsonl_suffix path =
    if ltb (length path) 6 then false else str_eq (drop (length path - 6) path) (codes ".jsonl")

-- `build_jsonl_part_path` into a buffer of 192 bytes, behind the test of the suffix
stem_part_path : Bytes → ℕ → Bytes
stem_part_path stem part =
    if leb part 1
    then stem ++ codes ".jsonl"
    else if leb 192 (length stem + 17)
    then []
    else stem ++ (codes ".part-" ++ (u4 part ++ codes ".jsonl"))

pub export_part_path : Bytes → ℕ → Bytes
unfolding stem_part_path
export_part_path base part =
    if not (path_has_jsonl_suffix base)
    then []
    else stem_part_path (take 191 (take (length base - 6) base)) part

-- the texts of the parts, with commas between them
part_texts : ℕ → ℕ → Bytes → List Bytes
part_texts zero part base = []
part_texts (suc rounds) part base =
    (if ltb 1 part then codes "," else [])
    ∷ json_string (export_part_path base part)
    ∷ part_texts rounds (part + 1) base

parts_fields : ℕ → Bytes → List Bytes
unfolding part_texts
parts_fields count base =
    if ltb 1 count
    then json_prop_u64 (codes "transcript_jsonl_part_count") count
      ∷ json_prop_name (codes "transcript_jsonl_parts")
      ∷ codes "["
      ∷ (part_texts count 1 base ++ (codes "]" ∷ []))
    else []

pub paths_line : ℕ → Transcript → List Bytes
unfolding parts_fields
paths_line count t =
    (json_begin (codes "paths")
      ∷ json_prop_str (codes "notes") (codes "/vita/notes/")
      ∷ json_prop_str (codes "messages") (codes "/vita/messages/")
      ∷ json_prop_str (codes "emergency_reports") (codes "/vita/emergency/reports/")
      ∷ json_prop_str (codes "exports") (codes "/vita/export/")
      ∷ json_prop_str (codes "jsonl_report") (codes "/vita/export/reports/last-session.jsonl")
      ∷ json_prop_str (codes "transcript_txt_path") (session_transcript_txt_path t)
      ∷ json_prop_str (codes "transcript_jsonl_path") (session_transcript_jsonl_path t)
      ∷ [])
    ++ (parts_fields count (session_transcript_jsonl_path t)
        ++ (json_prop_str (codes "transcript_state") (session_transcript_state t) ∷ json_end ∷ []))

module _ (host : Host) where
  -- The loop over the parts that can be read, for at most so many of them, with the count so far.
  count_parts : ℕ → ℕ → ℕ → Bytes → World host.Fs → ℕ × World host.Fs
  count_parts zero part count base w = (count, w)
  count_parts (suc rounds) part count base w =
      let path = export_part_path base part in
      let ((found, readback), w') = storage_read_text host path [] 2048 w in
      let rest = count_parts rounds (part + 1) part base w' in
      if str_eq path [] then (count, w) else if not found then (count, w') else rest

  -- the number of the parts, the first one among them
  pub part_count : Transcript → World host.Fs → ℕ × World host.Fs
  unfolding count_parts
  part_count t w =
      if path_has_jsonl_suffix (session_transcript_jsonl_path t)
      then count_parts 7 2 1 (session_transcript_jsonl_path t) w
      else (0, w)
