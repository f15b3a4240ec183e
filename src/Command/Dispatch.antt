-- ===== src/Command/Dispatch.antt =====
-- command_handle_line of kernel/command_core.c: the order in which a line is given to the commands.
pub mod Chain
pub mod Ending
pub mod Emergency
use vita_os.Prelude.{
  ℕ, Bool, true, false, ◌||◌, not, Option, none, some, List, [], ◌∷◌, codes, if◌then◌else◌, ◌>>=◌,
  ◌>>◌, pure,
}
use vita_os.Text.{Bytes, str_eq, starts_with, skip_spaces, str_copy, trim_right_in_place}
use vita_os.Audit.Report.{audit_get_identity}
use vita_os.Storage.Files.{World}
use vita_os.Journal.{Journal, session_journal_flush}
use vita_os.Transcript.Output.{
  session_transcript_log_user_input, session_transcript_log_command_executed,
}
use vita_os.Console.{Site, console_clear_screen}
use vita_os.Console.Screens.{
  Mode, mode_emergency, console_guided_show_help, console_guided_show_menu,
  console_guided_show_status,
}
use vita_os.Console.Status.{storage_show_status}
use vita_os.Console.Attached.{Desk, desk_host, desk_session, desk_of, site_of}
use vita_os.Shell.Tree.{storage_list_notes}
use vita_os.Shell.StorageCommands.{storage_handle_command}
use vita_os.Shell.JournalCommands.{session_journal_handle_command}
use vita_os.Editor.State.{Editor}
use vita_os.Editor.Notes.{editor_handle_command}
use vita_os.Proposal.{proposal_handle_command}
use vita_os.Export.Write.{AuditCall, session_export_write_jsonl}
use vita_os.Export.Session.{session_export_path, session_export_write_report}
use vita_os.AiGateway.{ai_gateway_handle_command}
use vita_os.Command.{
  Platform, Machine, Here, Do, on_site, say, say_all, on_kernel, on_station, emit_event,
}
use vita_os.Command.Status.{
  command_refresh_state, show_hw, show_audit, show_status_vitair_summary,
  show_storage_status_vitair_summary, show_peers, show_proposals, show_emergency,
  show_refreshed_header,
}
use vita_os.Command.Reports.{
  handle_audit_verify, handle_audit_export, handle_audit_events_export, handle_audit_sqlite_summary,
  handle_diagnostic_bundle, handle_selftest, handle_export_vitair, handle_export_index,
}
use vita_os.Command.Steps.{
  CommandResult, one_of, linux_lines, command_of, when◌run◌else◌, Line, goes_on, audited, offer,
  set_mode, show_help, show_status, clear_screen, answer_line, list_notes, run_editor, identity,
  export_with, export_report, export_jsonl, flush_journal, shut_down, command_continue,
  command_shutdown,
}

module _ (platform : Platform) where
  open platform use {sql, net, clock, terminal, host, frame, socket_open}

  -- from `export session` on
  unfoldable pub handle_exports : Bytes → Line platform
  unfolding one_of export_report export_jsonl linux_lines
  handle_exports cmd =
      when str_eq cmd (codes "export session")
      run goes_on platform (export_report platform)
      else when str_eq cmd (codes "export session jsonl")
      run goes_on platform (do export_report platform; export_jsonl platform)
      else when str_eq cmd (codes "export jsonl")
      run goes_on platform (export_jsonl platform)
      else when one_of cmd (codes "export vitair" ∷ codes "export vitair-state" ∷ [])
      run goes_on platform (handle_export_vitair platform)
      else when one_of cmd (codes "diagnostic" ∷ codes "diag" ∷ codes "export diagnostic" ∷ [])
      run goes_on platform (handle_diagnostic_bundle platform)
      else when one_of cmd (
          codes "export index"
          ∷ codes "export manifest"
          ∷ codes "export list"
          ∷ codes "exports"
          ∷ codes "storage export-index"
          ∷ [])
      run goes_on platform (handle_export_index platform)
      else when one_of cmd (
          codes "selftest"
          ∷ codes "self-test"
          ∷ codes "boot selftest"
          ∷ codes "boot self-test"
          ∷ codes "checkup"
          ∷ [])
      run goes_on platform (handle_selftest platform)
      else when one_of cmd (codes "linux countdown" ∷ codes "linux-assisted countdown" ∷ [])
      run audited platform (codes "COMMAND_LINUX_COUNTDOWN") (codes "linux countdown")
          (say_all platform linux_lines)
      else when one_of cmd (codes "shutdown" ∷ codes "exit" ∷ [])
      run shut_down platform
      else goes_on platform (show_emergency platform cmd)

  -- from `ai_gateway_handle_command` on
  unfoldable pub offer_modules : Bytes → List Bytes → Line platform
  unfolding run_editor
  offer_modules cmd typed = offer platform (ai_gateway_handle_command platform cmd) (
      when str_eq cmd (codes "storage status")
      run goes_on platform (do
        on_site platform (λ s. (tt, storage_show_status terminal host s))
        show_storage_status_vitair_summary platform)
      else offer platform (on_site platform (storage_handle_command terminal host cmd)) (
          offer platform (run_editor platform cmd typed) (
            offer platform (on_site platform (session_journal_handle_command terminal host cmd))
              (handle_exports cmd))))

  -- the commands of the console itself
  unfoldable pub handle_guided : Bytes → List Bytes → Line platform
  unfolding one_of set_mode show_help show_status clear_screen answer_line
  handle_guided cmd typed =
      when one_of cmd (codes "peers" ∷ [])
      run audited platform (codes "COMMAND_PEERS") (codes "peers") (show_peers platform)
      else when one_of cmd (codes "proposals" ∷ codes "list" ∷ [])
      run audited platform (codes "COMMAND_PROPOSALS") (codes "proposals") (show_proposals platform)
      else when str_eq cmd (codes "emergency")
      run goes_on platform (do set_mode platform mode_emergency; show_emergency platform [])
      else when one_of cmd (codes "helpme" ∷ codes "help" ∷ codes "menu" ∷ [])
      run audited platform (codes "COMMAND_HELPME") (codes "helpme") (show_help platform)
      else when one_of cmd (codes "clear" ∷ codes "cls" ∷ [])
      run audited platform (codes "COMMAND_CLEAR") (codes "clear")
          (do clear_screen platform; show_refreshed_header platform)
      else when starts_with cmd (codes "approve ") || starts_with cmd (codes "reject ")
      run goes_on platform (answer_line platform cmd)
      else offer_modules cmd typed

  -- The command, behind the spaces and the refresh.
  unfoldable pub dispatch : Bytes → List Bytes → Line platform
  unfolding one_of show_status
  dispatch cmd typed =
      when str_eq cmd (codes "status")
      run audited platform (codes "COMMAND_STATUS") (codes "status")
          (do show_status platform; show_status_vitair_summary platform)
      else when str_eq cmd (codes "hw")
      run audited platform (codes "COMMAND_HW") (codes "hw") (show_hw platform)
      else when str_eq cmd (codes "audit")
      run audited platform (codes "COMMAND_AUDIT") (codes "audit") (show_audit platform)
      else when one_of cmd (
          codes "audit status"
          ∷ codes "audit report"
          ∷ codes "audit gate"
          ∷ codes "audit readiness"
          ∷ [])
      run goes_on platform (show_audit platform)
      else when one_of cmd (
          codes "audit verify"
          ∷ codes "audit verify-chain"
          ∷ codes "audit hash"
          ∷ codes "audit hash-chain"
          ∷ [])
      run goes_on platform (handle_audit_verify platform)
      else when one_of cmd (
          codes "audit export"
          ∷ codes "audit verify export"
          ∷ codes "audit export verify"
          ∷ codes "export audit verify"
          ∷ [])
      run goes_on platform (handle_audit_export platform)
      else when one_of cmd
          (codes "audit events" ∷ codes "audit export events" ∷ codes "export audit events" ∷ [])
      run goes_on platform (handle_audit_events_export platform)
      else when one_of cmd (
          codes "audit sqlite"
          ∷ codes "audit sqlite summary"
          ∷ codes "audit db"
          ∷ codes "audit db summary"
          ∷ [])
      run goes_on platform (handle_audit_sqlite_summary platform)
      else handle_guided cmd typed

  -- what goes before every command
  unfoldable pub enter : Bytes → Do platform Unit
  enter cmd = do
    on_station platform (session_transcript_log_user_input host cmd)
    on_station platform (session_transcript_log_command_executed host cmd)
    command_refresh_state platform

  unfoldable pub recorded : Bytes → List Bytes → Line platform
  recorded [] typed = pure command_continue
  recorded (c ∷ cmd) typed = do enter (c ∷ cmd); dispatch (c ∷ cmd) typed

  -- A context and a line that are there.
  unfoldable pub command_handle_line : Bytes → List Bytes → Line platform
  unfolding command_of recorded
  command_handle_line line typed = recorded (command_of line) typed
