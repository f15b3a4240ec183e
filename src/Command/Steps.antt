-- ===== src/Command/Steps.antt =====
-- The steps that the commands of kernel/command_core.c are made of.
pub mod Chain
use vita_os.Prelude.{
  Bool, true, false, ◌||◌, not, Option, none, some, List, [], ◌∷◌, codes, if◌then◌else◌, ◌>>=◌,
  ◌>>◌, pure,
}
use vita_os.Text.{Bytes, str_eq, skip_spaces, str_copy, trim_right_in_place}
use vita_os.Audit.Report.{audit_get_identity}
use vita_os.Journal.{session_journal_flush}
use vita_os.Console.{Site, console_clear_screen}
use vita_os.Console.Screens.{
  Mode, console_guided_show_help, console_guided_show_menu, console_guided_show_status,
}
use vita_os.Console.Attached.{Desk, desk_host, desk_session, desk_of, site_of}
use vita_os.Shell.Tree.{storage_list_notes}
use vita_os.Editor.State.{Editor}
use vita_os.Editor.Notes.{editor_handle_command}
use vita_os.Proposal.{proposal_handle_command}
use vita_os.Export.Write.{AuditCall, session_export_write_jsonl}
use vita_os.Export.Session.{session_export_path, session_export_write_report}
use vita_os.Command.{Platform, Here, Do, on_site, say, on_kernel, emit_event}

-- `vita_command_result_t`
pub data CommandResult : Type 0 where
  command_continue command_shutdown : CommandResult

-- whether a command is one of these
unfoldable pub one_of : Bytes → List Bytes → Bool
unfolding str_eq
one_of cmd [] = false
one_of cmd (name ∷ names) = str_eq cmd name || one_of cmd names

unfoldable pub linux_lines : List Bytes
linux_lines =
    codes "VitaOS Linux-Assisted boot"
    ∷ codes "Press any key or type text to stay in Native VitaOS Core."
    ∷ codes "No input detected: starting Linux assistant in 3..."
    ∷ codes "No input detected: starting Linux assistant in 2..."
    ∷ codes "No input detected: starting Linux assistant in 1..."
    ∷ codes "Starting Linux assistant..."
    ∷ codes "Linux assistant handoff: not implemented"
    ∷ []

-- `local`, without the spaces around it
unfoldable pub command_of : Bytes → Bytes
unfolding skip_spaces trim_right_in_place str_copy
command_of line = skip_spaces (trim_right_in_place (str_copy [] 128 (some line)))

-- `typed` are the lines that the user types in the editor, if the command opens it.
-- An `if` over steps, which the proofs take apart as it stands.
infix 1 when◌run◌else◌
unfoldable pub when◌run◌else◌ : {A B : Type 0} → Bool → (A → B) → (A → B) → A → B
when true run f else g = f
when false run f else g = g

module _ (platform : Platform) where
  open platform use {sql, net, clock, terminal, host, frame, socket_open}

  abbrev pub Line : Type 0
  Line = Do platform CommandResult

  unfoldable pub goes_on : Do platform Unit → Line
  goes_on step = do step; pure command_continue

  -- a step that is recorded in the audit log first
  unfoldable pub audited : Bytes → Bytes → Do platform Unit → Line
  audited event_type summary step = do
    emit_event platform event_type summary
    step
    pure command_continue

  -- a module that may take the command
  unfoldable pub offer : Do platform Bool → Line → Line
  offer handler rest = do taken ← handler; if taken then pure command_continue else rest

  unfoldable pub set_mode : Mode → Do platform Unit
  set_mode mode m = (
    tt,
    record m { ctx = record m.ctx { console_state = record m.ctx.console_state { mode = mode } } },
  )

  unfoldable pub show_help : Do platform Unit
  show_help =
      on_site platform (λ s.
        (tt, console_guided_show_menu terminal host (console_guided_show_help terminal host s)))

  unfoldable pub show_status : Do platform Unit
  show_status m =
      on_site platform
        (λ s. (tt, console_guided_show_status terminal host (some m.ctx.console_state) s)) m

  unfoldable pub clear_screen : Do platform Unit
  clear_screen = on_site platform (λ s. (tt, console_clear_screen terminal host s))

  unfoldable pub answer_line : Bytes → Do platform Unit
  answer_line cmd m =
      if not m.ctx.proposal_ready
      then say platform (codes "Proposal engine unavailable / Motor de propuestas no disponible") m
      else (do
        done ← on_kernel platform (proposal_handle_command sql net clock socket_open cmd)
        if done
            then pure tt
            else say platform (codes "proposal command failed / comando de propuesta no ejecutado"))
          m

  -- the list of the notes, for the editor
  pub list_notes :
      Editor (Desk host.Fs terminal.Device) → Bool × Editor (Desk host.Fs terminal.Device)
  list_notes e =
      let (done, site) = storage_list_notes terminal host (site_of terminal host e.world) in
      (done, record e { world = desk_of terminal host site })

  unfoldable pub run_editor : Bytes → List Bytes → Do platform Bool
  unfolding list_notes
  run_editor cmd typed m =
      let (taken, editor) =
        editor_handle_command (desk_host terminal host) (desk_session terminal host frame)
          list_notes cmd typed (record m.editor { world = desk_of terminal host m.site }) in
      (taken, record m { editor = editor; site = site_of terminal host editor.world })

  pub identity : Here platform → Option (Bytes × Bytes)
  identity m =
      let (found, boot_id, node_id) = audit_get_identity m.kernel.audit [] 64 [] 64 in
      if found then some (boot_id, node_id) else none

  -- an export, with its audit events around it
  pub export_with :
      Bytes
      → Bytes
      → (Option (Bytes × Bytes)
          → Site host.Fs terminal.Device
          → (Bool × AuditCall) × Site host.Fs terminal.Device)
      → Do platform Unit
  unfolding identity
  export_with requested path export = do
    emit_event platform requested path
    last ← λ m. on_site platform (export (identity m)) m
    emit_event platform last.1.0 last.1.1

  unfoldable pub export_report : Do platform Unit
  unfolding export_with
  export_report m =
      export_with (codes "SESSION_EXPORT_REQUESTED") session_export_path
        (λ ids. session_export_write_report terminal host ids m.ctx) m

  unfoldable pub export_jsonl : Do platform Unit
  unfolding export_with
  export_jsonl m =
      export_with (codes "SESSION_JSONL_EXPORT_REQUESTED")
        (codes "/vita/export/reports/last-session.jsonl")
        (λ ids. session_export_write_jsonl terminal host ids m.ctx) m

  pub flush_journal : Do platform Unit
  flush_journal = on_site platform (λ s.
      let (ok, journal, world) = session_journal_flush host s.station.journal s.station.world in
      (tt, record s { station = record s.station { journal = journal; world = world } }))

  unfoldable pub shut_down : Line
  unfolding flush_journal
  shut_down = do
    emit_event platform (codes "COMMAND_SHUTDOWN") (codes "shutdown")
    flush_journal
    say platform (codes "Shutting down command session / Cerrando sesion de comandos")
    pure command_shutdown
