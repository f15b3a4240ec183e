-- ===== src/Editor/Commands.antt =====
-- The commands of `editor_run` in kernel/editor.c: what each line that the user types does.
pub mod Run
use vita_os.Prelude.{
  ℕ, Bool, true, false, not, ◌&&◌, ◌||◌, Option, none, some, List, [], ◌∷◌, codes, if◌then◌else◌,
}
use vita_os.Text.{Bytes, str_eq, starts_with, trim_right_in_place, str_copy}
use vita_os.Storage.Host.{Host}
use vita_os.Storage.Files.{World, storage_read_text, storage_is_ready}
use vita_os.Editor.NotePath.{path_allowed}
use vita_os.Editor.Session.{
  Session, Effect, write_line, write_raw, write_editor_text, log_user_input, log_editor_event,
  pager_end, show_status,
}
use vita_os.Editor.State.{
  Editor, EditorResult, editor_save, editor_cancel, editor_error, OpenMode, open_edit, open_append,
  tell, editor_append_line, editor_ensure_newline_before_append,
}
use vita_os.Editor.Save.{editor_save_to_path, editor_saveas}

-- `line + str_len(".saveas ")`
pub after_saveas : Bytes → Bytes
after_saveas (_ ∷ _ ∷ _ ∷ _ ∷ _ ∷ _ ∷ _ ∷ _ ∷ args) = args
after_saveas _ = []

-- what a line asks for
pub data EditorCommand : Type 0 where
  save save_force write_quit exit saveas confirm cancel help : EditorCommand
  show show_path status append replace clear text_line : EditorCommand

-- The tests of the loop's body, in their order.
unfoldable pub read_command : Bytes → EditorCommand
read_command line =
    if str_eq line (codes ".save")
    then save
    else if str_eq line (codes ".save!")
    then save_force
    else if str_eq line (codes ".wq")
    then write_quit
    else if str_eq line (codes ".exit") || str_eq line (codes ".quit") || str_eq line (codes "exit")
    then exit
    else if starts_with line (codes ".saveas ")
    then saveas
    else if str_eq line (codes ".confirm")
    then confirm
    else if str_eq line (codes ".cancel")
    then cancel
    else if str_eq line (codes ".help")
    then help
    else if str_eq line (codes ".show")
    then show
    else if str_eq line (codes ".path")
    then show_path
    else if str_eq line (codes ".status")
    then status
    else if str_eq line (codes ".append")
    then append
    else if str_eq line (codes ".replace")
    then replace
    else if str_eq line (codes ".clear")
    then clear
    else text_line

abbrev pub is_append : OpenMode → Bool
is_append open_edit = false
is_append open_append = true

module _ (host : Host) (session : Session host) where
  -- calls of the console and the transcript, in order
  unfoldable pub tell_all : List Effect → Editor host.Fs → Editor host.Fs
  tell_all [] s = s
  tell_all (e ∷ es) s = tell_all es (tell host session e s)

  pub bar : Effect
  bar = write_line (
      codes
        "Comandos: .save guardar | .wq guardar y salir | .exit salir | .quit salir | .help ayuda")

  -- `editor_show_help`, then `editor_show_command_bar`
  help_effects : List Effect
  unfolding bar
  help_effects =
      write_line (codes "VitaOS editor / Editor VitaOS:")
      ∷ write_line (codes "Write one line at a time / Escribe una linea a la vez")
      ∷ write_line (codes ".save       -> save file / guardar archivo")
      ∷ write_line (codes ".wq         -> save and exit / guardar y salir")
      ∷ write_line (codes ".exit/.quit -> exit without save / salir sin guardar")
      ∷ write_line (codes ".save!      -> force save after destructive change")
      ∷ write_line (codes ".confirm    -> confirm destructive save")
      ∷ write_line (codes ".saveas PATH-> save current text to another /vita/... path")
      ∷ write_line (codes ".cancel     -> cancel / cancelar")
      ∷ write_line (codes ".show       -> show current text / mostrar texto actual")
      ∷ write_line (codes ".clear      -> clear current text / limpiar texto actual")
      ∷ write_line (codes ".replace    -> clear text and switch to replace mode")
      ∷ write_line (codes ".append     -> switch to append-safe mode")
      ∷ write_line (codes ".path       -> show target path / mostrar destino")
      ∷ write_line (codes ".status     -> show editor state / mostrar estado")
      ∷ write_line (codes ".help       -> show editor help / mostrar ayuda")
      ∷ write_line (codes "Limit: 1536 bytes per note in this first editor slice.")
      ∷ bar
      ∷ []

  text_or_empty : Bytes → Bytes
  text_or_empty [] = codes "(empty / vacio)"
  text_or_empty (c ∷ s) = c ∷ s

  pub path_or_unknown : Bytes → Bytes
  path_or_unknown [] = codes "unknown"
  path_or_unknown (c ∷ s) = c ∷ s

  show_effects : Bytes → List Effect
  unfolding text_or_empty
  show_effects text =
      write_line (codes "--- note text / texto actual ---")
      ∷ write_line (text_or_empty text)
      ∷ write_line (codes "--- end / fin ---")
      ∷ []

  status_effects : Editor host.Fs → List Effect
  unfolding path_or_unknown
  status_effects s =
      write_line (codes "Editor status / Estado del editor:")
      ∷ write_line (codes "path:")
      ∷ write_line (path_or_unknown s.path)
      ∷ write_line
          (if s.loaded_existing then codes "loaded_existing: yes" else codes "loaded_existing: no")
      ∷ write_line (if is_append s.mode then codes "mode: append" else codes "mode: edit")
      ∷ write_line (
          if s.destructive_change
          then codes "destructive_change: yes"
          else codes "destructive_change: no")
      ∷ write_line
          (if s.save_confirmed then codes "save_confirmed: yes" else codes "save_confirmed: no")
      ∷ []

  -- What a line does: `none` goes on with the next line.
  abbrev pub Outcome : Type 0
  Outcome = Option EditorResult × Editor host.Fs

  continue : Bool × Editor host.Fs → Outcome
  continue (done, s) = (none, s)

  on_wq : Bool × Editor host.Fs → Outcome
  on_wq (true, s) =
      (some editor_save, tell host session (log_editor_event (codes "editor_exit") s.path) s)
  on_wq (false, s) =
      (none, tell host session (log_editor_event (codes "editor_save_failed") s.path) s)

  on_exit : Editor host.Fs → Outcome
  on_exit s =
      if s.dirty
      then (
        some editor_cancel,
        tell_all
            (write_line (codes "editor: exiting without saving pending changes")
              ∷ write_line (codes "editor: salida sin guardar cambios pendientes")
              ∷ [])
            s,
      )
      else (some editor_cancel, tell host session (write_line (codes "editor: exit / salir")) s)

  on_saveas : Bool × Editor host.Fs → Outcome
  on_saveas (true, s) = (some editor_save, s)
  on_saveas (false, s) = (none, s)

  on_append : Editor host.Fs → Outcome
  on_append s =
      let s' =
        (editor_ensure_newline_before_append host session (record s { mode = open_append })).1 in
      (
        none,
        tell host session (write_line (codes "editor: append mode enabled / modo agregar activado"))
            s',
      )

  on_replace : Editor host.Fs → Outcome
  on_replace s = (
    none,
    tell_all
        (write_line (codes "editor: replace mode enabled; text cleared")
          ∷ write_line (codes "Use .confirm before .save, or .save! to force.")
          ∷ [])
        (record s {
          text = [];
          mode = open_edit;
          destructive_change = true;
          save_confirmed = false;
          dirty = true;
        }),
  )

  on_clear : Editor host.Fs → Outcome
  on_clear s = (
    none,
    tell_all
        (write_line (codes "editor: current text cleared / texto actual borrado")
          ∷ write_line (codes "Use .confirm before .save, or .save! to force.")
          ∷ [])
        (record s { text = []; destructive_change = true; save_confirmed = false; dirty = true }),
  )

  on_text : Bytes → Bool × Editor host.Fs → Outcome
  on_text line (false, s) = (none, s)
  on_text line (true, s) = (
    none,
    record (tell_all (write_editor_text line ∷ log_user_input line ∷ []) s) { dirty = true },
  )

  -- The body of the loop behind `trim_right_in_place`: what each line does.
  perform_command : EditorCommand → Bytes → Editor host.Fs → Outcome
  perform_command save line s = continue (
      editor_save_to_path host session s.path false
        (tell host session (log_editor_event (codes "editor_save") s.path) s))
  perform_command save_force line s = continue (editor_save_to_path host session s.path true s)
  perform_command write_quit line s = on_wq (
      editor_save_to_path host session s.path false
        (tell host session (log_editor_event (codes "editor_save") s.path) s))
  perform_command exit line s = on_exit s
  perform_command saveas line s = on_saveas (editor_saveas host session (after_saveas line) s)
  perform_command confirm line s = (
    none,
    tell host session
        (write_line (codes "editor: destructive save confirmed / guardado destructivo confirmado"))
        (record s { save_confirmed = true }),
  )
  perform_command cancel line s = (
    some editor_cancel,
    tell_all
        (write_line (codes "editor: cancelled / cancelado")
          ∷ log_editor_event (codes "editor_cancel") s.path
          ∷ [])
        s,
  )
  perform_command help line s = (none, tell_all help_effects s)
  perform_command show line s = (none, tell_all (show_effects s.text) s)
  perform_command show_path line s =
      (none, tell host session (write_line (path_or_unknown s.path)) s)
  perform_command status line s = (none, tell_all (status_effects s) s)
  perform_command append line s = on_append s
  perform_command replace line s = on_replace s
  perform_command clear line s = on_clear s
  perform_command text_line line s = on_text line (editor_append_line host session line s)

  pub editor_command : Bytes → Editor host.Fs → Outcome
  editor_command line s = perform_command (read_command line) line s
