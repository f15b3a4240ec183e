-- ===== src/Editor/Commands/Run.antt =====
-- `editor_run` of kernel/editor.c: opening a note, and the loop over the lines that the user types.
pub mod Invariant
pub mod Untouched
pub mod Loaded
use vita_os.Prelude.{
  ℕ, Bool, true, false, not, ◌&&◌, ◌||◌, Option, none, some, List, [], ◌∷◌, codes, if◌then◌else◌,
}
use vita_os.Text.{Bytes, str_eq, starts_with, trim_right_in_place, str_copy}
use vita_os.Storage.Host.{Host}
use vita_os.Storage.Files.{World, storage_read_text, storage_is_ready}
use vita_os.Editor.NotePath.{path_allowed}
use vita_os.Editor.Session.{
  Session, Effect, write_line, write_raw, write_editor_text, log_user_input, log_editor_event,
  pager_end, show_status,
}
use vita_os.Editor.State.{
  Editor, EditorResult, editor_save, editor_cancel, editor_error, OpenMode, open_edit, open_append,
  tell, editor_append_line, editor_ensure_newline_before_append,
}
use vita_os.Editor.Save.{editor_save_to_path, editor_saveas}
use vita_os.Editor.Commands.{is_append, tell_all, bar, path_or_unknown, Outcome, editor_command}

module _ (host : Host) (session : Session host) where
  -- one turn: the prompt, the line, its blanks at the end cut off
  editor_turn : Bytes → Editor host.Fs → Outcome host session
  editor_turn line s = editor_command host session (trim_right_in_place line) (
      tell host session (write_raw (if is_append s.mode then codes "append> " else codes "edit> "))
        s)

  after_turn :
      Outcome host session
      → (Editor host.Fs → EditorResult × Editor host.Fs)
      → EditorResult × Editor host.Fs
  after_turn (none, s) rest = rest s
  after_turn (some r, s) rest = (r, s)

  -- The loop over the lines that `console_read_line` will give; it fails behind the last.
  pub editor_loop : List Bytes → Editor host.Fs → EditorResult × Editor host.Fs
  unfolding editor_turn after_turn
  editor_loop [] s = (
    editor_error,
    tell_all host session
        (write_raw (if is_append s.mode then codes "append> " else codes "edit> ")
          ∷ write_line (codes "editor: input closed / entrada cerrada")
          ∷ [])
        s,
  )
  editor_loop (line ∷ lines) s = after_turn (editor_turn line s) (editor_loop lines)

  -- what follows the read of the note: `true` if it was there
  opened : Bool → Editor host.Fs → Editor host.Fs
  opened true s =
      let s' =
        tell host session
          (write_line (codes "editor: loaded existing file / archivo existente cargado"))
          (record s { loaded_existing = true }) in
      if is_append s'.mode
      then tell host session (write_line (codes "editor: append mode / modo agregar"))
          (editor_ensure_newline_before_append host session s').1
      else s'
  opened false s =
      if is_append s.mode
      then tell host session
          (write_line (codes "editor: append target missing, creating new file on save")) s
      else s

  rule : Effect
  rule = write_line (codes "+--------------------------------------------------+")

  -- the state before the first line
  unfoldable pub editor_open : Bytes → OpenMode → Editor host.Fs → Editor host.Fs
  unfolding opened path_or_unknown bar rule
  editor_open path mode s =
      let target = str_copy [] 192 (some path) in
      let ((found, text), w) = storage_read_text host target [] 1536 s.world in
      let s' = opened found (record {
        text = text;
        path = target;
        saveas_path = [];
        loaded_existing = false;
        destructive_change = false;
        save_confirmed = false;
        dirty = false;
        mode = mode;
        world = w;
      }) in
      tell_all host session
        (pager_end
          ∷ rule
          ∷ write_line (codes "| VitaOS Editor                                    |")
          ∷ write_line (codes "| Archivo / File:                                  |")
          ∷ write_line (path_or_unknown host session s'.path)
          ∷ rule
          ∷ write_line (codes "| Escribe abajo / Write below                      |")
          ∷ rule
          ∷ log_editor_event (codes "editor_open") s'.path
          ∷ bar host session
          ∷ [])
        s'

  pub editor_run : Bytes → OpenMode → List Bytes → Editor host.Fs → EditorResult × Editor host.Fs
  editor_run path mode lines s =
      if not (path_allowed path)
      then (
        editor_error,
        tell host session
            (write_line (codes "editor: path must be inside /vita/ and cannot contain '..' or ':'"))
            s,
      )
      else if not (storage_is_ready s.world)
      then (
        editor_error,
        tell_all host session
            (write_line (codes "editor: storage is not writable / almacenamiento no escribible")
              ∷ show_status
              ∷ [])
            s,
      )
      else editor_loop lines (editor_open path mode s)
