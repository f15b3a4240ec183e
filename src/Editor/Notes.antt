-- ===== src/Editor/Notes.antt =====
-- editor_handle_command of kernel/editor.c, with note_bootstrap_if_missing.
use vita_os.Prelude.{
  ◌+◌, Bool, true, false, not, ◌||◌, List, [], ◌∷◌, ◌++◌, codes, drop, map, some, if◌then◌else◌,
}
use vita_os.Text.{Bytes, str_eq, str_len, starts_with, skip_spaces, str_copy, trim_right_in_place}
use vita_os.Storage.Host.{Host}
use vita_os.Storage.Files.{World, storage_write_text, storage_read_text, storage_last_error}
use vita_os.Editor.NotePath.{path_allowed, build_note_path}
use vita_os.Editor.Session.{Session, write_line}
use vita_os.Editor.State.{
  Editor, EditorResult, editor_save, editor_cancel, OpenMode, open_edit, open_append, tell,
}
use vita_os.Editor.Commands.{tell_all}
use vita_os.Editor.Commands.Run.{editor_run}

abbrev seed : Bytes
seed = codes "vita_note_bootstrap_v1\n"

notes_help : List Bytes
notes_help =
    codes "Notes / Notas:"
    ∷ codes "notes list             -> list saved notes / listar notas"
    ∷ codes "note                   -> edit /vita/notes/note.txt"
    ∷ codes "note field.txt         -> edit /vita/notes/field.txt"
    ∷ codes "append field.txt       -> append /vita/notes/field.txt"
    ∷ codes "edit /vita/notes/a.txt -> edit an explicit /vita path"
    ∷ codes "append /vita/notes/a.txt -> append an explicit /vita path"
    ∷ codes
        "Inside editor use .save, .save!, .saveas PATH, .cancel, .show, .clear, .replace, .append, .status, .help"
    ∷ []

is_done : EditorResult → Bool
is_done editor_save = true
is_done editor_cancel = true
is_done _ = false

-- what follows a command word, which may stand alone
argument : Bytes → Bytes → Bytes
argument word cmd = if str_eq cmd word then [] else skip_spaces (drop (str_len word + 1) cmd)

-- the word alone, or with an argument
is_command : Bytes → Bytes → Bool
is_command word cmd = str_eq cmd word || starts_with cmd (word ++ b' ' ∷ [])

module _ (host : Host) (session : Session host) where
  tell_lines : List Bytes → Editor host.Fs → Editor host.Fs
  tell_lines lines = tell_all host session (map write_line lines)

  -- a line, and the last error of the storage behind it
  refused : Bytes → Editor host.Fs → Bool × Editor host.Fs
  refused line s =
      let s' = tell host session (write_line line) s in
      (false, tell host session (write_line (storage_last_error s'.world)) s')

  with_world : World host.Fs → Editor host.Fs → Editor host.Fs
  with_world w s = record s { world = w }

  verify_seed : Bytes → Editor host.Fs → Bool × Editor host.Fs
  unfolding refused with_world
  verify_seed path s =
      let ((found, readback), w) = storage_read_text host path [] 2048 s.world in
      if not found || not (str_eq readback seed)
      then refused (codes "note bootstrap: verify failed") (with_world w s)
      else (
        true,
        tell host session (write_line path)
            (tell host session (write_line (codes "note bootstrap: created")) (with_world w s)),
      )

  create_seed : Bytes → Editor host.Fs → Bool × Editor host.Fs
  unfolding refused with_world verify_seed
  create_seed path s =
      let (written, w) = storage_write_text host path seed s.world in
      if not written
      then refused (codes "note bootstrap: write failed") (with_world w s)
      else verify_seed path (with_world w s)

  pub note_bootstrap_if_missing : Bytes → Editor host.Fs → Bool × Editor host.Fs
  unfolding with_world create_seed
  note_bootstrap_if_missing [] s = (false, s)
  note_bootstrap_if_missing (c ∷ path) s =
      let ((found, readback), w) = storage_read_text host (c ∷ path) [] 2048 s.world in
      if found then (true, with_world w s) else create_seed (c ∷ path) (with_world w s)

  -- the loop of the editor over the lines that the user types
  run : Bytes → OpenMode → List Bytes → Editor host.Fs → Bool × Editor host.Fs
  unfolding is_done
  run path mode lines s =
      let (result, s') = editor_run host session path mode lines s in (is_done result, s')

  open_note : Bool → Bytes → List Bytes → Bool × Editor host.Fs → Bool × Editor host.Fs
  unfolding tell_lines run
  open_note named path lines (false, s) = (false, s)
  open_note true path lines (true, s) = (
    true,
    tell_lines
        (codes "note: quick-create verified"
          ∷ codes "Use: edit /vita/notes/<file> for interactive editor"
          ∷ [])
        s,
  )
  open_note false path lines (true, s) = run path open_edit lines s

  command_note : Bytes → List Bytes → Editor host.Fs → Bool × Editor host.Fs
  unfolding tell_lines argument open_note
  command_note cmd lines s =
      let (valid, path) = build_note_path (argument (codes "note") cmd) [] 192 in
      if not valid
      then (
        false,
        tell_lines
            (codes "note: invalid note name or path"
              ∷ codes "Use: note, note file.txt, append file.txt, or edit /vita/notes/file.txt"
              ∷ [])
            s,
      )
      else open_note (starts_with cmd (codes "note ")) path lines (note_bootstrap_if_missing path s)

  command_append : Bytes → List Bytes → Editor host.Fs → Bool × Editor host.Fs
  unfolding tell_lines argument run
  command_append cmd lines s =
      let (valid, path) = build_note_path (argument (codes "append") cmd) [] 192 in
      if not valid
      then (
        false,
        tell_lines
            (codes "append: invalid note name or path"
              ∷ codes "Use: append file.txt or append /vita/notes/file.txt"
              ∷ [])
            s,
      )
      else run path open_append lines s

  command_edit : Bytes → List Bytes → Editor host.Fs → Bool × Editor host.Fs
  unfolding run
  command_edit [] lines s =
      (false, tell host session (write_line (codes "usage: edit /vita/notes/file.txt")) s)
  command_edit (c ∷ args) lines s =
      let path = trim_right_in_place (str_copy [] 192 (some (c ∷ args))) in
      if not (path_allowed path)
      then (
        false,
        tell host session
            (write_line (codes "edit: path must be inside /vita/ and cannot contain '..' or ':'"))
            s,
      )
      else run path open_edit lines s

  -- The lines that the user types in the editor are an argument, and so is what
  -- `storage_list_notes` does.
  unfoldable pub editor_handle_command :
      (Editor host.Fs → Bool × Editor host.Fs)
      → Bytes
      → List Bytes
      → Editor host.Fs
      → Bool × Editor host.Fs
  unfolding tell_lines notes_help is_command command_note command_append command_edit
  editor_handle_command storage_list_notes cmd lines s =
      if str_eq cmd (codes "notes")
      then (true, tell_lines notes_help s)
      else if str_eq cmd (codes "notes list")
      then storage_list_notes s
      else if is_command (codes "note") cmd
      then command_note cmd lines s
      else if is_command (codes "append") cmd
      then command_append cmd lines s
      else if starts_with cmd (codes "edit ")
      then command_edit (skip_spaces (drop (str_len (codes "edit ")) cmd)) lines s
      else (false, s)
