-- ===== src/Editor/State.antt =====
-- The state of the editor, and the operations on its text.
pub mod Bounds
pub mod Files
use vita_os.Prelude.{
  ℕ, ◌+◌, ◌-◌, Bool, true, false, not, ◌&&◌, Option, none, some, List, [], ◌∷◌, codes, leb, get_or,
  ◌==◌, if◌then◌else◌,
}
use vita_os.Text.{Bytes, str_len, str_append}
use vita_os.Storage.Host.{Host}
use vita_os.Storage.Files.{World}
use vita_os.Editor.Session.{Session, Effect, write_line}

-- `editor_result_t`
pub data EditorResult : Type 0 where
  editor_save editor_cancel editor_error : EditorResult

-- `editor_open_mode_t`
pub data OpenMode : Type 0 where
  open_edit open_append : OpenMode

-- The `g_editor_...` variables, and the rest of the system.
pub record Editor (Fs : Type 0) : Type 0 where
  pub text : Bytes
  pub path : Bytes
  pub saveas_path : Bytes
  pub loaded_existing : Bool
  pub destructive_change : Bool
  pub save_confirmed : Bool
  pub dirty : Bool
  pub mode : OpenMode
  pub world : World Fs

module _ (host : Host) (session : Session host) where
  -- a call of the console or of the transcript
  unfoldable pub tell : Effect → Editor host.Fs → Editor host.Fs
  tell e s = record s { world = session.perform e s.world }

  pub editor_append_text_raw : Bytes → Editor host.Fs → Bool × Editor host.Fs
  editor_append_text_raw text s =
      if leb 1536 (str_len s.text + str_len text + 1)
      then (false, tell (write_line (codes "editor: text buffer full / buffer de texto lleno")) s)
      else (true, record s { text = str_append s.text 1536 (some text) })

  pub editor_ensure_newline_before_append : Editor host.Fs → Bool × Editor host.Fs
  editor_ensure_newline_before_append s =
      let used = str_len s.text in
      if used == 0
      then (true, s)
      else if get_or s.text (used - 1) 0 == b'\n'
      then (true, s)
      else editor_append_text_raw (b'\n' ∷ []) s

  pub editor_append_line : Bytes → Editor host.Fs → Bool × Editor host.Fs
  editor_append_line line s =
      if leb 1536 (str_len s.text + str_len line + 2)
      then (false, tell (write_line (codes "editor: text buffer full / buffer de texto lleno")) s)
      else let once = str_append s.text 1536 (some line) in
        (true, record s { text = str_append once 1536 (some (b'\n' ∷ [])) })
