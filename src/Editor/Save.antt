-- ===== src/Editor/Save.antt =====
-- `editor_save_to_path`, `editor_saveas` and `note_bootstrap_if_missing` of kernel/editor.c.
pub mod Verified
use vita_os.Prelude.{
  ℕ, Bool, true, false, not, ◌&&◌, ◌||◌, Option, none, some, List, [], ◌∷◌, codes, if◌then◌else◌,
}
use vita_os.Text.{Bytes, str_eq, skip_spaces, trim_right_in_place, str_copy}
use vita_os.Storage.Host.{Host}
use vita_os.Storage.Files.{World, storage_write_text, storage_read_text, storage_last_error}
use vita_os.Editor.NotePath.{path_allowed}
use vita_os.Editor.Session.{Session, Effect, write_line}
use vita_os.Editor.State.{Editor, tell}

module _ (host : Host) (session : Session host) where
  say : Bytes → Editor host.Fs → Editor host.Fs
  say line = tell host session (write_line line)

  -- two lines, the second the facade's last error
  say_error : Bytes → Editor host.Fs → Editor host.Fs
  unfolding say
  say_error line s = let s' = say line s in say (storage_last_error s'.world) s'

  -- behind the write: the text is read back and compared
  verify_save : Bytes → Bool × World host.Fs → Editor host.Fs → Bool × Editor host.Fs
  unfolding say say_error
  verify_save path (false, w) s =
      (false, say_error (codes "note save: failed") (record s { world = w }))
  verify_save path (true, w) s =
      let ((done, verify), w') = storage_read_text host path [] 2048 w in
      if not done || not (str_eq verify s.text)
      then (false, say_error (codes "note save: verify failed") (record s { world = w' }))
      else (
        true,
        record (say path (say (codes "editor: saved / guardado") (record s { world = w' }))) {
          dirty = false;
        },
      )

  unfoldable pub editor_save_to_path : Bytes → Bool → Editor host.Fs → Bool × Editor host.Fs
  unfolding verify_save say
  editor_save_to_path path force s =
      if not (path_allowed path)
      then (false, say (codes "editor: save path must be inside /vita/") s)
      else if s.loaded_existing && s.destructive_change && not s.save_confirmed && not force
      then (
        false,
        say (codes "Usa .confirm y luego .save, o .save! para forzar.") (
            say (codes "Use .confirm then .save, or .save! to force.")
              (say (codes "editor: destructive change detected / cambio destructivo detectado") s)),
      )
      else verify_save path (storage_write_text host path s.text s.world) s

  -- the path that `.saveas` is given, without blanks at its end
  saveas_target : Editor host.Fs → Bytes → Bytes
  saveas_target s p = trim_right_in_place (str_copy s.saveas_path 192 (some p))

  saveas_to : Bytes → Editor host.Fs → Bool × Editor host.Fs
  unfolding saveas_target
  saveas_to [] s = (false, say (codes "usage: .saveas /vita/notes/new-file.txt") s)
  saveas_to (c ∷ p) s =
      let target = saveas_target s (c ∷ p) in
      let s' = record s { saveas_path = target } in
      if not (path_allowed target)
      then (false, say (codes "editor: .saveas path must be inside /vita/ and safe") s')
      else editor_save_to_path target true s'

  pub editor_saveas : Bytes → Editor host.Fs → Bool × Editor host.Fs
  unfolding saveas_to
  editor_saveas args s = saveas_to (skip_spaces args) s
