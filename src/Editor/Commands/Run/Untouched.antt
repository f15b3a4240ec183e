-- ===== src/Editor/Commands/Run/Untouched.antt =====
-- Leaving the editor without a saving command changes no note.
use vita_os.Prelude.{
  Bool, true, false, not, Option, none, some, List, [], ◌∷◌, ◌≡◌, refl, ◌∙◌, All, if_elim, codes,
}
use vita_os.Text.{Bytes, trim_right_in_place, str_copy}
use vita_os.Storage.Host.{Host}
use vita_os.Storage.Files.{storage_is_ready}
use vita_os.Storage.Files.RoundTrip.{content, storage_read_text-content}
use vita_os.Editor.NotePath.{path_allowed}
use vita_os.Editor.Session.{Session, Effect, write_line}
use vita_os.Editor.State.{Editor, EditorResult, OpenMode, tell, editor_ensure_newline_before_append}
use vita_os.Editor.State.Files.{content-append_line, content-ensure_newline}
use vita_os.Editor.Commands.{
  tell_all, on_exit, on_append, on_replace, on_clear, on_text, EditorCommand, save, save_force,
  write_quit, exit, saveas, confirm, cancel, help, show, show_path, status, append, replace, clear,
  text_line, read_command, is_append, perform_command, editor_command,
}
use vita_os.Editor.Commands.Run.{
  editor_turn, after_turn, editor_loop, opened, editor_open, editor_run,
}

-- Every command but `.save`, `.save!`, `.wq` and `.saveas`.
abbrev pub SavesNothing : EditorCommand → Type 0
SavesNothing save = ⊥
SavesNothing save_force = ⊥
SavesNothing write_quit = ⊥
SavesNothing saveas = ⊥
SavesNothing _ = Unit

module _ (host : Host) (session : Session host) (note : Bytes)
    (own : session.OwnFile note → ⊥) where
  abbrev file : Editor host.Fs → Option Bytes
  file s = content host s.world note

  content-tell : (e : Effect) (s : Editor host.Fs) → file (tell host session e s) ≡ file s
  unfolding tell
  content-tell e s = session.keeps_content e s.world note own

  content-tell_all :
      (es : List Effect) (s : Editor host.Fs) → file (tell_all host session es s) ≡ file s
  unfolding tell_all
  content-tell_all [] s = refl
  content-tell_all (e ∷ es) s = content-tell_all es (tell host session e s) ∙ content-tell e s

  content-on_exit : (s : Editor host.Fs) → file (on_exit host session s).1 ≡ file s
  unfolding on_exit
  content-on_exit s = if_elim Same s.dirty _ _ (λ _. content-tell_all _ s) (λ _. content-tell _ s)
    where
      Same : Option EditorResult × Editor host.Fs → Type 0
      Same r = file r.1 ≡ file s

  content-on_append : (s : Editor host.Fs) → file (on_append host session s).1 ≡ file s
  unfolding on_append
  content-on_append s = content-tell _ _ ∙ content-ensure_newline host session note own _

  content-on_text :
      (line : Bytes) (r : Bool × Editor host.Fs) → file (on_text host session line r).1 ≡ file r.1
  unfolding on_text
  content-on_text line (true, s) = content-tell_all _ s
  content-on_text line (false, s) = refl

  content-perform_command :
      (c : EditorCommand) (line : Bytes) (s : Editor host.Fs)
      → SavesNothing c
      → file (perform_command host session c line s).1 ≡ file s
  unfolding perform_command on_replace on_clear
  content-perform_command save line s h = absurd h
  content-perform_command save_force line s h = absurd h
  content-perform_command write_quit line s h = absurd h
  content-perform_command saveas line s h = absurd h
  content-perform_command exit line s h = content-on_exit s
  content-perform_command confirm line s h = content-tell _ _
  content-perform_command cancel line s h = content-tell_all _ s
  content-perform_command help line s h = content-tell_all _ s
  content-perform_command show line s h = content-tell_all _ s
  content-perform_command show_path line s h = content-tell _ s
  content-perform_command status line s h = content-tell_all _ s
  content-perform_command append line s h = content-on_append s
  content-perform_command replace line s h = content-tell_all _ _
  content-perform_command clear line s h = content-tell_all _ _
  content-perform_command text_line line s h =
      content-on_text line _ ∙ content-append_line host session note own line s

  content-editor_turn :
      (line : Bytes) (s : Editor host.Fs)
      → SavesNothing (read_command (trim_right_in_place line))
      → file (editor_turn host session line s).1 ≡ file s
  unfolding editor_turn editor_command
  content-editor_turn line s h =
      content-perform_command (read_command (trim_right_in_place line)) _ _ h ∙ content-tell _ s

  content-after_turn :
      (r : Option EditorResult × Editor host.Fs)
      (rest : Editor host.Fs → EditorResult × Editor host.Fs)
      → ((s : Editor host.Fs) → file (rest s).1 ≡ file s)
      → file (after_turn host session r rest).1 ≡ file r.1
  unfolding after_turn
  content-after_turn (none, s) rest keep = keep s
  content-after_turn (some r, s) rest keep = refl

  content-editor_loop :
      (lines : List Bytes) (s : Editor host.Fs)
      → All (λ line. SavesNothing (read_command (trim_right_in_place line))) lines
      → file (editor_loop host session lines s).1 ≡ file s
  unfolding editor_loop
  content-editor_loop [] s h = content-tell_all _ s
  content-editor_loop (line ∷ lines) s h =
      content-after_turn (editor_turn host session line s) (editor_loop host session lines)
        (λ t. content-editor_loop lines t h.1)
      ∙ content-editor_turn line s h.0

  content-opened : (found : Bool) (s : Editor host.Fs) → file (opened host session found s) ≡ file s
  unfolding opened
  content-opened true s =
      let s' =
        tell host session
          (write_line (codes "editor: loaded existing file / archivo existente cargado"))
          (record s { loaded_existing = true }) in
      if_elim Same (is_append s'.mode)
        (tell host session (write_line (codes "editor: append mode / modo agregar"))
          (editor_ensure_newline_before_append host session s').1)
        s'
        (λ _.
          content-tell _ _
          ∙ content-ensure_newline host session note own s'
          ∙ content-tell _ (record s { loaded_existing = true }))
        (λ _. content-tell _ (record s { loaded_existing = true }))
    where
      Same : Editor host.Fs → Type 0
      Same t = file t ≡ file s
  content-opened false s = if_elim Same (is_append s.mode) _ _ (λ _. content-tell _ s) (λ _. refl)
    where
      Same : Editor host.Fs → Type 0
      Same t = file t ≡ file s

  content-editor_open :
      (path : Bytes) (mode : OpenMode) (s : Editor host.Fs)
      → file (editor_open host session path mode s) ≡ file s
  unfolding editor_open
  content-editor_open path mode s =
      content-tell_all _ _
      ∙ content-opened _ _
      ∙ storage_read_text-content host (str_copy [] 192 (some path)) [] note 1536 s.world

  -- Whatever note is opened and whatever lines are typed, if none of them is a saving command then
  -- no file changes but those that the transcript writes itself, however the editor is left.
  pub editor_run_untouched :
      (path : Bytes) (mode : OpenMode) (lines : List Bytes) (s : Editor host.Fs)
      → All (λ line. SavesNothing (read_command (trim_right_in_place line))) lines
      → content host (editor_run host session path mode lines s).1.world note
        ≡ content host s.world note
  unfolding editor_run
  editor_run_untouched path mode lines s h =
      if_elim Same (not (path_allowed path)) _ _ (λ _. content-tell _ s)
        λ _.
          if_elim Same (not (storage_is_ready s.world)) _ _ (λ _. content-tell_all _ s)
            λ _. content-editor_loop lines _ h ∙ content-editor_open path mode s
    where
      Same : EditorResult × Editor host.Fs → Type 0
      Same r = file r.1 ≡ file s
