-- ===== src/Editor/Commands/Run/Invariant.antt =====
-- The text of the editor stays within its buffer, whatever the user types.
use vita_os.Prelude.{
  ◌<◌, Bool, true, false, not, Option, none, some, List, [], ◌∷◌, ◌≡◌, refl, ap, ◌∙◌, arith, length,
  if_elim,
}
use vita_os.Text.{Bytes, trim_right_in_place, str_copy}
use vita_os.Storage.Host.{Host}
use vita_os.Storage.Files.{storage_is_ready}
use vita_os.Storage.Files.RoundTrip.{length-storage_read_text}
use vita_os.Editor.NotePath.{path_allowed}
use vita_os.Editor.Session.{Session, Effect}
use vita_os.Editor.State.{Editor, EditorResult, OpenMode, tell}
use vita_os.Editor.State.Bounds.{editor_append_line-IsAppended, newline_bound}
use vita_os.Editor.Save.Verified.{text-editor_save_to_path, text-editor_saveas}
use vita_os.Editor.Commands.{
  tell_all, on_wq, on_exit, on_saveas, on_append, on_replace, on_clear, on_text, EditorCommand,
  save, save_force, write_quit, exit, saveas, confirm, cancel, help, show, show_path, status,
  append, replace, clear, text_line, read_command, is_append, perform_command, editor_command,
  continue, after_saveas,
}
use vita_os.Editor.Commands.Run.{
  editor_turn, after_turn, editor_loop, opened, editor_open, editor_run,
}

module _ (host : Host) (session : Session host) where
  abbrev Small : Editor host.Fs → Type 0
  Small s = length s.text < 1536

  text-tell_all :
      (es : List Effect) (s : Editor host.Fs) → (tell_all host session es s).text ≡ s.text
  unfolding tell_all tell
  text-tell_all [] s = refl
  text-tell_all (e ∷ es) s = text-tell_all es (tell host session e s)

  small_text : {a b : Bytes} → b ≡ a → length a < 1536 → length b < 1536
  small_text e h = omega (arith, ap length e)

  text-on_wq : (r : Bool × Editor host.Fs) → (on_wq host session r).1.text ≡ r.1.text
  unfolding on_wq tell
  text-on_wq (true, s) = refl
  text-on_wq (false, s) = refl

  text-on_saveas : (r : Bool × Editor host.Fs) → (on_saveas host session r).1.text ≡ r.1.text
  unfolding on_saveas
  text-on_saveas (true, s) = refl
  text-on_saveas (false, s) = refl

  text-on_text :
      (line : Bytes) (r : Bool × Editor host.Fs) → (on_text host session line r).1.text ≡ r.1.text
  unfolding on_text
  text-on_text line (true, s) = text-tell_all _ s
  text-on_text line (false, s) = refl

  text-on_exit : (s : Editor host.Fs) → (on_exit host session s).1.text ≡ s.text
  unfolding on_exit tell
  text-on_exit s = if_elim Same s.dirty _ _ (λ _. text-tell_all _ s) (λ _. refl)
    where
      Same : Option EditorResult × Editor host.Fs → Type 0
      Same r = r.1.text ≡ s.text

  on_append-Small : (s : Editor host.Fs) → Small s → Small (on_append host session s).1
  unfolding on_append tell
  on_append-Small s h = newline_bound host session _ h

  on_clear-Small : (s : Editor host.Fs) → Small (on_clear host session s).1
  unfolding on_clear
  on_clear-Small s = omega (arith, ap length (text-tell_all _ _))

  on_replace-Small : (s : Editor host.Fs) → Small (on_replace host session s).1
  unfolding on_replace
  on_replace-Small s = omega (arith, ap length (text-tell_all _ _))

  command-Small :
      (c : EditorCommand) (line : Bytes) (s : Editor host.Fs)
      → Small s
      → Small (perform_command host session c line s).1
  unfolding perform_command continue tell
  command-Small save line s h = small_text (text-editor_save_to_path host session s.path false _) h
  command-Small save_force line s h =
      small_text (text-editor_save_to_path host session s.path true s) h
  command-Small write_quit line s h =
      small_text (text-on_wq _ ∙ text-editor_save_to_path host session s.path false _) h
  command-Small exit line s h = small_text (text-on_exit s) h
  command-Small saveas line s h =
      small_text (text-on_saveas _ ∙ text-editor_saveas host session (after_saveas line) s) h
  command-Small confirm line s h = h
  command-Small cancel line s h = small_text (text-tell_all _ s) h
  command-Small help line s h = small_text (text-tell_all _ s) h
  command-Small show line s h = small_text (text-tell_all _ s) h
  command-Small show_path line s h = h
  command-Small status line s h = small_text (text-tell_all _ s) h
  command-Small append line s h = on_append-Small s h
  command-Small replace line s h = on_replace-Small s
  command-Small clear line s h = on_clear-Small s
  command-Small text_line line s h =
      small_text (text-on_text line _) (editor_append_line-IsAppended host session line s h).bound

  editor_turn-Small :
      (line : Bytes) (s : Editor host.Fs) → Small s → Small (editor_turn host session line s).1
  unfolding editor_turn editor_command tell
  editor_turn-Small line s h = command-Small (read_command (trim_right_in_place line)) _ _ h

  after_turn-Small :
      (r : Option EditorResult × Editor host.Fs)
      (rest : Editor host.Fs → EditorResult × Editor host.Fs)
      → Small r.1
      → ((s : Editor host.Fs) → Small s → Small (rest s).1)
      → Small (after_turn host session r rest).1
  unfolding after_turn
  after_turn-Small (none, s) rest h keep = keep s h
  after_turn-Small (some r, s) rest h keep = h

  editor_loop-Small :
      (lines : List Bytes) (s : Editor host.Fs)
      → Small s
      → Small (editor_loop host session lines s).1
  unfolding editor_loop
  editor_loop-Small [] s h = small_text (text-tell_all _ s) h
  editor_loop-Small (line ∷ lines) s h =
      after_turn-Small (editor_turn host session line s) (editor_loop host session lines)
        (editor_turn-Small line s h) (editor_loop-Small lines)

  opened-Small : (found : Bool) (s : Editor host.Fs) → Small s → Small (opened host session found s)
  unfolding opened tell
  opened-Small true s h =
      if_elim Small (is_append s.mode) _ _ (λ _. newline_bound host session _ h) (λ _. h)
  opened-Small false s h = if_elim Small (is_append s.mode) _ _ (λ _. h) (λ _. h)

  editor_open-Small :
      (path : Bytes) (mode : OpenMode) (s : Editor host.Fs)
      → Small (editor_open host session path mode s)
  unfolding editor_open
  editor_open-Small path mode s =
      let target = str_copy [] 192 (some path) in
      small_text (text-tell_all _ _)
        (opened-Small _ _ (length-storage_read_text host target 1536 s.world (omega arith)))

  -- Whatever path is opened and whatever lines are typed, the text of the editor that was below 1536
  -- bytes is so at the end, also after a file of any size was loaded.
  pub editor_run_bound :
      (path : Bytes) (mode : OpenMode) (lines : List Bytes) (s : Editor host.Fs)
      → length s.text < 1536
      → length (editor_run host session path mode lines s).1.text < 1536
  unfolding editor_run tell
  editor_run_bound path mode lines s h =
      if_elim P (not (path_allowed path)) _ _ (λ _. h)
        λ _.
          if_elim P (not (storage_is_ready s.world)) _ _ (λ _. small_text (text-tell_all _ s) h)
            λ _. editor_loop-Small lines _ (editor_open-Small path mode s)
    where
      P : EditorResult × Editor host.Fs → Type 0
      P r = Small r.1
