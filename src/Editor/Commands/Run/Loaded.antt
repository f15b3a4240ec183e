-- ===== src/Editor/Commands/Run/Loaded.antt =====
-- What the editor holds of a note that it opened, and stores when it is saved again.
use vita_os.Prelude.{
  ◌<◌, Bool, true, false, some, List, [], ◌∷◌, ◌≡◌, refl, ap, ◌∙◌, arith, length, take, take_all,
}
use vita_os.Text.{Bytes, str_copy}
use vita_os.Text.Laws.{str_copy_lem}
use vita_os.Storage.Host.{Host}
use vita_os.Storage.Files.{storage_read_text, until_nul}
use vita_os.Storage.Files.RoundTrip.{content, IsStored, read_stored_prefix}
use vita_os.Editor.Session.{Session, Effect}
use vita_os.Editor.State.{Editor, open_edit, tell}
use vita_os.Editor.Save.{editor_save_to_path}
use vita_os.Editor.Save.Verified.{editor_save_to_path-IsSaved}
use vita_os.Editor.Commands.{tell_all}
use vita_os.Editor.Commands.Run.{opened, editor_open}

copied : (path : Bytes) → length path < 191 → str_copy [] 192 (some path) ≡ path
copied path short = str_copy_lem [] path 192 (omega arith) ∙ take_all 191 path (omega arith)

module _ (host : Host) (session : Session host) where
  text_told : (es : List Effect) (s : Editor host.Fs) → (tell_all host session es s).text ≡ s.text
  unfolding tell_all tell
  text_told [] s = refl
  text_told (e ∷ es) s = text_told es (tell host session e s)

  text-opened :
      (found : Bool) (s : Editor host.Fs)
      → (opened host session found (record s { mode = open_edit })).text ≡ s.text
  unfolding opened tell
  text-opened true s = refl
  text-opened false s = refl

  -- A note that is stored under a path of at most 190 bytes is loaded up to its first 1535 bytes.
  text-editor_open :
      (path text : Bytes) (s : Editor host.Fs)
      → length path < 191
      → IsStored host path text s.world
      → (editor_open host session path open_edit s).text ≡ until_nul (take 1535 text)
  unfolding editor_open
  text-editor_open path text s short st =
      let target = str_copy [] 192 (some path) in
      let r = storage_read_text host target [] 1536 s.world in
      let base : Editor host.Fs = record {
        text = r.0.1;
        path = target;
        saveas_path = [];
        loaded_existing = false;
        destructive_change = false;
        save_confirmed = false;
        dirty = false;
        mode = open_edit;
        world = r.1;
      } in
      text_told _ (opened host session r.0.0 base)
      ∙ text-opened r.0.0 base
      ∙ ap (λ p. (storage_read_text host p [] 1536 s.world).0.1) (copied path short)
      ∙ ap (λ (x : Bool × Bytes). x.1)
          (read_stored_prefix host path text [] 1536 s.world st (omega arith))

  -- Where a note of the storage is opened and a save of what the editor then holds reports success,
  -- the note holds its own first 1535 bytes, up to a NUL: a note that fits the editor is unchanged,
  -- and a longer one is cut, also without a confirmation. The path has at most 190 bytes and is no
  -- file of the transcript.
  pub editor_save-open :
      (path text : Bytes) (s : Editor host.Fs)
      → length path < 191
      → IsStored host path text s.world
      → (session.OwnFile path → ⊥)
      → (editor_save_to_path host session path false (editor_open host session path open_edit s)).0
        ≡ true
      → content host
          (editor_save_to_path host session path false
            (editor_open host session path open_edit s)).1.world
          path
        ≡ some (until_nul (take 1535 text))
  editor_save-open path text s short st own done =
      let saved =
        editor_save_to_path-IsSaved host session path false
          (editor_open host session path open_edit s) done in
      saved.stored own ∙ ap some (text-editor_open path text s short st)
