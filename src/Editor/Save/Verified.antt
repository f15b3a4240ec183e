-- ===== src/Editor/Save/Verified.antt =====
-- A save that reports success has stored the text; a destructive one wants a confirmation.
use vita_os.Prelude.{
  Bool, true, false, not, ◌&&◌, ◌||◌, some, [], ◌∷◌, ◌≡◌, refl, ◌∙◌, arith, codes, if_elim,
  not-true, not_or,
}
use vita_os.Text.{Bytes, str_eq, skip_spaces}
use vita_os.Text.Laws.{str_eq_iff}
use vita_os.Storage.Host.{Host}
use vita_os.Storage.Files.{World, storage_write_text, storage_read_text}
use vita_os.Storage.Files.RoundTrip.{
  content, IsPut, storage_write_text-IsPut, storage_read_text-content, read_back-content,
}
use vita_os.Editor.NotePath.{path_allowed}
use vita_os.Editor.Session.{Session, write_line}
use vita_os.Editor.State.{Editor, tell}
use vita_os.Editor.Save.{
  say, say_error, verify_save, saveas_to, saveas_target, editor_save_to_path, editor_saveas,
}

module _ (host : Host) (session : Session host) where
  content-say :
      (line : Bytes) (s : Editor host.Fs) (path : Bytes)
      → (session.OwnFile path → ⊥)
      → content host (say host session line s).world path ≡ content host s.world path
  unfolding say tell
  content-say line s path own = session.keeps_content (write_line line) s.world path own

  -- a save is held back
  abbrev pub blocked : Editor host.Fs → Bool → Bool
  blocked s force = s.loaded_existing && s.destructive_change && not s.save_confirmed && not force

  -- What the result `true` of a save says.
  pub record IsSaved (path : Bytes) (force : Bool) (s s' : Editor host.Fs) : Type 0 where
    pub allowed : path_allowed path ≡ true
    pub not_blocked : blocked s force ≡ false
    pub stored : (session.OwnFile path → ⊥) → content host s'.world path ≡ some s.text
    pub same_text : s'.text ≡ s.text
    pub clean : s'.dirty ≡ false

  SaveReport : Bytes → Bool → Editor host.Fs → Bool × Editor host.Fs → Type 0
  SaveReport path force s r = r.0 ≡ true → IsSaved path force s r.1

  verified :
      (path : Bytes) (force : Bool) (s : Editor host.Fs) (w : World host.Fs)
      → path_allowed path ≡ true
      → blocked s force ≡ false
      → IsPut host path s.text w
      → SaveReport path force s (verify_save host session path (true, w) s)
  unfolding verify_save SaveReport
  verified path force s w allowed free put =
      let found = (storage_read_text host path [] 2048 w).0 in
      let w' = (storage_read_text host path [] 2048 w).1 in
      if_elim (SaveReport path force s) (not found.0 || not (str_eq found.1 s.text)) _ _ (λ _ h. cc)
        λ ok _. record {
          allowed = allowed;
          not_blocked = free;
          stored = λ own.
              says path own (record s { world = w' })
              ∙ storage_read_text-content host path [] path 2048 w
              ∙ read_back-content host path s.text [] 2048 w put (read_ok found ok).0
                  (read_ok found ok).1;
          same_text = unfold say tell in refl;
          clean = refl;
        }
    where
      read_ok :
          (found : Bool × Bytes)
          → (not found.0 || not (str_eq found.1 s.text)) ≡ false
          → (found.0 ≡ true) × (found.1 ≡ s.text)
      read_ok found h =
          let (here, same) = not_or found.0 (str_eq found.1 s.text) h in
          (here, (str_eq_iff found.1 s.text).0 same)

      says :
          (p : Bytes)
          → (session.OwnFile p → ⊥)
          → (t : Editor host.Fs)
          → content host
              (say host session p (say host session (codes "editor: saved / guardado") t)).world
              p
            ≡ content host t.world p
      says p own t =
          content-say p (say host session (codes "editor: saved / guardado") t) p own
          ∙ content-say (codes "editor: saved / guardado") t p own

  -- A save that returns true was to a path that the editor accepts, was not held back as an
  -- unconfirmed destructive one, and left the file behind the path with exactly the text of the
  -- editor, unless it is a file that the transcript writes itself; the text is as before, and
  -- nothing is pending.
  pub editor_save_to_path-IsSaved :
      (path : Bytes) (force : Bool) (s : Editor host.Fs)
      → (editor_save_to_path host session path force s).0 ≡ true
      → IsSaved path force s (editor_save_to_path host session path force s).1
  unfolding editor_save_to_path SaveReport
  editor_save_to_path-IsSaved path force s =
      if_elim (SaveReport path force s) (not (path_allowed path)) _ _ (λ _ h. cc)
        λ allowed.
          if_elim (SaveReport path force s) (blocked s force) _ _ (λ _ h. cc)
            λ free.
              written (storage_write_text host path s.text s.world)
                (storage_write_text-IsPut host path s.text s.world)
                (not-true (path_allowed path) allowed) free
    where
      written :
          (r : Bool × World host.Fs)
          → (r.0 ≡ true → IsPut host path s.text r.1)
          → path_allowed path ≡ true
          → blocked s force ≡ false
          → SaveReport path force s (verify_save host session path r s)
      written (false, w) st allowed free h = cc
      written (true, w) st allowed free h = verified path force s w allowed free (st refl) h

  -- A destructive change of a loaded note that is neither confirmed nor forced is not saved: the
  -- result is false, every file that the transcript does not write itself is as before, and so is
  -- the text.
  pub editor_save_to_path_blocked :
      (path other : Bytes) (s : Editor host.Fs)
      → s.loaded_existing ≡ true
      → s.destructive_change ≡ true
      → s.save_confirmed ≡ false
      → (session.OwnFile other → ⊥)
      → ((editor_save_to_path host session path false s).0 ≡ false)
        × (content host (editor_save_to_path host session path false s).1.world other
            ≡ content host s.world other)
        × ((editor_save_to_path host session path false s).1.text ≡ s.text)
  unfolding editor_save_to_path
  editor_save_to_path_blocked path other s loaded destructive unconfirmed own =
      if_elim Kept (not (path_allowed path)) _ _
        (λ _. (refl, content-say _ s other own, unfold say tell in refl))
        λ _.
          if_elim Kept (blocked s false) _ _
            (λ _. (
              refl,
              content-say _ _ other own ∙ content-say _ _ other own ∙ content-say _ s other own,
              unfold say tell in refl,
            ))
            λ free. absurd (ground arith)
    where
      Kept : Bool × Editor host.Fs → Type 0
      Kept r =
          (r.0 ≡ false)
          × (content host r.1.world other ≡ content host s.world other)
          × (r.1.text ≡ s.text)

  -- A save changes no text.
  pub text-editor_save_to_path :
      (path : Bytes) (force : Bool) (s : Editor host.Fs)
      → (editor_save_to_path host session path force s).1.text ≡ s.text
  unfolding editor_save_to_path tell
  text-editor_save_to_path path force s =
      if_elim Same (not (path_allowed path)) _ _ (λ _. refl)
        λ _.
          if_elim Same (blocked s force) _ _ (λ _. refl)
            λ _. verify (storage_write_text host path s.text s.world)
    where
      Same : Bool × Editor host.Fs → Type 0
      Same r = r.1.text ≡ s.text

      verify : (r : Bool × World host.Fs) → Same (verify_save host session path r s)
      verify (false, w) = unfold verify_save say_error say tell in refl
      verify (true, w) =
          let found = (storage_read_text host path [] 2048 w).0 in
          unfold verify_save say_error say tell in
          if_elim Same (not found.0 || not (str_eq found.1 s.text)) _ _ (λ _. refl) (λ _. refl)

  saveas_text : (p : Bytes) (s : Editor host.Fs) → (saveas_to host session p s).1.text ≡ s.text
  unfolding saveas_to tell
  saveas_text [] s = unfold say in refl
  saveas_text (c ∷ p) s =
      if_elim Same (not (path_allowed (saveas_target host session s (c ∷ p)))) _ _
        (λ _. unfold say in refl) λ _. text-editor_save_to_path _ true _
    where
      Same : Bool × Editor host.Fs → Type 0
      Same r = r.1.text ≡ s.text

  pub text-editor_saveas :
      (args : Bytes) (s : Editor host.Fs) → (editor_saveas host session args s).1.text ≡ s.text
  unfolding editor_saveas
  text-editor_saveas args s = saveas_text (skip_spaces args) s
