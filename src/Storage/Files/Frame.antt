-- ===== src/Storage/Files/Frame.antt =====
-- A write through the storage facade changes one file.
use vita_os.Prelude.{
  Bool, not, ◌||◌, Option, some, [], ◌∷◌, ◌++◌, ◌≡◌, refl, sym, ap, ◌∙◌, subst, if_elim, not-true,
  if◌then◌else◌, ◌==◌,
}
use vita_os.Text.{Bytes}
use vita_os.Storage.Host.{Host, HostFrame, Written, no_open, short_write, unclosed, complete}
use vita_os.Storage.Paths.{path_allowed}
use vita_os.Storage.Paths.Confined.{hosted_map_path_lem, host_path}
use vita_os.Storage.Files.{
  World, set_error, make_parents, hosted_ensure_parent_dirs, fail, finish_write, write_mapped,
  hosted_write_text, storage_write_text,
}
use vita_os.Storage.Files.RoundTrip.{content}

module _ (host : Host) (frame : HostFrame host) where
  open host use {Fs, read_file, write_file, make_dir}
  open frame use {Same, keeps_make_dir, keeps_write}

  -- the paths of the facade name different files
  abbrev pub Apart : Bytes → Bytes → Type 0
  Apart path other = Same (host_path path) (host_path other) → ⊥

  make_parents-keeps :
      (fs : Fs) (passed path other : Bytes)
      → read_file (make_parents host fs passed path) other ≡ read_file fs other
  unfolding make_parents
  make_parents-keeps fs passed [] other = refl
  make_parents-keeps fs passed (c ∷ rest) other =
      make_parents-keeps (if c == b'/' then make_dir fs passed else fs) (passed ++ c ∷ []) rest
        other
      ∙ if_elim (λ (t : Fs). read_file t other ≡ read_file fs other) (c == b'/')
          (make_dir fs passed) fs (λ _. keeps_make_dir fs passed other) (λ _. refl)

  parent_dirs-keeps :
      (fs : Fs) (path other : Bytes)
      → read_file (hosted_ensure_parent_dirs host fs path) other ≡ read_file fs other
  unfolding hosted_ensure_parent_dirs
  parent_dirs-keeps fs [] other = refl
  parent_dirs-keeps fs (c ∷ rest) other = make_parents-keeps fs (c ∷ []) rest other

  finish_write-fs : (r : Written) (w : World Fs) → (finish_write host r w).1.fs ≡ w.fs
  unfolding finish_write fail set_error
  finish_write-fs no_open w = refl
  finish_write-fs short_write w = refl
  finish_write-fs unclosed w = refl
  finish_write-fs complete w = refl

  write_mapped-content :
      (path text other : Bytes) (w : World Fs)
      → Apart path other
      → content host (write_mapped host (some (host_path path)) text w).1 other
        ≡ content host w other
  unfolding write_mapped content
  write_mapped-content path text other w apart =
      let fs = hosted_ensure_parent_dirs host w.fs (host_path path) in
      let r = write_file fs (host_path path) text in
      ap (λ (t : Fs). read_file t (host_path other)) (finish_write-fs r.0 (record w { fs = r.1 }))
      ∙ keeps_write fs (host_path path) text (host_path other) apart
      ∙ parent_dirs-keeps w.fs (host_path path) (host_path other)

  -- A write changes no file but the one that it names, whether it succeeds or not.
  pub storage_write_text-content :
      (path text other : Bytes) (w : World Fs)
      → Apart path other
      → content host (storage_write_text host path text w).1 other ≡ content host w other
  unfolding storage_write_text hosted_write_text
  storage_write_text-content path text other w apart =
      if_elim P (not w.storage.initialized || not w.storage.writable) _ _ (λ _. failed _)
        λ _.
          if_elim P (not (path_allowed path)) _ _ (λ _. failed _)
            λ ok.
              subst (λ (m : Option Bytes). P (write_mapped host m text w))
                (sym (hosted_map_path_lem path (not-true _ ok)))
                (write_mapped-content path text other w apart)
    where
      P : Bool × World Fs → Type 0
      P r = content host r.1 other ≡ content host w other

      failed : (error : Bytes) → P (fail host error w)
      failed error = unfold fail set_error content in refl
