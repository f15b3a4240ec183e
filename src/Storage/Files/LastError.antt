-- ===== src/Storage/Files/LastError.antt =====
-- The last error behind a success.
use vita_os.Prelude.{
  ℕ, Bool, true, not, ◌||◌, Option, none, some, ◌≡◌, refl, ap, codes, ◌==◌, if_elim,
}
use vita_os.Text.{Bytes, str_copy}
use vita_os.Storage.Host.{Host, Written, no_open, short_write, unclosed, complete}
use vita_os.Storage.Paths.{path_allowed, hosted_map_path}
use vita_os.Storage.Files.{
  World, error_or_none, storage_last_error, set_error, fail, succeed, finish_write, write_mapped,
  hosted_write_text, storage_write_text, fail_read, finish_read, read_mapped, hosted_read_text,
  storage_read_text, hosted_ensure_parent_dirs,
}

module _ (host : Host) where
  open host use {Fs, write_file, read_file}

  -- nothing has failed since the last success
  abbrev pub IsFine : World Fs → Type 0
  IsFine w = w.storage.last_error ≡ codes "ok"

  pub last_error_fine : (w : World Fs) → IsFine w → storage_last_error w ≡ codes "ok"
  unfolding storage_last_error error_or_none
  last_error_fine w fine = ap error_or_none fine

  finish_write-IsFine :
      (r : Written) (w : World Fs)
      → (finish_write host r w).0 ≡ true
      → IsFine (finish_write host r w).1
  unfolding finish_write fail succeed set_error str_copy
  finish_write-IsFine no_open w h = cc
  finish_write-IsFine short_write w h = cc
  finish_write-IsFine unclosed w h = refl
  finish_write-IsFine complete w h = refl

  write_mapped-IsFine :
      (path : Option Bytes) (text : Bytes) (w : World Fs)
      → (write_mapped host path text w).0 ≡ true
      → IsFine (write_mapped host path text w).1
  unfolding write_mapped fail set_error
  write_mapped-IsFine none text w h = cc
  write_mapped-IsFine (some path) text w h =
      let r = write_file (hosted_ensure_parent_dirs host w.fs path) path text in
      finish_write-IsFine r.0 (record w { fs = r.1 }) h

  -- Behind a write that succeeds, the last error is "ok".
  pub storage_write_text-IsFine :
      (path text : Bytes) (w : World Fs)
      → (storage_write_text host path text w).0 ≡ true
      → IsFine (storage_write_text host path text w).1
  unfolding storage_write_text hosted_write_text fail set_error
  storage_write_text-IsFine path text w =
      if_elim P (not w.storage.initialized || not w.storage.writable) _ _ (λ _ h. cc)
        λ _.
          if_elim P (not (path_allowed path)) _ _ (λ _ h. cc)
            λ _. write_mapped-IsFine (hosted_map_path path) text w
    where
      P : Bool × World Fs → Type 0
      P r = r.0 ≡ true → IsFine r.1

  finish_read-IsFine :
      (file : Option Bytes) (size : ℕ) (w : World Fs)
      → (finish_read host file size w).0.0 ≡ true
      → IsFine (finish_read host file size w).1
  unfolding finish_read fail_read set_error str_copy
  finish_read-IsFine none size w h = cc
  finish_read-IsFine (some bytes) size w h = refl

  -- Behind a read that succeeds, the last error is "ok".
  pub storage_read_text-IsFine :
      (path out : Bytes) (size : ℕ) (w : World Fs)
      → (storage_read_text host path out size w).0.0 ≡ true
      → IsFine (storage_read_text host path out size w).1
  unfolding storage_read_text hosted_read_text fail_read set_error
  storage_read_text-IsFine path out size w =
      if_elim P (not w.storage.initialized) _ _ (λ _ h. cc)
        λ _.
          if_elim P (size == 0) _ _ (λ _ h. cc)
            λ _.
              if_elim P (not (path_allowed path)) _ _ (λ _ h. cc) λ _. mapped (hosted_map_path path)
    where
      P : (Bool × Bytes) × World Fs → Type 0
      P r = r.0.0 ≡ true → IsFine r.1

      mapped : (m : Option Bytes) → P (read_mapped host m size w)
      mapped none = unfold read_mapped fail_read in λ h. cc
      mapped (some p) = unfold read_mapped in finish_read-IsFine (read_file w.fs p) size w
