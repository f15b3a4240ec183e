-- ===== src/Storage/Files/Reads.antt =====
-- What a read that succeeds says about the file, and what no operation changes.
use vita_os.Prelude.{
  ℕ, ◌-◌, Bool, true, false, not, ◌||◌, Option, none, some, ◌≡◌, refl, sym, ◌∙◌, subst, take, ◌==◌,
  if_elim, not-true,
}
use vita_os.Text.{Bytes}
use vita_os.Storage.Host.{Host, Written, no_open, short_write, unclosed, complete}
use vita_os.Storage.Paths.{path_allowed, hosted_map_path}
use vita_os.Storage.Paths.Confined.{hosted_map_path_lem, host_path}
use vita_os.Storage.Files.{
  World, set_error, until_nul, fail, finish_write, write_mapped, hosted_write_text,
  storage_write_text, fail_read, finish_read, read_mapped, hosted_read_text, storage_read_text,
  hosted_ensure_parent_dirs,
}
use vita_os.Storage.Files.RoundTrip.{content}

module _ (host : Host) where
  open host use {Fs, read_file, write_file}

  -- A file is there, and `text` is what a buffer of `size` bytes shows of it.
  pub record Shows (path text : Bytes) (size : ℕ) (w : World Fs) : Type 0 where
    pub bytes : Bytes
    pub there : content host w path ≡ some bytes
    pub shown : text ≡ until_nul (take (size - 1) bytes)

  finish_read-Shows :
      (path : Bytes) (size : ℕ) (w : World Fs) (file : Option Bytes)
      → content host w path ≡ file
      → (finish_read host file size w).0.0 ≡ true
      → Shows path (finish_read host file size w).0.1 size w
  unfolding finish_read fail_read
  finish_read-Shows path size w none e h = cc
  finish_read-Shows path size w (some bytes) e h = record { bytes = bytes; there = e; shown = refl }

  -- A read that reports success found a file, and gives what the buffer holds of it.
  pub storage_read_text-Shows :
      (path out : Bytes) (size : ℕ) (w : World Fs)
      → (storage_read_text host path out size w).0.0 ≡ true
      → Shows path (storage_read_text host path out size w).0.1 size w
  unfolding storage_read_text hosted_read_text fail_read
  storage_read_text-Shows path out size w =
      if_elim P (not w.storage.initialized) _ _ (λ _ h. cc)
        λ _.
          if_elim P (size == 0) _ _ (λ _ h. cc)
            λ _.
              if_elim P (not (path_allowed path)) _ _ (λ _ h. cc)
                λ ok.
                  subst (λ (m : Option Bytes). P (read_mapped host m size w))
                    (sym (hosted_map_path_lem path (not-true _ ok))) mapped
    where
      P : (Bool × Bytes) × World Fs → Type 0
      P r = r.0.0 ≡ true → Shows path r.0.1 size w

      mapped : P (read_mapped host (some (host_path path)) size w)
      mapped = unfold read_mapped content in finish_read-Shows path size w _ refl

  -- A write or a read leaves the switches of the facade as they are.
  pub record SameSwitches (w w' : World Fs) : Type 0 where
    pub initialized : w'.storage.initialized ≡ w.storage.initialized
    pub writable : w'.storage.writable ≡ w.storage.writable

  pub SameSwitches-trans :
      (a b c : World Fs) → SameSwitches a b → SameSwitches b c → SameSwitches a c
  SameSwitches-trans a b c s t = record {
    initialized = t.initialized ∙ s.initialized;
    writable = t.writable ∙ s.writable;
  }

  finish_write-SameSwitches :
      (r : Written) (w : World Fs) → SameSwitches w (finish_write host r w).1
  unfolding finish_write fail set_error
  finish_write-SameSwitches no_open w = record { initialized = refl; writable = refl }
  finish_write-SameSwitches short_write w = record { initialized = refl; writable = refl }
  finish_write-SameSwitches unclosed w = record { initialized = refl; writable = refl }
  finish_write-SameSwitches complete w = record { initialized = refl; writable = refl }

  write_mapped-SameSwitches :
      (path : Option Bytes) (text : Bytes) (w : World Fs)
      → SameSwitches w (write_mapped host path text w).1
  unfolding write_mapped fail set_error
  write_mapped-SameSwitches none text w = record { initialized = refl; writable = refl }
  write_mapped-SameSwitches (some path) text w =
      let r = write_file (hosted_ensure_parent_dirs host w.fs path) path text in
      let s = finish_write-SameSwitches r.0 (record w { fs = r.1 }) in
      record { initialized = s.initialized; writable = s.writable }

  pub storage_write_text-SameSwitches :
      (path text : Bytes) (w : World Fs) → SameSwitches w (storage_write_text host path text w).1
  unfolding storage_write_text hosted_write_text fail set_error
  storage_write_text-SameSwitches path text w =
      if_elim P (not w.storage.initialized || not w.storage.writable) _ _
        (λ _. record { initialized = refl; writable = refl })
        λ _.
          if_elim P (not (path_allowed path)) _ _
            (λ _. record { initialized = refl; writable = refl })
            λ _. write_mapped-SameSwitches (hosted_map_path path) text w
    where
      P : Bool × World Fs → Type 0
      P r = SameSwitches w r.1

  finish_read-SameSwitches :
      (file : Option Bytes) (size : ℕ) (w : World Fs)
      → SameSwitches w (finish_read host file size w).1
  unfolding finish_read fail_read set_error
  finish_read-SameSwitches none size w = record { initialized = refl; writable = refl }
  finish_read-SameSwitches (some bytes) size w = record { initialized = refl; writable = refl }

  pub storage_read_text-SameSwitches :
      (path out : Bytes) (size : ℕ) (w : World Fs)
      → SameSwitches w (storage_read_text host path out size w).1
  unfolding storage_read_text hosted_read_text fail_read set_error
  storage_read_text-SameSwitches path out size w =
      if_elim P (not w.storage.initialized) _ _
        (λ _. record { initialized = refl; writable = refl })
        λ _.
          if_elim P (size == 0) _ _ (λ _. record { initialized = refl; writable = refl })
            λ _.
              if_elim P (not (path_allowed path)) _ _
                (λ _. record { initialized = refl; writable = refl })
                λ _. mapped (hosted_map_path path)
    where
      P : (Bool × Bytes) × World Fs → Type 0
      P r = SameSwitches w r.1

      mapped : (m : Option Bytes) → P (read_mapped host m size w)
      mapped none = unfold read_mapped in record { initialized = refl; writable = refl }
      mapped (some p) = unfold read_mapped in finish_read-SameSwitches (read_file w.fs p) size w

  finish_read-none :
      (path : Bytes) (size : ℕ) (w : World Fs) (file : Option Bytes)
      → content host w path ≡ file
      → (finish_read host file size w).0.0 ≡ false
      → content host w path ≡ none
  unfolding finish_read fail_read
  finish_read-none path size w none e h = e
  finish_read-none path size w (some bytes) e h = cc

  -- A read that fails, with a path and a buffer that the facade accepts, found no file.
  pub storage_read_text-none :
      (path out : Bytes) (size : ℕ) (w : World Fs)
      → w.storage.initialized ≡ true
      → size == 0 ≡ false
      → path_allowed path ≡ true
      → (storage_read_text host path out size w).0.0 ≡ false
      → content host w path ≡ none
  unfolding storage_read_text hosted_read_text
  storage_read_text-none path out size w on room ok =
      if_elim P (not w.storage.initialized) _ _ (λ off. cc (on, off))
        λ _.
          if_elim P (size == 0) _ _ (λ zero. cc (room, zero))
            λ _.
              if_elim P (not (path_allowed path)) _ _ (λ off. cc (ok, off))
                λ _.
                  subst (λ (m : Option Bytes). P (read_mapped host m size w))
                    (sym (hosted_map_path_lem path ok)) mapped
    where
      P : (Bool × Bytes) × World Fs → Type 0
      P r = r.0.0 ≡ false → content host w path ≡ none

      mapped : P (read_mapped host (some (host_path path)) size w)
      mapped = unfold read_mapped content in finish_read-none path size w _ refl
