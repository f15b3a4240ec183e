-- ===== src/Storage/Files.antt =====
-- The state of the storage facade, and the reading and writing of text files.
pub mod RoundTrip
pub mod Reads
pub mod Frame
pub mod Kept
pub mod LastError
use vita_os.Prelude.{
  ℕ, ◌+◌, ◌-◌, Bool, true, false, not, ◌&&◌, ◌||◌, Option, none, some, List, [], ◌∷◌, ◌++◌, codes,
  length, take, ◌==◌, if◌then◌else◌, Stateful, ◌>>=◌, ◌>>◌, pure,
}
use vita_os.Text.{Bytes, str_eq, str_copy}
use vita_os.Storage.Host.{Host, Written, no_open, short_write, unclosed, complete}
use vita_os.Storage.Paths.{path_allowed, hosted_map_path}

-- `vita_storage_backend_t`
pub data Backend : Type 0 where
  backend_none backend_hosted backend_uefi_simple_fs : Backend

-- `storage_state_t`
pub record StorageState : Type 0 where
  pub initialized : Bool
  pub writable : Bool
  pub bootstrap_attempted : Bool
  pub bootstrap_verified : Bool
  pub backend : Backend
  pub backend_name : Bytes
  pub root_hint : Bytes
  pub last_error : Bytes

-- The state of the facade, the host's files, and the lines printed so far.
pub record World (Fs : Type 0) : Type 0 where
  pub storage : StorageState
  pub fs : Fs
  pub printed : List Bytes

-- `console_write_line`
pub say : {Fs : Type 0} → Bytes → Stateful (World Fs) Unit
say line w = (tt, record w { printed = w.printed ++ line ∷ [] })

unfoldable pub set_error : {Fs : Type 0} → Bytes → Stateful (World Fs) Unit
set_error text w = (
  tt,
  record w {
    storage = record w.storage { last_error = str_copy w.storage.last_error 128 (some text) };
  },
)

error_or_none : Bytes → Bytes
error_or_none [] = codes "none"
error_or_none (c ∷ s) = c ∷ s

pub storage_last_error : {Fs : Type 0} → World Fs → Bytes
unfolding error_or_none
storage_last_error w = error_or_none w.storage.last_error

unfoldable pub storage_is_ready : {Fs : Type 0} → World Fs → Bool
storage_is_ready w = w.storage.initialized && w.storage.writable

pub storage_is_bootstrap_verified : {Fs : Type 0} → World Fs → Bool
storage_is_bootstrap_verified w = w.storage.bootstrap_attempted && w.storage.bootstrap_verified

-- `storage_init` of the hosted build
pub storage_init : {Fs : Type 0} → Stateful (World Fs) Bool
storage_init w = (
  true,
  record w {
    storage = record {
      initialized = true;
      writable = true;
      bootstrap_attempted = false;
      bootstrap_verified = false;
      backend = backend_hosted;
      backend_name = codes "hosted_fs";
      root_hint = codes "build/storage/vita";
      last_error = codes "ok";
    };
  },
)

-- The bytes up to the first NUL: what a reader sees of a buffer.
abbrev pub until_nul : Bytes → Bytes
until_nul [] = []
until_nul (c ∷ s) = if c == 0 then [] else c ∷ until_nul s

module _ (host : Host) where
  open host use {Fs, make_dir, write_file, read_file}

  -- `hosted_ensure_parent_dirs`: the loop, with the characters passed so far
  make_parents : Fs → Bytes → Bytes → Fs
  make_parents fs passed [] = fs
  make_parents fs passed (c ∷ rest) =
      make_parents (if c == b'/' then make_dir fs passed else fs) (passed ++ c ∷ []) rest

  -- The loop starts at index 1.
  unfoldable pub hosted_ensure_parent_dirs : Fs → Bytes → Fs
  unfolding make_parents
  hosted_ensure_parent_dirs fs [] = fs
  hosted_ensure_parent_dirs fs (c ∷ rest) = make_parents fs (c ∷ []) rest

  fail : Bytes → Stateful (World Fs) Bool
  fail text = do set_error text; pure false

  succeed : Stateful (World Fs) Bool
  succeed = do set_error (codes "ok"); pure true

  -- The result of `fclose` is not looked at.
  finish_write : Written → Stateful (World Fs) Bool
  unfolding fail succeed
  finish_write no_open = fail (codes "hosted fopen failed")
  finish_write short_write = fail (codes "hosted fwrite failed")
  finish_write unclosed = succeed
  finish_write complete = succeed

  -- `hosted_write_text` behind its map of the path
  write_mapped : Option Bytes → Bytes → Stateful (World Fs) Bool
  unfolding fail finish_write
  write_mapped none text w = fail (codes "invalid hosted storage path") w
  write_mapped (some path) text w =
      let (result, fs) = write_file (hosted_ensure_parent_dirs w.fs path) path text in
      finish_write result (record w { fs = fs })

  hosted_write_text : Bytes → Bytes → Stateful (World Fs) Bool
  unfolding write_mapped
  hosted_write_text path text = write_mapped (hosted_map_path path) text

  unfoldable pub storage_write_text : Bytes → Bytes → Stateful (World Fs) Bool
  unfolding hosted_write_text fail
  storage_write_text path text w =
      if not w.storage.initialized || not w.storage.writable
      then fail (codes "storage not initialized or not writable") w
      else if not (path_allowed path)
      then fail (codes "path must be /vita or /vita/... and must not contain '..' or ':'") w
      else hosted_write_text path text w

  -- A read gives the result and the new content of a buffer of `cap` bytes.
  fail_read : Bytes → Bytes → Stateful (World Fs) (Bool × Bytes)
  fail_read text out = do set_error text; pure (false, out)

  finish_read : Option Bytes → ℕ → Stateful (World Fs) (Bool × Bytes)
  unfolding fail_read
  finish_read none cap = fail_read (codes "hosted fopen read failed") []
  finish_read (some content) cap = do
    set_error (codes "ok")
    pure (true, until_nul (take (cap - 1) content))

  read_mapped : Option Bytes → ℕ → Stateful (World Fs) (Bool × Bytes)
  unfolding fail_read finish_read
  read_mapped none size w = fail_read (codes "invalid hosted storage path") [] w
  read_mapped (some path) size w = finish_read (read_file w.fs path) size w

  -- `hosted_read_text` with a buffer that is there
  hosted_read_text : Bytes → ℕ → Stateful (World Fs) (Bool × Bytes)
  unfolding read_mapped
  hosted_read_text path cap = read_mapped (hosted_map_path path) cap

  unfoldable pub storage_read_text : Bytes → Bytes → ℕ → Stateful (World Fs) (Bool × Bytes)
  unfolding hosted_read_text fail_read
  storage_read_text path out cap w =
      if not w.storage.initialized
      then fail_read (codes "storage not initialized") out w
      else if cap == 0
      then fail_read (codes "invalid read buffer") out w
      else if not (path_allowed path)
      then fail_read (codes "path must be /vita or /vita/... and must not contain '..' or ':'") [] w
      else hosted_read_text path cap w
