-- ===== src/Storage/Host.antt =====
-- What the hosted storage backend uses of the C library and the host's file system, which are not
-- under the repository.
use vita_os.Prelude.{ℕ, Bool, Option, some, List, ◌≡◌, take}
use vita_os.Text.{Bytes}

-- How `fopen(path, "wb")`, `fwrite` and `fclose` end: `unclosed` says that `fwrite` took the whole
-- text, and that `fclose` then failed to bring what was buffered to the file.
pub data Written : Type 0 where
  no_open short_write unclosed complete : Written

pub record Host : Type 1 where
  pub Fs : Type 0
  -- `mkdir(path, 0775)`, whose result the code drops
  pub make_dir : Fs → Bytes → Fs
  -- `stat(path) == 0`
  pub exists : Fs → Bytes → Bool
  -- a whole file written anew
  pub write_file : Fs → Bytes → Bytes → Written × Fs
  -- the bytes of a file that `fopen(path, "rb")` opens
  pub read_file : Fs → Bytes → Option Bytes
  -- the names that `readdir` yields
  pub list_dir : Fs → Bytes → Option (List Bytes)
  -- A write and a close that both report no failure have put its text where a read finds it.
  pub read-write :
      (fs : Fs) (path text : Bytes)
      → (write_file fs path text).0 ≡ Written.complete
      → read_file (write_file fs path text).1 path ≡ some text
  -- Behind a close that fails, a file that can be read at all holds a beginning of the text: the
  -- file was cut to nothing by `fopen`, and the buffer is written in order.
  pub read-unclosed :
      (fs : Fs) (path text file : Bytes)
      → (write_file fs path text).0 ≡ Written.unclosed
      → read_file (write_file fs path text).1 path ≡ some file
      → (n : ℕ) × (file ≡ take n text)

-- What else the file system keeps: making a directory changes no file, and a write changes no file
-- but the one that its path names, where `Same` says that two paths name one file.
pub record HostFrame (host : Host) : Type 1 where
  pub Same : Bytes → Bytes → Type 0
  pub keeps_make_dir :
      (fs : host.Fs) (path other : Bytes)
      → host.read_file (host.make_dir fs path) other ≡ host.read_file fs other
  pub keeps_write :
      (fs : host.Fs) (path text other : Bytes)
      → (Same path other → ⊥)
      → host.read_file (host.write_file fs path text).1 other ≡ host.read_file fs other
