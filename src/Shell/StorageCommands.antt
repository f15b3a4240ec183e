-- ===== src/Shell/StorageCommands.antt =====
-- storage_handle_command of kernel/storage.c, with the commands that it runs.
use vita_os.Prelude.{
  ℕ, zero, suc, Bool, true, false, not, ◌||◌, List, [], ◌∷◌, ◌++◌, codes, take, drop, ◌>>=◌, ◌>>◌,
  pure, if◌then◌else◌,
}
use vita_os.Text.{text_or, Bytes, str_eq, str_len, starts_with, skip_spaces, is_space_char}
use vita_os.Storage.Host.{Host}
use vita_os.Storage.Files.{set_error, storage_write_text, storage_read_text}
use vita_os.Console.{Terminal}
use vita_os.Console.Status.{storage_show_status}
use vita_os.Shell.{Run, say, say_all, on_world, say_last_error, say_error_or, fail_with}
use vita_os.Shell.Tree.{
  expected_dirs, storage_tree_repair, storage_tree_check, storage_bootstrap_persistent_tree,
  storage_list_notes,
}

-- A word of at most so many characters, and what follows it.
pub split_word : ℕ → Bytes → Bytes × Bytes
split_word zero s = ([], s)
split_word (suc room) [] = ([], [])
split_word (suc room) (c ∷ s) =
    let (word, rest) = split_word room s in
    if is_space_char c then ([], c ∷ s) else (c ∷ word, rest)

abbrev test_path : Bytes
test_path = codes "/vita/tmp/storage-test.txt"

abbrev test_text : Bytes
test_text = codes "vita_storage_test_v1\n"

abbrev probe_path : Bytes
probe_path = codes "/vita/tmp/storage-probe.txt"

abbrev probe_text : Bytes
probe_text = codes "vita_storage_probe_v1\n"

unknown_lines : List Bytes
unknown_lines =
    codes "Unknown storage command / Comando storage desconocido"
    ∷ codes "Use: storage, storage status, storage test, storage write /vita/notes/test.txt text"
    ∷ codes "     storage read /vita/notes/test.txt, cat /vita/notes/test.txt, notes list"
    ∷ []

module _ (terminal : Terminal) (host : Host) where
  abbrev Do : Type 0 → Type 0
  Do = Run terminal host

  abbrev tell : Bytes → Do Unit
  tell = say terminal host

  abbrev fails : Bytes → Do Bool
  fails = fail_with terminal host

  -- lines, and a result
  ends : Bool → List Bytes → Do Bool
  ends ok lines = do say_all terminal host lines; pure ok

  -- a line, the last error, and a result of false
  refuses : Bytes → Do Bool
  refuses line = do tell line; say_error_or terminal host (codes "unknown"); pure false

  test_readback : Do Bool
  unfolding ends
  test_readback = do
    (found, readback) ← on_world terminal host (storage_read_text host test_path [] 2048)
    if not found
        then fails (codes "storage test: read failed")
        else if not (str_eq readback test_text)
        then ends false (codes "storage test: verify failed" ∷ codes "write/read mismatch" ∷ [])
        else ends true (codes "storage test: VERIFIED" ∷ test_path ∷ [])

  test_write : Do Bool
  unfolding test_readback
  test_write = do
    written ← on_world terminal host (storage_write_text host test_path test_text)
    if written then test_readback else fails (codes "storage test: write failed")

  pub storage_command_test : Do Bool
  unfolding test_write
  storage_command_test = do
    ready ← storage_bootstrap_persistent_tree terminal host
    if ready then test_write else fails (codes "storage test: bootstrap failed")

  write_note : Bytes → Bytes → Do Bool
  unfolding ends refuses
  write_note path text = do
    written ← on_world terminal host (storage_write_text host path text)
    if written
        then ends true (codes "storage write: written" ∷ path ∷ [])
        else refuses (codes "storage write: failed")

  -- behind the path: at most 510 characters of the text, with a line feed
  write_words : Bytes → Bytes → Do Bool
  unfolding write_note ends
  write_words path [] = ends false (codes "storage write: missing text" ∷ [])
  write_words path (c ∷ text) = write_note path (take 510 (c ∷ text) ++ b'\n' ∷ [])

  write_args : Bytes → Do Bool
  unfolding split_word write_words ends
  write_args [] = ends false (codes "usage: storage write /vita/notes/test.txt text" ∷ [])
  write_args (c ∷ p) =
      let (path, rest) = split_word 191 (c ∷ p) in write_words path (skip_spaces rest)

  pub storage_command_write : Bytes → Do Bool
  unfolding write_args
  storage_command_write args = write_args (skip_spaces args)

  read_note : Bytes → Do Bool
  unfolding ends text_or refuses
  read_note path = do
    (found, text) ← on_world terminal host (storage_read_text host path [] 2048)
    if not found
        then refuses (codes "storage read: failed")
        else ends true (
            codes "--- file / archivo ---"
            ∷ text_or text (codes "(empty / vacio)")
            ∷ codes "--- end / fin ---"
            ∷ [])

  read_args : Bytes → Do Bool
  unfolding split_word read_note ends
  read_args [] = ends false (codes "usage: storage read /vita/notes/test.txt" ∷ [])
  read_args (c ∷ p) = read_note (split_word 191 (c ∷ p)).0

  unfoldable pub storage_command_read : Bytes → Do Bool
  unfolding read_args
  storage_command_read args = read_args (skip_spaces args)

  probe_mismatch : Do Bool
  probe_mismatch = do
    tell (codes "storage probe: compare failed")
    tell (codes "write/read mismatch")
    on_world terminal host (set_error (codes "write/read verify failed"))
    say_last_error terminal host
    pure false

  probe_ok : Do Bool
  probe_ok = do
    tell (codes "storage probe: ok")
    tell probe_path
    on_world terminal host (set_error (codes "ok"))
    pure true

  probe_compare : Bytes → Do Bool
  unfolding probe_mismatch probe_ok
  probe_compare readback = do
    tell (codes "storage probe: compare")
    if not (str_eq readback probe_text) then probe_mismatch else probe_ok

  probe_read : Do Bool
  unfolding probe_compare
  probe_read = do
    tell (codes "storage probe: read")
    (found, readback) ← on_world terminal host (storage_read_text host probe_path [] 2048)
    if found then probe_compare readback else fails (codes "storage probe: read failed")

  probe_write : Do Bool
  unfolding probe_read
  probe_write = do
    tell (codes "storage probe: create/write")
    written ← on_world terminal host (storage_write_text host probe_path probe_text)
    if written then probe_read else fails (codes "storage probe: write failed")

  probe_check : Do Bool
  unfolding probe_write
  probe_check = do
    checked ← storage_tree_check terminal host
    if checked then probe_write else fails (codes "storage probe: check failed")

  show_status : Do Unit
  show_status s = (tt, storage_show_status terminal host s)

  pub storage_command_probe : Do Bool
  unfolding probe_check show_status
  storage_command_probe = do
    tell (codes "storage probe: status/backend")
    show_status
    tell (codes "storage probe: repair/check")
    repaired ← on_world terminal host (storage_tree_repair terminal host)
    if repaired then probe_check else fails (codes "storage probe: repair failed")

  command_repair : Do Bool
  unfolding ends
  command_repair = do
    repaired ← on_world terminal host (storage_tree_repair terminal host)
    if repaired
        then ends true (codes "storage repair: ok" ∷ [])
        else ends false (codes "storage repair: failed" ∷ [])

  command_check : Do Bool
  unfolding ends
  command_check = do
    checked ← storage_tree_check terminal host
    if checked
        then ends true (codes "storage check: ok" ∷ [])
        else ends false (codes "storage check: missing tree entries (run storage repair)" ∷ [])

  command_bootstrap : Do Bool
  unfolding ends
  command_bootstrap = do
    ready ← storage_bootstrap_persistent_tree terminal host
    if ready
        then ends true (codes "storage bootstrap: verified" ∷ [])
        else fails (codes "storage bootstrap: failed")

  -- what follows a prefix
  abbrev behind : Bytes → Bytes → Bytes
  behind prefix cmd = drop (str_len prefix) cmd

  unfoldable pub storage_handle_command : Bytes → Do Bool
  unfolding show_status command_repair command_check command_bootstrap ends unknown_lines
  storage_handle_command cmd =
      if str_eq cmd (codes "storage") || str_eq cmd (codes "storage status")
      then (do show_status; pure true)
      else if str_eq cmd (codes "storage test")
      then storage_command_test
      else if str_eq cmd (codes "storage probe")
      then storage_command_probe
      else if starts_with cmd (codes "storage write ")
      then storage_command_write (behind (codes "storage write ") cmd)
      else if starts_with cmd (codes "storage read ")
      then storage_command_read (behind (codes "storage read ") cmd)
      else if starts_with cmd (codes "storage cat ")
      then storage_command_read (behind (codes "storage cat ") cmd)
      else if starts_with cmd (codes "cat ")
      then storage_command_read (behind (codes "cat ") cmd)
      else if str_eq cmd (codes "storage notes")
          || (str_eq cmd (codes "storage notes list") || str_eq cmd (codes "notes list"))
      then storage_list_notes terminal host
      else if str_eq cmd (codes "storage tree")
      then ends true (codes "/vita tree expected:" ∷ expected_dirs)
      else if str_eq cmd (codes "storage last-error")
      then (do say_last_error terminal host; pure true)
      else if str_eq cmd (codes "storage repair")
          || (str_eq cmd (codes "storage init-tree") || str_eq cmd (codes "storage mkdirs"))
      then command_repair
      else if str_eq cmd (codes "storage check")
          || (str_eq cmd (codes "storage validate") || str_eq cmd (codes "storage verify"))
      then command_check
      else if str_eq cmd (codes "storage bootstrap")
      then command_bootstrap
      else if not (
          starts_with cmd (codes "storage")
          || (starts_with cmd (codes "cat ") || str_eq cmd (codes "notes list")))
      then pure false
      else ends false unknown_lines
