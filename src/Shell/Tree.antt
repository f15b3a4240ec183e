-- ===== src/Shell/Tree.antt =====
-- The tree of directories of kernel/storage.c: its repair, its check, and the bootstrap.
pub mod Verified
use vita_os.Prelude.{
  ℕ, ◌+◌, Bool, true, false, not, ◌||◌, Option, none, some, List, [], ◌∷◌, codes, Stateful, ◌>>=◌,
  ◌>>◌, pure, ◌==◌, if◌then◌else◌,
}
use vita_os.Text.{Bytes, str_eq, str_copy, str_append}
use vita_os.Storage.Host.{Host}
use vita_os.Storage.Paths.{path_allowed}
use vita_os.Storage.Paths.Confined.{host_path}
use vita_os.Storage.Files.{
  World, set_error, hosted_ensure_parent_dirs, storage_write_text, storage_read_text,
}
use vita_os.Console.{Terminal, Site}
use vita_os.Shell.{Run, say, say_all, on_world}

-- `g_storage_expected_dirs`
unfoldable pub expected_dirs : List Bytes
expected_dirs =
    codes "/vita"
    ∷ codes "/vita/config"
    ∷ codes "/vita/audit"
    ∷ codes "/vita/notes"
    ∷ codes "/vita/messages"
    ∷ codes "/vita/messages/inbox"
    ∷ codes "/vita/messages/outbox"
    ∷ codes "/vita/messages/drafts"
    ∷ codes "/vita/emergency"
    ∷ codes "/vita/emergency/reports"
    ∷ codes "/vita/emergency/checklists"
    ∷ codes "/vita/ai"
    ∷ codes "/vita/ai/prompts"
    ∷ codes "/vita/ai/responses"
    ∷ codes "/vita/ai/sessions"
    ∷ codes "/vita/net"
    ∷ codes "/vita/net/profiles"
    ∷ codes "/vita/export"
    ∷ codes "/vita/export/audit"
    ∷ codes "/vita/export/notes"
    ∷ codes "/vita/export/reports"
    ∷ codes "/vita/tmp"
    ∷ []

abbrev pub verify_path : Bytes
verify_path = codes "/vita/tmp/boot-storage-verify.txt"

abbrev pub verify_text : Bytes
verify_text = codes "vita_storage_bootstrap_verify_v1\n"

module _ (terminal : Terminal) (host : Host) where
  -- the path of the host, in a buffer of 256 bytes
  host_buffer : Bytes → Bytes
  host_buffer path = str_append (str_copy [] 256 (some (codes "build/storage"))) 256 (some path)

  unfoldable pub hosted_ensure_dir_path : Bytes → World host.Fs → Bool × World host.Fs
  unfolding host_buffer
  hosted_ensure_dir_path path w = if not (path_allowed path) then (false, w) else (
    true,
    record w {
      fs =
          host.make_dir (hosted_ensure_parent_dirs host w.fs (host_buffer path)) (host_buffer path);
    },
  )

  unfoldable pub hosted_path_exists : Bytes → World host.Fs → Bool
  unfolding host_buffer
  hosted_path_exists path w =
      if not (path_allowed path) then false else host.exists w.fs (host_buffer path)

  ended : Bytes → Bool → Stateful (World host.Fs) Bool
  ended text ok = do set_error text; pure ok

  unfoldable pub storage_ensure_directory : Bytes → Stateful (World host.Fs) Bool
  unfolding hosted_ensure_dir_path ended
  storage_ensure_directory path = do
    done ← hosted_ensure_dir_path path
    if done then ended (codes "ok") true else ended (codes "hosted ensure directory failed") false

  -- the loop of `storage_tree_repair`
  unfoldable pub repair_dirs : List Bytes → Stateful (World host.Fs) Bool
  unfolding storage_ensure_directory
  repair_dirs [] = pure true
  repair_dirs (dir ∷ dirs) = do
    let rest = repair_dirs dirs
    done ← storage_ensure_directory dir
    if done then rest else pure false

  unfoldable pub storage_tree_repair : Stateful (World host.Fs) Bool
  unfolding repair_dirs expected_dirs
  storage_tree_repair = repair_dirs expected_dirs

  -- the loop of `storage_tree_check`
  unfoldable pub check_dirs : List Bytes → Run terminal host Bool
  unfolding hosted_path_exists
  check_dirs [] s = (true, s)
  check_dirs (dir ∷ dirs) s =
      let rest = check_dirs dirs s in
      let missing : Run terminal host Bool = do
        on_world terminal host (set_error (codes "storage tree missing expected directory"))
        say terminal host (codes "missing:")
        say terminal host dir
        pure false
      in if not (hosted_path_exists dir s.station.world) then missing s else rest

  unfoldable pub storage_tree_check : Run terminal host Bool
  unfolding check_dirs expected_dirs ended
  storage_tree_check = do
    ok ← check_dirs expected_dirs
    if ok then on_world terminal host (ended (codes "ok") true) else pure false

  failed : Bytes → Run terminal host Bool
  unfolding ended
  failed text = on_world terminal host (ended text false)

  verified : Run terminal host Bool
  verified s = (
    true,
    (on_world terminal host (set_error (codes "ok")) (record s {
      station = record s.station {
        world = record s.station.world {
          storage = record s.station.world.storage { bootstrap_verified = true };
        };
      };
    })).1,
  )

  -- the marker read back and compared
  compare_marker : Run terminal host Bool
  unfolding failed verified
  compare_marker = do
    (found, readback) ← on_world terminal host (storage_read_text host verify_path [] 2048)
    if not found
        then failed (codes "bootstrap failed: verify marker read")
        else if not (str_eq readback verify_text)
        then failed (codes "bootstrap failed: verify marker compare")
        else verified

  write_marker : Run terminal host Bool
  unfolding failed compare_marker
  write_marker = do
    written ← on_world terminal host (storage_write_text host verify_path verify_text)
    if written then compare_marker else failed (codes "bootstrap failed: verify marker write")

  check_tree : Run terminal host Bool
  unfolding failed write_marker storage_tree_check
  check_tree = do
    checked ← storage_tree_check
    if checked then write_marker else failed (codes "bootstrap failed: storage_tree_check")

  repair_tree : Run terminal host Bool
  unfolding failed check_tree storage_tree_repair
  repair_tree = do
    repaired ← on_world terminal host storage_tree_repair
    if repaired then check_tree else failed (codes "bootstrap failed: storage_tree_repair")

  -- the bootstrap is under way
  attempt : Site host.Fs terminal.Device → Site host.Fs terminal.Device
  attempt s = record s {
    station = record s.station {
      world = record s.station.world {
        storage = record s.station.world.storage {
          bootstrap_attempted = true;
          bootstrap_verified = false;
        };
      };
    };
  }

  unfoldable pub storage_bootstrap_persistent_tree : Run terminal host Bool
  unfolding attempt failed repair_tree
  storage_bootstrap_persistent_tree s =
      if not s.station.world.storage.initialized || not s.station.world.storage.writable
      then failed (codes "bootstrap failed: storage unavailable") (attempt s)
      else repair_tree (attempt s)

  -- the loop of `hosted_list_notes`, with the names printed so far
  list_names : ℕ → List Bytes → Run terminal host ℕ
  list_names count [] = pure count
  list_names count (name ∷ names) =
      let skip = list_names count names in
      let next = list_names (count + 1) names in
      if str_eq name (codes ".") || str_eq name (codes "..")
      then skip
      else do say terminal host name; next

  notes_listed : Option (List Bytes) → Run terminal host Bool
  unfolding list_names ended
  notes_listed none = do
    say terminal host (codes "notes: no hosted notes directory yet")
    say terminal host (codes "Run: note first.txt, then .save")
    on_world terminal host (ended (codes "hosted notes directory missing") false)
  notes_listed (some names) = do
    say terminal host (codes "Notes / Notas:")
    count ← list_names 0 names
    if count == 0 then say terminal host (codes "(empty / vacio)") else pure tt
    on_world terminal host (ended (codes "ok") true)

  pub storage_list_notes : Run terminal host Bool
  unfolding notes_listed ended
  storage_list_notes s =
      let off : Run terminal host Bool = do
        on_world terminal host (set_error (codes "storage not initialized"))
        say terminal host (codes "notes: storage not initialized")
        pure false
      in if not s.station.world.storage.initialized
        then off s
        else notes_listed (host.list_dir s.station.world.fs (codes "build/storage/vita/notes")) s
