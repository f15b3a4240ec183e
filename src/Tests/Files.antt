-- ===== src/Tests/Files.antt =====
-- A note written and read back, and paths that are refused.
use vita_os.Prelude.{ℕ, take, ◌⊎◌, ◌↔◌, true, false, some, [], ◌≡◌, refl, codes, arith}
use vita_os.Text.{Bytes, str_eq, starts_with, str_append, str_copy}
use vita_os.Storage.Host.{complete, unclosed}
use vita_os.Storage.Paths.{chars_allowed, path_allowed, hosted_map_path}
use vita_os.Storage.Paths.Confined.{
  InVita, InHostVita, IsSafe, hosted_map_path_confined, path_allowed_iff,
}
use vita_os.Storage.Files.{storage_write_text, storage_read_text}
use vita_os.Storage.Files.RoundTrip.{
  IsText, host_result, storage_write_text_iff, storage_read-write,
}
use vita_os.Tests.Fixtures.{memory_host, ready_world}

refused :
    (path_allowed (codes "/etc/passwd") ≡ false)
    × (path_allowed (codes "/vita/../etc") ≡ false)
    × (path_allowed (codes "/vita/c:x") ≡ false)
    × (path_allowed (codes "/vitaa") ≡ false)
    × (path_allowed (codes "/vita") ≡ true)
unfolding path_allowed str_eq starts_with chars_allowed
refused = (refl, refl, refl, refl, refl)

abbrev note : Bytes
note = codes "/vita/notes/a.txt"

maps : hosted_map_path note ≡ some (codes "build/storage/vita/notes/a.txt")
unfolding hosted_map_path path_allowed str_eq starts_with chars_allowed str_append str_copy
maps = refl

hosted_map_path_confined_example :
    InHostVita (codes "build/storage/vita/notes/a.txt")
    × IsSafe (codes "build/storage/vita/notes/a.txt")
hosted_map_path_confined_example =
    hosted_map_path_confined note (codes "build/storage/vita/notes/a.txt") maps

writes : (storage_write_text memory_host note (codes "hi\n") ready_world).0 ≡ true
unfolding storage_write_text path_allowed str_eq starts_with chars_allowed hosted_map_path
    str_append str_copy
writes = refl

hi-IsText : IsText (codes "hi\n")
hi-IsText = omega arith

storage_read-write_example :
    let read =
      (storage_read_text memory_host note [] 2048
        (storage_write_text memory_host note (codes "hi\n") ready_world).1).0 in
    (read ≡ (true, codes "hi\n"))
    ⊎ ((host_result memory_host note (codes "hi\n") ready_world ≡ unclosed)
        × (read.0 ≡ true → (n : ℕ) × (read.1 ≡ take n (codes "hi\n"))))
storage_read-write_example =
    storage_read-write memory_host note (codes "hi\n") [] 2048 ready_world writes hi-IsText
      (omega arith)

storage_write_text_iff_example :
    ((storage_write_text memory_host note (codes "hi\n") ready_world).0 ≡ true) ↔ (
      (true ≡ true)
      × (true ≡ true)
      × (path_allowed note ≡ true)
      × ((host_result memory_host note (codes "hi\n") ready_world ≡ complete)
          ⊎ (host_result memory_host note (codes "hi\n") ready_world ≡ unclosed)))
storage_write_text_iff_example = storage_write_text_iff memory_host note (codes "hi\n") ready_world

path_allowed_iff_example :
    (path_allowed (codes "/vita/a..b") ≡ true)
    ↔ (InVita (codes "/vita/a..b") × IsSafe (codes "/vita/a..b"))
path_allowed_iff_example = path_allowed_iff (codes "/vita/a..b")
