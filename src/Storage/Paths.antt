-- ===== src/Storage/Paths.antt =====
-- Which paths the storage facade accepts, and where it puts them on the host.
pub mod Confined
use vita_os.Prelude.{
  ℕ, Bool, true, false, not, ◌&&◌, ◌||◌, Option, none, some, List, [], ◌∷◌, ◌++◌, codes, ltb, ◌==◌,
  if◌then◌else◌,
}
use vita_os.Text.{Bytes, str_eq, starts_with, str_copy, str_append}

next_is : ℕ → Bytes → Bool
next_is k [] = false
next_is k (c ∷ s) = c == k

-- the loop over the characters of a path, in `path_allowed`
unfoldable pub chars_allowed : Bytes → Bool
unfolding next_is
chars_allowed [] = true
chars_allowed (c ∷ s) =
    let rest = chars_allowed s in
    if c == b':'
    then false
    else if c == b'.' && next_is b'.' s
    then false
    else if ltb c 32
    then false
    else rest

unfoldable pub path_allowed : Bytes → Bool
path_allowed path =
    if not (str_eq path (codes "/vita") || starts_with path (codes "/vita/"))
    then false
    else chars_allowed path

nonempty : Bytes → Option Bytes
nonempty [] = none
nonempty (c ∷ s) = some (c ∷ s)

-- `hosted_map_path` into a buffer of 256 bytes
unfoldable pub hosted_map_path : Bytes → Option Bytes
unfolding nonempty
hosted_map_path path =
    if not (path_allowed path)
    then none
    else nonempty (str_append (str_copy [] 256 (some (codes "build/storage"))) 256 (some path))
