-- ===== src/Editor/NotePath.antt =====
-- Which paths the editor accepts, and the path that it makes from the name of a note.
pub mod Accepted
use vita_os.Prelude.{
  ℕ, Bool, true, false, not, ◌&&◌, ◌||◌, Option, none, some, [], ◌∷◌, codes, take, leb, ◌==◌,
  if◌then◌else◌,
}
use vita_os.Text.{Bytes, starts_with, is_space_char, str_copy, str_append}
use vita_os.Storage.Paths.{chars_allowed}

-- Unlike the storage facade the editor refuses /vita itself; its loop over the characters is the
-- same.
unfoldable pub path_allowed : Bytes → Bool
path_allowed path = if not (starts_with path (codes "/vita/")) then false else chars_allowed path

unfoldable pub safe_note_name_char : ℕ → Bool
safe_note_name_char c =
    if leb b'a' c && leb c b'z'
    then true
    else if leb b'A' c && leb c b'Z'
    then true
    else if leb b'0' c && leb c b'9'
    then true
    else c == b'-' || c == b'_' || c == b'.'

-- The loop over the first word of `name`: `none` at a character that is not safe; otherwise the
-- characters passed, and `has_dot`.
unfoldable pub name_word : Bytes → Bool → Option (Bytes × Bool)
name_word [] has_dot = some ([], has_dot)
name_word (c ∷ s) has_dot =
    let rest = name_word s (if c == b'.' then true else has_dot) in
    if is_space_char c
    then some ([], has_dot)
    else if not (safe_note_name_char c)
    then none
    else elim rest [ none ↦ none | some (word, dot) ↦ some (c ∷ word, dot) ]

-- The part of `build_note_path` behind the loop: `name_copy` holds 64 bytes.
pub place_note : Option (Bytes × Bool) → ℕ → Bool × Bytes
place_note none size = (false, str_copy [] size (some (codes "/vita/notes/")))
place_note (some ([], has_dot)) size = (false, str_copy [] size (some (codes "/vita/notes/")))
place_note (some (c ∷ word, has_dot)) size =
    let base = str_copy [] size (some (codes "/vita/notes/")) in
    let named = str_append base size (some (take 63 (c ∷ word))) in
    let out = if has_dot then named else str_append named size (some (codes ".txt")) in
    (path_allowed out, out)

nonempty : Bytes → Bool
nonempty [] = false
nonempty (c ∷ s) = true

-- The result and the content of `out`, a buffer of `size` bytes.
unfoldable pub build_note_path : Bytes → Bytes → ℕ → Bool × Bytes
unfolding place_note nonempty
build_note_path [] out size =
    if size == 0
    then (false, out)
    else (true, str_copy [] size (some (codes "/vita/notes/note.txt")))
build_note_path (c ∷ name) out size =
    if size == 0
    then (false, out)
    else if c == b'/'
    then (if not (path_allowed (c ∷ name))
        then (false, [])
        else (nonempty (str_copy [] size (some (c ∷ name))), str_copy [] size (some (c ∷ name))))
    else place_note (name_word (c ∷ name) false) size
