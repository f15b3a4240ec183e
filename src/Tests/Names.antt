-- ===== src/Tests/Names.antt =====
-- Paths of notes.
use vita_os.Prelude.{true, [], ◌≡◌, refl, codes, arith}
use vita_os.Text.{str_copy, str_append, starts_with, is_space_char}
use vita_os.Storage.Paths
use vita_os.Storage.Paths.{chars_allowed}
use vita_os.Editor.NotePath
use vita_os.Editor.NotePath.{build_note_path, name_word, safe_note_name_char}
use vita_os.Editor.NotePath.Accepted.{build_note_path_accepted}

makes : build_note_path (codes "todo now") [] 192 ≡ (true, codes "/vita/notes/todo.txt")
unfolding build_note_path name_word safe_note_name_char is_space_char str_copy str_append
    NotePath.path_allowed starts_with chars_allowed
makes = refl

built : (build_note_path (codes "todo now") [] 192).0 ≡ true
built = λ i. (makes i).0

build_note_path_accepted_example :
    Paths.path_allowed (build_note_path (codes "todo now") [] 192).1 ≡ true
build_note_path_accepted_example =
    build_note_path_accepted (codes "todo now") [] 192 (omega arith) (omega arith) built
