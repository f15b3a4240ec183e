-- ===== src/Tests/Editing.antt =====
-- The editor at work.
use vita_os.Prelude.{some, take, ◌<◌, List, length, true, false, [], ◌∷◌, ◌≡◌, refl, codes, arith}
use vita_os.Text.{trim_right_in_place, Bytes, starts_with, str_eq, str_append, str_copy}
use vita_os.Storage.Paths
use vita_os.Storage.Paths.{chars_allowed, hosted_map_path}
use vita_os.Storage.Files.{World, until_nul, storage_write_text, storage_read_text, set_error}
use vita_os.Editor.NotePath
use vita_os.Storage.Files.RoundTrip.{content, IsStored}
use vita_os.Editor.State.{Editor, tell}
use vita_os.Editor.Save.{editor_save_to_path}
use vita_os.Editor.Save.Verified.{IsSaved, editor_save_to_path-IsSaved, editor_save_to_path_blocked}
use vita_os.Editor.State.{open_append, open_edit}
use vita_os.Editor.Commands.{read_command, tell_all}
use vita_os.Editor.Commands.Run.{editor_run, editor_open}
use vita_os.Editor.Commands.Run.Loaded.{editor_save-open}
use vita_os.Editor.Commands.Run.Invariant.{editor_run_bound}
use vita_os.Editor.Commands.Run.Untouched.{editor_run_untouched}
use vita_os.Tests.Fixtures.{Files, ready_world, memory_host, silent, editing}

abbrev note : Bytes
note = codes "/vita/notes/a.txt"

abbrev text : Bytes
text = codes "first line\n"

saves : (editor_save_to_path memory_host silent note false (editing text)).0 ≡ true
unfolding editor_save_to_path NotePath.path_allowed starts_with chars_allowed storage_write_text
    Paths.path_allowed str_eq hosted_map_path str_append str_copy storage_read_text set_error
saves = refl

editor_save_to_path-IsSaved_example :
    IsSaved memory_host silent note false
      (editing text)
      (editor_save_to_path memory_host silent note false (editing text)).1
editor_save_to_path-IsSaved_example =
    editor_save_to_path-IsSaved memory_host silent note false (editing text) saves

abbrev cleared : Editor Files
cleared = record (editing []) { loaded_existing = true; destructive_change = true }

editor_save_to_path_blocked_example :
    ((editor_save_to_path memory_host silent note false cleared).0 ≡ false)
    × (content memory_host (editor_save_to_path memory_host silent note false cleared).1.world note
        ≡ content memory_host cleared.world note)
    × ((editor_save_to_path memory_host silent note false cleared).1.text ≡ cleared.text)
editor_save_to_path_blocked_example =
    editor_save_to_path_blocked memory_host silent note note cleared refl refl refl (λ own. own)

abbrev typed : List Bytes
typed = codes "hello" ∷ codes ".status  " ∷ codes ".clear" ∷ codes "again" ∷ codes ".exit" ∷ []

editor_run_bound_example :
    length (editor_run memory_host silent note open_append typed (editing text)).1.text < 1536
editor_run_bound_example =
    editor_run_bound memory_host silent note open_append typed (editing text) (omega arith)

editor_run_untouched_example :
    content memory_host
      (editor_run memory_host silent note open_append typed (editing text)).1.world
      note
    ≡ content memory_host (editing text).world note
unfolding read_command trim_right_in_place str_eq starts_with
editor_run_untouched_example =
    editor_run_untouched memory_host silent note (λ own. own) note open_append typed (editing text)
      (tt, (tt, (tt, (tt, (tt, tt)))))

-- the world behind a write of the note
abbrev noted : World Files
noted = (storage_write_text memory_host note text ready_world).1

abbrev ready_editor : Editor Files
ready_editor = record (editing []) { world = noted }

notes : (storage_write_text memory_host note text ready_world).0 ≡ true
unfolding storage_write_text Paths.path_allowed starts_with chars_allowed str_eq hosted_map_path
    str_append str_copy
notes = refl

note-IsStored : IsStored memory_host note text noted
unfolding storage_write_text Paths.path_allowed starts_with chars_allowed str_eq hosted_map_path
    str_append str_copy content set_error
note-IsStored = record { initialized = refl; writable = refl; allowed = refl; stored = refl }

saves_again :
    (editor_save_to_path memory_host silent note false
      (editor_open memory_host silent note open_edit ready_editor)).0
    ≡ true
unfolding editor_save_to_path NotePath.path_allowed starts_with chars_allowed storage_write_text
    Paths.path_allowed str_eq hosted_map_path str_append str_copy storage_read_text set_error
    editor_open tell_all tell
saves_again = refl

editor_save-open_example :
    content memory_host
      (editor_save_to_path memory_host silent note false
        (editor_open memory_host silent note open_edit ready_editor)).1.world
      note
    ≡ some (until_nul (take 1535 text))
editor_save-open_example =
    editor_save-open memory_host silent note text ready_editor (omega arith) note-IsStored
      (λ own. own) saves_again
