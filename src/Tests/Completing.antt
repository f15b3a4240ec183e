-- ===== src/Tests/Completing.antt =====
-- The completion of a line, at concrete inputs.
use vita_os.Prelude.{some, List, [], ◌∷◌, ◌++◌, ◌≡◌, refl, codes}
use vita_os.Text.{Bytes, starts_with, str_copy, str_len}
use vita_os.Console.Autocomplete.{gather, gather_path_matches, path_prefix, matches_of, before_tab}
use vita_os.Console.Autocomplete.Matches.{append_offers_nothing}

abbrev notes : List Bytes
notes = codes "." ∷ codes "a.txt" ∷ []

-- behind "edit " a note is found
edits :
    matches_of (codes "edit /vita/notes/a") (path_prefix (codes "edit /vita/notes/a")) (some notes)
    ≡ codes "/vita/notes/a.txt" ∷ []
unfolding matches_of path_prefix starts_with str_copy gather_path_matches str_len gather
edits = refl

splits : before_tab (codes "edit\tx") ≡ some (codes "edit")
unfolding before_tab
splits = refl

append_offers_nothing_example :
    matches_of
      (codes "append " ++ codes "/vita/notes/a")
      (path_prefix (codes "append " ++ codes "/vita/notes/a"))
      (some notes)
    ≡ []
append_offers_nothing_example = append_offers_nothing (codes "/vita/notes/a") (some notes)
