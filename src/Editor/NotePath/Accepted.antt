-- ===== src/Editor/NotePath/Accepted.antt =====
-- The path of a note is one that the storage facade accepts.
use vita_os.Prelude.{
  ℕ, ◌≤◌, ◌<◌, ◌-◌, Bool, true, false, not, ◌||◌, Option, none, some, [], ◌∷◌, ◌≡◌, refl, sym,
  subst, ◌∙◌, codes, length, take_all, if_elim, if◌then◌else◌, ◌==◌, arith, not-true,
}
use vita_os.Text.{Bytes, str_eq, starts_with, str_copy}
use vita_os.Text.Laws.{str_copy_lem}
use vita_os.Storage.Paths
use vita_os.Storage.Paths.{chars_allowed}
use vita_os.Editor.NotePath.{path_allowed, name_word, place_note, build_note_path, nonempty}

either :
    (a b c : Bool)
    → (if not a then false else c) ≡ true
    → (if not (b || a) then false else c) ≡ true
either true true c h = h
either true false c h = h
either false b c h = cc

-- The facade accepts what the editor accepts.
pub path_allowed_stronger :
    (path : Bytes) → path_allowed path ≡ true → Paths.path_allowed path ≡ true
unfolding path_allowed Paths.path_allowed
path_allowed_stronger path h =
    either (starts_with path (codes "/vita/")) (str_eq path (codes "/vita")) (chars_allowed path) h

copied : (path : Bytes) (size : ℕ) → length path < size → str_copy [] size (some path) ≡ path
copied path size h =
    str_copy_lem [] path size (omega arith) ∙ take_all (size - 1) path (omega arith)

abbrev Accepts : Bool × Bytes → Type 0
Accepts r = r.0 ≡ true → Paths.path_allowed r.1 ≡ true

place_note-Accepts : (r : Option (Bytes × Bool)) (size : ℕ) → Accepts (place_note r size)
unfolding place_note
place_note-Accepts none size h = cc
place_note-Accepts (some ([], has_dot)) size h = cc
place_note-Accepts (some (c ∷ word, has_dot)) size h = path_allowed_stronger _ h

default_allowed : Paths.path_allowed (codes "/vita/notes/note.txt") ≡ true
unfolding Paths.path_allowed str_eq starts_with chars_allowed
default_allowed = refl

-- Where a path is made from the name of a note that is shorter than the buffer, of at least 32
-- bytes, and the result is success, the storage facade accepts the path.
pub build_note_path_accepted :
    (name out : Bytes) (size : ℕ)
    → length name < size
    → 32 ≤ size
    → (build_note_path name out size).0 ≡ true
    → Paths.path_allowed (build_note_path name out size).1 ≡ true
unfolding build_note_path
build_note_path_accepted [] out size short wide =
    if_elim Accepts (size == 0) (false, out)
      (true, str_copy [] size (some (codes "/vita/notes/note.txt"))) (λ _ h. cc)
      λ _ _.
        subst (λ p. Paths.path_allowed p ≡ true)
          (sym (copied (codes "/vita/notes/note.txt") size (omega arith))) default_allowed
build_note_path_accepted (c ∷ name) out size short wide =
    let path = str_copy [] size (some (c ∷ name)) in
    if_elim Accepts (size == 0) (false, out) _ (λ _ h. cc)
      λ _.
        if_elim Accepts (c == b'/') _ _
          (λ _.
            if_elim Accepts (not (path_allowed (c ∷ name))) (false, []) (nonempty path, path)
              (λ _ h. cc)
              λ allowed _.
                subst (λ p. Paths.path_allowed p ≡ true) (sym (copied (c ∷ name) size short))
                  (path_allowed_stronger (c ∷ name) (not-true _ allowed)))
          (λ _. place_note-Accepts (name_word (c ∷ name) false) size)
