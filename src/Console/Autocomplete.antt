-- ===== src/Console/Autocomplete.antt =====
-- kernel/console_autocomplete.c: what a tab on the line makes of it.
pub mod Matches
use vita_os.Prelude.{
  ℕ, zero, suc, ◌+◌, ◌-◌, Bool, true, false, not, ◌&&◌, ◌||◌, Option, none, some, List, [], ◌∷◌,
  ◌++◌, codes, length, drop, leb, ltb, ◌==◌, if◌then◌else◌,
}
use vita_os.Text.{Bytes, str_len, starts_with, str_copy}
use vita_os.Storage.Host.{Host}
use vita_os.Console.{Terminal, Site, write_all}

-- `g_commands`
unfoldable pub all_commands : List Bytes
all_commands =
    codes "status"
    ∷ codes "hw"
    ∷ codes "audit"
    ∷ codes "audit status"
    ∷ codes "audit report"
    ∷ codes "audit gate"
    ∷ codes "audit readiness"
    ∷ codes "audit verify"
    ∷ codes "audit verify-chain"
    ∷ codes "audit hash"
    ∷ codes "audit hash-chain"
    ∷ codes "audit export"
    ∷ codes "audit verify export"
    ∷ codes "audit export verify"
    ∷ codes "export audit verify"
    ∷ codes "audit events"
    ∷ codes "audit export events"
    ∷ codes "export audit events"
    ∷ codes "audit sqlite"
    ∷ codes "audit sqlite summary"
    ∷ codes "audit db"
    ∷ codes "audit db summary"
    ∷ codes "peers"
    ∷ codes "proposals"
    ∷ codes "list"
    ∷ codes "emergency"
    ∷ codes "helpme"
    ∷ codes "help"
    ∷ codes "menu"
    ∷ codes "clear"
    ∷ codes "cls"
    ∷ codes "note"
    ∷ codes "append"
    ∷ codes "edit"
    ∷ codes "notes list"
    ∷ codes "journal status"
    ∷ codes "journal summary"
    ∷ codes "storage status"
    ∷ codes "storage check"
    ∷ codes "storage last-error"
    ∷ codes "storage read"
    ∷ codes "storage notes"
    ∷ codes "storage notes list"
    ∷ codes "export session"
    ∷ codes "export jsonl"
    ∷ codes "diagnostic"
    ∷ codes "diag"
    ∷ codes "export diagnostic"
    ∷ codes "export index"
    ∷ codes "export manifest"
    ∷ codes "export list"
    ∷ codes "exports"
    ∷ codes "storage export-index"
    ∷ codes "export vitair"
    ∷ codes "export vitair-state"
    ∷ codes "linux countdown"
    ∷ codes "linux-assisted countdown"
    ∷ codes "selftest"
    ∷ codes "self-test"
    ∷ codes "boot selftest"
    ∷ codes "boot self-test"
    ∷ codes "checkup"
    ∷ codes "shutdown"
    ∷ codes "exit"
    ∷ []

-- `g_known_paths`
unfoldable pub known_paths : List Bytes
known_paths =
    codes "/vita/"
    ∷ codes "/vita/notes/"
    ∷ codes "/vita/audit/"
    ∷ codes "/vita/audit/sessions/"
    ∷ codes "/vita/export/"
    ∷ codes "/vita/export/reports/"
    ∷ codes "/vita/tmp/"
    ∷ codes "/vita/notes/usb-test.txt"
    ∷ codes "/vita/audit/session-journal.txt"
    ∷ codes "/vita/audit/session-journal.jsonl"
    ∷ codes "/vita/export/reports/last-session.txt"
    ∷ codes "/vita/export/reports/last-session.jsonl"
    ∷ codes "/vita/export/reports/diagnostic-bundle.txt"
    ∷ codes "/vita/export/reports/self-test.txt"
    ∷ codes "/vita/export/reports/vitair-state.jsonl"
    ∷ []

-- `add_match`: at most 32 matches
unfoldable pub add_match : Bytes → List Bytes → List Bytes
add_match candidate matches = if ltb (length matches) 32 then matches ++ candidate ∷ [] else matches

-- the loop over the candidates that begin with the prefix
unfoldable pub gather : Bytes → List Bytes → List Bytes → List Bytes
unfolding add_match
gather prefix [] matches = matches
gather prefix (candidate ∷ candidates) matches =
    gather prefix candidates
      (if starts_with candidate prefix then add_match candidate matches else matches)

-- every candidate
gather_all : List Bytes → List Bytes → List Bytes
unfolding add_match
gather_all [] matches = matches
gather_all (candidate ∷ candidates) matches = gather_all candidates (add_match candidate matches)

begins_with_dot : Bytes → Bool
begins_with_dot [] = false
begins_with_dot (c ∷ s) = c == b'.'

-- a name below /vita/notes/, in a buffer of 192 bytes
note_path : Bytes → Bytes
note_path name =
    let base = str_copy [] 192 (some (codes "/vita/notes/")) in
    base ++ str_copy [] (192 - str_len base) (some name)

-- `gather_hosted_note_paths`: at most 64 paths that begin with the prefix
note_paths : Bytes → List Bytes → List Bytes → List Bytes
unfolding begins_with_dot note_path
note_paths prefix [] out = out
note_paths prefix (name ∷ names) out =
    let skip = note_paths prefix names out in
    let next = note_paths prefix names (out ++ note_path name ∷ []) in
    if leb 64 (length out)
    then out
    else if begins_with_dot name
    then skip
    else if starts_with (note_path name) prefix
    then next
    else skip

-- the names in the notes directory, where it can be read
listed_paths : Bytes → Option (List Bytes) → List Bytes
unfolding note_paths
listed_paths prefix none = []
listed_paths prefix (some names) = note_paths prefix names []

unfoldable pub gather_path_matches : Bytes → Option (List Bytes) → List Bytes
unfolding gather_all listed_paths known_paths
gather_path_matches prefix listing =
    gather_all (listed_paths prefix listing) (gather prefix known_paths [])

more : ℕ → Option Bytes → Option Bytes
more c none = none
more c (some s) = some (c ∷ s)

-- the line in front of its first tab
unfoldable pub before_tab : Bytes → Option Bytes
unfolding more
before_tab [] = none
before_tab (c ∷ s) = let rest = before_tab s in if c == b'\t' then some [] else more c rest

-- whether the prefix asks for a path, and what it has of it
unfoldable pub path_prefix : Bytes → Option Bytes
path_prefix prefix =
    if starts_with prefix (codes "edit ")
    then some (drop 5 prefix)
    else if starts_with prefix (codes "append ")
    then some (drop 5 prefix)
    else if starts_with prefix (codes "storage read ")
    then some (drop 13 prefix)
    else none

-- the matches of a prefix that is not empty
unfoldable pub matches_of : Bytes → Option Bytes → Option (List Bytes) → List Bytes
unfolding all_commands
matches_of prefix none listing = gather prefix all_commands []
matches_of prefix (some path) listing = gather_path_matches path listing

takes_argument : Bytes → Bool
takes_argument text =
    starts_with text (codes "storage")
    || (starts_with text (codes "audit")
        || (starts_with text (codes "journal") || starts_with text (codes "export")))

ends_in_space : Bytes → Bool
ends_in_space [] = false
ends_in_space (c ∷ []) = c == b' '
ends_in_space (c ∷ d ∷ s) = ends_in_space (d ∷ s)

-- the line of the only match, in a buffer of that size
pub completed : ℕ → Bytes → Bytes
unfolding takes_argument ends_in_space
completed size text =
    let line = str_copy [] size (some text) in
    if takes_argument text
      && (ltb 0 (str_len line) && (ltb (str_len line + 1) size && not (ends_in_space line)))
    then line ++ b' ' ∷ []
    else line

module _ (terminal : Terminal) (host : Host) where
  Here : Type 0
  Here = Site host.Fs terminal.Device

  -- The result, with the line: it ends before the tab where nothing is completed.
  answer : ℕ → Bytes → List Bytes → Here → (Bool × Bytes) × Here
  unfolding completed Here
  answer size line [] s = (
    (false, line),
    write_all terminal host
        (codes "sin coincidencias"
          ∷ codes
              "Path autocomplete currently uses known VitaOS paths unless storage directory listing is available."
          ∷ [])
        s,
  )
  answer size line (only ∷ []) s = ((true, completed size only), s)
  answer size line (first ∷ second ∷ others) s = (
    (false, line),
    write_all terminal host (codes "Autocomplete options:" ∷ first ∷ second ∷ others) s,
  )

  -- behind the tab, with the prefix in its buffer of 128 bytes
  complete_prefix : ℕ → Bytes → Bytes → Here → (Bool × Bytes) × Here
  unfolding answer matches_of path_prefix all_commands Here
  complete_prefix size line [] s =
      answer size line (gather [] all_commands [])
        (write_all terminal host (codes "Autocomplete:" ∷ []) s)
  complete_prefix size line (c ∷ prefix) s =
      answer size line
        (matches_of (c ∷ prefix) (path_prefix (c ∷ prefix))
          (host.list_dir s.station.world.fs (codes "build/storage/vita/notes")))
        s

  at_tab : ℕ → Bytes → Option Bytes → Here → (Bool × Bytes) × Here
  unfolding complete_prefix Here
  at_tab size line none s = ((false, line), s)
  at_tab size line (some before) s = complete_prefix size before (str_copy [] 128 (some before)) s

  pub console_autocomplete_line :
      ℕ → Bytes → Site host.Fs terminal.Device → (Bool × Bytes) × Site host.Fs terminal.Device
  unfolding at_tab Here
  console_autocomplete_line zero line s = ((false, line), s)
  console_autocomplete_line (suc size) line s = at_tab (suc size) line (before_tab line) s
