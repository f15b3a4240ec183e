-- ===== src/Tests/Recording.antt =====
-- The journal and the number of a session, at concrete inputs.
use vita_os.Prelude.{
  true, false, List, [], ◌∷◌, ◌≡◌, ◌≢◌, ◌↔◌, refl, ap, inl, codes, arith, replicate,
}
use vita_os.Text.{Bytes, starts_with, skip_spaces}
use vita_os.Text.Search.{contains_token, Occurs, contains_token_iff}
use vita_os.Storage.Paths.Confined.{host_path}
use vita_os.Journal.{Journal, looks_sensitive, session_journal_flush}
use vita_os.Journal.Files.{session_journal_flush_long}
use vita_os.Journal.Log.{Log, Event, Represents, add_events, log_events, add_events-Represents}
use vita_os.Shell.JournalCommands.{session_journal_handle_command}
use vita_os.Shell.JournalCommands.Redacted.{journal_note_blind}
use vita_os.Transcript.Start.{find_session}
use vita_os.Transcript.Start.Fresh.{IsFirstFree, find_session-IsFirstFree}
use vita_os.Tests.Fixtures.{memory_host, printer, new_site, ready_world, new_journal}

abbrev empty_log : Log
empty_log = record { seq = 0; json = []; text = [] }

abbrev events : List Event
events =
    record { type = codes "user_command"; summary = codes "status"; redact_check = true }
    ∷ record { type = codes "user_command"; summary = codes "password x"; redact_check = true }
    ∷ []

add_events-Represents_example :
    Represents
      (add_events memory_host events (new_journal, ready_world)).0
      (log_events events empty_log)
add_events-Represents_example =
    add_events-Represents memory_host events new_journal empty_log ready_world (record {
      on = (refl, refl);
      number = refl;
      prefix = refl;
      room = (omega arith, omega arith);
      whole = λ _. (refl, refl);
    })

secret : looks_sensitive (skip_spaces (codes "password hunter")) ≡ true
unfolding looks_sensitive contains_token starts_with skip_spaces
secret = refl

other_secret : looks_sensitive (skip_spaces (codes "token=1")) ≡ true
unfolding looks_sensitive contains_token starts_with skip_spaces
other_secret = refl

journal_note_blind_example :
    session_journal_handle_command printer memory_host
      (codes "journal note password hunter")
      new_site
    ≡ session_journal_handle_command printer memory_host (codes "journal note token=1") new_site
journal_note_blind_example =
    journal_note_blind printer memory_host (codes "password hunter") (codes "token=1") new_site
      secret other_secret

abbrev long_journal : Journal
long_journal = record new_journal { jsonl = replicate 2048 b'x' }

session_journal_flush_long_example :
    (session_journal_flush memory_host long_journal ready_world).0 ≡ false
session_journal_flush_long_example =
    session_journal_flush_long memory_host long_journal ready_world (inl (omega arith))

token_there : codes "key=" ≢ []
unfolding starts_with
token_there e =
    let apart : true ≡ false = ap (λ (t : Bytes). starts_with t (codes "k")) e in absurd (cc apart)

contains_token_iff_example :
    (contains_token (codes "api_key=1") (codes "key=") ≡ true)
    ↔ Occurs (codes "key=") (codes "api_key=1")
contains_token_iff_example = contains_token_iff (codes "api_key=1") (codes "key=") token_there

find_session-IsFirstFree_example :
    IsFirstFree memory_host 1 3 ready_world (find_session memory_host 2 1 ready_world).0
find_session-IsFirstFree_example = find_session-IsFirstFree memory_host 2 1 ready_world refl

abbrev note : Bytes
note = codes "/vita/notes/a.txt"

abbrev other_note : Bytes
other_note = codes "/vita/notes/b.txt"

names_differ : host_path note ≡ host_path other_note → ⊥
unfolding starts_with
names_differ same =
    let apart : true ≡ false =
      ap (λ (t : Bytes). starts_with t (codes "build/storage/vita/notes/a")) same in
    absurd (cc apart)
