-- ===== src/Shell/JournalCommands/Redacted.antt =====
-- What `journal note` keeps of a note that looks sensitive.
use vita_os.Prelude.{Bool, true, [], ◌∷◌, ◌++◌, ◌≡◌, sym, ap, ◌∙◌, refl, codes, ◌>>◌, pure}
use vita_os.Text.{Bytes, str_eq, str_len, starts_with, skip_spaces}
use vita_os.Text.Search.{contains_token}
use vita_os.Storage.Host.{Host}
use vita_os.Storage.Files.{World}
use vita_os.Journal.{Journal, looks_sensitive}
use vita_os.Journal.Redacted.{log_system_blind}
use vita_os.Console.{Terminal, Site}
use vita_os.Shell.{say}
use vita_os.Shell.JournalCommands.{command_note, record_journal, session_journal_handle_command}

module _ (terminal : Terminal) (host : Host) where
  abbrev Here : Type 0
  Here = Site host.Fs terminal.Device

  -- what is done once the journal has taken the note
  told : Here → Journal × World host.Fs → Bool × Here
  told s (j, w) =
      (do say terminal host (codes "journal note: recorded"); pure true)
        (record s { station = record s.station { journal = j; world = w } })

  none_sensitive : looks_sensitive [] ≡ true → ⊥
  unfolding looks_sensitive contains_token starts_with
  none_sensitive h = cc

  command_note_blind :
      (a b : Bytes) (s : Here)
      → looks_sensitive a ≡ true
      → looks_sensitive b ≡ true
      → command_note terminal host a s ≡ command_note terminal host b s
  unfolding command_note record_journal told
  command_note_blind [] b s ha hb = absurd (none_sensitive ha)
  command_note_blind (c ∷ a) [] s ha hb = absurd (none_sensitive hb)
  command_note_blind (c ∷ a) (d ∷ b) s ha hb = ap (told s) (
      log_system_blind host (codes "operator_note") (c ∷ a) (d ∷ b) s.station.journal
        s.station.world ha hb)

  handle_note :
      (text : Bytes) (s : Here)
      → session_journal_handle_command terminal host (codes "journal note " ++ text) s
        ≡ command_note terminal host (skip_spaces text) s
  unfolding session_journal_handle_command str_eq starts_with str_len
  handle_note text s = refl

  -- The command "journal note" keeps nothing of a note that looks sensitive but that it does: any two
  -- such notes lead to the same result, the same lines on the console, the same journal, the same
  -- transcript and the same files, from every state. The line of the command itself is recorded in
  -- the transcript before the command is run, which is not part of this.
  pub journal_note_blind :
      (a b : Bytes) (s : Here)
      → looks_sensitive (skip_spaces a) ≡ true
      → looks_sensitive (skip_spaces b) ≡ true
      → session_journal_handle_command terminal host (codes "journal note " ++ a) s
        ≡ session_journal_handle_command terminal host (codes "journal note " ++ b) s
  journal_note_blind a b s ha hb =
      handle_note a s
      ∙ command_note_blind (skip_spaces a) (skip_spaces b) s ha hb
      ∙ sym (handle_note b s)
