-- ===== src/Shell/JournalCommands.antt =====
-- The start of the journal and its commands: session_journal_init, session_journal_show_status and
-- session_journal_handle_command of kernel/session_journal.c.
pub mod Redacted
use vita_os.Prelude.{
  ℕ, zero, suc, ◌+◌, Bool, true, false, not, ◌&&◌, ◌||◌, List, [], ◌∷◌, ◌++◌, codes, drop, length,
  leb, ◌==◌, ◌>>=◌, ◌>>◌, pure, if◌then◌else◌,
}
use vita_os.Text.{text_or, Bytes, str_eq, str_len, starts_with, skip_spaces, u32_to_dec}
use vita_os.Storage.Host.{Host}
use vita_os.Storage.Files.{World, storage_is_bootstrap_verified, storage_read_text}
use vita_os.Journal.{
  Journal, jsonl_path, text_path, set_journal_error, append_text_line, session_journal_flush,
  journal_add_event, session_journal_log_system,
}
use vita_os.Transcript.{Station}
use vita_os.Console.{Terminal}
use vita_os.Shell.{Run, say, say_all, on_world}

-- the journal before its first lines
fresh_journal : Bool → Journal
fresh_journal active = set_journal_error (codes "ok") (record {
  initialized = true;
  active = active;
  truncated = false;
  last_flush_ok = false;
  seq = 0;
  jsonl = [];
  text = [];
  last_error = [];
})

intro_lines : List Bytes
intro_lines =
    codes "VitaOS persistent session journal / Bitacora persistente de sesion VitaOS"
    ∷ codes "Visible audit note: submitted commands and summarized system responses are recorded."
    ∷ codes "Nota visible: se registran comandos enviados y respuestas resumidas del sistema."
    ∷ []
    ∷ []

append_lines : List Bytes → Journal → Journal
append_lines [] j = j
append_lines (line ∷ lines) j = append_lines lines (append_text_line line j)

privacy_lines : List Bytes
privacy_lines =
    codes "Privacy / Privacidad:"
    ∷ codes "Records submitted commands, not raw hidden keystrokes."
    ∷ codes "Registra comandos enviados, no teclas ocultas en bruto."
    ∷ codes "Sensitive-looking commands are redacted / comandos sensibles se ocultan."
    ∷ []

help_lines : List Bytes
help_lines =
    codes "Journal commands / Comandos de bitacora:"
    ∷ codes "journal"
    ∷ codes "journal status"
    ∷ codes "journal show"
    ∷ codes "journal flush"
    ∷ codes "journal paths"
    ∷ codes "journal note text"
    ∷ []

-- The lines of the status that are worked out when their turn comes; the number is taken before.
status_lines : Bytes → List (Journal → Bytes)
unfolding text_or
status_lines seq =
    (λ j. codes "Resumen del journal / Journal summary:")
    ∷ (λ j.
        if j.active then codes "journal: activo / active" else codes "journal: inactivo / inactive")
    ∷ (λ j. if j.initialized then codes "initialized: yes" else codes "initialized: no")
    ∷ (λ j. if j.active then codes "active: yes" else codes "active: no")
    ∷ (λ j. if j.last_flush_ok then codes "last_flush: ok" else codes "last_flush: not-ok")
    ∷ (λ j. if j.truncated then codes "truncated: yes" else codes "truncated: no")
    ∷ (λ j. codes "seq:")
    ∷ (λ j. seq)
    ∷ (λ j. codes "jsonl_path:")
    ∷ (λ j. jsonl_path)
    ∷ (λ j. codes "text_path:")
    ∷ (λ j. text_path)
    ∷ (λ j. codes "last_error:")
    ∷ (λ j. text_or j.last_error (codes "none"))
    ∷ []

module _ (terminal : Terminal) (host : Host) where
  abbrev Do : Type 0 → Type 0
  Do = Run terminal host

  abbrev tell : Bytes → Do Unit
  tell = say terminal host

  ends : Bool → List Bytes → Do Bool
  ends ok lines = do say_all terminal host lines; pure ok

  on_journal : (Journal → Journal) → Do Unit
  on_journal f s = (tt, record s { station = record s.station { journal = f s.station.journal } })

  -- a call of the journal that may write its files
  record_journal : (Journal → World host.Fs → Journal × World host.Fs) → Do Unit
  record_journal f s =
      let (j, w) = f s.station.journal s.station.world in
      (tt, record s { station = record s.station { journal = j; world = w } })

  flush_journal : Do Bool
  flush_journal s =
      let (ok, j, w) = session_journal_flush host s.station.journal s.station.world in
      (ok, record s { station = record s.station { journal = j; world = w } })

  -- the journal's own last error
  tell_error_or : Bytes → Do Unit
  unfolding text_or
  tell_error_or fallback s = tell (text_or s.station.journal.last_error fallback) s

  init_unavailable : Do Bool
  unfolding on_journal text_or tell_error_or
  init_unavailable s =
      (do
        on_journal (
            set_journal_error
              (text_or s.station.world.storage.last_error (codes "storage bootstrap unavailable")))
        tell (codes "Persistent journal: unavailable / Bitacora persistente: no disponible")
        tell_error_or []
        pure false)
        s

  init_inactive : Do Bool
  unfolding on_journal tell_error_or
  init_inactive = do
    on_journal (λ j. record j { active = false })
    tell (codes "journal: inactive, write/read verification failed")
    tell_error_or (codes "unknown")
    pure false

  init_ready : Do Bool
  unfolding ends
  init_ready = ends true (
      codes "Persistent journal: READY / Bitacora persistente: LISTA" ∷ jsonl_path ∷ text_path ∷ [])

  -- behind the first event
  init_end : Do Bool
  unfolding init_inactive init_ready
  init_end s = if not s.station.journal.last_flush_ok then init_inactive s else init_ready s

  init_active : Do Bool
  unfolding on_journal record_journal append_lines intro_lines init_end
  init_active = do
    on_journal (append_lines intro_lines)
    record_journal (
        journal_add_event host (codes "journal_started") (codes "persistent session journal active")
          false)
    init_end

  -- A result of true comes with the audit event SESSION_JOURNAL_READY, which touches the audit log
  -- alone and is the caller's here.
  pub session_journal_init : Do Bool
  unfolding on_journal fresh_journal init_active init_unavailable
  session_journal_init s =
      let active = storage_is_bootstrap_verified s.station.world in
      let s' = (on_journal (λ j. fresh_journal active) s).1 in
      if not active then init_unavailable s' else init_active s'

  pub session_journal_is_active : Station host.Fs → Bool
  session_journal_is_active s = s.journal.initialized && s.journal.active

  show_lines : List (Journal → Bytes) → Do Unit
  show_lines [] = pure tt
  show_lines (line ∷ lines) = do
    let rest = show_lines lines
    λ s. tell (line s.station.journal) s
    rest

  pub session_journal_show_status : Do Unit
  unfolding show_lines status_lines privacy_lines
  session_journal_show_status s =
      (do
        show_lines (status_lines (u32_to_dec s.station.journal.seq))
        say_all terminal host privacy_lines)
        s

  -- One round of the loop of `journal_print_text`, with the line so far and the rest of the text;
  -- the ways to go on with a new line, with a line that begins with a character, and with one more.
  at_char : Bytes → Bytes → Do Unit → (ℕ → Do Unit) → (ℕ → Do Unit) → Do Unit
  at_char line [] next_line cut more = if leb 1 (length line) then tell line else pure tt
  at_char line (c ∷ s) next_line cut more =
      if c == b'\n' || leb 160 (length line + 1)
      then (do tell line; if c == b'\n' then next_line else cut c)
      else more c

  -- The loop with the index and the line so far, for at most so many rounds: the buffer holds at
  -- most 8191 characters.
  print_from : ℕ → ℕ → Bytes → Do Unit
  unfolding at_char
  print_from zero i line = pure tt
  print_from (suc rounds) i line = λ s.
      at_char line (drop i s.station.journal.text) (print_from rounds (i + 1) [])
        (λ c. print_from rounds (i + 1) (c ∷ [])) (λ c. print_from rounds (i + 1) (line ++ c ∷ []))
        s

  journal_print_text : Do Unit
  unfolding print_from
  journal_print_text s =
      if str_eq s.station.journal.text []
      then tell (codes "journal show: empty") s
      else print_from 8192 0 [] s

  journal_show_last_session_file : Do Unit
  unfolding text_or
  journal_show_last_session_file = do
    (found, text) ← on_world terminal host (storage_read_text host text_path [] 2048)
    if not found
        then tell (codes "journal last-session: unavailable")
        else say_all terminal host (
            codes "--- journal last-session / ultima sesion ---"
            ∷ text_or text (codes "(empty / vacio)")
            ∷ codes "--- end / fin ---"
            ∷ [])

  journal_recover : Do Unit
  unfolding flush_journal journal_show_last_session_file
  journal_recover = do
    ok ← flush_journal
    tell (
        if ok
        then codes "journal recover: flush ok"
        else codes "journal recover: flush not available")
    journal_show_last_session_file

  failed_flush : Do Bool
  unfolding tell_error_or
  failed_flush = do tell (codes "journal flush: failed"); tell_error_or (codes "unknown"); pure true

  command_flush : Do Bool
  unfolding flush_journal ends failed_flush
  command_flush = do
    ok ← flush_journal
    if ok then ends true (codes "journal flush: ok" ∷ []) else failed_flush

  command_note : Bytes → Do Bool
  unfolding ends record_journal
  command_note [] = ends false (codes "usage: journal note text" ∷ [])
  command_note (c ∷ args) = do
    record_journal (session_journal_log_system host (codes "operator_note") (c ∷ args))
    tell (codes "journal note: recorded")
    pure true

  -- a step, and a result of true
  handled : Do Unit → Do Bool
  handled step = do step; pure true

  unfoldable pub session_journal_handle_command : Bytes → Do Bool
  unfolding handled ends command_flush journal_print_text journal_show_last_session_file
      journal_recover command_note help_lines
  session_journal_handle_command cmd =
      if str_eq cmd (codes "journal") || str_eq cmd (codes "journal status")
      then handled session_journal_show_status
      else if str_eq cmd (codes "journal paths")
      then ends true (jsonl_path ∷ text_path ∷ [])
      else if str_eq cmd (codes "journal flush")
      then command_flush
      else if str_eq cmd (codes "journal show")
      then handled journal_print_text
      else if str_eq cmd (codes "journal summary")
      then handled (do
        session_journal_show_status
        tell (codes "journal summary: use 'journal show' for full log"))
      else if str_eq cmd (codes "journal last-session") || str_eq cmd (codes "journal last")
      then handled journal_show_last_session_file
      else if str_eq cmd (codes "journal recover")
      then handled journal_recover
      else if starts_with cmd (codes "journal note ")
      then command_note (skip_spaces (drop (str_len (codes "journal note ")) cmd))
      else if str_eq cmd (codes "journal help")
      then ends true help_lines
      else if not (starts_with cmd (codes "journal"))
      then pure false
      else ends false (codes "journal: unknown command" ∷ codes "try: journal help" ∷ [])
