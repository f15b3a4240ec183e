-- ===== src/Transcript/Output/Errors.antt =====
-- Recording what the system prints sets the last error of the storage facade.
use vita_os.Prelude.{true, false, some, ◌≡◌, codes, if_elim}
use vita_os.Text.{Bytes, str_copy}
use vita_os.Storage.Host.{Host}
use vita_os.Storage.Files.LastError.{IsFine}
use vita_os.Transcript.{Station, event}
use vita_os.Transcript.Errors.{event-IsFine}
use vita_os.Transcript.Output.{is_prompt, strip, log_clean, session_transcript_log_system_output}

-- What is left of a text without its control sequences is neither empty nor the prompt.
abbrev pub IsLogged : Bytes → Type 0
IsLogged text = is_prompt (strip 0 false text) ≡ false

module _ (host : Host) where
  pub log_system_output-IsFine :
      (text : Bytes) (s : Station host.Fs)
      → IsLogged text
      → s.transcript.active ≡ true
      → s.transcript.busy ≡ false
      → (session_transcript_log_system_output host text false s).transcript.active ≡ true
      → IsFine host (session_transcript_log_system_output host text false s).world
  unfolding session_transcript_log_system_output log_clean
  log_system_output-IsFine text s logged active idle =
      let clean = strip 0 false text in
      let copied = record s {
        transcript = record s.transcript {
          last_text = str_copy s.transcript.last_text 160 (some clean);
        };
      } in
      if_elim P (is_prompt clean) s
        (event host (codes "system_output") (codes "system") clean copied)
        (λ prompt. cc (logged, prompt))
        λ _. event-IsFine host (codes "system_output") (codes "system") clean copied active idle
    where
      P : Station host.Fs → Type 0
      P s' = s'.transcript.active ≡ true → IsFine host s'.world
