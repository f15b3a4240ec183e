-- ===== src/Transcript/Output.antt =====
-- The functions of kernel/session_transcript.c that record what the user and the system say.
pub mod Frame
pub mod Errors
use vita_os.Prelude.{
  ℕ, ◌+◌, Bool, true, false, not, ◌&&◌, ◌||◌, some, List, [], ◌∷◌, ◌++◌, codes, ltb, ◌==◌,
  if◌then◌else◌,
}
use vita_os.Text.{Bytes, str_eq, str_copy}
use vita_os.Storage.Host.{Host}
use vita_os.Transcript.Lines.{part_path}
use vita_os.Transcript.{Transcript, Station, txt_path, event}

-- the letters that end a control sequence
unfoldable pub ends_sequence : ℕ → Bool
ends_sequence c = c == b'm' || (c == b'H' || (c == b'J' || c == b'K'))

-- The loop that drops the control sequences of a terminal, with `j` characters written into the
-- buffer of 256, inside a sequence or not.
unfoldable pub strip : ℕ → Bool → Bytes → Bytes
unfolding ends_sequence
strip j inside [] = []
strip j true (c ∷ s) =
    let out = strip j false s in let more = strip j true s in if ends_sequence c then out else more
strip j false (c ∷ s) =
    let sequence = strip j true s in
    let rest = strip (j + 1) false s in
    if not (ltb (j + 1) 256) then [] else if c == 27 then sequence else c ∷ rest

-- the prompt, and lines with nothing in them
unfoldable pub is_prompt : Bytes → Bool
is_prompt clean = str_eq clean (codes "> ") || str_eq clean []

module _ (host : Host) where
  pub session_transcript_shutdown : Station host.Fs → Station host.Fs
  session_transcript_shutdown s =
      if s.transcript.active
      then event host (codes "session_end") (codes "system") (codes "session closed") s
      else s

  pub session_transcript_is_active : Station host.Fs → Bool
  session_transcript_is_active s = s.transcript.initialized && s.transcript.active

  unfoldable pub session_transcript_log_user_input : Bytes → Station host.Fs → Station host.Fs
  session_transcript_log_user_input = event host (codes "user_input") (codes "user")

  pub session_transcript_log_command_executed : Bytes → Station host.Fs → Station host.Fs
  session_transcript_log_command_executed = event host (codes "command_executed") (codes "user")

  unfoldable pub session_transcript_log_editor_event :
      Bytes → Bytes → Station host.Fs → Station host.Fs
  session_transcript_log_editor_event type = event host type (codes "editor")

  pub session_transcript_log_storage_status : Bytes → Station host.Fs → Station host.Fs
  session_transcript_log_storage_status = event host (codes "storage_status") (codes "system")

  pub session_transcript_log_journal_status : Bytes → Station host.Fs → Station host.Fs
  session_transcript_log_journal_status = event host (codes "journal_status") (codes "system")

  log_clean : Bytes → Bool → Station host.Fs → Station host.Fs
  unfolding is_prompt
  log_clean clean raw s =
      if is_prompt clean
      then s
      else if raw && str_eq s.transcript.last_text clean
      then s
      else event host (codes "system_output") (codes "system") clean (record s {
        transcript = record s.transcript {
          last_text = str_copy s.transcript.last_text 160 (some clean);
        };
      })

  unfoldable pub session_transcript_log_system_output :
      Bytes → Bool → Station host.Fs → Station host.Fs
  unfolding log_clean strip
  session_transcript_log_system_output text raw s = log_clean (strip 0 false text) raw s

-- the paths that the transcript gives out, or a word before a session is chosen
pub session_transcript_txt_path : Transcript → Bytes
session_transcript_txt_path t = if str_eq t.session_id [] then codes "unknown" else txt_path t

pub session_transcript_jsonl_path : Transcript → Bytes
session_transcript_jsonl_path t =
    if str_eq t.session_id [] then codes "unknown" else part_path t.session_id 1

pub session_transcript_state : Transcript → Bytes
session_transcript_state t = t.state
