-- ===== src/Editor/Session.antt =====
-- What the editor asks of the console and of the session transcript, as an interface: they print
-- and record, and may write files of their own.
use vita_os.Prelude.{◌≡◌}
use vita_os.Text.{Bytes}
use vita_os.Storage.Host.{Host}
use vita_os.Storage.Files.{World}
use vita_os.Storage.Files.RoundTrip.{content}

-- `console_write_line`, `console_write_raw`, `console_write_editor_text`, `console_pager_end`,
-- `storage_show_status`, `session_transcript_log_editor_event` and
-- `session_transcript_log_user_input`
pub data Effect : Type 0 where
  write_line write_raw write_editor_text log_user_input : Bytes → Effect
  log_editor_event : Bytes → Bytes → Effect
  pager_end show_status : Effect

pub record Session (host : Host) : Type 1 where
  pub perform : Effect → World host.Fs → World host.Fs
  -- the files that the transcript writes itself
  pub OwnFile : Bytes → Type 0
  pub keeps_content :
      (e : Effect) (w : World host.Fs) (path : Bytes)
      → (OwnFile path → ⊥)
      → content host (perform e w) path ≡ content host w path
  pub keeps_initialized :
      (e : Effect) (w : World host.Fs) → (perform e w).storage.initialized ≡ w.storage.initialized
  pub keeps_writable :
      (e : Effect) (w : World host.Fs) → (perform e w).storage.writable ≡ w.storage.writable
