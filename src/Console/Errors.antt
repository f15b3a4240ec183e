-- ===== src/Console/Errors.antt =====
-- What a line that is printed leaves as the last error of the storage facade.
use vita_os.Prelude.{true, false, not, ◌≡◌, codes, if_elim}
use vita_os.Text.{Bytes}
use vita_os.Storage.Host.{Host}
use vita_os.Storage.Files.{storage_last_error}
use vita_os.Storage.Files.LastError.{IsFine, last_error_fine}
use vita_os.Transcript.Output.Errors.{IsLogged, log_system_output-IsFine}
use vita_os.Console.{Terminal, Site, on_console, record_line, console_write_line}

module _ (terminal : Terminal) (host : Host) where
  abbrev Here : Type 0
  Here = Site host.Fs terminal.Device

  record_line-IsFine :
      (text : Bytes) (s : Here)
      → s.console.transcript_logging ≡ false
      → IsLogged text
      → s.station.transcript.active ≡ true
      → s.station.transcript.busy ≡ false
      → (record_line terminal host text s).station.transcript.active ≡ true
      → IsFine host (record_line terminal host text s).station.world
  unfolding record_line
  record_line-IsFine text s free logged active idle =
      if_elim P s.console.transcript_logging s _ (λ off. cc (free, off))
        λ _. log_system_output-IsFine host text s.station logged active idle
    where
      P : Here → Type 0
      P s' = s'.station.transcript.active ≡ true → IsFine host s'.station.world

  -- A line that is printed and recorded while the transcript is active and idle, and stays active,
  -- leaves "ok" as the last error of the storage facade, whatever had failed before: the reason of a
  -- failure that is printed behind such a line is lost.
  pub console_write_line_forgets :
      (text : Bytes) (s : Here)
      → s.console.writer_bound ≡ true
      → s.console.transcript_logging ≡ false
      → IsLogged text
      → s.station.transcript.active ≡ true
      → s.station.transcript.busy ≡ false
      → (console_write_line terminal host text s).station.transcript.active ≡ true
      → storage_last_error (console_write_line terminal host text s).station.world ≡ codes "ok"
  unfolding console_write_line on_console
  console_write_line_forgets text s bound free logged active idle =
      if_elim P (not s.console.writer_bound) s _ (λ off. cc (bound, off))
        λ _ h. last_error_fine host _ (
          record_line-IsFine text
            (on_console terminal host (λ c. record c { device = terminal.writer text c.device }) s)
            free logged active idle h)
    where
      P : Here → Type 0
      P s' = s'.station.transcript.active ≡ true → storage_last_error s'.station.world ≡ codes "ok"
