-- ===== src/Console/Attached/Saved.antt =====
-- The editor together with the console, the transcript and the journal that it prints through.
use vita_os.Prelude.{◌≡◌}
use vita_os.Text.{Bytes}
use vita_os.Storage.Host.{Host, HostFrame}
use vita_os.Storage.Files.RoundTrip.{content}
use vita_os.Storage.Files.Reads.{SameSwitches}
use vita_os.Storage.Files.Kept.{IsOutside}
use vita_os.Console.{Terminal, Site}
use vita_os.Console.Attached.{perform_effect, perform_effect-Kept}
use vita_os.Editor.Session.{Effect}

module _ (terminal : Terminal) (host : Host) (frame : HostFrame host) where
  -- Whatever the editor asks of the console and of the transcript, with the recording, the rotation
  -- of parts and the note in the journal that it sets off, a file that is none of the files below
  -- /vita/audit/ is as it was, and so are the switches of the storage facade.
  pub perform_effect-content :
      (e : Effect) (path : Bytes) (s : Site host.Fs terminal.Device)
      → IsOutside host frame path
      → (content host (perform_effect terminal host e s).station.world path
          ≡ content host s.station.world path)
        × SameSwitches host s.station.world (perform_effect terminal host e s).station.world
  perform_effect-content e path s outside =
      let kept = perform_effect-Kept terminal host frame path e s in
      (kept.file outside, kept.switches)
