-- ===== src/Console/Attached.antt =====
-- The console, the transcript and the journal beside the host's files: what the editor asks of a
-- session, given by the code of kernel/console.c and kernel/session_transcript.c.
pub mod Saved
use vita_os.Prelude.{[], ◌≡◌, codes}
use vita_os.Text.{Bytes}
use vita_os.Storage.Host.{Host, HostFrame}
use vita_os.Storage.Paths.Confined.{host_path}
use vita_os.Storage.Files.{World}
use vita_os.Storage.Files.RoundTrip.{content}
use vita_os.Storage.Files.Kept.{InAudit, IsOutside, Kept}
use vita_os.Journal.{Journal}
use vita_os.Transcript.{Transcript, Station}
use vita_os.Transcript.Frame.{event-Kept}
use vita_os.Transcript.Output.{
  session_transcript_log_user_input, session_transcript_log_editor_event,
}
use vita_os.Console.{
  Terminal, Console, Site, on_console, console_write_raw, console_write_line,
  console_write_editor_text, console_pager_end,
}
use vita_os.Console.Status.{storage_show_status}
use vita_os.Console.Status.Frame.{storage_show_status-Leaves}
use vita_os.Console.Recorded.{same, console_write_line-Leaves, console_write_editor_text-Leaves}
use vita_os.Editor.Session.{
  Session, Effect, write_line, write_raw, write_editor_text, log_user_input, log_editor_event,
  pager_end, show_status,
}

-- The host's files with the state of the modules that print and record.
pub record Desk (Fs Device : Type 0) : Type 0 where
  pub fs : Fs
  pub console : Console Device
  pub transcript : Transcript
  pub journal : Journal

module _ (terminal : Terminal) (host : Host) where
  open terminal use {Device}

  abbrev pub desk_host : Host
  desk_host = record {
    Fs = Desk host.Fs Device;
    make_dir = λ d path. record d { fs = host.make_dir d.fs path };
    exists = λ d path. host.exists d.fs path;
    write_file = λ d path text.
        let (written, fs) = host.write_file d.fs path text in (written, record d { fs = fs });
    read_file = λ d path. host.read_file d.fs path;
    list_dir = λ d path. host.list_dir d.fs path;
    read-write = λ d path text h. host.read-write d.fs path text h;
    read-unclosed = λ d path text file h e. host.read-unclosed d.fs path text file h e;
  }

  -- a desk as the console sees it, and back
  abbrev pub site_of : World (Desk host.Fs Device) → Site host.Fs Device
  site_of w = record {
    console = w.fs.console;
    station = record {
      transcript = w.fs.transcript;
      journal = w.fs.journal;
      world = record { storage = w.storage; fs = w.fs.fs; printed = w.printed };
    };
  }

  abbrev pub desk_of : Site host.Fs Device → World (Desk host.Fs Device)
  desk_of s = record {
    storage = s.station.world.storage;
    fs = record {
      fs = s.station.world.fs;
      console = s.console;
      transcript = s.station.transcript;
      journal = s.station.journal;
    };
    printed = s.station.world.printed;
  }

  unfoldable pub on_station :
      (Station host.Fs → Station host.Fs) → Site host.Fs Device → Site host.Fs Device
  on_station f s = record s { station = f s.station }

  unfoldable pub perform_effect : Effect → Site host.Fs Device → Site host.Fs Device
  unfolding on_station
  perform_effect (write_line text) s = console_write_line terminal host text s
  perform_effect (write_raw text) s = on_console terminal host (console_write_raw terminal text) s
  perform_effect (write_editor_text text) s = console_write_editor_text terminal host text s
  perform_effect (log_user_input text) s =
      on_station (session_transcript_log_user_input host text) s
  perform_effect (log_editor_event type text) s =
      on_station (session_transcript_log_editor_event host type text) s
  perform_effect pager_end s = on_console terminal host (console_pager_end terminal) s
  perform_effect show_status s = storage_show_status terminal host s

  module _ (frame : HostFrame host) where
    -- a path that names a file below /vita/audit/
    abbrev pub IsOwn : Bytes → Type 0
    IsOwn path = (own : Bytes) × InAudit own × frame.Same (host_path own) (host_path path)

    pub perform_effect-Kept :
        (path : Bytes) (e : Effect) (s : Site host.Fs Device)
        → Kept host frame path s.station.world (perform_effect e s).station.world
    unfolding perform_effect on_station on_console session_transcript_log_user_input
        session_transcript_log_editor_event
    perform_effect-Kept path (write_line text) s =
        console_write_line-Leaves terminal host frame path text s
    perform_effect-Kept path (write_raw text) s = same terminal host frame path s
    perform_effect-Kept path (write_editor_text text) s =
        console_write_editor_text-Leaves terminal host frame path text s
    perform_effect-Kept path (log_user_input text) s =
        event-Kept host frame path (codes "user_input") (codes "user") text s.station
    perform_effect-Kept path (log_editor_event type text) s =
        event-Kept host frame path type (codes "editor") text s.station
    perform_effect-Kept path pager_end s = same terminal host frame path s
    perform_effect-Kept path show_status s = storage_show_status-Leaves terminal host frame path s

    -- The session of the editor: every effect is the function that the code calls.
    unfoldable pub desk_session : Session desk_host
    unfolding perform_effect content
    desk_session = record {
      perform = λ e w. desk_of (perform_effect e (site_of w));
      OwnFile = IsOwn;
      keeps_content =
          λ e w path own. (perform_effect-Kept path e (site_of w)).file (λ o i s. own (o, i, s));
      keeps_initialized = λ e w. (perform_effect-Kept [] e (site_of w)).switches.initialized;
      keeps_writable = λ e w. (perform_effect-Kept [] e (site_of w)).switches.writable;
    }
