-- ===== src/Shell.antt =====
-- The commands of kernel/storage.c and kernel/session_journal.c, which print through the console
-- and so record what they print.
pub mod Tree
pub mod StorageCommands
pub mod JournalCommands
use vita_os.Prelude.{
  Bool, true, false, not, List, [], ◌∷◌, codes, Stateful, ◌>>=◌, ◌>>◌, pure, if◌then◌else◌,
}
use vita_os.Text.{text_or, Bytes}
use vita_os.Storage.Host.{Host}
use vita_os.Storage.Files.{World, storage_last_error, set_error}
use vita_os.Console.{Terminal, Site, console_write_line, write_all}

module _ (terminal : Terminal) (host : Host) where
  -- a step of a command
  abbrev pub Run : Type 0 → Type 0
  Run = Stateful (Site host.Fs terminal.Device)

  pub say : Bytes → Run Unit
  say line s = (tt, console_write_line terminal host line s)

  pub say_all : List Bytes → Run Unit
  say_all lines s = (tt, write_all terminal host lines s)

  -- a call of the storage facade
  unfoldable pub on_world : {A : Type 0} → Stateful (World host.Fs) A → Run A
  on_world f s =
      let (a, w) = f s.station.world in (a, record s { station = record s.station { world = w } })

  -- `console_write_line(storage_last_error())`
  pub say_last_error : Run Unit
  unfolding say
  say_last_error s = say (storage_last_error s.station.world) s

  -- the last error, or a word for none
  pub say_error_or : Bytes → Run Unit
  unfolding say text_or
  say_error_or fallback s = say (text_or s.station.world.storage.last_error fallback) s

  -- a result of false, with a line and the last error
  pub fail_with : Bytes → Run Bool
  unfolding say say_last_error
  fail_with line = do say line; say_last_error; pure false
