-- ===== src/Command/Loop.antt =====
-- command_loop_run of kernel/command_core.c.
pub mod Chain
pub mod Stops
use vita_os.Prelude.{
  ℕ, zero, suc, Bool, true, false, not, Option, none, some, List, [], ◌∷◌, codes, ◌==◌,
  if◌then◌else◌, ◌>>=◌, ◌>>◌, pure, ◌||◌,
}
use vita_os.Text.{Bytes}
use vita_os.Transcript.Output.{session_transcript_log_system_output}
use vita_os.Console.{
  console_guided_prompt, console_read_line, console_pager_begin, console_pager_end,
}
use vita_os.Console.Autocomplete.{console_autocomplete_line}
use vita_os.Command.{Platform, Here, Do, on_site, say, on_station, on_console, emit_event}
use vita_os.Command.Dispatch.{command_handle_line}
use vita_os.Command.Steps.{CommandResult, command_continue, command_shutdown}

unfoldable pub had_tab : Bytes → Bool
had_tab [] = false
had_tab (c ∷ line) = c == b'\t' || had_tab line

-- whether the loop goes on
goes_on : CommandResult → Bool
goes_on command_continue = true
goes_on command_shutdown = false

-- `typed` gives the lines that the user types in the editor at a turn, if its command opens it.
module _ (platform : Platform) (typed : Here platform → List Bytes) where
  open platform use {terminal, host}

  unfoldable pub read_line : Do platform (Bool × Bytes)
  read_line = on_site platform (λ s.
      let (read, console) = console_read_line terminal 128 s.console in
      (read, record s { console = console }))

  closed : Do platform Bool
  closed = do
    say platform
        (codes "Console input unavailable or closed / Entrada de consola no disponible o cerrada")
    emit_event platform (codes "COMMAND_REPL_INPUT_CLOSED")
        (codes "console input unavailable or closed")
    pure false

  -- a line that is complete
  run_line : Bytes → Do platform Bool
  unfolding goes_on
  run_line line = do
    on_console platform (console_pager_begin terminal 22)
    result ← λ m. command_handle_line platform line (typed m) m
    on_console platform (console_pager_end terminal)
    pure (goes_on result)

  -- a line with a tab, which may be completed
  complete_line : Bytes → Do platform Bool
  unfolding run_line
  complete_line line = do
    done ← on_site platform (console_autocomplete_line terminal host 128 line)
    if done.0 then run_line done.1 else pure true

  -- One turn of the loop: whether it goes on.
  unfoldable pub turn : Do platform Bool
  unfolding read_line closed had_tab complete_line run_line
  turn = do
    on_console platform (console_guided_prompt terminal)
    read ← read_line
    if not read.0 then closed else if had_tab read.1 then complete_line read.1 else run_line read.1

  stop : Here platform → Here platform
  stop m =
      (emit_event platform (codes "COMMAND_REPL_STOPPED") (codes "interactive command loop stopped")
        m).1

  -- The loop, for at most so many turns: none where they are not enough.
  turns : ℕ → Here platform → Option (Here platform)
  unfolding turn stop
  turns zero m = none
  turns (suc fuel) m =
      let (on, m') = turn m in let rest = turns fuel m' in if on then rest else some (stop m')

  unfoldable pub start : Do platform Unit
  start = do
    say platform (codes "Interactive console ready / Consola interactiva lista")
    say platform (codes "Type helpme for commands / Escribe helpme para comandos")
    on_station platform
        (session_transcript_log_system_output host (codes "interactive_console_ready") false)
    emit_event platform (codes "COMMAND_REPL_STARTED") (codes "interactive command loop started")

  unfoldable pub command_loop_run : ℕ → Here platform → Option (Here platform)
  unfolding turns start
  command_loop_run fuel m = turns fuel (start m).1
