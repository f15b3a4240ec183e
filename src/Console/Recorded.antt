-- ===== src/Console/Recorded.antt =====
-- What printing leaves alone, although each line that is printed is recorded.
use vita_os.Prelude.{false, not, List, [], ◌∷◌, if_elim}
use vita_os.Text.{Bytes}
use vita_os.Storage.Host.{Host, HostFrame}
use vita_os.Storage.Files.Kept.{Kept, Kept-refl, Kept-trans}
use vita_os.Transcript.Output.Frame.{log_system_output-Kept}
use vita_os.Console.{
  Terminal, Site, on_console, record_line, console_write_line, console_write_styled,
  console_set_style, style_editor_text, console_write_editor_text, write_all,
}

module _ (terminal : Terminal) (host : Host) (frame : HostFrame host) (path : Bytes) where
  abbrev pub Here : Type 0
  Here = Site host.Fs terminal.Device

  -- the file behind the path, and the switches of the facade, are as they were
  abbrev pub Leaves : Here → Here → Type 0
  Leaves s s' = Kept host frame path s.station.world s'.station.world

  pub same : (s : Here) → Leaves s s
  same s = Kept-refl host frame path s.station.world

  pub after : (a b c : Here) → Leaves a b → Leaves b c → Leaves a c
  after a b c = Kept-trans host frame path a.station.world b.station.world c.station.world

  record_line-Leaves : (text : Bytes) (s : Here) → Leaves s (record_line terminal host text s)
  unfolding record_line
  record_line-Leaves text s =
      if_elim (λ (t : Here). Leaves s t) s.console.transcript_logging s _ (λ _. same s)
        λ _. log_system_output-Kept host frame path text false s.station

  -- A line printed on the console, with its recording, changes no file outside /vita/audit/ and no
  -- switch of the storage facade.
  pub console_write_line-Leaves :
      (text : Bytes) (s : Here) → Leaves s (console_write_line terminal host text s)
  unfolding console_write_line on_console
  console_write_line-Leaves text s =
      if_elim (λ (t : Here). Leaves s t) (not s.console.writer_bound) s _ (λ _. same s)
        λ _.
          record_line-Leaves text
            (on_console terminal host (λ c. record c { device = terminal.writer text c.device }) s)

  pub console_write_editor_text-Leaves :
      (text : Bytes) (s : Here) → Leaves s (console_write_editor_text terminal host text s)
  unfolding console_write_editor_text console_write_styled on_console
  console_write_editor_text-Leaves text s =
      console_write_line-Leaves _
        (on_console terminal host (console_set_style terminal style_editor_text) s)

  pub write_all-Leaves :
      (lines : List Bytes) (s : Here) → Leaves s (write_all terminal host lines s)
  unfolding write_all
  write_all-Leaves [] s = same s
  write_all-Leaves (line ∷ lines) s =
      let s' = console_write_line terminal host line s in
      after s s' (write_all terminal host lines s') (console_write_line-Leaves line s)
        (write_all-Leaves lines s')
