-- ===== src/Console/Status/Frame.antt =====
-- Showing the state of the storage leaves the files alone.
use vita_os.Prelude.{List, [], ◌∷◌, if_elim}
use vita_os.Text.{Bytes}
use vita_os.Storage.Host.{Host, HostFrame}
use vita_os.Storage.Files.{StorageState}
use vita_os.Console.{Terminal, Site, console_write_line, write_all}
use vita_os.Console.Recorded.{Leaves, same, after, console_write_line-Leaves, write_all-Leaves}
use vita_os.Console.Status.{
  state_lines, say_state, degraded_line, say_degraded, command_lines, storage_show_status,
}

module _ (terminal : Terminal) (host : Host) (frame : HostFrame host) (path : Bytes) where
  abbrev Here : Type 0
  Here = Site host.Fs terminal.Device

  abbrev Leaves' : Here → Here → Type 0
  Leaves' = Leaves terminal host frame path

  done : (a b c : Here) → Leaves' a b → Leaves' b c → Leaves' a c
  done = after terminal host frame path

  prints : (text : Bytes) (s : Here) → Leaves' s (console_write_line terminal host text s)
  prints = console_write_line-Leaves terminal host frame path

  say_state-Leaves :
      (lines : List (StorageState → Bytes)) (s : Here) → Leaves' s (say_state terminal host lines s)
  unfolding say_state
  say_state-Leaves [] s = same terminal host frame path s
  say_state-Leaves (line ∷ lines) s =
      let s' = console_write_line terminal host (line s.station.world.storage) s in
      done s s' (say_state terminal host lines s') (prints (line s.station.world.storage) s)
        (say_state-Leaves lines s')

  say_degraded-Leaves : (s : Here) → Leaves' s (say_degraded terminal host s)
  unfolding say_degraded
  say_degraded-Leaves s =
      if_elim (λ (t : Here). Leaves' s t) _ _ s (λ _. prints degraded_line s)
        (λ _. same terminal host frame path s)

  -- `storage status` changes no file outside /vita/audit/ and no switch of the storage facade.
  pub storage_show_status-Leaves : (s : Here) → Leaves' s (storage_show_status terminal host s)
  unfolding storage_show_status
  storage_show_status-Leaves s =
      let one = say_state terminal host state_lines s in
      let two = say_degraded terminal host one in
      let three = write_all terminal host command_lines two in
      done s one three (say_state-Leaves state_lines s) (
        done one two three (say_degraded-Leaves one)
          (write_all-Leaves terminal host frame path command_lines two))
