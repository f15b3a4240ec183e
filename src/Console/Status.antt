-- ===== src/Console/Status.antt =====
-- storage_show_status of kernel/storage.c, whose lines the console records.
pub mod Frame
use vita_os.Prelude.{Bool, true, false, not, List, [], ◌∷◌, codes, if◌then◌else◌}
use vita_os.Text.{text_or, Bytes}
use vita_os.Storage.Host.{Host}
use vita_os.Storage.Files.{StorageState}
use vita_os.Console.{Terminal, Site, console_write_line, write_all}

-- The lines that report the state, each of them worked out when its turn comes.
state_lines : List (StorageState → Bytes)
unfolding text_or
state_lines =
    (λ s. codes "Estado de almacenamiento / Storage status:")
    ∷ (λ s. if s.initialized then codes "initialized: yes" else codes "initialized: no")
    ∷ (λ s. if s.writable then codes "writable: yes" else codes "writable: no")
    ∷ (λ s.
        if s.bootstrap_attempted
        then codes "bootstrap_attempted: yes"
        else codes "bootstrap_attempted: no")
    ∷ (λ s.
        if s.bootstrap_verified
        then codes "storage: verified writable / almacenamiento verificado escribible"
        else codes
            "storage: unavailable or unverified / almacenamiento no disponible o no verificado")
    ∷ (λ s.
        if s.bootstrap_verified
        then codes "storage bootstrap: verified / bootstrap verificado"
        else codes "storage bootstrap: failed / bootstrap fallido")
    ∷ (λ s. codes "backend:")
    ∷ (λ s. text_or s.backend_name (codes "none"))
    ∷ (λ s. codes "root_hint:")
    ∷ (λ s. text_or s.root_hint (codes "/vita"))
    ∷ (λ s. codes "last_error:")
    ∷ (λ s. text_or s.last_error (codes "none"))
    ∷ []

degraded_line : Bytes
degraded_line =
    codes "Estado degradado: el almacenamiento no esta verificado; revisar last_error y root_hint."

command_lines : List Bytes
command_lines =
    codes "Commands / Comandos:"
    ∷ codes "storage status"
    ∷ codes "storage test"
    ∷ codes "storage write /vita/notes/test.txt hello from VitaOS"
    ∷ codes "storage read /vita/notes/test.txt"
    ∷ codes "cat /vita/notes/test.txt"
    ∷ codes "storage repair | storage check | storage probe"
    ∷ codes "storage last-error"
    ∷ codes "notes list"
    ∷ []

module _ (terminal : Terminal) (host : Host) where
  say_state :
      List (StorageState → Bytes) → Site host.Fs terminal.Device → Site host.Fs terminal.Device
  say_state [] s = s
  say_state (line ∷ lines) s =
      say_state lines (console_write_line terminal host (line s.station.world.storage) s)

  say_degraded : Site host.Fs terminal.Device → Site host.Fs terminal.Device
  unfolding degraded_line
  say_degraded s =
      if not s.station.world.storage.bootstrap_verified
      then console_write_line terminal host degraded_line s
      else s

  pub storage_show_status : Site host.Fs terminal.Device → Site host.Fs terminal.Device
  unfolding state_lines say_state say_degraded command_lines
  storage_show_status s =
      write_all terminal host command_lines (say_degraded (say_state state_lines s))
