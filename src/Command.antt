-- ===== src/Command.antt =====
-- What the command loop of kernel/command_core.c works on: the context, the console with what it
-- records, the audit log with the node and the proposals, the AI gateway and the editor.
--
-- A context is there wherever the code is given one.
pub mod Chain
pub mod Claims
pub mod Lines
pub mod Status
pub mod Texts
pub mod ReportTexts
pub mod Reports
pub mod Steps
pub mod Dispatch
pub mod Loop
use vita_os.Prelude.{ℕ, ◌∷◌, Bool, Option, some, List, [], codes, Stateful, if◌then◌else◌}
use vita_os.Text.{Bytes}
use vita_os.Audit.Sqlite.{Sqlite}
use vita_os.Audit.State.{Call}
use vita_os.Storage.Host.{Host, HostFrame}
use vita_os.Storage.Files.{World}
use vita_os.Transcript.{Station}
use vita_os.Console.{Terminal, Console, Site, console_write_line, write_all}
use vita_os.Console.Attached.{Desk}
use vita_os.Editor.State.{Editor}
use vita_os.Kernel.{Kernel, emit}
use vita_os.Node.Endpoint.{Network}
use vita_os.Export.Lines.{Context}

-- `g_ai_host`, `g_ai_port` and `g_ai_endpoint_configured` of kernel/ai_gateway.c
pub record AiGateway : Type 0 where
  pub host : Bytes
  pub port : ℕ
  pub endpoint_configured : Bool

-- What is not under the repository: the database engine, the C library, the terminal and the file
-- system. `counts` is what `handle_audit_sqlite_summary` asks of the database file at a path: none
-- where it cannot be opened, and no counts where the query fails.
pub record Platform : Type 1 where
  pub sql : Sqlite
  pub net : Network
  pub clock : ℕ → Call
  pub terminal : Terminal
  pub host : Host
  pub frame : HostFrame host
  pub socket_open : Bool
  pub counts : Kernel sql.Db → Bytes → Option (Option (List ℕ))

-- `audit_db_path` is that of the handoff.
pub record Machine (Db Fs Device : Type 0) : Type 0 where
  pub ctx : Context
  pub audit_db_path : Option Bytes
  pub site : Site Fs Device
  pub kernel : Kernel Db
  pub ai : AiGateway
  pub editor : Editor (Desk Fs Device)

module _ (platform : Platform) where
  open platform use {sql, clock, terminal, host}

  abbrev pub Here : Type 0
  Here = Machine sql.Db host.Fs terminal.Device

  -- a step of a command
  abbrev pub Do : Type 0 → Type 0
  Do = Stateful Here

  -- a call of the console, or of a module that prints and records through it
  unfoldable pub on_site : {A : Type 0} → Stateful (Site host.Fs terminal.Device) A → Do A
  on_site f m = let (a, site) = f m.site in (a, record m { site = site })

  -- `console_write_line`
  unfoldable pub say : Bytes → Do Unit
  unfolding on_site
  say line = on_site (λ s. (tt, console_write_line terminal host line s))

  unfoldable pub say_all : List Bytes → Do Unit
  unfolding on_site
  say_all lines = on_site (λ s. (tt, write_all terminal host lines s))

  unfoldable pub on_world : {A : Type 0} → Stateful (World host.Fs) A → Do A
  unfolding on_site
  on_world f = on_site (λ s.
      let (a, w) = f s.station.world in (a, record s { station = record s.station { world = w } }))

  unfoldable pub on_station : (Station host.Fs → Station host.Fs) → Do Unit
  unfolding on_site
  on_station f = on_site (λ s. (tt, record s { station = f s.station }))

  unfoldable pub on_console : (Console terminal.Device → Console terminal.Device) → Do Unit
  unfolding on_site
  on_console f = on_site (λ s. (tt, record s { console = f s.console }))

  -- A call of the node or of the proposals: the lines that it prints go to the console, which does
  -- not read what the call changes.
  unfoldable pub on_kernel : {A : Type 0} → Stateful (Kernel sql.Db) A → Do A
  on_kernel f m =
      let (a, kernel) = f (record m.kernel { printed = [] }) in
      (a, record m { kernel = kernel; site = write_all terminal host kernel.printed m.site })

  -- `audit_emit_boot_event`
  unfoldable pub emit_event : Bytes → Bytes → Do Unit
  emit_event event_type summary m =
      (tt, record m { kernel = emit sql clock event_type summary m.kernel })
