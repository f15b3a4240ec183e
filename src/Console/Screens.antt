-- ===== src/Console/Screens.antt =====
-- The guided screens of kernel/console.c.
use vita_os.Prelude.{
  ℕ, Bool, true, false, Option, none, some, List, [], ◌∷◌, ◌++◌, codes, if◌then◌else◌,
}
use vita_os.Text.{text_or, Bytes, str_copy, str_append, u32_to_dec}
use vita_os.Storage.Host.{Host}
use vita_os.Console.{
  Terminal, Site, console_write_line, console_write_en, console_write_es, console_write_ok,
  console_write_warning, write_all,
}

-- `vita_console_mode_t`
pub data Mode : Type 0 where
  mode_boot mode_guided mode_technical mode_emergency mode_audit mode_nodes : Mode

mode_name : Mode → Bytes
mode_name mode_boot = codes "boot"
mode_name mode_guided = codes "guided"
mode_name mode_technical = codes "technical"
mode_name mode_emergency = codes "emergency"
mode_name mode_audit = codes "audit"
mode_name mode_nodes = codes "nodes"

-- `vita_boot_status_t`
pub record BootStatus : Type 0 where
  pub arch_name : Bytes
  pub console_ready : Bool
  pub audit_ready : Bool

-- `vita_console_state_t`
pub record ConsoleState : Type 0 where
  pub arch_name : Bytes
  pub boot_mode : Bytes
  pub language_mode : Bytes
  pub console_ready : Bool
  pub audit_ready : Bool
  pub proposal_engine_ready : Bool
  pub node_core_ready : Bool
  pub peer_count : ℕ
  pub pending_proposal_count : ℕ
  pub mode : Mode

-- `console_write_kv`: a key and a value in a buffer of 192 bytes
kv : Bytes → Bytes → Bytes
kv key value = str_append (str_copy [] 192 (some key)) 192 (some value)

kv_u32 : Bytes → ℕ → Bytes
unfolding kv
kv_u32 key value = kv key (u32_to_dec value)

-- the lines of `console_guided_show_help`
abbrev pub guided_help : List Bytes
guided_help =
    codes "Help / Ayuda:"
    ∷ codes "status      -> show current guided status"
    ∷ codes "hw          -> show hardware summary when available"
    ∷ codes "audit       -> show audit readiness and restricted-mode note"
    ∷ codes "storage status -> show storage readiness summary"
    ∷ codes "peers       -> show cooperative nodes summary"
    ∷ codes "proposals   -> list current system proposals"
    ∷ codes "selftest    -> run local self-check and export report"
    ∷ codes "diagnostic  -> export local diagnostic bundle"
    ∷ codes "export vitair -> export VitaIR-Tri report"
    ∷ codes "export vitair-state -> alias of export vitair"
    ∷ codes "linux countdown -> safe preview of planned Linux-assisted countdown"
    ∷ codes "emergency   -> enter emergency-oriented flow"
    ∷ codes "helpme      -> show this help and guided menu"
    ∷ codes "clear       -> clear screen and redraw guided header"
    ∷ codes "approve ID  -> approve a proposal"
    ∷ codes "reject ID   -> reject a proposal"
    ∷ codes "shutdown    -> stop current command session"
    ∷ codes "Keys / Teclas: Up/Down history in UEFI, Enter continues paging."
    ∷ []

guided_menu : List Bytes
guided_menu =
    codes "Menu / Menu:"
    ∷ codes "- status"
    ∷ codes "- hw"
    ∷ codes "- audit"
    ∷ codes "- storage status"
    ∷ codes "- peers"
    ∷ codes "- proposals"
    ∷ codes "- selftest"
    ∷ codes "- diagnostic"
    ∷ codes "- export vitair"
    ∷ codes "- export vitair-state"
    ∷ codes "- linux countdown"
    ∷ codes "- emergency"
    ∷ codes "- helpme"
    ∷ codes "- clear"
    ∷ codes "- approve <id>"
    ∷ codes "- reject <id>"
    ∷ codes "- shutdown"
    ∷ []

ready_line : Bool → Bytes → Bytes → Bytes
ready_line true yes_line no_line = yes_line
ready_line false yes_line no_line = no_line

is_set : (ConsoleState → Bool) → Option ConsoleState → Bool
is_set field none = false
is_set field (some state) = field state

welcome_status : Option ConsoleState → List Bytes
unfolding ready_line is_set
welcome_status state =
    codes "VitaOS with AI / VitaOS con IA"
    ∷ []
    ∷ codes "Status / Estado:"
    ∷ codes "- Boot: OK"
    ∷ codes "- Audit journal TXT/JSONL: runtime-check / verificacion en tiempo real"
    ∷ ready_line (is_set (λ s. s.audit_ready) state)
        (codes "- Audit SQLite: READY / Auditoria SQLite: LISTA")
        (codes "- Audit SQLite: UNAVAILABLE / Auditoria SQLite: NO DISPONIBLE")
    ∷ ready_line (is_set (λ s. s.console_ready) state)
        (codes "- Guided console: READY / Consola guiada: LISTA")
        (codes "- Guided console: OFFLINE / Consola guiada: FUERA DE LINEA")
    ∷ ready_line (is_set (λ s. s.proposal_engine_ready) state)
        (codes "- Proposal engine: READY / Motor de propuestas: LISTO")
        (codes "- Proposal engine: OFFLINE / Motor de propuestas: FUERA DE LINEA")
    ∷ ready_line (is_set (λ s. s.node_core_ready) state)
        (codes "- VitaNet hosted: READY / VitaNet hosted: LISTO")
        (codes "- VitaNet hosted: LIMITED / VitaNet hosted: LIMITADO")
    ∷ []

welcome_state : Option ConsoleState → List Bytes
unfolding kv kv_u32 text_or mode_name
welcome_state none = []
welcome_state (some state) =
    kv (codes "Arch / Arquitectura: ") (text_or state.arch_name (codes "unknown"))
    ∷ kv (codes "Mode / Modo: ") (mode_name state.mode)
    ∷ kv (codes "Boot mode / Modo de arranque: ") (text_or state.boot_mode (codes "unknown"))
    ∷ kv (codes "Language / Idioma: ") (text_or state.language_mode (codes "es,en"))
    ∷ kv_u32 (codes "Peers / Nodos detectados: ") state.peer_count
    ∷ kv_u32 (codes "Pending proposals / Propuestas pendientes: ") state.pending_proposal_count
    ∷ []

welcome_offer : List Bytes
welcome_offer =
    []
    ∷ codes "I can help you with / Puedo ayudarte con:"
    ∷ codes "1. Emergency assistance / Asistencia de emergencia"
    ∷ codes "2. Hardware and system status / Estado de hardware y sistema"
    ∷ codes "3. Cooperative nodes / Nodos cooperativos"
    ∷ codes "4. Audit review / Revision de auditoria"
    ∷ codes "5. Technical console / Consola tecnica"
    ∷ []
    ∷ codes "Describe what happened or choose an option."
    ∷ codes "Describe que paso o elige una opcion."
    ∷ []

status_lines : Option ConsoleState → List Bytes
unfolding kv kv_u32 text_or mode_name ready_line
status_lines none =
    codes "Guided status / Estado guiado:"
    ∷ codes "No state available / No hay estado disponible"
    ∷ []
status_lines (some state) =
    codes "Guided status / Estado guiado:"
    ∷ kv (codes "Arch: ") (text_or state.arch_name (codes "unknown"))
    ∷ kv (codes "Mode: ") (mode_name state.mode)
    ∷ kv (codes "Boot mode: ") (text_or state.boot_mode (codes "unknown"))
    ∷ kv (codes "Language: ") (text_or state.language_mode (codes "es,en"))
    ∷ ready_line state.console_ready (codes "Console: OK") (codes "Console: MISSING")
    ∷ ready_line state.audit_ready (codes "Audit SQLite: READY") (codes "Audit SQLite: UNAVAILABLE")
    ∷ ready_line state.proposal_engine_ready (codes "Proposal engine: READY")
        (codes "Proposal engine: OFFLINE")
    ∷ ready_line state.node_core_ready (codes "Node core: READY") (codes "Node core: LIMITED")
    ∷ kv_u32 (codes "Peers discovered: ") state.peer_count
    ∷ kv_u32 (codes "Pending proposals: ") state.pending_proposal_count
    ∷ []

module _ (terminal : Terminal) (host : Host) where
  abbrev pub Here : Type 0
  Here = Site host.Fs terminal.Device

  banner_arch : Bytes → Here → Here
  banner_arch [] = console_write_warning terminal host (codes "Arch: unknown")
  banner_arch (c ∷ arch) =
      console_write_line terminal host
        (str_append (str_copy [] 96 (some (codes "Arch: "))) 96 (some (c ∷ arch)))

  banner_audit : Bool → Here → Here
  banner_audit true s =
      console_write_ok terminal host (codes "Audit SQLite: READY")
        (console_write_ok terminal host (codes "Audit journal: OK") s)
  banner_audit false s = console_write_warning terminal host (codes "Audit SQLite: UNAVAILABLE") (
      console_write_ok terminal host
        (codes "Audit journal: OK/WARN (depends on storage+journal runtime)") s)

  pub console_banner : BootStatus → Here → Here
  unfolding banner_arch banner_audit
  console_banner status s =
      let greeted = console_write_ok terminal host (codes "Boot: OK") (
        console_write_es terminal host (codes "VitaOS con IA")
          (console_write_en terminal host (codes "VitaOS with AI /") s)) in
      let placed = banner_arch status.arch_name greeted in
      banner_audit status.audit_ready (
        if status.console_ready
        then console_write_ok terminal host (codes "Console: OK") placed
        else console_write_warning terminal host (codes "Console: MISSING") placed)

  pub console_guided_show_welcome : Option ConsoleState → Here → Here
  unfolding welcome_status welcome_state welcome_offer
  console_guided_show_welcome state =
      write_all terminal host (welcome_status state ++ (welcome_state state ++ welcome_offer))

  pub console_guided_show_menu : Here → Here
  unfolding guided_menu
  console_guided_show_menu = write_all terminal host guided_menu

  pub console_guided_show_help : Here → Here
  console_guided_show_help = write_all terminal host guided_help

  pub console_guided_show_status : Option ConsoleState → Here → Here
  unfolding status_lines
  console_guided_show_status state = write_all terminal host (status_lines state)
