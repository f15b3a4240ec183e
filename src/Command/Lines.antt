-- ===== src/Command/Lines.antt =====
-- The lines that kernel/command_core.c shows of the hardware, of the audit and in an emergency.
use vita_os.Prelude.{Bool, true, false, List, [], ◌∷◌, ◌++◌, codes, if◌then◌else◌}
use vita_os.Text.{text_or, Bytes, u64_to_dec}
use vita_os.Audit.Rows.{HwSnapshot}
use vita_os.Transcript.Start.{Firmware}
use vita_os.Console.Screens.{BootStatus, mode_guided, mode_audit}
use vita_os.Export.Lines.{Context, boot_mode_name, known}
use vita_os.VitaIr.{Status, status_ok, RuntimeStatus, Claim}

is_ok : Status → Bool
is_ok status_ok = true
is_ok _ = false

-- one of two lines
either : Bool → Bytes → Bytes → Bytes
either true on off = on
either false on off = off

-- the lines of `show_audit` between its heading and the claims
unfoldable pub audit_lines : RuntimeStatus → List Bytes
unfolding is_ok either
audit_lines rt =
    let journal = is_ok rt.journal_jsonl_status in
    either journal (codes "Audit journal TXT/JSONL: OK") (codes "Audit journal TXT/JSONL: WARN")
    ∷ (if is_ok rt.sqlite_status
        then codes "Audit SQLite: READY / Auditoria SQLite: LISTA"
          ∷ codes "Persistent audit backend is active for this session."
          ∷ codes "La bitacora persistente esta activa para esta sesion."
          ∷ either journal (codes "audit persistence: journal/jsonl active; sqlite hosted ready")
              (codes "audit persistence: sqlite hosted ready; journal inactive")
          ∷ []
        else codes "Audit SQLite: UNAVAILABLE / Auditoria SQLite: NO DISPONIBLE"
          ∷ either journal (codes "audit persistence: journal/jsonl active (restricted mode)")
              (codes "audit persistence: restricted diagnostic")
          ∷ codes "Restricted diagnostic mode is active."
          ∷ codes "Modo diagnostico restringido activo."
          ∷ codes "storage_writable:"
          ∷ either rt.persistent_storage_writable (codes "true") (codes "false")
          ∷ codes
              "UEFI physical boot can still run local console commands, but it must not claim full operational mode until persistent audit exists."
          ∷ codes
              "En UEFI fisico puedes usar comandos locales, pero el modo operativo completo requiere auditoria persistente."
          ∷ [])

-- a heading, and the lines behind it, unless there is no claim
unfoldable pub headed : Bytes → Bytes → List Claim → List Bytes → List Bytes
headed heading missing [] lines = missing ∷ []
headed heading missing (c ∷ claims) lines = heading ∷ lines

no_hardware : List Bytes
no_hardware =
    codes "HW Snapshot / Resumen de hardware:"
    ∷ codes "No hardware snapshot available / No hay resumen de hardware disponible"
    ∷ []

hardware_lines : HwSnapshot → List Bytes
unfolding known text_or
hardware_lines hw =
    codes "HW Snapshot / Resumen de hardware:"
    ∷ codes "cpu_arch:"
    ∷ known hw.cpu_arch
    ∷ codes "cpu_model:"
    ∷ text_or hw.cpu_model (codes "unavailable")
    ∷ codes "ram_bytes:"
    ∷ u64_to_dec hw.ram_bytes
    ∷ codes "firmware_type:"
    ∷ known hw.firmware_type
    ∷ codes "console_type:"
    ∷ known hw.console_type
    ∷ codes "display_count:"
    ∷ u64_to_dec hw.display_count
    ∷ codes "keyboard_count:"
    ∷ u64_to_dec hw.keyboard_count
    ∷ codes "mouse_count:"
    ∷ u64_to_dec hw.mouse_count
    ∷ codes "audio_count:"
    ∷ u64_to_dec hw.audio_count
    ∷ codes "microphone_count:"
    ∷ u64_to_dec hw.microphone_count
    ∷ codes "net_count:"
    ∷ u64_to_dec hw.net_count
    ∷ codes "ethernet_count:"
    ∷ u64_to_dec hw.ethernet_count
    ∷ codes "wifi_count:"
    ∷ u64_to_dec hw.wifi_count
    ∷ codes "storage_count:"
    ∷ u64_to_dec hw.storage_count
    ∷ codes "usb_count:"
    ∷ u64_to_dec hw.usb_count
    ∷ codes "usb_controller_count:"
    ∷ u64_to_dec hw.usb_controller_count
    ∷ codes "detected_at_unix:"
    ∷ u64_to_dec hw.detected_at_unix
    ∷ []

-- `show_hw`: the lines
unfoldable pub hw_lines : Context → List Bytes
unfolding hardware_lines no_hardware
hw_lines ctx = if ctx.hw_ready then hardware_lines ctx.hw_snapshot else no_hardware

-- The lines of `show_emergency`, with the text of the user where there is one.
unfoldable pub emergency_lines : Context → Bytes → List Bytes
unfolding hw_lines text_or
emergency_lines ctx text =
    codes "Emergency guided flow / Flujo de emergencia guiada:"
    ∷ []
    ∷ codes "1. Resumen entendido / Understood summary:"
    ∷ text_or text (codes "Emergency mode requested / Modo emergencia solicitado")
    ∷ codes "2. Riesgos inmediatos / Immediate risks:"
    ∷ codes
        "Protect life first: breathing, bleeding, fire, unsafe structure, cold/heat, dehydration, getting lost."
    ∷ codes
        "Primero protege la vida: respiracion, sangrado, fuego, estructura insegura, frio/calor, deshidratacion, extravio."
    ∷ codes "3. Preguntas criticas / Critical questions:"
    ∷ codes
        "How many people are affected? Is anyone unconscious, bleeding, trapped, or in immediate danger?"
    ∷ codes
        "Cuantas personas estan afectadas? Alguien esta inconsciente, sangrando, atrapado o en peligro inmediato?"
    ∷ codes "Where are you, what resources do you have, and can you safely stay in place?"
    ∷ codes "Donde estas, que recursos tienes y puedes quedarte en un lugar seguro?"
    ∷ codes "4. Acciones inmediatas sugeridas / Suggested immediate actions:"
    ∷ codes
        "Stop, secure the area, count people, treat life-threatening bleeding, preserve heat, conserve water, signal for help."
    ∷ codes
        "Detente, asegura el area, cuenta personas, atiende sangrado grave, conserva calor, ahorra agua, senaliza ayuda."
    ∷ codes "5. Recursos del sistema disponibles / Available system resources:"
    ∷ ((if ctx.hw_ready
          then hw_lines ctx
          else codes "Hardware summary unavailable / Resumen de hardware no disponible" ∷ [])
        ++ (codes "6. Propuesta de accion del sistema / System proposal:"
            ∷ codes
                "Use 'proposals' to review available actions, then 'approve <id>' or 'reject <id>'."
            ∷ codes
                "Usa 'proposals' para revisar acciones disponibles, luego 'approve <id>' o 'reject <id>'."
            ∷ codes "7. Estado de auditoria / Audit state:"
            ∷ (if ctx.boot_status.audit_ready
                then codes "READY / LISTA" ∷ []
                else codes "Audit journal: active when persistent storage is available"
                  ∷ codes "Audit SQLite: unavailable"
                  ∷ codes "Operational mode: restricted diagnostic"
                  ∷ [])))

-- `command_context_init` behind its copy of the boot status and of the hardware
unfoldable pub initial_context : Firmware → BootStatus → HwSnapshot → Bool → Bool → Bool → Context
unfolding known boot_mode_name
initial_context firmware boot hw hw_ready proposal_ready node_ready = record {
  firmware = firmware;
  boot_status = boot;
  console_state = record {
    arch_name = known boot.arch_name;
    boot_mode = boot_mode_name firmware;
    language_mode = codes "es,en";
    console_ready = boot.console_ready;
    audit_ready = boot.audit_ready;
    proposal_engine_ready = proposal_ready;
    node_core_ready = node_ready;
    peer_count = 0;
    pending_proposal_count = 0;
    mode = if boot.audit_ready then mode_guided else mode_audit;
  };
  hw_snapshot = hw;
  hw_ready = hw_ready;
  proposal_ready = proposal_ready;
  node_ready = node_ready;
}
