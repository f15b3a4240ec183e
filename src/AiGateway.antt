-- ===== src/AiGateway.antt =====
-- The AI gateway of kernel/ai_gateway.c: an endpoint kept in memory, and a local answer.
pub mod Endpoint
pub mod Chain
use vita_os.Prelude.{
  ℕ, zero, suc, ◌+◌, ◌-◌, ◌*◌, Bool, true, false, not, ◌||◌, ◌&&◌, Option, none, some, List, [],
  ◌∷◌, ◌++◌, codes, drop, ltb, ◌==◌, if◌then◌else◌, ◌>>=◌, ◌>>◌, pure,
}
use vita_os.Text.{
  Bytes, str_eq, starts_with, is_space_char, skip_spaces, str_copy, str_append, u32_to_dec,
}
use vita_os.Command.{AiGateway, Platform, Do, say, say_all, emit_event}

-- `parse_uint_port`: the loop, with the value and the number of the digits so far
port_digits : ℕ → ℕ → Bytes → Option ℕ
unfolding is_space_char
port_digits value digits [] = if digits == 0 || value == 0 then none else some value
port_digits value digits (c ∷ s) =
    let next = value * 10 + (c - b'0') in
    let rest = port_digits next (digits + 1) s in
    if is_space_char c
    then if digits == 0 || value == 0 then none else some value
    else if ltb c b'0' || ltb b'9' c
    then none
    else if ltb 65535 next
    then none
    else rest

parse_uint_port : Bytes → Option ℕ
unfolding port_digits skip_spaces
parse_uint_port s = port_digits 0 0 (skip_spaces s)

-- The word at the start, of as many characters as there is room for, and what is behind it.
split_word : ℕ → Bytes → Bytes × Bytes
unfolding is_space_char
split_word zero s = ([], s)
split_word (suc room) [] = ([], [])
split_word (suc room) (c ∷ s) =
    let (word, rest) = split_word room s in
    if is_space_char c then ([], c ∷ s) else (c ∷ word, rest)

-- whether a text goes on with something that is no space
goes_on : Bytes → Bool
unfolding is_space_char
goes_on [] = false
goes_on (c ∷ s) = not (is_space_char c)

with_port : Bytes → Option ℕ → Option (Bytes × ℕ)
with_port host none = none
with_port host (some port) = some (host, port)

-- `parse_host_port` behind the host
host_port : Bytes × Bytes → Option (Bytes × ℕ)
unfolding goes_on with_port parse_uint_port skip_spaces
host_port ([], rest) = none
host_port (c ∷ host, rest) =
    if goes_on rest then none else with_port (c ∷ host) (parse_uint_port (skip_spaces rest))

-- The host has room for 63 characters.
pub parse_host_port : Bytes → Option (Bytes × ℕ)
unfolding skip_spaces split_word host_port
parse_host_port args = host_port (split_word 63 (skip_spaces args))

-- `write_endpoint_line` in a buffer of 128 bytes
endpoint_line : AiGateway → Bytes
endpoint_line ai =
    if not ai.endpoint_configured
    then codes "Endpoint: not configured / no configurado"
    else str_append
        (str_append (str_append (str_copy [] 128 (some (codes "Endpoint: "))) 128 (some ai.host))
          128 (some (codes ":")))
        128 (some (u32_to_dec ai.port))

help_lines : List Bytes
help_lines =
    codes "AI gateway / Puerta de IA remota:"
    ∷ codes "ai status                 -> show remote assistant readiness"
    ∷ codes "ai connect <host> <port>  -> store target endpoint in memory"
    ∷ codes "ai disconnect             -> clear target endpoint"
    ∷ codes "ai ask <text>             -> local structured fallback until network transport exists"
    ∷ codes "Scope: status/stub only; no DHCP/TCP/DNS/TLS or Wi-Fi auth yet."
    ∷ []

-- the lines of the local answer, around the prompt
fallback_lines : Bytes → List Bytes
fallback_lines prompt =
    codes "Transport result / Resultado de transporte:"
    ∷ codes "Not sent yet. Network transport is planned for the next patches."
    ∷ codes "Aun no se envia. El transporte de red queda para los siguientes parches."
    ∷ []
    ∷ codes "Local structured fallback / Respuesta local estructurada:"
    ∷ codes "1. Resumen entendido / Understood summary:"
    ∷ prompt
    ∷ codes "2. Riesgos inmediatos / Immediate risks:"
    ∷ codes "Do not treat remote AI as available until network and audit are ready."
    ∷ codes "No trates la IA remota como disponible hasta tener red y auditoria listas."
    ∷ codes "3. Preguntas criticas / Critical questions:"
    ∷ codes "Is Ethernet present? Is audit persistent? Is the remote endpoint trusted?"
    ∷ codes "Hay Ethernet? La auditoria es persistente? El endpoint remoto es confiable?"
    ∷ codes "4. Acciones inmediatas sugeridas / Suggested immediate actions:"
    ∷ codes
        "Use 'net status', configure endpoint with 'ai connect', then retry when network transport exists."
    ∷ codes
        "Usa 'net status', configura endpoint con 'ai connect' y reintenta cuando exista transporte de red."
    ∷ codes "5. Recursos del sistema disponibles / Available system resources:"
    ∷ codes "Local console, proposal engine, hardware snapshot, audit state reporting."
    ∷ codes "6. Propuesta del sistema / System proposal:"
    ∷ codes
        "Keep this as an auditable stub until Ethernet/DHCP and secure transport are implemented."
    ∷ codes "7. Estado de auditoria / Audit state:"
    ∷ codes "AI gateway command emitted an audit event when the backend is available."
    ∷ []

status_lines : AiGateway → List Bytes
unfolding endpoint_line
status_lines ai =
    codes "Remote AI gateway / Puerta de IA remota:"
    ∷ endpoint_line ai
    ∷ codes "Transport: not connected / no conectado"
    ∷ codes "Network backend: pending patch / backend de red pendiente"
    ∷ codes "Security: TLS not implemented yet / TLS no implementado todavia"
    ∷ codes "Mode: local audited stub / modo: stub local auditable"
    ∷ []

-- where a request would go
target_lines : AiGateway → List Bytes
unfolding endpoint_line
target_lines ai =
    if ai.endpoint_configured
    then endpoint_line ai ∷ []
    else codes "Endpoint: not configured; using local fallback."
      ∷ codes "Endpoint no configurado; usando respuesta local."
      ∷ []

module _ (platform : Platform) where
  set_ai : AiGateway → Do platform Unit
  set_ai ai m = (tt, record m { ai = ai })

  say_about : (AiGateway → List Bytes) → Do platform Unit
  say_about lines m = say_all platform (lines m.ai) m

  -- `ai_gateway_connect` behind its parse
  store_endpoint : Option (Bytes × ℕ) → Do platform Unit
  unfolding set_ai say_about endpoint_line
  store_endpoint none = say_all platform (
      codes "Usage / Uso: ai connect <host> <port>"
      ∷ codes "Example / Ejemplo: ai connect 192.168.1.10 8080"
      ∷ [])
  store_endpoint (some (host, port)) = do
    set_ai (record { host = host; port = port; endpoint_configured = true })
    emit_event platform (codes "AI_GATEWAY_ENDPOINT_SET") host
    say_all platform (
        codes "AI endpoint stored in memory / Endpoint IA guardado en memoria"
        ∷ codes "No network connection was attempted in this patch."
        ∷ [])
    say_about (λ ai. endpoint_line ai ∷ [])

  ai_gateway_disconnect : Do platform Unit
  unfolding set_ai
  ai_gateway_disconnect = do
    set_ai (record { host = []; port = 0; endpoint_configured = false })
    emit_event platform (codes "AI_GATEWAY_ENDPOINT_CLEARED") (codes "ai disconnect")
    say platform (codes "AI endpoint cleared / Endpoint IA limpiado")

  -- `ai_gateway_ask` behind the spaces
  ask : Bytes → Do platform Unit
  unfolding say_about target_lines fallback_lines
  ask [] = say platform (codes "Usage / Uso: ai ask <text>")
  ask (c ∷ prompt) = do
    emit_event platform (codes "AI_GATEWAY_ASK_STUB") (c ∷ prompt)
    say platform (codes "Remote assistant request / Solicitud a IA remota:")
    say_about target_lines
    say_all platform (fallback_lines (c ∷ prompt))

  handled : Do platform Unit → Do platform Bool
  handled step = do step; pure true

  -- The command of `ai_gateway_handle_command` behind its spaces.
  gateway_command : Bytes → Do platform Bool
  unfolding handled say_about status_lines help_lines store_endpoint parse_host_port
      ai_gateway_disconnect ask skip_spaces
  gateway_command cmd =
      if str_eq cmd (codes "ai") || str_eq cmd (codes "ai status")
      then handled (do
        emit_event platform (codes "COMMAND_AI_STATUS") (codes "ai status")
        say_about status_lines)
      else if str_eq cmd (codes "ai help")
      then handled (do
        emit_event platform (codes "COMMAND_AI_HELP") (codes "ai help")
        say_all platform help_lines)
      else if starts_with cmd (codes "ai connect ")
      then handled (store_endpoint (parse_host_port (drop 11 cmd)))
      else if str_eq cmd (codes "ai disconnect")
      then handled ai_gateway_disconnect
      else if starts_with cmd (codes "ai ask ")
      then handled (ask (skip_spaces (drop 7 cmd)))
      else pure false

  unfoldable pub ai_gateway_handle_command : Bytes → Do platform Bool
  unfolding gateway_command skip_spaces
  ai_gateway_handle_command line = gateway_command (skip_spaces line)
