-- ===== src/Command/Texts.antt =====
-- The texts of the reports of kernel/command_core.c.
use vita_os.Prelude.{List, [], ◌∷◌, ◌++◌, codes}
use vita_os.Text.{Bytes}

unfoldable pub joined : List Bytes → Bytes
joined [] = []
joined (text ∷ texts) = text ++ joined texts

unfoldable pub verify_ok : Bytes
unfolding joined
verify_ok = joined (codes "audit_verify: ok\n" ∷ codes "scope: current boot hash chain\n" ∷ [])

unfoldable pub verify_limited : Bytes
unfolding joined
verify_limited =
    joined
      (codes "audit_verify: unavailable\n" ∷ codes "scope: uefi restricted diagnostic mode\n" ∷ [])

unfoldable pub verify_jsonl_ok : Bytes
unfolding joined
verify_jsonl_ok =
    joined (codes "{\"type\":\"audit_verify\",\"status\":\"ok\",\"scope\":\"current_boot\"}\n" ∷ [])

unfoldable pub verify_jsonl_limited : Bytes
unfolding joined
verify_jsonl_limited = joined (
    codes "{\"type\":\"audit_verify\",\"status\":\"unavailable\",\"scope\":\"uefi_restricted\"}\n"
    ∷ [])

unfoldable pub events_text : Bytes
unfolding joined
events_text = joined (
    codes "current_session_events: minimal export\n"
    ∷ codes "note: use hosted SQLite for full query depth\n"
    ∷ [])

unfoldable pub events_jsonl : Bytes
unfolding joined
events_jsonl = joined (
    codes "{\"type\":\"current_session_events\",\"status\":\"exported\",\"mode\":\"minimal\"}\n"
    ∷ [])

unfoldable pub diagnostic_txt_ready_uefi : Bytes
unfolding joined
diagnostic_txt_ready_uefi = joined (
    codes "Diagnostico VitaOS / VitaOS diagnostic\n"
    ∷ codes "[estado]\n"
    ∷ codes "diagnostic_bundle: generated\n"
    ∷ codes "[auditoria]\n"
    ∷ codes "audit_mode: hosted_sqlite_ready\n"
    ∷ codes "[almacenamiento]\n"
    ∷ codes "arch: x86_64\n"
    ∷ codes "firmware: hosted\n"
    ∷ codes "boot_mode: hosted\n"
    ∷ codes "boot_id: unknown\n"
    ∷ codes "node_id: unknown\n"
    ∷ codes "host_id: unknown\n"
    ∷ codes "storage_backend: uefi_simple_fs\n"
    ∷ codes "storage_state: verified\n"
    ∷ codes "[hardware]\n"
    ∷ codes "hardware_snapshot: available\n"
    ∷ codes "[limitaciones]\n"
    ∷ codes "wifi_transport: no implementado\n"
    ∷ codes "network_remote_ai: no implementado\n"
    ∷ [])

unfoldable pub diagnostic_txt_ready_other : Bytes
unfolding joined
diagnostic_txt_ready_other = joined (
    codes "Diagnostico VitaOS / VitaOS diagnostic\n"
    ∷ codes "[estado]\n"
    ∷ codes "diagnostic_bundle: generated\n"
    ∷ codes "[auditoria]\n"
    ∷ codes "audit_mode: hosted_sqlite_ready\n"
    ∷ codes "[almacenamiento]\n"
    ∷ codes "arch: x86_64\n"
    ∷ codes "firmware: hosted\n"
    ∷ codes "boot_mode: hosted\n"
    ∷ codes "boot_id: unknown\n"
    ∷ codes "node_id: unknown\n"
    ∷ codes "host_id: unknown\n"
    ∷ codes "storage_backend: hostfs\n"
    ∷ codes "storage_state: verified\n"
    ∷ codes "[hardware]\n"
    ∷ codes "hardware_snapshot: available\n"
    ∷ codes "[limitaciones]\n"
    ∷ codes "wifi_transport: no implementado\n"
    ∷ codes "network_remote_ai: no implementado\n"
    ∷ [])

unfoldable pub diagnostic_txt_limited_uefi : Bytes
unfolding joined
diagnostic_txt_limited_uefi = joined (
    codes "Diagnostico VitaOS / VitaOS diagnostic\n"
    ∷ codes "[estado]\n"
    ∷ codes "diagnostic_bundle: generated\n"
    ∷ codes "[auditoria]\n"
    ∷ codes "audit_mode: uefi_restricted_diagnostic\n"
    ∷ codes "[almacenamiento]\n"
    ∷ codes "arch: x86_64\n"
    ∷ codes "firmware: uefi\n"
    ∷ codes "boot_mode: uefi\n"
    ∷ codes "boot_id: unknown\n"
    ∷ codes "node_id: unknown\n"
    ∷ codes "host_id: unknown\n"
    ∷ codes "storage_backend: uefi_simple_fs\n"
    ∷ codes "storage_state: verified\n"
    ∷ codes "[hardware]\n"
    ∷ codes "hardware_snapshot: no disponible\n"
    ∷ codes "[limitaciones]\n"
    ∷ codes "wifi_transport: no implementado\n"
    ∷ codes "network_remote_ai: no implementado\n"
    ∷ [])

unfoldable pub diagnostic_txt_limited_other : Bytes
unfolding joined
diagnostic_txt_limited_other = joined (
    codes "Diagnostico VitaOS / VitaOS diagnostic\n"
    ∷ codes "[estado]\n"
    ∷ codes "diagnostic_bundle: generated\n"
    ∷ codes "[auditoria]\n"
    ∷ codes "audit_mode: uefi_restricted_diagnostic\n"
    ∷ codes "[almacenamiento]\n"
    ∷ codes "arch: x86_64\n"
    ∷ codes "firmware: uefi\n"
    ∷ codes "boot_mode: uefi\n"
    ∷ codes "boot_id: unknown\n"
    ∷ codes "node_id: unknown\n"
    ∷ codes "host_id: unknown\n"
    ∷ codes "storage_backend: unknown\n"
    ∷ codes "storage_state: degraded\n"
    ∷ codes "[hardware]\n"
    ∷ codes "hardware_snapshot: no disponible\n"
    ∷ codes "[limitaciones]\n"
    ∷ codes "wifi_transport: no implementado\n"
    ∷ codes "network_remote_ai: no implementado\n"
    ∷ [])

unfoldable pub diagnostic_jsonl_ready_uefi : Bytes
unfolding joined
diagnostic_jsonl_ready_uefi = joined (
    codes
      "{\"type\":\"diagnostic_bundle\",\"audit_mode\":\"hosted_sqlite_ready\",\"arch\":\"x86_64\",\"firmware\":\"hosted\",\"boot_mode\":\"hosted\",\"boot_id\":\"unknown\",\"node_id\":\"unknown\",\"host_id\":\"unknown\",\"storage_backend\":\"uefi_simple_fs\",\"storage_state\":\"verified\"}\n"
    ∷ [])

unfoldable pub diagnostic_jsonl_ready_other : Bytes
unfolding joined
diagnostic_jsonl_ready_other = joined (
    codes
      "{\"type\":\"diagnostic_bundle\",\"audit_mode\":\"hosted_sqlite_ready\",\"arch\":\"x86_64\",\"firmware\":\"hosted\",\"boot_mode\":\"hosted\",\"boot_id\":\"unknown\",\"node_id\":\"unknown\",\"host_id\":\"unknown\",\"storage_backend\":\"hostfs\",\"storage_state\":\"verified\"}\n"
    ∷ [])

unfoldable pub diagnostic_jsonl_limited_uefi : Bytes
unfolding joined
diagnostic_jsonl_limited_uefi = joined (
    codes
      "{\"type\":\"diagnostic_bundle\",\"audit_mode\":\"uefi_restricted_diagnostic\",\"arch\":\"x86_64\",\"firmware\":\"uefi\",\"boot_mode\":\"uefi\",\"boot_id\":\"unknown\",\"node_id\":\"unknown\",\"host_id\":\"unknown\",\"storage_backend\":\"uefi_simple_fs\",\"storage_state\":\"verified\"}\n"
    ∷ [])

unfoldable pub diagnostic_jsonl_limited_other : Bytes
unfolding joined
diagnostic_jsonl_limited_other = joined (
    codes
      "{\"type\":\"diagnostic_bundle\",\"audit_mode\":\"uefi_restricted_diagnostic\",\"arch\":\"x86_64\",\"firmware\":\"uefi\",\"boot_mode\":\"uefi\",\"boot_id\":\"unknown\",\"node_id\":\"unknown\",\"host_id\":\"unknown\",\"storage_backend\":\"unknown\",\"storage_state\":\"degraded\"}\n"
    ∷ [])

unfoldable pub selftest_txt_pass : Bytes
unfolding joined
selftest_txt_pass = joined (
    codes "Resultado: PASS/WARN/FAIL -> PASS\n"
    ∷ codes "Consola: PASS\n"
    ∷ codes "Almacenamiento: OK (verified writable)\n"
    ∷ codes "Audit journal TXT/JSONL: OK\n"
    ∷ codes "Audit SQLite: OK\n"
    ∷ codes "Operational mode: full\n"
    ∷ codes "Limitaciones: no implementado wifi/network remoto\n"
    ∷ [])

unfoldable pub selftest_txt_warn_storage_ok : Bytes
unfolding joined
selftest_txt_warn_storage_ok = joined (
    codes "Resultado: PASS/WARN/FAIL -> WARN\n"
    ∷ codes "Consola: PASS\n"
    ∷ codes "Almacenamiento: OK (verified writable)\n"
    ∷ codes "Audit journal TXT/JSONL: OK\n"
    ∷ codes "Audit SQLite: UNAVAILABLE (uefi restricted diagnostic)\n"
    ∷ codes "Operational mode: restricted diagnostic\n"
    ∷ codes "Limitaciones: no implementado wifi/network remoto\n"
    ∷ [])

unfoldable pub selftest_txt_warn_storage_degraded : Bytes
unfolding joined
selftest_txt_warn_storage_degraded = joined (
    codes "Resultado: PASS/WARN/FAIL -> WARN\n"
    ∷ codes "Consola: PASS\n"
    ∷ codes "Almacenamiento: WARN (degraded o no verificado)\n"
    ∷ codes "Audit journal TXT/JSONL: WARN\n"
    ∷ codes "Audit SQLite: UNAVAILABLE (uefi restricted diagnostic)\n"
    ∷ codes "Operational mode: restricted diagnostic\n"
    ∷ codes "Limitaciones: no implementado wifi/network remoto\n"
    ∷ [])

unfoldable pub selftest_jsonl_pass : Bytes
unfolding joined
selftest_jsonl_pass =
    joined (codes "{\"type\":\"self_test\",\"status\":\"pass\",\"audit\":\"hosted\"}\n" ∷ [])

unfoldable pub selftest_jsonl_warn : Bytes
unfolding joined
selftest_jsonl_warn = joined (
    codes
      "{\"type\":\"self_test\",\"status\":\"warn\",\"audit\":\"restricted\",\"sqlite_status\":\"unavailable\"}\n"
    ∷ [])
