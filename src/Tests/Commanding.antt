-- ===== src/Tests/Commanding.antt =====
-- The commands and their loop, at concrete inputs.
use vita_os.Prelude.{true, false, some, [], ◌∷◌, ◌++◌, ◌≡◌, refl, codes, take, map, ◌↔◌, inl, arith}
use vita_os.Text.{
  Bytes, str_eq, starts_with, str_append, str_copy, trim_right_in_place, skip_spaces, str_len,
}
use vita_os.Storage.Paths.{path_allowed, chars_allowed, hosted_map_path}
use vita_os.Storage.Files.{storage_write_text, storage_read_text, set_error}
use vita_os.Shell.StorageCommands.{storage_command_read, storage_handle_command}
use vita_os.Kernel.{emit}
use vita_os.VitaIr.{
  RuntimeStatus, status_unknown, status_ok, status_warn, status_fail, status_unavailable,
  vita_ir_claims_from_audit_runtime,
}
use vita_os.VitaIr.Claims.{stated, verdicts, claims-verdicts}
use vita_os.Console.{
  console_write_line, console_guided_prompt, console_read_line, console_pager_begin,
  console_pager_end, console_write_raw,
}
use vita_os.Command.{say, on_world, on_site, on_station, on_console, emit_event}
use vita_os.Command.Reports.{write_report_verified, write_vitair, handle_export_vitair}
use vita_os.Command.Reports.Verified.{IsWritten, write_report_verified-IsWritten}
use vita_os.Command.Reports.Vitair.{handle_export_vitair_fails}
use vita_os.Command.Dispatch.{recorded, command_handle_line, dispatch}
use vita_os.Command.Steps.{command_shutdown, command_of}
use vita_os.Command.Dispatch.Ending.{Ends, command_handle_line-Ends}
use vita_os.Command.Dispatch.Emergency.{storage_read_emergency}
use vita_os.Command.Loop.{start, turn, read_line, command_loop_run}
use vita_os.Command.Loop.Stops.{no_turn, one_turn, reading, Stops, command_loop_run-Stops}
use vita_os.AiGateway.{ai_gateway_handle_command}
use vita_os.AiGateway.Endpoint.{IsGateway, ai_gateway_handle_command-IsGateway}
use vita_os.Tests.Fixtures.{memory_sqlite, memory_host, clock, typist, platform, machine}

abbrev runtime : RuntimeStatus
runtime = record {
  storage_status = status_ok;
  journal_txt_status = status_warn;
  journal_jsonl_status = status_fail;
  transcript_txt_status = status_unknown;
  transcript_jsonl_status = status_ok;
  sqlite_status = status_unavailable;
  persistent_storage_writable = true;
  restricted_mode = true;
}

claims-verdicts_example :
    map stated (vita_ir_claims_from_audit_runtime runtime 3) ≡ take 3 (verdicts runtime)
claims-verdicts_example = claims-verdicts runtime 3

abbrev note : Bytes
note = codes "/vita/notes/a.txt"

note-accepted : (write_report_verified platform note (codes "ok") (machine [])).0 ≡ true
unfolding write_report_verified on_world storage_write_text path_allowed str_eq starts_with
    chars_allowed hosted_map_path str_append str_copy storage_read_text set_error
note-accepted = refl

write_report_verified-IsWritten_example :
    IsWritten platform note
      (codes "ok")
      (write_report_verified platform note (codes "ok") (machine [])).1
write_report_verified-IsWritten_example =
    write_report_verified-IsWritten platform note (codes "ok") (machine []) note-accepted

handle_export_vitair_fails_example :
    ((write_vitair platform (machine [])).0 ≡ false)
    × (handle_export_vitair platform (machine [])
        ≡ say platform (codes "export vitair: failed") (write_vitair platform (machine [])).1)
handle_export_vitair_fails_example = handle_export_vitair_fails platform (machine [])

command_handle_line-Ends_example :
    ((command_handle_line platform (codes " exit ") [] (machine [])).0 ≡ command_shutdown)
    ↔ Ends (command_of (codes " exit "))
command_handle_line-Ends_example =
    command_handle_line-Ends platform (codes " exit ") [] (machine [])

missing :
    (storage_handle_command typist memory_host (codes "storage read " ++ note) (machine []).site).0
    ≡ false
unfolding storage_handle_command str_eq starts_with storage_command_read skip_spaces str_len
    vita_os.Shell.on_world storage_read_text path_allowed chars_allowed hosted_map_path str_append
    str_copy
missing = refl

storage_read_emergency_example :
    (dispatch platform (codes "storage read " ++ note) [] (machine [])).1.kernel
    ≡ emit memory_sqlite clock
        (codes "EMERGENCY_FLOW_SHOWN")
        (codes "storage read " ++ note)
        (machine []).kernel
storage_read_emergency_example = storage_read_emergency platform note [] (machine []) missing

-- An empty line goes on, and then the input is closed.
first_turn : (turn platform (λ m. []) (start platform (λ m. []) (machine ([] ∷ []))).1).0 ≡ true
unfolding turn start say on_site console_write_line on_station emit_event read_line on_console
    console_guided_prompt console_read_line console_pager_begin console_pager_end console_write_raw
    command_handle_line command_of recorded str_copy trim_right_in_place skip_spaces
first_turn = refl

input-closed :
    (reading platform
      (λ m. [])
      (turn platform (λ m. []) (start platform (λ m. []) (machine ([] ∷ []))).1).1).0
    ≡ false
unfolding reading turn start say on_site console_write_line on_station emit_event read_line
    on_console console_guided_prompt console_read_line console_pager_begin console_pager_end
    console_write_raw command_handle_line command_of recorded str_copy trim_right_in_place
    skip_spaces
input-closed = refl

command_loop_run-Stops_example :
    let begun = (start platform (λ m. []) (machine ([] ∷ []))).1 in
    let second = (turn platform (λ m. []) begun).1 in
    command_loop_run platform (λ m. []) 2 (machine ([] ∷ []))
    ≡ some
        (emit_event platform
          (codes "COMMAND_REPL_STOPPED")
          (codes "interactive command loop stopped")
          (turn platform (λ m. []) second).1).1
unfolding Stops
command_loop_run-Stops_example =
    let begun = (start platform (λ m. []) (machine ([] ∷ []))).1 in
    let second = (turn platform (λ m. []) begun).1 in
    command_loop_run-Stops platform (λ m. []) 1 (machine ([] ∷ [])) second 2
      (one_turn 0 begun second first_turn (no_turn second)) (inl input-closed) (omega arith)

ai_gateway_handle_command-IsGateway_example :
    IsGateway
      (ai_gateway_handle_command platform (codes "ai connect 10.0.0.1 8080") (machine [])).1.ai
unfolding IsGateway
ai_gateway_handle_command-IsGateway_example =
    ai_gateway_handle_command-IsGateway platform (machine []) (codes "ai connect 10.0.0.1 8080")
      (inl (refl, refl, refl))
