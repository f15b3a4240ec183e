-- ===== src/Tests/Sessions.antt =====
-- A whole session of commands, behind a boot whose audit log is open.
use vita_os.Prelude.{true, false, none, some, List, [], ◌∷◌, ◌≡◌, refl, codes, inl, arith}
use vita_os.Text.{str_copy, trim_right_in_place, skip_spaces}
use vita_os.Audit.State.Chain.{IsChained}
use vita_os.Audit.Init.{audit_init_persistent_backend}
use vita_os.Audit.Init.Chain.{held}
use vita_os.Audit.Ops.{AuditOp, emit, perform_all}
use vita_os.Audit.Ops.Session.{booted, session-IsChained}
use vita_os.Console.{
  console_write_line, console_guided_prompt, console_read_line, console_pager_begin,
  console_pager_end, console_write_raw,
}
use vita_os.Command.{Here, say, on_site, on_station, on_console, emit_event}
use vita_os.Command.Dispatch.{recorded, command_handle_line}
use vita_os.Command.Steps.{command_of}
use vita_os.Command.Loop.{start, turn, read_line, command_loop_run}
use vita_os.Command.Loop.Stops.{no_turn, one_turn, reading, Stops}
use vita_os.Command.Loop.Chain.{command_loop_run-IsChained}
use vita_os.Tests.Fixtures.{memory_sqlite, call, platform, machine}

abbrev early : List AuditOp
early = emit (some (codes "BOOT_STARTED")) (some (codes "boot")) call ∷ []

opens :
    (audit_init_persistent_backend memory_sqlite
      (booted memory_sqlite early)
      none
      call
      (λ i. call)).0
    ≡ true
unfolding audit_init_persistent_backend
opens = refl

-- The audit log is open, and the user types an empty line and closes the input.
abbrev begins : Here platform
begins = record (machine ([] ∷ [])) {
  kernel = record (machine []).kernel {
    audit =
        (audit_init_persistent_backend memory_sqlite (booted memory_sqlite early) none call
          (λ i. call)).1;
  };
}

log-IsChained : IsChained memory_sqlite (held memory_sqlite []) begins.kernel.audit
unfolding perform_all
log-IsChained =
    session-IsChained memory_sqlite early [] none [] call (λ i. call) refl (λ i. refl) tt opens

first_goes_on : (turn platform (λ m. []) (start platform (λ m. []) begins).1).0 ≡ true
unfolding turn start say on_site console_write_line on_station emit_event read_line on_console
    console_guided_prompt console_read_line console_pager_begin console_pager_end console_write_raw
    command_handle_line command_of recorded str_copy trim_right_in_place skip_spaces
first_goes_on = refl

then-closed :
    (reading platform (λ m. []) (turn platform (λ m. []) (start platform (λ m. []) begins).1).1).0
    ≡ false
unfolding reading turn start say on_site console_write_line on_station emit_event read_line
    on_console console_guided_prompt console_read_line console_pager_begin console_pager_end
    console_write_raw command_handle_line command_of recorded str_copy trim_right_in_place
    skip_spaces
then-closed = refl

command_loop_run-IsChained_example :
    (r : Here platform) × (command_loop_run platform (λ m. []) 2 begins ≡ some r)
    × IsChained memory_sqlite (held memory_sqlite []) r.kernel.audit
unfolding Stops
command_loop_run-IsChained_example =
    let begun = (start platform (λ m. []) begins).1 in
    let second = (turn platform (λ m. []) begun).1 in
    command_loop_run-IsChained platform (λ m. []) (held memory_sqlite []) (λ i. refl) 1 begins
      second 2 log-IsChained (one_turn 0 begun second first_goes_on (no_turn second))
      (inl then-closed) (omega arith)
