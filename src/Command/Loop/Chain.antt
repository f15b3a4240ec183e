-- ===== src/Command/Loop/Chain.antt =====
-- The audit log behind a whole session of commands is a hash chain.
use vita_os.Prelude.{
  ℕ, zero, suc, ◌<◌, true, not, Option, some, List, ◌≡◌, subst, codes, length, if_elim,
}
use vita_os.Text.{Bytes}
use vita_os.Audit.Rows.{EventRow}
use vita_os.Audit.State.Chain.{IsChained}
use vita_os.Console.{console_guided_prompt, console_pager_begin, console_pager_end}
use vita_os.Console.Autocomplete.{console_autocomplete_line}
use vita_os.Command.{Platform, Here, Do, say, on_console, on_site, emit_event}
use vita_os.Command.Chain.{Safe, Kept, emit-Safe, choose-Safe, console-Safe}
use vita_os.Command.Dispatch.Chain.{command_handle_line-Safe}
use vita_os.Command.Loop.{
  read_line, closed, had_tab, complete_line, run_line, turn, stop, start, turns, command_loop_run,
}
use vita_os.Command.Loop.Stops.{Turns, Stops, command_loop_run-Stops}

module _ (platform : Platform) (typed : Here platform → List Bytes) (base : List EventRow)
    (frames : (i : ℕ) → length (platform.clock i).stack ≡ 64) where
  abbrev Fine : {A : Type 0} → Do platform A → Type 0
  Fine f = Safe platform base frames f

  read_line-Safe : Fine (read_line platform typed)
  unfolding read_line on_site
  read_line-Safe m inv = inv

  closed-Safe : Fine (closed platform typed)
  unfolding closed say on_site
  closed-Safe m inv = emit-Safe platform base frames _ _ _ inv

  run_line-Safe : (line : Bytes) → Fine (run_line platform typed line)
  unfolding run_line
  run_line-Safe line m inv =
      let paged = (on_console platform (console_pager_begin platform.terminal 22) m).1 in
      console-Safe platform base frames (console_pager_end platform.terminal) _ (
        command_handle_line-Safe platform base frames line (typed paged) paged
          (console-Safe platform base frames (console_pager_begin platform.terminal 22) m inv))

  complete_line-Safe : (line : Bytes) → Fine (complete_line platform typed line)
  unfolding complete_line on_site
  complete_line-Safe line m inv =
      let done =
        on_site platform (console_autocomplete_line platform.terminal platform.host 128 line) m in
      choose-Safe platform base frames done.0.0 (run_line platform typed done.0.1) (λ s. (true, s))
        (run_line-Safe done.0.1) (λ s i. i) done.1 inv

  turn-Safe : Fine (turn platform typed)
  unfolding turn
  turn-Safe m inv =
      let (read, m') =
        read_line platform typed
          (on_console platform (console_guided_prompt platform.terminal) m).1 in
      choose-Safe platform base frames (not read.0) (closed platform typed) _ closed-Safe
        (choose-Safe platform base frames (had_tab read.1) (complete_line platform typed read.1)
          (run_line platform typed read.1) (complete_line-Safe read.1) (run_line-Safe read.1))
        m'
        (read_line-Safe _
          (console-Safe platform base frames (console_guided_prompt platform.terminal) m inv))

  stop-Safe :
      (m : Here platform)
      → Kept platform base frames m
      → Kept platform base frames (stop platform typed m)
  unfolding stop
  stop-Safe m inv = emit-Safe platform base frames _ _ m inv

  start-Safe : Fine (start platform typed)
  unfolding start say on_site vita_os.Command.on_station
  start-Safe m inv = emit-Safe platform base frames _ _ _ inv

  turns-Safe :
      (fuel : ℕ) (m r : Here platform)
      → Kept platform base frames m
      → turns platform typed fuel m ≡ some r
      → Kept platform base frames r
  unfolding turns
  turns-Safe zero m r inv = λ e. absurd (cc e)
  turns-Safe (suc fuel) m r inv =
      let next = (turn platform typed m).1 in
      if_elim (λ (o : Option (Here platform)). o ≡ some r → Kept platform base frames r)
        (turn platform typed m).0 (turns platform typed fuel next) (some (stop platform typed next))
        (λ _. turns-Safe fuel next r (turn-Safe m inv))
        λ _ e.
          subst (Kept platform base frames) {x = stop platform typed next} {y = r} (cc e)
            (stop-Safe next (turn-Safe m inv))

  -- A session that begins with a chained audit log, and whose input is closed or given "shutdown" or
  -- "exit" after some turns that go on, comes to its end for every fuel above their number, and the
  -- audit log is a hash chain then: the events of every command, link request, proposal, export and
  -- AI request of the session link to the one before, with the hash of their own text.
  pub command_loop_run-IsChained :
      (n : ℕ) (m m' : Here platform) (fuel : ℕ)
      → IsChained platform.sql base m.kernel.audit
      → Turns platform typed n (start platform typed m).1 m'
      → Stops platform typed m'
      → n < fuel
      → (r : Here platform) × (command_loop_run platform typed fuel m ≡ some r)
        × IsChained platform.sql base r.kernel.audit
  unfolding command_loop_run
  command_loop_run-IsChained n m m' fuel inv steps stops enough =
      let returned = command_loop_run-Stops platform typed n m m' fuel steps stops enough in
      (
        _,
        returned,
        turns-Safe fuel (start platform typed m).1
            (emit_event platform (codes "COMMAND_REPL_STOPPED")
              (codes "interactive command loop stopped") (turn platform typed m').1).1
            (start-Safe m inv) returned,
      )
