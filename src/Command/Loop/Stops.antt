-- ===== src/Command/Loop/Stops.antt =====
-- When the loop of the commands ends, and how.
use vita_os.Prelude.{
  ℕ, zero, suc, ◌<◌, Bool, true, false, not, Option, some, List, ◌≡◌, refl, ap, ◌∙◌, codes,
  if◌then◌else◌, if_elim, arith, ◌⊎◌, inl, inr,
}
use vita_os.Text.{Bytes}
use vita_os.Console.{console_guided_prompt, console_pager_begin}
use vita_os.Command.{Platform, Here, Do, on_console, emit_event}
use vita_os.Command.Steps.{command_of}
use vita_os.Command.Dispatch.Ending.{Ends, command_handle_line-Ends}
use vita_os.Command.Loop.{
  goes_on, read_line, closed, had_tab, complete_line, run_line, turn, stop, start, turns,
  command_loop_run,
}

module _ (platform : Platform) (typed : Here platform → List Bytes) where
  -- so many turns that all go on, from one state to another
  pub data Turns : ℕ → Here platform → Here platform → Type 0 where
    no_turn : (m : Here platform) → Turns zero m m
    one_turn :
        (n : ℕ) (m m' : Here platform)
        → (turn platform typed m).0 ≡ true
        → Turns n (turn platform typed m).1 m'
        → Turns (suc n) m m'

  -- what the user types at a turn
  unfoldable pub reading : Here platform → Bool × Bytes
  reading m =
      (read_line platform typed
        (on_console platform (console_guided_prompt platform.terminal) m).1).0

  -- The input is closed, or the line is one of the two commands that end a session.
  unfoldable pub Stops : Here platform → Type 0
  Stops m =
      ((reading m).0 ≡ false) ⊎ ((had_tab (reading m).1 ≡ false) × Ends (command_of (reading m).1))

  run_line-Ends :
      (line : Bytes) (m : Here platform)
      → Ends (command_of line)
      → (run_line platform typed line m).0 ≡ false
  unfolding run_line goes_on
  run_line-Ends line m ends =
      ap goes_on ((command_handle_line-Ends platform line (typed (paged m)) (paged m)).1 ends)
    where
      paged : Here platform → Here platform
      paged m = (on_console platform (console_pager_begin platform.terminal 22) m).1

  turn-Stops : (m : Here platform) → Stops m → (turn platform typed m).0 ≡ false
  unfolding turn Stops reading closed
  turn-Stops m stops =
      let asked = (on_console platform (console_guided_prompt platform.terminal) m).1 in
      let (read, m') = read_line platform typed asked in
      if_elim (λ (f : Do platform Bool). (f m').0 ≡ false) (not read.0) (closed platform typed) _
        (λ _. refl)
        λ open_input.
          if_elim (λ (f : Do platform Bool). (f m').0 ≡ false) (had_tab read.1)
            (complete_line platform typed read.1) (run_line platform typed read.1)
            (λ tab. elim stops [
              | inl shut ↦ cc (shut, open_input)
              | inr (plain, ends) ↦ cc (plain, tab)
            ])
            λ _. elim stops [
              | inl shut ↦ cc (shut, open_input)
              | inr (plain, ends) ↦ run_line-Ends read.1 m' ends
            ]

  -- the loop, by whether its turn goes on
  next : Here platform → ℕ → Bool → Option (Here platform)
  next m fuel on =
      if on
      then turns platform typed fuel (turn platform typed m).1
      else some (stop platform typed (turn platform typed m).1)

  turns-stop :
      {n : ℕ} {m m' : Here platform} (fuel : ℕ)
      → Turns n m m'
      → Stops m'
      → n < fuel
      → turns platform typed fuel m ≡ some (stop platform typed (turn platform typed m').1)
  unfolding turns next
  turns-stop zero steps stops enough = absurd (omega (arith, enough))
  turns-stop (suc fuel) (no_turn m) stops enough = ap (next m fuel) (turn-Stops m stops)
  turns-stop (suc fuel) (one_turn n m m' on steps) stops enough =
      ap (next m fuel) on
      ∙ turns-stop {n = n} {m = (turn platform typed m).1} {m' = m'} fuel steps stops
          (omega (arith, enough))

  -- A session ends when its input is closed or the user types "shutdown" or "exit", after any number
  -- of turns that go on: the loop returns for every fuel above that number, in the state behind that
  -- turn with COMMAND_REPL_STOPPED as the last event of the audit log.
  pub command_loop_run-Stops :
      (n : ℕ) (m m' : Here platform) (fuel : ℕ)
      → Turns n (start platform typed m).1 m'
      → Stops m'
      → n < fuel
      → command_loop_run platform typed fuel m
        ≡ some
            (emit_event platform
              (codes "COMMAND_REPL_STOPPED")
              (codes "interactive command loop stopped")
              (turn platform typed m').1).1
  unfolding command_loop_run stop
  command_loop_run-Stops n m m' fuel steps stops enough = turns-stop fuel steps stops enough
