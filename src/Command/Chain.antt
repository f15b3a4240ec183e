-- ===== src/Command/Chain.antt =====
-- Steps of the command loop that keep the hash chain of the audit log.
use vita_os.Prelude.{ℕ, Bool, true, false, List, [], ◌≡◌, length, Stateful, if◌then◌else◌}
use vita_os.Text.{Bytes}
use vita_os.Audit.Rows.{EventRow}
use vita_os.Storage.Files.{World}
use vita_os.Transcript.{Station}
use vita_os.Console.{Console, Site}
use vita_os.Kernel.{Kernel}
use vita_os.Kernel.Chain.{Keeps, emit-Keeps}
use vita_os.Command.{
  Platform, Here, Do, on_site, say, say_all, on_world, on_station, on_console, on_kernel,
  emit_event,
}

module _ (platform : Platform) (base : List EventRow)
    (frames : (i : ℕ) → length (platform.clock i).stack ≡ 64) where
  open platform use {sql, clock, terminal, host}

  -- the audit log of a machine is a hash chain behind `base`
  abbrev pub Kept : Here platform → Type 0
  Kept m = Keeps sql clock base frames m.kernel

  -- a step that keeps it
  abbrev pub Safe : {A : Type 0} → Do platform A → Type 0
  Safe f = (m : Here platform) → Kept m → Kept (f m).1

  -- the same, as a property of the step that branches are put together by
  unfoldable pub Sound : {A : Type 0} → Do platform A → Type 0
  Sound f = Safe f

  pub sound : {A : Type 0} (f : Do platform A) → Safe f → Sound f
  unfolding Sound
  sound f h = h

  pub Sound-Safe : {A : Type 0} (f : Do platform A) → Sound f → Safe f
  unfolding Sound
  Sound-Safe f h = h

  pub site-Safe :
      {A : Type 0} (f : Stateful (Site host.Fs terminal.Device) A) → Safe (on_site platform f)
  unfolding on_site
  site-Safe f m inv = inv

  pub say-Safe : (line : Bytes) → Safe (say platform line)
  unfolding say on_site
  say-Safe line m inv = inv

  pub say_all-Safe : (lines : List Bytes) → Safe (say_all platform lines)
  unfolding say_all on_site
  say_all-Safe lines m inv = inv

  pub world-Safe : {A : Type 0} (f : Stateful (World host.Fs) A) → Safe (on_world platform f)
  unfolding on_world on_site
  world-Safe f m inv = inv

  pub station-Safe : (f : Station host.Fs → Station host.Fs) → Safe (on_station platform f)
  unfolding on_station on_site
  station-Safe f m inv = inv

  pub console-Safe :
      (f : Console terminal.Device → Console terminal.Device) → Safe (on_console platform f)
  unfolding on_console on_site
  console-Safe f m inv = inv

  pub emit-Safe : (event_type summary : Bytes) → Safe (emit_event platform event_type summary)
  unfolding emit_event
  emit-Safe event_type summary m inv =
      emit-Keeps sql clock base frames event_type summary m.kernel inv

  pub kernel-Safe :
      {A : Type 0} (f : Stateful (Kernel sql.Db) A)
      → ((k : Kernel sql.Db) → Keeps sql clock base frames k → Keeps sql clock base frames (f k).1)
      → Safe (on_kernel platform f)
  unfolding on_kernel
  kernel-Safe f keeps m inv = keeps (record m.kernel { printed = [] }) inv

  pub choose-Safe :
      {A : Type 0} (b : Bool) (f g : Do platform A) → Safe f → Safe g → Safe (if b then f else g)
  choose-Safe true f g h k m inv = h m inv
  choose-Safe false f g h k m inv = k m inv
