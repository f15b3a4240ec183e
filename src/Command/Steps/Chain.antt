-- ===== src/Command/Steps/Chain.antt =====
-- The steps of the dispatch keep the hash chain of the audit log.
use vita_os.Prelude.{ℕ, Bool, true, false, not, Option, List, ◌≡◌, codes, length, if_elim}
use vita_os.Text.{Bytes}
use vita_os.Audit.Rows.{EventRow}
use vita_os.Console.{Site}
use vita_os.Console.Screens.{Mode}
use vita_os.Export.Write.{AuditCall, session_export_write_jsonl}
use vita_os.Export.Session.{session_export_write_report}
use vita_os.Proposal.{proposal_handle_command}
use vita_os.Proposal.Chain.{proposal_handle_command-Keeps}
use vita_os.Command.{Platform, Here, Do, on_site, on_kernel, say, emit_event}
use vita_os.Command.Chain.{Safe, Kept, say-Safe, emit-Safe, kernel-Safe, choose-Safe}
use vita_os.Command.Steps.{
  Line, when◌run◌else◌, goes_on, audited, offer, set_mode, show_help, show_status, clear_screen,
  answer_line, run_editor, export_with, export_report, export_jsonl, flush_journal, shut_down,
}

module _ (platform : Platform) (base : List EventRow)
    (frames : (i : ℕ) → length (platform.clock i).stack ≡ 64) where
  open platform use {sql, net, clock, terminal, host, socket_open}

  abbrev pub Good : {A : Type 0} → Do platform A → Type 0
  Good f = Safe platform base frames f

  pub when-Safe : (b : Bool) (f g : Line platform) → Good f → Good g → Good (when b run f else g)
  unfolding when◌run◌else◌
  when-Safe true f g h k m inv = h m inv
  when-Safe false f g h k m inv = k m inv

  pub goes_on-Safe : (step : Do platform Unit) → Good step → Good (goes_on platform step)
  unfolding goes_on
  goes_on-Safe step h m inv = h m inv

  pub audited-Safe :
      (event_type summary : Bytes) (step : Do platform Unit)
      → Good step
      → Good (audited platform event_type summary step)
  unfolding audited
  audited-Safe event_type summary step h m inv =
      h (emit_event platform event_type summary m).1
        (emit-Safe platform base frames event_type summary m inv)

  pub offer-Safe :
      (handler : Do platform Bool) (rest : Line platform)
      → Good handler
      → Good rest
      → Good (offer platform handler rest)
  unfolding offer
  offer-Safe handler rest h k m inv =
      choose-Safe platform base frames (handler m).0 _ rest (λ s i. i) k (handler m).1 (h m inv)

  pub set_mode-Safe : (mode : Mode) → Good (set_mode platform mode)
  unfolding set_mode
  set_mode-Safe mode m inv = inv

  pub show_help-Safe : Good (show_help platform)
  unfolding show_help on_site
  show_help-Safe m inv = inv

  pub show_status-Safe : Good (show_status platform)
  unfolding show_status on_site
  show_status-Safe m inv = inv

  pub clear_screen-Safe : Good (clear_screen platform)
  unfolding clear_screen on_site
  clear_screen-Safe m inv = inv

  answered-Safe :
      (cmd : Bytes)
      → Good (on_kernel platform (proposal_handle_command sql net clock socket_open cmd))
  answered-Safe cmd =
      kernel-Safe platform base frames (proposal_handle_command sql net clock socket_open cmd)
        (proposal_handle_command-Keeps sql net clock base frames socket_open cmd)

  pub answer_line-Safe : (cmd : Bytes) → Good (answer_line platform cmd)
  unfolding answer_line
  answer_line-Safe cmd m inv =
      let asked = on_kernel platform (proposal_handle_command sql net clock socket_open cmd) m in
      if_elim (λ (r : Unit × Here platform). Kept platform base frames r.1)
        (not m.ctx.proposal_ready)
        (say platform (codes "Proposal engine unavailable / Motor de propuestas no disponible") m) _
        (λ _. say-Safe platform base frames _ m inv)
        λ _.
          choose-Safe platform base frames asked.0 (λ s. (tt, s))
            (say platform (codes "proposal command failed / comando de propuesta no ejecutado"))
            (λ s i. i) (say-Safe platform base frames _) asked.1 (answered-Safe cmd m inv)

  pub run_editor-Safe : (cmd : Bytes) (typed : List Bytes) → Good (run_editor platform cmd typed)
  unfolding run_editor
  run_editor-Safe cmd typed m inv = inv

  export_with-Safe :
      (requested path : Bytes)
      (export : Option (Bytes × Bytes)
        → Site host.Fs terminal.Device
        → (Bool × AuditCall) × Site host.Fs terminal.Device)
      → Good (export_with platform requested path export)
  unfolding export_with on_site
  export_with-Safe requested path export m inv =
      emit-Safe platform base frames _ _ _ (emit-Safe platform base frames requested path m inv)

  pub export_report-Safe : Good (export_report platform)
  unfolding export_report
  export_report-Safe m inv =
      export_with-Safe _ _ (λ ids. session_export_write_report terminal host ids m.ctx) m inv

  pub export_jsonl-Safe : Good (export_jsonl platform)
  unfolding export_jsonl
  export_jsonl-Safe m inv =
      export_with-Safe _ _ (λ ids. session_export_write_jsonl terminal host ids m.ctx) m inv

  pub shut_down-Safe : Good (shut_down platform)
  unfolding shut_down flush_journal say on_site
  shut_down-Safe m inv = emit-Safe platform base frames _ _ m inv
