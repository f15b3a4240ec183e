-- ===== src/Command/Status.antt =====
-- What kernel/command_core.c shows of the context, of the hardware and of the audit.
pub mod Chain
use vita_os.Prelude.{Bool, ◌&&◌, some, List, [], ◌∷◌, ◌++◌, codes, map, ltb, if◌then◌else◌, ◌>>◌}
use vita_os.Text.{text_or, Bytes}
use vita_os.Audit.Rows.{HwSnapshot}
use vita_os.Transcript.Start.{Firmware}
use vita_os.Console.Screens.{BootStatus, console_guided_show_welcome, console_guided_show_menu}
use vita_os.Node.Start.{
  node_core_peer_count, node_core_pending_proposal_count, node_core_show_peers,
  node_core_show_link_proposal,
}
use vita_os.Proposal.{proposal_show_all}
use vita_os.Kernel.{Kernel}
use vita_os.Shell.JournalCommands.{session_journal_is_active}
use vita_os.Export.Lines.{Context}
use vita_os.VitaIr.{RuntimeStatus, Claim, claim_max, vita_ir_claims_from_audit_runtime}
use vita_os.Command.{Platform, Here, Do, on_site, say, say_all, on_kernel, emit_event}
use vita_os.Command.Claims.{
  runtime_status, claim_line, summary_lines, status_claims, storage_claims,
}
use vita_os.Command.Lines.{audit_lines, headed, hw_lines, emergency_lines, initial_context}

module _ (platform : Platform) where
  open platform use {sql, net, clock, terminal, host}

  unfoldable pub resolve_audit_runtime_status : Here platform → RuntimeStatus
  unfolding runtime_status
  resolve_audit_runtime_status m =
      runtime_status m.site.station.world.storage
        (session_journal_is_active terminal host m.site.station) m.ctx.boot_status.audit_ready

  unfoldable pub claims_now : Here platform → List Claim
  unfolding resolve_audit_runtime_status
  claims_now m = vita_ir_claims_from_audit_runtime (resolve_audit_runtime_status m) claim_max

  -- the counts of the node, where it is ready
  refreshed : Kernel sql.Db → Context → Context
  refreshed k ctx = record ctx {
    console_state = record ctx.console_state {
      peer_count = if ctx.node_ready then node_core_peer_count sql net clock k else 0;
      pending_proposal_count =
          if ctx.node_ready then node_core_pending_proposal_count sql net clock k else 0;
      audit_ready = ctx.boot_status.audit_ready;
      proposal_engine_ready = ctx.proposal_ready;
      node_core_ready = ctx.node_ready;
    };
  }

  unfoldable pub command_refresh_state : Do platform Unit
  unfolding refreshed
  command_refresh_state m = (tt, record m { ctx = refreshed m.kernel m.ctx })

  -- A handoff, a boot status and a snapshot that are there; the peers are those of the kernel.
  pub command_context_init :
      Firmware → BootStatus → HwSnapshot → Bool → Bool → Bool → Kernel sql.Db → Context
  unfolding refreshed initial_context
  command_context_init firmware boot hw hw_ready proposal_ready node_ready k =
      refreshed k (initial_context firmware boot hw hw_ready proposal_ready node_ready)

  unfoldable pub show_hw : Do platform Unit
  unfolding hw_lines
  show_hw m = say_all platform (hw_lines m.ctx) m

  unfoldable pub show_audit : Do platform Unit
  unfolding audit_lines headed claim_line resolve_audit_runtime_status claims_now
  show_audit = do
    say platform (codes "Audit / Auditoria:")
    λ m.
        say_all platform
          (audit_lines (resolve_audit_runtime_status m)
            ++ headed (codes "VitaIR-Tri runtime claims:")
                (codes "VitaIR-Tri runtime claims: unavailable") (claims_now m)
                (map claim_line (claims_now m)))
          m

  unfoldable pub show_status_vitair_summary : Do platform Unit
  unfolding headed summary_lines claims_now
  show_status_vitair_summary m =
      say_all platform
        (headed (codes "VitaIR-Tri status summary:")
          (codes "VitaIR-Tri status summary: unavailable") (claims_now m)
          (summary_lines status_claims (claims_now m)))
        m

  -- the summary, or the line behind it that nothing was found
  or_nothing : List Bytes → List Bytes
  or_nothing [] = codes "VitaIR-Tri storage summary: unavailable" ∷ []
  or_nothing (line ∷ lines) = line ∷ lines

  unfoldable pub show_storage_status_vitair_summary : Do platform Unit
  unfolding headed summary_lines or_nothing claims_now
  show_storage_status_vitair_summary m =
      say_all platform
        (headed (codes "VitaIR-Tri storage summary:")
          (codes "VitaIR-Tri storage summary: unavailable") (claims_now m)
          (or_nothing (summary_lines storage_claims (claims_now m))))
        m

  -- a call that gives no result
  unfoldable pub run_kernel : (Kernel sql.Db → Kernel sql.Db) → Do platform Unit
  run_kernel f = on_kernel platform (λ k. (tt, f k))

  unfoldable pub show_peers : Do platform Unit
  unfolding run_kernel
  show_peers m =
      if m.ctx.node_ready
      then run_kernel (node_core_show_peers sql net clock) m
      else say_all platform
          (codes "Peers / Nodos cooperativos:"
            ∷ codes "No peer transport active in this boot mode."
            ∷ codes "No hay transporte de peers activo en este modo de arranque."
            ∷ [])
          m

  show_link : Do platform Unit
  unfolding run_kernel
  show_link m =
      if m.ctx.node_ready && ltb 0 (node_core_pending_proposal_count sql net clock m.kernel)
      then run_kernel (node_core_show_link_proposal sql net clock) m
      else (tt, m)

  unfoldable pub show_proposals : Do platform Unit
  unfolding run_kernel show_link
  show_proposals m =
      if m.ctx.proposal_ready
      then (do run_kernel (proposal_show_all sql net clock); show_link) m
      else say platform (codes "No proposals available / No hay propuestas disponibles") m

  unfoldable pub show_emergency : Bytes → Do platform Unit
  unfolding emergency_lines text_or
  show_emergency text = do
    λ m. say_all platform (emergency_lines m.ctx text) m
    emit_event platform (codes "EMERGENCY_FLOW_SHOWN") (text_or text (codes "emergency command"))

  unfoldable pub show_refreshed_header : Do platform Unit
  unfolding command_refresh_state
  show_refreshed_header = do
    command_refresh_state
    λ m.
        on_site platform
          (λ s. (
            tt,
            console_guided_show_menu terminal host
                (console_guided_show_welcome terminal host (some m.ctx.console_state) s),
          ))
          m
