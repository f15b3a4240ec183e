-- ===== src/Command/Status/Chain.antt =====
-- What is shown keeps the hash chain of the audit log.
use vita_os.Prelude.{ℕ, List, ◌≡◌, codes, length, if_elim}
use vita_os.Text.{text_or, Bytes}
use vita_os.Audit.Rows.{EventRow}
use vita_os.Kernel.{Kernel}
use vita_os.Kernel.Chain.{Keeps}
use vita_os.Node.Start.{node_core_show_peers, node_core_show_link_proposal}
use vita_os.Node.Start.Chain.{show_peers-Keeps, show_link_proposal-Keeps}
use vita_os.Proposal.{proposal_show_all}
use vita_os.Proposal.Chain.{proposal_show_all-Keeps}
use vita_os.Command.{Platform, Here, Do, on_site, say, say_all}
use vita_os.Command.Chain.{Kept, Safe, say-Safe, say_all-Safe, emit-Safe, kernel-Safe}
use vita_os.Command.Lines.{emergency_lines}
use vita_os.Command.Status.{
  command_refresh_state, show_hw, show_audit, show_status_vitair_summary,
  show_storage_status_vitair_summary, run_kernel, show_peers, show_link, show_proposals,
  show_emergency, show_refreshed_header,
}

module _ (platform : Platform) (base : List EventRow)
    (frames : (i : ℕ) → length (platform.clock i).stack ≡ 64) where
  open platform use {sql, net, clock, terminal, host}

  abbrev Good : {A : Type 0} → Do platform A → Type 0
  Good f = Safe platform base frames f

  pub refresh-Safe : Good (command_refresh_state platform)
  unfolding command_refresh_state
  refresh-Safe m inv = inv

  pub show_hw-Safe : Good (show_hw platform)
  unfolding show_hw say_all on_site
  show_hw-Safe m inv = inv

  pub show_audit-Safe : Good (show_audit platform)
  unfolding show_audit say say_all on_site
  show_audit-Safe m inv = inv

  pub status_summary-Safe : Good (show_status_vitair_summary platform)
  unfolding show_status_vitair_summary say_all on_site
  status_summary-Safe m inv = inv

  pub storage_summary-Safe : Good (show_storage_status_vitair_summary platform)
  unfolding show_storage_status_vitair_summary say_all on_site
  storage_summary-Safe m inv = inv

  pub header-Safe : Good (show_refreshed_header platform)
  unfolding show_refreshed_header command_refresh_state on_site
  header-Safe m inv = inv

  run_kernel-Safe :
      (f : Kernel sql.Db → Kernel sql.Db)
      → ((k : Kernel sql.Db) → Keeps sql clock base frames k → Keeps sql clock base frames (f k))
      → Good (run_kernel platform f)
  unfolding run_kernel
  run_kernel-Safe f keeps = kernel-Safe platform base frames (λ k. (tt, f k)) keeps

  pub show_peers-Safe : Good (show_peers platform)
  unfolding show_peers
  show_peers-Safe m inv =
      if_elim (λ (r : Unit × Here platform). Kept platform base frames r.1) m.ctx.node_ready _ _
        (λ _.
          run_kernel-Safe (node_core_show_peers sql net clock)
            (show_peers-Keeps sql net clock base frames) m inv)
        (λ _. say_all-Safe platform base frames _ m inv)

  show_link-Safe : Good (show_link platform)
  unfolding show_link
  show_link-Safe m inv =
      if_elim (λ (r : Unit × Here platform). Kept platform base frames r.1) _ _ (tt, m)
        (λ _.
          run_kernel-Safe (node_core_show_link_proposal sql net clock)
            (show_link_proposal-Keeps sql net clock base frames) m inv)
        (λ _. inv)

  pub show_proposals-Safe : Good (show_proposals platform)
  unfolding show_proposals
  show_proposals-Safe m inv =
      if_elim (λ (r : Unit × Here platform). Kept platform base frames r.1) m.ctx.proposal_ready _ _
        (λ _. show_link-Safe (run_kernel platform (proposal_show_all sql net clock) m).1 (
          run_kernel-Safe (proposal_show_all sql net clock)
            (proposal_show_all-Keeps sql net clock base frames) m inv))
        (λ _. say-Safe platform base frames _ m inv)

  pub show_emergency-Safe : (text : Bytes) → Good (show_emergency platform text)
  unfolding show_emergency
  show_emergency-Safe text m inv =
      emit-Safe platform base frames (codes "EMERGENCY_FLOW_SHOWN")
        (text_or text (codes "emergency command"))
        (say_all platform (emergency_lines m.ctx text) m).1
        (say_all-Safe platform base frames (emergency_lines m.ctx text) m inv)
