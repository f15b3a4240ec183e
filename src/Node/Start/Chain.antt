-- ===== src/Node/Start/Chain.antt =====
-- The answer to a link proposal, and what the node shows, keep the hash chain of the audit log.
use vita_os.Prelude.{ℕ, Bool, true, false, not, ◌||◌, List, ◌≡◌, codes, length, if_elim}
use vita_os.Text.{Bytes, str_eq}
use vita_os.Audit.Rows.{EventRow}
use vita_os.Audit.Sqlite.{Sqlite}
use vita_os.Audit.State.{Call}
use vita_os.Kernel.{Kernel, emit, write_line, write_lines}
use vita_os.Kernel.Chain.{Keeps, emit-Keeps, upsert_node-Keeps}
use vita_os.Node.Endpoint.{Network}
use vita_os.Node.{link_proposal_id, linked, rejected, set_link_state, set_pending, touch}
use vita_os.Node.Start.{
  send_control_message, answer_link, close_link, node_core_handle_link_response,
  node_core_show_peers, peer_lines, link_proposal_lines, node_core_show_link_proposal,
}

module _ (sql : Sqlite) (net : Network) (clock : ℕ → Call) (base : List EventRow)
    (frames : (i : ℕ) → length (clock i).stack ≡ 64) where
  abbrev Kept : Kernel sql.Db → Type 0
  Kept = Keeps sql clock base frames

  answer_link-Keeps :
      (socket_open approve : Bool) (w : Kernel sql.Db)
      → Kept w
      → Kept (answer_link sql net clock socket_open approve w)
  unfolding answer_link send_control_message set_link_state
  answer_link-Keeps socket_open true w inv =
      emit-Keeps sql clock base frames (codes "LINK_ACCEPTED") w.node.peer.peer_id
        (set_link_state sql net clock linked w) inv
  answer_link-Keeps socket_open false w inv =
      emit-Keeps sql clock base frames (codes "LINK_REJECTED") w.node.peer.peer_id
        (set_link_state sql net clock rejected w) inv

  close_link-Keeps :
      (socket_open approve : Bool) (w : Kernel sql.Db)
      → Kept w
      → Kept (close_link sql net clock socket_open approve w)
  unfolding close_link set_pending touch
  close_link-Keeps socket_open approve w inv =
      upsert_node-Keeps sql clock base frames
        (touch sql net clock (answer_link sql net clock socket_open approve w))
        (answer_link-Keeps socket_open approve w inv)

  pub response-Keeps :
      (socket_open : Bool) (id : Bytes) (approve : Bool) (w : Kernel sql.Db)
      → Kept w
      → Kept (node_core_handle_link_response sql net clock socket_open id approve w).1
  unfolding node_core_handle_link_response
  response-Keeps socket_open id approve w inv =
      if_elim P (not w.node.link_proposal_pending || not w.node.peer_valid) (false, w) _ (λ _. inv)
        λ _.
          if_elim P (not (str_eq id link_proposal_id)) (false, w)
            (true, close_link sql net clock socket_open approve w) (λ _. inv)
            (λ _. close_link-Keeps socket_open approve w inv)
    where
      P : Bool × Kernel sql.Db → Type 0
      P r = Kept r.1

  pub show_peers-Keeps : (w : Kernel sql.Db) → Kept w → Kept (node_core_show_peers sql net clock w)
  unfolding node_core_show_peers write_line write_lines
  show_peers-Keeps w inv =
      if_elim Kept (not w.node.peer_valid)
        (write_line (codes "No peers discovered / Sin peers detectados") w)
        (write_lines (peer_lines sql net clock w) w) (λ _. inv) (λ _. inv)

  pub show_link_proposal-Keeps :
      (w : Kernel sql.Db) → Kept w → Kept (node_core_show_link_proposal sql net clock w)
  unfolding node_core_show_link_proposal write_lines
  show_link_proposal-Keeps w inv =
      if_elim Kept (not w.node.link_proposal_pending || not w.node.peer_valid) w
        (emit sql clock (codes "AI_PROPOSAL_SHOWN") link_proposal_id
          (write_lines (link_proposal_lines sql net clock w) w))
        (λ _. inv)
        λ _.
          emit-Keeps sql clock base frames (codes "AI_PROPOSAL_SHOWN") link_proposal_id
            (write_lines (link_proposal_lines sql net clock w) w) inv
