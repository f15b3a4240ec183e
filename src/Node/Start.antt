-- ===== src/Node/Start.antt =====
-- The public operations of kernel/node_core.c: the start with its four receptions, the answer to
-- the link proposal, and what is shown.
pub mod Consent
pub mod Runs
pub mod Chain
use vita_os.Prelude.{
  ℕ, zero, suc, ◌+◌, Bool, true, false, not, ◌||◌, Option, none, some, List, [], ◌∷◌, ◌++◌, codes,
  if◌then◌else◌,
}
use vita_os.Text.{Bytes, str_eq, str_copy, u64_to_dec}
use vita_os.Boot.{Handoff}
use vita_os.Audit.Sqlite.{Sqlite}
use vita_os.Audit.State.{Call}
use vita_os.Audit.Report.{audit_export_recent_event_block}
use vita_os.Kernel.{NodeState, Kernel, write_line, write_lines, emit, upsert_node}
use vita_os.Node.Endpoint.{Network, parse_endpoint}
use vita_os.Node.{
  World, link_proposal_id, linked, rejected, set_link_state, set_pending, touch, handle_message,
}

module _ (sql : Sqlite) (net : Network) (clock : ℕ → Call) where
  -- the datagram that `udp_send` hands to the socket
  send : ℕ × ℕ → Bytes → World sql net clock → World sql net clock
  send target message w = record w { sent = w.sent ++ (target, message) ∷ [] }

  datagram : Option (ℕ × ℕ) → Bool → Bytes → List ((ℕ × ℕ) × Bytes)
  datagram (some target) true message = (target, message) ∷ []
  datagram _ _ message = []

  -- `socket_open`: whether the call of `socket` succeeds
  send_control_message : Bool → Bytes → Bytes → World sql net clock → World sql net clock
  unfolding datagram
  send_control_message socket_open place message w = record w {
    sent = w.sent ++ datagram (parse_endpoint net place) socket_open message;
  }

  answer_link : Bool → Bool → World sql net clock → World sql net clock
  unfolding send_control_message
  answer_link socket_open true w =
      send_control_message socket_open w.node.seed_endpoint (codes "LINK_ACCEPT node-local") (
        emit sql clock (codes "LINK_ACCEPTED") w.node.peer.peer_id
          (set_link_state sql net clock linked w))
  answer_link socket_open false w =
      send_control_message socket_open w.node.seed_endpoint (codes "LINK_REJECT node-local") (
        emit sql clock (codes "LINK_REJECTED") w.node.peer.peer_id
          (set_link_state sql net clock rejected w))

  -- the answer, the time, the row of the peer, and the question closed
  close_link : Bool → Bool → World sql net clock → World sql net clock
  unfolding answer_link
  close_link socket_open approve w =
      set_pending sql net clock false
        (upsert_node sql clock (touch sql net clock (answer_link socket_open approve w)))

  unfoldable pub node_core_handle_link_response :
      Bool → Bytes → Bool → World sql net clock → Bool × World sql net clock
  unfolding close_link
  node_core_handle_link_response socket_open proposal_id approve w =
      if not w.node.link_proposal_pending || not w.node.peer_valid
      then (false, w)
      else if not (str_eq proposal_id link_proposal_id)
      then (false, w)
      else (true, close_link socket_open approve w)

  pub node_core_peer_count : World sql net clock → ℕ
  node_core_peer_count w = if w.node.peer_valid then 1 else 0

  pub node_core_pending_proposal_count : World sql net clock → ℕ
  node_core_pending_proposal_count w = if w.node.link_proposal_pending then 1 else 0

  peer_lines : World sql net clock → List Bytes
  peer_lines w =
      codes "Peer summary / Resumen de peer:"
      ∷ w.node.peer.peer_id
      ∷ codes "transport:"
      ∷ w.node.peer.transport
      ∷ codes "capabilities_json:"
      ∷ w.node.peer.capabilities_json
      ∷ codes "trust_state:"
      ∷ w.node.peer.trust_state
      ∷ codes "link_state:"
      ∷ w.node.peer.link_state
      ∷ codes "first_seen_unix:"
      ∷ u64_to_dec w.node.peer.first_seen_unix
      ∷ codes "last_seen_unix:"
      ∷ u64_to_dec w.node.peer.last_seen_unix
      ∷ (if w.node.link_proposal_pending
          then codes "pending_link_proposal:" ∷ link_proposal_id ∷ []
          else [])

  pub node_core_show_peers : World sql net clock → World sql net clock
  unfolding peer_lines
  node_core_show_peers w =
      if not w.node.peer_valid
      then write_line (codes "No peers discovered / Sin peers detectados") w
      else write_lines (peer_lines w) w

  link_proposal_lines : World sql net clock → List Bytes
  link_proposal_lines w =
      codes "--- Proposal / Propuesta ---"
      ∷ link_proposal_id
      ∷ codes "1. Resumen / Summary:"
      ∷ codes "Link with discovered peer / Vincular con peer detectado"
      ∷ codes "2. Riesgos inmediatos / Immediate risks:"
      ∷ codes "medium"
      ∷ codes "3. Preguntas criticas / Critical questions:"
      ∷ codes "Is this peer trusted for initial cooperation?"
      ∷ codes "4. Acciones inmediatas sugeridas / Suggested actions:"
      ∷ codes "approve N-1 | reject N-1"
      ∷ codes "5. Recursos del sistema / System resources:"
      ∷ w.node.peer.capabilities_json
      ∷ codes "6. Propuesta del sistema / System proposal:"
      ∷ codes "Create initial cooperative link for audit replication trials."
      ∷ codes "7. Estado de auditoria / Audit state:"
      ∷ codes "PENDING"
      ∷ []

  pub node_core_show_link_proposal : World sql net clock → World sql net clock
  unfolding link_proposal_lines
  node_core_show_link_proposal w =
      if not w.node.link_proposal_pending || not w.node.peer_valid
      then w
      else emit sql clock (codes "AI_PROPOSAL_SHOWN") link_proposal_id
          (write_lines (link_proposal_lines w) w)

  -- One reception of the loop: `none` where `udp_recv` fails.
  receive : Option Bytes → World sql net clock → World sql net clock
  receive none w = w
  receive (some msg) w =
      handle_message sql net clock msg (emit sql clock (codes "VITANET_RX") msg w)

  -- the receptions that are left, from the first of `inbox` on
  receive_all : ℕ → (ℕ → Option Bytes) → World sql net clock → World sql net clock
  unfolding receive
  receive_all zero inbox w = w
  receive_all (suc n) inbox w = receive_all n (λ i. inbox (i + 1)) (receive (inbox 0) w)

  replicated : ℕ × ℕ → Bool × Bytes → World sql net clock → World sql net clock
  unfolding send
  replicated target (true, block) w =
      emit sql clock (codes "AUDIT_REPLICATION_ATTEMPTED") w.node.peer.peer_id
        (send target (codes "AUDIT_BLOCK " ++ str_copy [] 756 (some block)) w)
  replicated target (false, block) w = w

  replicate_block : ℕ × ℕ → World sql net clock → World sql net clock
  unfolding replicated
  replicate_block target w =
      if w.node.peer_valid
      then replicated target (audit_export_recent_event_block sql w.audit [] 512) w
      else w

  take_seed : Option Bytes → World sql net clock → World sql net clock
  take_seed (some (c ∷ seed)) w = record w {
    node = record w.node { seed_endpoint = str_copy w.node.seed_endpoint 64 (some (c ∷ seed)) };
  }
  take_seed _ w = w

  seed_of : Option Handoff → Option Bytes
  seed_of none = none
  seed_of (some handoff) = handoff.vitanet_seed_endpoint

  -- the two datagrams sent first
  say_hello : ℕ × ℕ → World sql net clock → World sql net clock
  unfolding send
  say_hello target w = emit sql clock (codes "VITANET_HELLO_SENT") (codes "hello and caps sent") (
      send target (codes "CAPS {\"audit_replication_v0\":true,\"node_task_v0\":true}")
        (send target (codes "HELLO node-local") w))

  -- behind the parse of the seed endpoint
  start_with :
      Option (ℕ × ℕ) → Bool → (ℕ → Option Bytes) → World sql net clock → Bool × World sql net clock
  unfolding say_hello receive_all replicate_block
  start_with none socket_open inbox w =
      (false, emit sql clock (codes "VITANET_ERROR") (codes "invalid seed endpoint") w)
  start_with (some target) false inbox w =
      (false, emit sql clock (codes "VITANET_ERROR") (codes "udp socket failed") w)
  start_with (some target) true inbox w =
      let w' = replicate_block target (receive_all 4 inbox (say_hello target w)) in
      (w'.node.peer_valid, w')

  forget_peer : World sql net clock → World sql net clock
  forget_peer w = record w {
    node = record w.node { peer_valid = false; link_proposal_pending = false };
  }

  -- the state behind the first statements
  started : Option Handoff → World sql net clock → World sql net clock
  unfolding take_seed seed_of forget_peer
  started handoff w =
      take_seed (seed_of handoff)
        (forget_peer (emit sql clock (codes "VITANET_STARTED") (codes "vitanet started") w))

  pub node_core_start :
      Option Handoff → Bool → (ℕ → Option Bytes) → World sql net clock → Bool × World sql net clock
  unfolding start_with started
  node_core_start handoff socket_open inbox w =
      let w' = started handoff w in
      start_with (parse_endpoint net w'.node.seed_endpoint) socket_open inbox w'

-- what the kernel and the user may do with the node core, in any order
pub data NodeOp : Type 0 where
  start : Option Handoff → Bool → (ℕ → Option Bytes) → NodeOp
  answer : Bool → Bytes → Bool → NodeOp
  show_peers show_link_proposal : NodeOp

module _ (sql : Sqlite) (net : Network) (clock : ℕ → Call) where
  node_op : NodeOp → World sql net clock → World sql net clock
  node_op (start handoff socket_open inbox) w =
      (node_core_start sql net clock handoff socket_open inbox w).1
  node_op (answer socket_open id approve) w =
      (node_core_handle_link_response sql net clock socket_open id approve w).1
  node_op show_peers w = node_core_show_peers sql net clock w
  node_op show_link_proposal w = node_core_show_link_proposal sql net clock w

  pub node_ops : List NodeOp → World sql net clock → World sql net clock
  unfolding node_op
  node_ops [] w = w
  node_ops (op ∷ ops) w = node_ops ops (node_op op w)
