-- ===== src/Node.antt =====
-- kernel/node_core.c: the one peer of VitaNet v0 and the proposal to link with it, hosted build.
pub mod Endpoint
pub mod Start
pub mod Link
pub mod Messages
use vita_os.Prelude.{
  ℕ, zero, suc, ◌+◌, Bool, true, false, not, ◌||◌, Option, none, some, List, [], ◌∷◌, ◌++◌, codes,
  ◌==◌, if◌then◌else◌,
}
use vita_os.Text.{Bytes, str_eq, starts_with, str_copy, u64_to_dec}
use vita_os.Boot.{Handoff}
use vita_os.Audit.Rows.{AiProposal, NodePeer}
use vita_os.Audit.Sqlite.{Sqlite}
use vita_os.Audit.State.{Call}
use vita_os.Audit.Report.{audit_export_recent_event_block}
use vita_os.Node.Endpoint.{Network, parse_endpoint}
use vita_os.Kernel.{NodeState, Kernel, write_line, write_lines, emit, persist, upsert_node}

-- what a datagram is for
pub data Message : Type 0 where
  hello caps heartbeat link_accept link_reject audit_block other : Message

-- the tests of `handle_message`, in their order
unfoldable pub read_message : Bytes → Message
read_message msg =
    if starts_with msg (codes "HELLO ")
    then hello
    else if starts_with msg (codes "CAPS ")
    then caps
    else if starts_with msg (codes "HEARTBEAT")
    then heartbeat
    else if starts_with msg (codes "LINK_ACCEPT")
    then link_accept
    else if starts_with msg (codes "LINK_REJECT")
    then link_reject
    else if starts_with msg (codes "AUDIT_BLOCK ")
    then audit_block
    else other

-- `msg + n`
unfoldable pub behind : ℕ → Bytes → Bytes
behind zero s = s
behind (suc n) [] = []
behind (suc n) (c ∷ s) = behind n s

-- `g_link_proposal_id`
abbrev pub link_proposal_id : Bytes
link_proposal_id = codes "N-1"

abbrev pub discovered : Bytes
discovered = codes "discovered"

abbrev pub linked : Bytes
linked = codes "linked"

abbrev pub rejected : Bytes
rejected = codes "rejected"

link_proposal : AiProposal
link_proposal = record {
  proposal_id = some link_proposal_id;
  proposal_type = some (codes "link_with_peer");
  summary = some (codes "Link with discovered peer / Vincular con peer detectado");
  rationale = some (codes "VitaNet peer discovered with basic capabilities");
  risk_level = some (codes "medium");
  benefit_level = some (codes "high");
  requires_human_confirmation = true;
  status = some (codes "PENDING");
}

default_peer : ℕ → NodePeer
default_peer now = record {
  peer_id = codes "peer-unknown";
  first_seen_unix = now;
  last_seen_unix = now;
  transport = codes "udp/ipv4-hosted";
  capabilities_json = codes "{}";
  trust_state = codes "observed";
  link_state = discovered;
}

module _ (sql : Sqlite) (net : Network) (clock : ℕ → Call) where
  abbrev World : Type 0
  World = Kernel sql.Db

  with_peer : NodePeer → World → World
  with_peer p w = record w { node = record w.node { peer = p } }

  -- `copy_text(g_peer.link_state, ..., state)`
  pub set_link_state : Bytes → World → World
  unfolding with_peer
  set_link_state state w = with_peer (record w.node.peer { link_state = state }) w

  pub set_pending : Bool → World → World
  set_pending p w = record w { node = record w.node { link_proposal_pending = p } }

  -- `g_peer.last_seen_unix = unix_now()`
  pub touch : World → World
  unfolding with_peer
  touch w = record (with_peer (record w.node.peer { last_seen_unix = (clock w.ticks).unix }) w) {
    ticks = w.ticks + 1;
  }

  -- `g_peer.first_seen_unix = g_peer.first_seen_unix ? g_peer.first_seen_unix : unix_now()`
  first_touch : Bool → World → World
  unfolding with_peer
  first_touch true w =
      record (with_peer (record w.node.peer { first_seen_unix = (clock w.ticks).unix }) w) {
        ticks = w.ticks + 1;
      }
  first_touch false w = w

  met : World → World
  unfolding default_peer
  met w = record w {
    node = record w.node { peer = default_peer (clock w.ticks).unix; peer_valid = true };
    ticks = w.ticks + 1;
  }

  ensure_peer_defaults : World → World
  unfolding met
  ensure_peer_defaults w = if w.node.peer_valid then w else met w

  created : Bool × World → World
  unfolding set_pending
  created (true, w) =
      emit sql clock (codes "LINK_PROPOSAL_CREATED") w.node.peer.peer_id (set_pending true w)
  created (false, w) = w

  create_link_proposal_if_needed : World → World
  unfolding created link_proposal
  create_link_proposal_if_needed w =
      if not w.node.peer_valid || w.node.link_proposal_pending
      then w
      else created (persist sql clock link_proposal w)

  -- the last seen time, the row of the peer, and an event with its name
  report : Bytes → World → World
  unfolding touch
  report event_type w =
      let w' = upsert_node sql clock (touch w) in emit sql clock event_type w'.node.peer.peer_id w'

  -- `HELLO `, up to the question
  greet : Bytes → World → World
  unfolding with_peer first_touch report
  greet id w = report (codes "PEER_DISCOVERED") (
      first_touch (w.node.peer.first_seen_unix == 0)
        (with_peer (record w.node.peer { peer_id = str_copy w.node.peer.peer_id 64 (some id) }) w))

  perform_message : Message → Bytes → World → World
  unfolding report create_link_proposal_if_needed greet with_peer set_link_state set_pending behind
  perform_message hello msg w = create_link_proposal_if_needed (greet (behind 6 msg) w)
  perform_message caps msg w = report (codes "PEER_CAPABILITIES_RECEIVED") (
      with_peer
        (record w.node.peer {
          capabilities_json = str_copy w.node.peer.capabilities_json 256 (some (behind 5 msg));
        })
        w)
  perform_message heartbeat msg w = report (codes "HEARTBEAT_RECEIVED") w
  perform_message link_accept msg w =
      set_pending false (report (codes "LINK_ACCEPTED_REMOTE") (set_link_state linked w))
  perform_message link_reject msg w =
      set_pending false (report (codes "LINK_REJECTED_REMOTE") (set_link_state rejected w))
  perform_message audit_block msg w = report (codes "AUDIT_REPLICATION_RECEIVED") w
  perform_message other msg w = w

  pub handle_message : Bytes → World → World
  unfolding perform_message ensure_peer_defaults
  handle_message msg w = perform_message (read_message msg) msg (ensure_peer_defaults w)
