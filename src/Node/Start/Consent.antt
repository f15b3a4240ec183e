-- ===== src/Node/Start/Consent.antt =====
-- A link needs a consent, of the human here or of the peer, and each question is answered once.
use vita_os.Prelude.{
  ℕ, zero, suc, ◌+◌, Bool, true, false, not, ◌||◌, Option, none, some, [], ◌∷◌, ◌≡◌, refl, sym,
  subst, if_elim, not_or,
}
use vita_os.Text.{Bytes, str_eq}
use vita_os.Boot.{Handoff}
use vita_os.Audit.Sqlite.{Sqlite}
use vita_os.Audit.State.{Call}
use vita_os.Kernel.{NodeState, emit, upsert_node, write_line, write_lines}
use vita_os.Node.Endpoint.{Network}
use vita_os.Node.Link.{
  Link, unseen, seen, Step, approve, reject, Steps, stay, next, link_of, Step-between, IsSound,
}
use vita_os.Node.Messages.{handle_message-Reached}
use vita_os.Node.{
  World, link_accept, read_message, link_proposal_id, linked, rejected, set_link_state, set_pending,
  touch, with_peer,
}
use vita_os.Node.Start.{
  send, send_control_message, answer_link, close_link, node_core_handle_link_response, receive,
  receive_all, replicated, replicate_block, take_seed, seed_of, say_hello, start_with, started,
  forget_peer, node_core_start, node_core_show_peers, node_core_show_link_proposal,
}

module _ (sql : Sqlite) (net : Network) (clock : ℕ → Call) where
  abbrev W : Type 0
  W = World sql net clock

  module _ (Consent : Type 0) (from : Link) where
    abbrev pub Reached : NodeState → Type 0
    Reached s = Steps Consent from (link_of s)

    close_link-Reached :
        (socket_open yea : Bool) (w : W)
        → w.node.link_proposal_pending ≡ true
        → w.node.peer_valid ≡ true
        → (yea ≡ true → Consent)
        → Reached w.node
        → Reached (close_link sql net clock socket_open yea w).node
    unfolding close_link answer_link send_control_message set_pending touch set_link_state with_peer
        emit upsert_node
    close_link-Reached socket_open true w asked valid ok h = next _ _ h (
        Step-between Consent w.node (close_link sql net clock socket_open true w).node valid valid (
          subst (λ p. Step Consent (seen w.node.peer.link_state p) (seen linked false)) (sym asked)
            (approve (ok refl) w.node.peer.link_state)))
    close_link-Reached socket_open false w asked valid ok h = next _ _ h (
        Step-between Consent w.node (close_link sql net clock socket_open false w).node valid valid
          (subst (λ p. Step Consent (seen w.node.peer.link_state p) (seen rejected false))
            (sym asked) (reject w.node.peer.link_state)))

    pub response-Reached :
        (socket_open : Bool) (id : Bytes) (yea : Bool) (w : W)
        → (yea ≡ true → Consent)
        → Reached w.node
        → Reached (node_core_handle_link_response sql net clock socket_open id yea w).1.node
    unfolding node_core_handle_link_response
    response-Reached socket_open id yea w ok h =
        if_elim P (not w.node.link_proposal_pending || not w.node.peer_valid) _ _ (λ _. h)
          λ e.
            let (asked, valid) = not_or w.node.link_proposal_pending w.node.peer_valid e in
            if_elim P (not (str_eq id link_proposal_id)) _ _ (λ _. h)
              λ _. close_link-Reached socket_open yea w asked valid ok h
      where
        P : Bool × W → Type 0
        P r = Reached r.1.node

    -- the messages of a reception that may link
    abbrev pub MayLink : Option Bytes → Type 0
    MayLink none = Unit
    MayLink (some msg) = read_message msg ≡ link_accept → Consent

    receive-Reached :
        (msg : Option Bytes) (w : W)
        → IsSound from
        → MayLink msg
        → Reached w.node
        → Reached (receive sql net clock msg w).node
    unfolding receive emit
    receive-Reached none w sound ok h = h
    receive-Reached (some msg) w sound ok h =
        handle_message-Reached sql net clock Consent from msg _ sound ok h

    receive_all-Reached :
        (n : ℕ) (inbox : ℕ → Option Bytes) (w : W)
        → IsSound from
        → ((i : ℕ) → MayLink (inbox i))
        → Reached w.node
        → Reached (receive_all sql net clock n inbox w).node
    unfolding receive_all
    receive_all-Reached zero inbox w sound ok h = h
    receive_all-Reached (suc n) inbox w sound ok h =
        receive_all-Reached n (λ i. inbox (i + 1)) _ sound (λ i. ok (i + 1))
          (receive-Reached (inbox 0) w sound (ok 0) h)

    replicated-Reached :
        (target : ℕ × ℕ) (r : Bool × Bytes) (w : W)
        → Reached w.node
        → Reached (replicated sql net clock target r w).node
    unfolding replicated send emit
    replicated-Reached target (true, block) w h = h
    replicated-Reached target (false, block) w h = h

    replicate_block-Reached :
        (target : ℕ × ℕ) (w : W)
        → Reached w.node
        → Reached (replicate_block sql net clock target w).node
    unfolding replicate_block
    replicate_block-Reached target w h =
        if_elim P w.node.peer_valid _ w (λ _. replicated-Reached target _ w h) (λ _. h)
      where
        P : W → Type 0
        P v = Reached v.node

    start_with-Reached :
        (target : Option (ℕ × ℕ)) (socket_open : Bool) (inbox : ℕ → Option Bytes) (w : W)
        → IsSound from
        → ((i : ℕ) → MayLink (inbox i))
        → Reached w.node
        → Reached (start_with sql net clock target socket_open inbox w).1.node
    unfolding start_with emit say_hello send
    start_with-Reached none socket_open inbox w sound ok h = h
    start_with-Reached (some target) false inbox w sound ok h = h
    start_with-Reached (some target) true inbox w sound ok h =
        replicate_block-Reached target _
          (receive_all-Reached 4 inbox (say_hello sql net clock target w) sound ok h)

  link-take_seed :
      (seed : Option Bytes) (w : W) → link_of (take_seed sql net clock seed w).node ≡ link_of w.node
  unfolding take_seed link_of
  link-take_seed none w = refl
  link-take_seed (some []) w = refl
  link-take_seed (some (c ∷ seed)) w = refl

  link-started :
      (handoff : Option Handoff) (w : W) → link_of (started sql net clock handoff w).node ≡ unseen
  unfolding started forget_peer link_of
  link-started handoff w = link-take_seed (seed_of sql net clock handoff) _

  -- A start forgets the peer, and then goes by the messages that it receives.
  pub start-Reached :
      (Consent : Type 0) (handoff : Option Handoff) (socket_open : Bool) (inbox : ℕ → Option Bytes)
      (w : W)
      → ((i : ℕ) → MayLink Consent unseen (inbox i))
      → Steps Consent unseen
          (link_of (node_core_start sql net clock handoff socket_open inbox w).1.node)
  unfolding node_core_start
  start-Reached Consent handoff socket_open inbox w ok =
      start_with-Reached Consent unseen _ socket_open inbox (started sql net clock handoff w) tt ok
        (subst (λ l. Steps Consent unseen l) (sym (link-started handoff w)) stay)

  pub show_peers_same : (w : W) → (node_core_show_peers sql net clock w).node ≡ w.node
  unfolding node_core_show_peers write_line write_lines
  show_peers_same w = if_elim P (not w.node.peer_valid) _ _ (λ _. refl) (λ _. refl)
    where
      P : W → Type 0
      P v = v.node ≡ w.node

  pub show_link_same : (w : W) → (node_core_show_link_proposal sql net clock w).node ≡ w.node
  unfolding node_core_show_link_proposal emit write_lines
  show_link_same w =
      if_elim P (not w.node.link_proposal_pending || not w.node.peer_valid) w _ (λ _. refl)
        (λ _. refl)
    where
      P : W → Type 0
      P v = v.node ≡ w.node
