-- ===== src/Node/Messages.antt =====
-- What a message of the peer does to the link.
use vita_os.Prelude.{ℕ, Bool, true, false, not, ◌||◌, ◌≡◌, refl, sym, subst, if_elim, ◌==◌}
use vita_os.Text.{Bytes}
use vita_os.Audit.Sqlite.{Sqlite}
use vita_os.Audit.State.{Call}
use vita_os.Kernel.{NodeState, emit, persist, upsert_node}
use vita_os.Node.Endpoint.{Network}
use vita_os.Node.Link.{
  Link, unseen, seen, Step, discover, ask, remote_accept, remote_reject, Steps, next, link_of,
  link_valid, link_idle, Steps-IsSound, Step-between, IsSound,
}
use vita_os.Node.{
  Message, hello, caps, heartbeat, link_accept, link_reject, audit_block, other, read_message,
  discovered, World, with_peer, set_link_state, set_pending, touch, first_touch, met,
  ensure_peer_defaults, created, create_link_proposal_if_needed, report, perform_message,
  handle_message, greet, link_proposal, behind,
}

module _ (sql : Sqlite) (net : Network) (clock : ℕ → Call) (Consent : Type 0) (from : Link) where
  abbrev W : Type 0
  W = World sql net clock

  -- the link was reached by steps
  abbrev Reached : NodeState → Type 0
  Reached s = Steps Consent from (link_of s)

  link-first_touch :
      (first : Bool) (w : W) → link_of (first_touch sql net clock first w).node ≡ link_of w.node
  unfolding first_touch with_peer link_of
  link-first_touch true w = refl
  link-first_touch false w = refl

  link-greet : (id : Bytes) (w : W) → link_of (greet sql net clock id w).node ≡ link_of w.node
  unfolding greet report touch with_peer emit upsert_node link_of
  link-greet id w = link-first_touch (w.node.peer.first_seen_unix == 0) _

  created-Reached :
      (r : Bool × W)
      → r.1.node.peer_valid ≡ true
      → r.1.node.link_proposal_pending ≡ false
      → Reached r.1.node
      → Reached (created sql net clock r).node
  unfolding created set_pending emit
  created-Reached (true, w) valid idle h = next _ _ h (
      Step-between Consent w.node _ valid valid (
        subst (λ p. Step Consent (seen w.node.peer.link_state p) (seen w.node.peer.link_state true))
          (sym idle) (ask w.node.peer.link_state)))
  created-Reached (false, w) valid idle h = h

  idle_of : (a b : Bool) → (not a || b) ≡ false → (a ≡ true) × (b ≡ false)
  idle_of true b e = (refl, e)
  idle_of false b e = cc

  create-Reached :
      (w : W) → Reached w.node → Reached (create_link_proposal_if_needed sql net clock w).node
  unfolding create_link_proposal_if_needed persist
  create-Reached w h =
      if_elim P (not w.node.peer_valid || w.node.link_proposal_pending) _ _ (λ _. h)
        λ e.
          let (valid, idle) = idle_of w.node.peer_valid w.node.link_proposal_pending e in
          created-Reached (persist sql clock link_proposal w) valid idle h
    where
      P : W → Type 0
      P v = Reached v.node

  perform_message-Reached :
      (m : Message) (msg : Bytes) (w : W)
      → w.node.peer_valid ≡ true
      → (m ≡ link_accept → Consent)
      → Reached w.node
      → Reached (perform_message sql net clock m msg w).node
  unfolding perform_message report touch with_peer set_link_state set_pending emit upsert_node
      link_of
  perform_message-Reached hello msg w valid ok h =
      let s = greet sql net clock (behind 6 msg) w in
      create-Reached s (subst (λ l. Steps Consent from l) (sym (link-greet (behind 6 msg) w)) h)
  perform_message-Reached caps msg w valid ok h = h
  perform_message-Reached heartbeat msg w valid ok h = h
  perform_message-Reached link_accept msg w valid ok h = next _ _ h (
      Step-between Consent w.node (perform_message sql net clock link_accept msg w).node valid valid
        (remote_accept (ok refl) _ _))
  perform_message-Reached link_reject msg w valid ok h = next _ _ h (
      Step-between Consent w.node (perform_message sql net clock link_reject msg w).node valid valid
        (remote_reject _ _))
  perform_message-Reached audit_block msg w valid ok h = h
  perform_message-Reached other msg w valid ok h = h

  ensured-valid : (w : W) → (ensure_peer_defaults sql net clock w).node.peer_valid ≡ true
  unfolding ensure_peer_defaults met
  ensured-valid w = if_elim P w.node.peer_valid w (met sql net clock w) (λ h. h) (λ _. refl)
    where
      P : W → Type 0
      P v = v.node.peer_valid ≡ true

  ensured-Reached :
      (w : W) → IsSound from → Reached w.node → Reached (ensure_peer_defaults sql net clock w).node
  unfolding ensure_peer_defaults met
  ensured-Reached w sound h =
      if_elim P w.node.peer_valid w (met sql net clock w) (λ _. h)
        λ e.
          let (idle, none_seen) =
            link_idle w.node e (Steps-IsSound Consent from (link_of w.node) h sound) in
          next unseen (link_of (met sql net clock w).node)
            (subst (λ l. Steps Consent from l) none_seen h)
            (subst (λ l. Step Consent unseen l) (sym (link_valid (met sql net clock w).node refl))
              (subst (λ p. Step Consent unseen (seen discovered p)) (sym idle) discover))
    where
      P : W → Type 0
      P v = Reached v.node

  -- A message takes the link along the steps of its protocol: what was reached by steps from a sound
  -- state stays so, where a message LINK_ACCEPT is a consent.
  pub handle_message-Reached :
      (msg : Bytes) (w : W)
      → IsSound from
      → (read_message msg ≡ link_accept → Consent)
      → Reached w.node
      → Reached (handle_message sql net clock msg w).node
  unfolding handle_message
  handle_message-Reached msg w sound ok h =
      perform_message-Reached (read_message msg) msg (ensure_peer_defaults sql net clock w)
        (ensured-valid w) ok (ensured-Reached w sound h)
