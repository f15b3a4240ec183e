-- ===== src/Node/Start/Runs.antt =====
-- Any run of the node core's operations: the link is always in a state of its protocol, nothing
-- links without a consent, and a question is answered once.
use vita_os.Prelude.{
  ℕ, Bool, true, false, not, ◌||◌, Option, none, some, List, [], ◌∷◌, ◌≡◌, ◌≢◌, refl, sym, ap,
  subst, if_elim, not-true, All, if◌then◌else◌,
}
use vita_os.Text.{Bytes, str_eq}
use vita_os.Text.Laws.{str_eq_iff}
use vita_os.Audit.Sqlite.{Sqlite}
use vita_os.Audit.State.{Call}
use vita_os.Kernel.{emit, upsert_node}
use vita_os.Node.Endpoint.{Network}
use vita_os.Node.Link.{unseen, stay, link_of, IsSound, IsUnlinked, Steps-IsSound, Steps-IsUnlinked}
use vita_os.Node.{
  World, link_accept, read_message, link_proposal_id, linked, rejected, set_link_state, set_pending,
  touch, with_peer,
}
use vita_os.Node.Start.Consent.{
  MayLink, response-Reached, start-Reached, show_peers_same, show_link_same,
}
use vita_os.Node.Start.{
  send_control_message, answer_link, close_link, node_core_handle_link_response, NodeOp, start,
  answer, show_peers, show_link_proposal, node_op, node_ops,
}

-- An operation brings no consent: it approves nothing, and receives no LINK_ACCEPT.
abbrev pub NoConsent : NodeOp → Type 0
NoConsent (start handoff socket_open inbox) =
    (i : ℕ) (msg : Bytes) → inbox i ≡ some msg → read_message msg ≢ link_accept
NoConsent (answer socket_open id yea) = yea ≡ false
NoConsent _ = Unit

module _ (sql : Sqlite) (net : Network) (clock : ℕ → Call) where
  abbrev W : Type 0
  W = World sql net clock

  may_link : (msg : Option Bytes) → MayLink sql net clock Unit unseen msg
  may_link none = tt
  may_link (some msg) = λ _. tt

  no_link :
      (m : Option Bytes)
      → ((msg : Bytes) → m ≡ some msg → read_message msg ≢ link_accept)
      → MayLink sql net clock ⊥ unseen m
  no_link none h = tt
  no_link (some msg) h = λ e. h msg refl e

  node_op-IsSound :
      (op : NodeOp) (w : W)
      → IsSound (link_of w.node)
      → IsSound (link_of (node_op sql net clock op w).node)
  unfolding node_op
  node_op-IsSound (start handoff socket_open inbox) w h =
      Steps-IsSound Unit unseen _
        (start-Reached sql net clock Unit handoff socket_open inbox w (λ i. may_link (inbox i))) tt
  node_op-IsSound (answer socket_open id yea) w h =
      Steps-IsSound Unit (link_of w.node) _
        (response-Reached sql net clock Unit (link_of w.node) socket_open id yea w (λ _. tt) stay) h
  node_op-IsSound show_peers w h =
      subst (λ s. IsSound (link_of s)) (sym (show_peers_same sql net clock w)) h
  node_op-IsSound show_link_proposal w h =
      subst (λ s. IsSound (link_of s)) (sym (show_link_same sql net clock w)) h

  -- Whatever starts, receptions and answers follow one another from a state where it holds, the link
  -- state of a peer that is known is discovered, linked or rejected, and a link proposal is pending
  -- only where a peer is known.
  pub node_ops-IsSound :
      (ops : List NodeOp) (w : W)
      → IsSound (link_of w.node)
      → IsSound (link_of (node_ops sql net clock ops w).node)
  unfolding node_ops
  node_ops-IsSound [] w h = h
  node_ops-IsSound (op ∷ ops) w h =
      node_ops-IsSound ops (node_op sql net clock op w) (node_op-IsSound op w h)

  node_op-IsUnlinked :
      (op : NodeOp) (w : W)
      → NoConsent op
      → IsUnlinked (link_of w.node)
      → IsUnlinked (link_of (node_op sql net clock op w).node)
  unfolding node_op
  node_op-IsUnlinked (start handoff socket_open inbox) w quiet h =
      Steps-IsUnlinked unseen _
        (start-Reached sql net clock ⊥ handoff socket_open inbox w
          (λ i. no_link (inbox i) (quiet i)))
        tt
  node_op-IsUnlinked (answer socket_open id yea) w quiet h =
      Steps-IsUnlinked (link_of w.node) _
        (response-Reached sql net clock ⊥ (link_of w.node) socket_open id yea w (λ e. cc) stay) h
  node_op-IsUnlinked show_peers w quiet h =
      subst (λ s. IsUnlinked (link_of s)) (sym (show_peers_same sql net clock w)) h
  node_op-IsUnlinked show_link_proposal w quiet h =
      subst (λ s. IsUnlinked (link_of s)) (sym (show_link_same sql net clock w)) h

  -- From a state without a linked peer, starts whose receptions hold no LINK_ACCEPT message and
  -- answers that approve nothing, in any order and number, leave no peer linked.
  pub node_ops-IsUnlinked :
      (ops : List NodeOp) (w : W)
      → All NoConsent ops
      → IsUnlinked (link_of w.node)
      → IsUnlinked (link_of (node_ops sql net clock ops w).node)
  unfolding node_ops
  node_ops-IsUnlinked [] w quiet h = h
  node_ops-IsUnlinked (op ∷ ops) w quiet h =
      node_ops-IsUnlinked ops (node_op sql net clock op w) quiet.1
        (node_op-IsUnlinked op w quiet.0 h)

  -- An answer that was taken: the identifier, what it wrote, and that no question is left.
  pub record IsAnswered (id : Bytes) (yea : Bool) (w : W) : Type 0 where
    pub named : id ≡ link_proposal_id
    pub state : w.node.peer.link_state ≡ (if yea then linked else rejected)
    pub closed : w.node.link_proposal_pending ≡ false

  close_link-IsAnswered :
      (socket_open yea : Bool) (id : Bytes) (w : W)
      → id ≡ link_proposal_id
      → IsAnswered id yea (close_link sql net clock socket_open yea w)
  unfolding close_link answer_link send_control_message set_pending touch set_link_state with_peer
      emit upsert_node
  close_link-IsAnswered socket_open true id w e = record { named = e; state = refl; closed = refl }
  close_link-IsAnswered socket_open false id w e = record { named = e; state = refl; closed = refl }

  response-IsAnswered :
      (socket_open : Bool) (id : Bytes) (yea : Bool) (w : W)
      → (node_core_handle_link_response sql net clock socket_open id yea w).0 ≡ true
      → IsAnswered id yea (node_core_handle_link_response sql net clock socket_open id yea w).1
  unfolding node_core_handle_link_response
  response-IsAnswered socket_open id yea w =
      if_elim P (not w.node.link_proposal_pending || not w.node.peer_valid) (false, w)
        (if not (str_eq id link_proposal_id)
          then (false, w)
          else (true, close_link sql net clock socket_open yea w))
        (λ _ e. cc)
        λ _.
          if_elim P (not (str_eq id link_proposal_id)) (false, w)
            (true, close_link sql net clock socket_open yea w) (λ _ e. cc)
            λ same e.
              close_link-IsAnswered socket_open yea id w
                ((str_eq_iff id link_proposal_id).0 (not-true _ same))
    where
      P : Bool × W → Type 0
      P r = r.0 ≡ true → IsAnswered id yea r.1

  refuses :
      (socket_open : Bool) (id : Bytes) (yea : Bool) (w : W)
      → w.node.link_proposal_pending ≡ false
      → node_core_handle_link_response sql net clock socket_open id yea w ≡ (false, w)
  unfolding node_core_handle_link_response
  refuses socket_open id yea w idle =
      ap
        (λ (pending : Bool).
          if not pending || not w.node.peer_valid
          then (false, w)
          else if not (str_eq id link_proposal_id)
          then (false, w)
          else (true, close_link sql net clock socket_open yea w))
        idle

  -- An answer that is taken was for N-1, writes the link state that it says and leaves no question
  -- pending, and any second answer behind it is refused and changes nothing.
  pub response_once :
      (socket_open : Bool) (id : Bytes) (yea : Bool) (w : W) (socket_open' : Bool) (id' : Bytes)
      (yea' : Bool)
      → (node_core_handle_link_response sql net clock socket_open id yea w).0 ≡ true
      → IsAnswered id yea (node_core_handle_link_response sql net clock socket_open id yea w).1
        × (node_core_handle_link_response sql net clock socket_open' id' yea'
              (node_core_handle_link_response sql net clock socket_open id yea w).1
            ≡ (false, (node_core_handle_link_response sql net clock socket_open id yea w).1))
  response_once socket_open id yea w socket_open' id' yea' h =
      let taken = response-IsAnswered socket_open id yea w h in
      (taken, refuses socket_open' id' yea' _ taken.closed)

  -- An answer under another identifier is refused and changes nothing.
  pub response_other :
      (socket_open : Bool) (id : Bytes) (yea : Bool) (w : W)
      → str_eq id link_proposal_id ≡ false
      → node_core_handle_link_response sql net clock socket_open id yea w ≡ (false, w)
  unfolding node_core_handle_link_response
  response_other socket_open id yea w h =
      if_elim P (not w.node.link_proposal_pending || not w.node.peer_valid) (false, w)
        (if not (str_eq id link_proposal_id)
          then (false, w)
          else (true, close_link sql net clock socket_open yea w))
        (λ _. refl)
        λ _.
          ap
            (λ (b : Bool).
              if not b then (false, w) else (true, close_link sql net clock socket_open yea w))
            h
    where
      P : Bool × W → Type 0
      P r = r ≡ (false, w)

  proposals-close_link :
      (socket_open yea : Bool) (w : W)
      → (close_link sql net clock socket_open yea w).proposals ≡ w.proposals
  unfolding close_link answer_link send_control_message set_pending touch set_link_state with_peer
      emit upsert_node
  proposals-close_link socket_open true w = refl
  proposals-close_link socket_open false w = refl

  pub proposals-response :
      (socket_open : Bool) (id : Bytes) (yea : Bool) (w : W)
      → (node_core_handle_link_response sql net clock socket_open id yea w).1.proposals
        ≡ w.proposals
  unfolding node_core_handle_link_response
  proposals-response socket_open id yea w =
      if_elim P (not w.node.link_proposal_pending || not w.node.peer_valid) (false, w)
        (if not (str_eq id link_proposal_id)
          then (false, w)
          else (true, close_link sql net clock socket_open yea w))
        (λ _. refl)
        λ _.
          if_elim P (not (str_eq id link_proposal_id)) (false, w)
            (true, close_link sql net clock socket_open yea w) (λ _. refl)
            λ _. proposals-close_link socket_open yea w
    where
      P : Bool × W → Type 0
      P r = r.1.proposals ≡ w.proposals
