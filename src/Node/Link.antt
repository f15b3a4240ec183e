-- ===== src/Node/Link.antt =====
-- The link with the peer of kernel/node_core.c as a state machine.
use vita_os.Prelude.{Bool, true, false, ◌≡◌, ◌≢◌, ◌⊎◌, inl, inr, refl, sym, ap, subst}
use vita_os.Text.{Bytes}
use vita_os.Kernel.{NodeState}
use vita_os.Node.{discovered, linked, rejected}

-- No peer; a peer with its link state, and whether the human is being asked; or a question about no
-- peer.
pub data Link : Type 0 where
  unseen : Link
  seen : Bytes → Bool → Link
  stray : Link

link_at : Bool → Bool → Bytes → Link
link_at true pending state = seen state pending
link_at false true state = stray
link_at false false state = unseen

unfoldable pub link_of : NodeState → Link
unfolding link_at
link_of s = link_at s.peer_valid s.link_proposal_pending s.peer.link_state

-- A step; the two that link need a consent.
pub data Step (Consent : Type 0) : Link → Link → Type 0 where
  discover : Step Consent unseen (seen discovered false)
  ask : (state : Bytes) → Step Consent (seen state false) (seen state true)
  remote_accept :
      Consent
      → (state : Bytes) (pending : Bool) → Step Consent (seen state pending) (seen linked false)
  remote_reject :
      (state : Bytes) (pending : Bool) → Step Consent (seen state pending) (seen rejected false)
  approve : Consent → (state : Bytes) → Step Consent (seen state true) (seen linked false)
  reject : (state : Bytes) → Step Consent (seen state true) (seen rejected false)

pub data Steps (Consent : Type 0) (from : Link) : Link → Type 0 where
  stay : Steps Consent from from
  next : (a b : Link) → Steps Consent from a → Step Consent a b → Steps Consent from b

-- the state of the link is one of the three that the code writes, and no question is stray
abbrev pub IsSound : Link → Type 0
IsSound unseen = Unit
IsSound (seen state pending) = (state ≡ discovered) ⊎ ((state ≡ linked) ⊎ (state ≡ rejected))
IsSound stray = ⊥

abbrev pub IsUnlinked : Link → Type 0
IsUnlinked (seen state pending) = state ≢ linked
IsUnlinked _ = Unit

Step-IsSound : (Consent : Type 0) (a b : Link) → Step Consent a b → IsSound a → IsSound b
Step-IsSound Consent _ _ discover h = inl refl
Step-IsSound Consent _ _ (ask state) h = h
Step-IsSound Consent _ _ (remote_accept ok state pending) h = inr (inl refl)
Step-IsSound Consent _ _ (remote_reject state pending) h = inr (inr refl)
Step-IsSound Consent _ _ (approve ok state) h = inr (inl refl)
Step-IsSound Consent _ _ (reject state) h = inr (inr refl)

-- Every state that the steps reach from a sound state is sound.
pub Steps-IsSound :
    (Consent : Type 0) (from to : Link) → Steps Consent from to → IsSound from → IsSound to
Steps-IsSound Consent from _ stay h = h
Steps-IsSound Consent from _ (next a b s t) h =
    Step-IsSound Consent a b t (Steps-IsSound Consent from a s h)

discovered_unlinked : discovered ≢ linked
discovered_unlinked e = cc

rejected_unlinked : rejected ≢ linked
rejected_unlinked e = cc

Step-IsUnlinked : (a b : Link) → Step ⊥ a b → IsUnlinked a → IsUnlinked b
Step-IsUnlinked _ _ discover h = discovered_unlinked
Step-IsUnlinked _ _ (ask state) h = h
Step-IsUnlinked _ _ (remote_accept ok state pending) h = absurd ok
Step-IsUnlinked _ _ (remote_reject state pending) h = rejected_unlinked
Step-IsUnlinked _ _ (approve ok state) h = absurd ok
Step-IsUnlinked _ _ (reject state) h = rejected_unlinked

-- Without a consent nothing links.
pub Steps-IsUnlinked : (from to : Link) → Steps ⊥ from to → IsUnlinked from → IsUnlinked to
Steps-IsUnlinked from _ stay h = h
Steps-IsUnlinked from _ (next a b s t) h = Step-IsUnlinked a b t (Steps-IsUnlinked from a s h)

pub link_valid :
    (s : NodeState)
    → s.peer_valid ≡ true
    → link_of s ≡ seen s.peer.link_state s.link_proposal_pending
unfolding link_of link_at
link_valid s h = ap (λ v. link_at v s.link_proposal_pending s.peer.link_state) h

-- a step between states that both have a peer
pub Step-between :
    (Consent : Type 0) (s t : NodeState)
    → s.peer_valid ≡ true
    → t.peer_valid ≡ true
    → Step Consent
        (seen s.peer.link_state s.link_proposal_pending)
        (seen t.peer.link_state t.link_proposal_pending)
    → Step Consent (link_of s) (link_of t)
Step-between Consent s t hs ht step =
    subst (λ l. Step Consent l (link_of t)) (sym (link_valid s hs))
      (subst (λ l. Step Consent (seen s.peer.link_state s.link_proposal_pending) l)
        (sym (link_valid t ht)) step)

link_at_idle :
    (valid pending : Bool) (state : Bytes)
    → valid ≡ false
    → IsSound (link_at valid pending state)
    → (pending ≡ false) × (link_at valid pending state ≡ unseen)
unfolding link_at
link_at_idle true pending state e h = cc
link_at_idle false true state e h = absurd h
link_at_idle false false state e h = (refl, refl)

pub link_idle :
    (s : NodeState)
    → s.peer_valid ≡ false
    → IsSound (link_of s)
    → (s.link_proposal_pending ≡ false) × (link_of s ≡ unseen)
unfolding link_of
link_idle s e h = link_at_idle s.peer_valid s.link_proposal_pending s.peer.link_state e h
