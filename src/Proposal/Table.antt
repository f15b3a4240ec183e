-- ===== src/Proposal/Table.antt =====
-- The operations of the proposal engine keep its table, and an answer changes one status.
use vita_os.Prelude.{
  ℕ, ◌<◌, Bool, true, false, ◌||◌, Option, none, some, List, [], ◌∷◌, ◌≡◌, refl, sym, ap, ◌∙◌,
  subst, length, length-append, codes, leb, ◌==◌, if◌then◌else◌, if_elim, arith, leb→gt,
}
use vita_os.Text.{Bytes, starts_with}
use vita_os.Boot.{Handoff}
use vita_os.Audit.Rows.{HwSnapshot}
use vita_os.Audit.Sqlite.{Sqlite}
use vita_os.Audit.State.{Call}
use vita_os.Kernel.{ProposalSlot, write_line, write_lines, emit, persist, respond}
use vita_os.Node.Endpoint.{Network}
use vita_os.Node.Start.{node_core_handle_link_response}
use vita_os.Node.Start.Runs.{response_other, proposals-response}
use vita_os.Proposal.Slots.{
  IsTable, status_at, set_status-IsTable, append-IsNumbered, id_not_link, find_by_id-table,
  status_at-set_status,
}
use vita_os.Proposal.{
  World, id_from_index, find_by_id, new_slot, Answer, proposal_engine_reset, append_slot,
  add_proposal, proposal_generate_initial, show_slots, proposal_show_all, settle, answered,
  answer_proposal, proposal_handle_command,
}

module _ (sql : Sqlite) (net : Network) (clock : ℕ → Call) where
  abbrev W : Type 0
  W = World sql net clock

  abbrev HasTable : W → Type 0
  HasTable w = IsTable w.proposals

  reset-HasTable : (w : W) → HasTable (proposal_engine_reset sql net clock w)
  unfolding proposal_engine_reset
  reset-HasTable w = record { room = omega arith; numbered = tt }

  add_proposal-HasTable :
      (type summary rationale risk benefit : Bytes) (w : W)
      → HasTable w
      → HasTable (add_proposal sql net clock type summary rationale risk benefit w)
  unfolding add_proposal append_slot new_slot emit persist
  add_proposal-HasTable type summary rationale risk benefit w t =
      let p = new_slot (length w.proposals) type summary rationale risk benefit in
      if_elim HasTable (leb 8 (length w.proposals)) w (append_slot sql net clock p w) (λ _. t)
        λ h. record {
          room = omega (arith, length-append w.proposals (p ∷ []), leb→gt 8 (length w.proposals) h);
          numbered = append-IsNumbered 0 w.proposals p t.numbered (ap id_from_index (omega arith));
        }

  -- From any state at all, the initial generation leaves at most eight proposals, numbered from P-1
  -- on.
  pub proposal_generate_initial-HasTable :
      (handoff : Option Handoff) (hw : Option HwSnapshot) (audit_ready : Bool) (w : W)
      → IsTable (proposal_generate_initial sql net clock handoff hw audit_ready w).proposals
  unfolding proposal_generate_initial emit
  proposal_generate_initial-HasTable handoff hw audit_ready w = add_proposal-HasTable _ _ _ _ _ _ (
      add_proposal-HasTable _ _ _ _ _ _
        (add_proposal-HasTable _ _ _ _ _ _ (add_proposal-HasTable _ _ _ _ _ _ (reset-HasTable w))))

  proposals-show_slots :
      (slots : List ProposalSlot) (w : W)
      → (show_slots sql net clock slots w).proposals ≡ w.proposals
  unfolding show_slots emit write_lines
  proposals-show_slots [] w = refl
  proposals-show_slots (p ∷ slots) w = proposals-show_slots slots _

  settle-HasTable :
      (a : Answer) (found : Option ℕ) (w : W)
      → HasTable w
      → HasTable (settle sql net clock a found w)
  unfolding settle write_line emit respond
  settle-HasTable a none w t = t
  settle-HasTable a (some i) w t = set_status-IsTable w.proposals i a.new_status t

  answered-HasTable :
      (a : Answer) (id : Bytes) (r : Bool × W)
      → HasTable r.1
      → HasTable (answered sql net clock a id r)
  unfolding answered write_line respond
  answered-HasTable a id (true, w) t = t
  answered-HasTable a id (false, w) t = settle-HasTable a (find_by_id w.proposals id) w t

  answer-HasTable :
      (socket_open : Bool) (a : Answer) (id : Bytes) (w : W)
      → HasTable w
      → HasTable (answer_proposal sql net clock socket_open a id w)
  unfolding answer_proposal
  answer-HasTable socket_open a id w t =
      answered-HasTable a id
        (node_core_handle_link_response sql net clock socket_open id a.approves w)
        (subst IsTable (sym (proposals-response sql net clock socket_open id a.approves w)) t)

  -- From at most eight proposals, numbered from P-1 on, any line that is typed leads to such a
  -- table.
  pub proposal_handle_command-HasTable :
      (socket_open : Bool) (line : Bytes) (w : W)
      → IsTable w.proposals
      → IsTable (proposal_handle_command sql net clock socket_open line w).1.proposals
  unfolding proposal_handle_command proposal_show_all write_lines
  proposal_handle_command-HasTable socket_open line w t =
      if_elim P (starts_with line (codes "list") || starts_with line (codes "proposals")) _ _
        (λ _. subst IsTable (sym (proposals-show_slots w.proposals w)) t)
        λ _.
          if_elim P (starts_with line (codes "help") || starts_with line (codes "helpme")) _ _
            (λ _. t)
            λ _.
              if_elim P (starts_with line (codes "approve ")) _ _
                (λ _. answer-HasTable socket_open _ _ w t)
                λ _.
                  if_elim P (starts_with line (codes "reject ")) _ _
                    (λ _. answer-HasTable socket_open _ _ w t) λ _. t
    where
      P : Bool × W → Type 0
      P r = IsTable r.1.proposals

  -- The answer to a proposal of the table reaches it and nothing else: its status becomes the one
  -- that the answer says, the other statuses stay, and the link with the peer is not touched.
  pub answer_proposal-status :
      (socket_open : Bool) (a : Answer) (i j : ℕ) (w : W)
      → IsTable w.proposals
      → i < length w.proposals
      → (status_at (answer_proposal sql net clock socket_open a (id_from_index i) w).proposals j
          ≡ (if j == i then some a.new_status else status_at w.proposals j))
        × ((answer_proposal sql net clock socket_open a (id_from_index i) w).node ≡ w.node)
  unfolding answer_proposal answered settle write_line emit respond
  answer_proposal-status socket_open a i j w t lt =
      let other = id_not_link i (omega (arith, t.room)) in
      let refused = response_other sql net clock socket_open (id_from_index i) a.approves w other in
      let found = find_by_id-table w.proposals i t lt in
      let settled : answer_proposal sql net clock socket_open a (id_from_index i) w
          ≡ settle sql net clock a (some i) w =
        ap (λ r. answered sql net clock a (id_from_index i) r) refused
        ∙ ap (λ f. settle sql net clock a f w) found in
      (
        ap (λ (v : W). status_at v.proposals j) settled
            ∙ status_at-set_status w.proposals i j a.new_status lt,
        ap (λ (v : W). v.node) settled,
      )
