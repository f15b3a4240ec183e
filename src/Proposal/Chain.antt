-- ===== src/Proposal/Chain.antt =====
-- The commands on proposals keep the hash chain of the audit log.
use vita_os.Prelude.{
  ℕ, Bool, true, false, ◌||◌, Option, none, some, List, [], ◌∷◌, ◌≡◌, codes, length, if_elim,
}
use vita_os.Text.{Bytes, starts_with}
use vita_os.Audit.Rows.{EventRow}
use vita_os.Audit.Sqlite.{Sqlite}
use vita_os.Audit.State.{Call}
use vita_os.Kernel.{ProposalSlot, Kernel, write_line, write_lines, respond, emit}
use vita_os.Kernel.Chain.{Keeps, emit-Keeps, respond-Keeps}
use vita_os.Node.Endpoint.{Network}
use vita_os.Node.Start.{node_core_handle_link_response}
use vita_os.Node.Start.Chain.{response-Keeps}
use vita_os.Proposal.{
  Answer, find_by_id, set_status, id_at, show_slots, slot_lines, proposal_show_all, settle,
  answered, answer_proposal, proposal_handle_command,
}

module _ (sql : Sqlite) (net : Network) (clock : ℕ → Call) (base : List EventRow)
    (frames : (i : ℕ) → length (clock i).stack ≡ 64) where
  abbrev Kept : Kernel sql.Db → Type 0
  Kept = Keeps sql clock base frames

  show_slots-Keeps :
      (slots : List ProposalSlot) (w : Kernel sql.Db)
      → Kept w
      → Kept (show_slots sql net clock slots w)
  unfolding show_slots write_lines
  show_slots-Keeps [] w inv = inv
  show_slots-Keeps (p ∷ slots) w inv =
      let shown = write_lines (slot_lines sql net clock p) w in
      show_slots-Keeps slots (emit sql clock (codes "AI_PROPOSAL_SHOWN") p.proposal_id shown)
        (emit-Keeps sql clock base frames (codes "AI_PROPOSAL_SHOWN") p.proposal_id shown inv)

  pub proposal_show_all-Keeps :
      (w : Kernel sql.Db) → Kept w → Kept (proposal_show_all sql net clock w)
  unfolding proposal_show_all
  proposal_show_all-Keeps w inv = show_slots-Keeps w.proposals w inv

  settle-Keeps :
      (a : Answer) (found : Option ℕ) (w : Kernel sql.Db)
      → Kept w
      → Kept (settle sql net clock a found w)
  unfolding settle write_line
  settle-Keeps a none w inv = inv
  settle-Keeps a (some i) w inv =
      let id = id_at w.proposals i in
      let marked = record w { proposals = set_status w.proposals i a.new_status } in
      emit-Keeps sql clock base frames a.event_type id (respond sql clock id a.response marked)
        (respond-Keeps sql clock base frames id a.response marked inv)

  answered-Keeps :
      (a : Answer) (id : Bytes) (r : Bool × Kernel sql.Db)
      → Kept r.1
      → Kept (answered sql net clock a id r)
  unfolding answered write_line
  answered-Keeps a id (true, w) inv = respond-Keeps sql clock base frames id a.response w inv
  answered-Keeps a id (false, w) inv = settle-Keeps a (find_by_id w.proposals id) w inv

  answer-Keeps :
      (socket_open : Bool) (a : Answer) (id : Bytes) (w : Kernel sql.Db)
      → Kept w
      → Kept (answer_proposal sql net clock socket_open a id w)
  unfolding answer_proposal
  answer-Keeps socket_open a id w inv =
      answered-Keeps a id (node_core_handle_link_response sql net clock socket_open id a.approves w)
        (response-Keeps sql net clock base frames socket_open id a.approves w inv)

  pub proposal_handle_command-Keeps :
      (socket_open : Bool) (line : Bytes) (w : Kernel sql.Db)
      → Kept w
      → Kept (proposal_handle_command sql net clock socket_open line w).1
  unfolding proposal_handle_command write_lines
  proposal_handle_command-Keeps socket_open line w inv =
      if_elim P (starts_with line (codes "list") || starts_with line (codes "proposals")) _ _
        (λ _. proposal_show_all-Keeps w inv)
        λ _.
          if_elim P (starts_with line (codes "help") || starts_with line (codes "helpme")) _ _
            (λ _. inv)
            λ _.
              if_elim P (starts_with line (codes "approve ")) _ _
                (λ _. answer-Keeps socket_open _ _ w inv)
                λ _.
                  if_elim P (starts_with line (codes "reject ")) _ _
                    (λ _. answer-Keeps socket_open _ _ w inv) λ _. inv
    where
      P : Bool × Kernel sql.Db → Type 0
      P r = Kept r.1
