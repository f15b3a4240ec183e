-- ===== src/Proposal.antt =====
-- kernel/proposal.c: the proposals that the human approves or rejects.
pub mod Slots
pub mod Table
pub mod Repl
pub mod Chain
use vita_os.Console.Screens.{guided_help}
use vita_os.Prelude.{
  ℕ, zero, suc, ◌+◌, ◌/◌, ◌%◌, ◌<◌, Bool, true, false, not, ◌||◌, Option, none, some, List, [], ◌∷◌,
  ◌++◌, codes, length, leb, ltb, ◌==◌, if◌then◌else◌,
}
use vita_os.Text.{Bytes, str_eq, starts_with}
use vita_os.Boot.{Handoff, firmware_hosted}
use vita_os.Audit.Rows.{AiProposal, HwSnapshot}
use vita_os.Audit.Sqlite.{Sqlite}
use vita_os.Audit.State.{Call}
use vita_os.Kernel.{ProposalSlot, Kernel, write_line, write_lines, emit, persist, respond}
use vita_os.Node.Endpoint.{Network}
use vita_os.Node.{behind}
use vita_os.Node.Start.{node_core_handle_link_response}

-- `id_from_index`
pub id_from_index : ℕ → Bytes
id_from_index index =
    let n = index + 1 in
    if leb 10 n
    then codes "P-" ++ ((b'0' + n / 10) ∷ (b'0' + n % 10) ∷ [])
    else codes "P-" ++ ((b'0' + n) ∷ [])

abbrev pub pending : Bytes
pending = codes "PENDING"

-- the slot that `add_proposal` fills
unfoldable pub new_slot : ℕ → Bytes → Bytes → Bytes → Bytes → Bytes → ProposalSlot
new_slot index type summary rationale risk benefit = record {
  proposal_id = id_from_index index;
  proposal_type = type;
  summary = summary;
  rationale = rationale;
  risk_level = risk;
  benefit_level = benefit;
  requires_human_confirmation = true;
  status = pending;
}

pub row_of : ProposalSlot → AiProposal
row_of p = record {
  proposal_id = some p.proposal_id;
  proposal_type = some p.proposal_type;
  summary = some p.summary;
  rationale = some p.rationale;
  risk_level = some p.risk_level;
  benefit_level = some p.benefit_level;
  requires_human_confirmation = p.requires_human_confirmation;
  status = some p.status;
}

-- The index that `find_by_id` points to: the first slot with this identifier.
pub find_by_id : List ProposalSlot → Bytes → Option ℕ
find_by_id [] id = none
find_by_id (p ∷ slots) id =
    let rest = find_by_id slots id in
    if str_eq p.proposal_id id then some 0 else elim rest [ none ↦ none | some i ↦ some (suc i) ]

-- `p->status = status`
pub set_status : List ProposalSlot → ℕ → Bytes → List ProposalSlot
set_status [] i status = []
set_status (p ∷ slots) zero status = record p { status = status } ∷ slots
set_status (p ∷ slots) (suc i) status = p ∷ set_status slots i status

-- `p->proposal_id`
pub id_at : List ProposalSlot → ℕ → Bytes
id_at [] i = []
id_at (p ∷ slots) zero = p.proposal_id
id_at (p ∷ slots) (suc i) = id_at slots i

-- what an answer says: the command, the status, the event and the line
pub record Answer : Type 0 where
  pub approves : Bool
  pub response : Bytes
  pub new_status : Bytes
  pub event_type : Bytes
  pub printed : Bytes

abbrev pub approval : Answer
approval = record {
  approves = true;
  response = codes "approve";
  new_status = codes "APPROVED";
  event_type = codes "AI_PROPOSAL_APPROVED";
  printed = codes "approved";
}

abbrev pub rejection : Answer
rejection = record {
  approves = false;
  response = codes "reject";
  new_status = codes "REJECTED";
  event_type = codes "AI_PROPOSAL_REJECTED";
  printed = codes "rejected";
}

module _ (sql : Sqlite) (net : Network) (clock : ℕ → Call) where
  abbrev pub World : Type 0
  World = Kernel sql.Db

  pub proposal_engine_reset : World → World
  proposal_engine_reset w = record w { proposals = [] }

  append_slot : ProposalSlot → World → World
  append_slot p w =
      let w' =
        emit sql clock (codes "AI_PROPOSAL_CREATED") p.proposal_id
          (persist sql clock (row_of p) w).1 in
      record w' { proposals = w'.proposals ++ p ∷ [] }

  pub add_proposal : Bytes → Bytes → Bytes → Bytes → Bytes → World → World
  unfolding append_slot new_slot
  add_proposal type summary rationale risk benefit w =
      if leb 8 (length w.proposals)
      then w
      else append_slot (new_slot (length w.proposals) type summary rationale risk benefit) w

  -- `hw && hw->ram_bytes > 0`
  has_ram : Option HwSnapshot → Bool
  has_ram none = false
  has_ram (some hw) = ltb 0 hw.ram_bytes

  is_hosted : Option Handoff → Bool
  is_hosted none = false
  is_hosted (some handoff) = handoff.firmware_type == firmware_hosted

  pub proposal_generate_initial : Option Handoff → Option HwSnapshot → Bool → World → World
  unfolding proposal_engine_reset add_proposal has_ram is_hosted
  proposal_generate_initial handoff hw audit_ready w =
      emit sql clock (codes "AI_PROPOSALS_READY") (codes "initial proposals generated") (
        add_proposal (codes "inspect_cooperative_node_readiness")
          (codes "Inspect cooperative node readiness / Revisar nodos cooperativos")
          (if is_hosted handoff
            then codes "Boot mode hosted: validate node readiness stubs"
            else codes "UEFI mode: verify cooperative stack prerequisites")
          (codes "medium") (codes "medium")
          (add_proposal (codes "enter_guided_emergency_mode")
            (codes "Enter guided emergency mode / Entrar en modo emergencia guiado")
            (codes "Provides structured questions and immediate actions") (codes "medium")
            (codes "high")
            (add_proposal (codes "review_audit_status")
              (codes "Review audit status / Revisar estado de auditoria")
              (if audit_ready
                then codes "Persistent SQLite backend is active"
                else codes "Audit backend is not active")
              (if audit_ready then codes "low" else codes "high") (codes "high")
              (add_proposal (codes "review_hardware_status")
                (codes "Review hardware status / Revisar estado de hardware")
                (if has_ram hw
                  then codes "Hardware snapshot available with real RAM/CPU data"
                  else codes "Hardware snapshot partial; verify detection limits")
                (codes "low") (codes "high") (proposal_engine_reset w)))))

  slot_lines : ProposalSlot → List Bytes
  slot_lines p =
      codes "--- Proposal / Propuesta ---"
      ∷ p.proposal_id
      ∷ codes "1. Resumen / Summary:"
      ∷ p.summary
      ∷ codes "2. Riesgos inmediatos / Immediate risks:"
      ∷ p.risk_level
      ∷ codes "3. Preguntas criticas / Critical questions:"
      ∷ codes "Is human approval required?"
      ∷ codes "4. Acciones inmediatas sugeridas / Suggested actions:"
      ∷ codes "approve <id> | reject <id>"
      ∷ codes "5. Recursos del sistema / System resources:"
      ∷ p.benefit_level
      ∷ codes "6. Propuesta del sistema / System proposal:"
      ∷ p.rationale
      ∷ codes "7. Estado de auditoria / Audit state:"
      ∷ p.status
      ∷ []

  show_slots : List ProposalSlot → World → World
  unfolding slot_lines
  show_slots [] w = w
  show_slots (p ∷ slots) w =
      show_slots slots
        (emit sql clock (codes "AI_PROPOSAL_SHOWN") p.proposal_id (write_lines (slot_lines p) w))

  pub proposal_show_all : World → World
  unfolding show_slots
  proposal_show_all w = show_slots w.proposals w

  settle : Answer → Option ℕ → World → World
  settle a none w = write_line (codes "proposal id not found") w
  settle a (some i) w =
      let id = id_at w.proposals i in
      write_line a.printed (
        emit sql clock a.event_type id (
          respond sql clock id a.response
            (record w { proposals = set_status w.proposals i a.new_status })))

  answered : Answer → Bytes → Bool × World → World
  unfolding settle
  answered a id (true, w) = write_line a.printed (respond sql clock id a.response w)
  answered a id (false, w) = settle a (find_by_id w.proposals id) w

  -- Both branches for an answer: the link proposal first, then the slots. `socket_open` is for the
  -- datagram to the peer.
  pub answer_proposal : Bool → Answer → Bytes → World → World
  unfolding answered
  answer_proposal socket_open a id w =
      answered a id (node_core_handle_link_response sql net clock socket_open id a.approves w)

  pub proposal_handle_command : Bool → Bytes → World → Bool × World
  unfolding answer_proposal
  proposal_handle_command socket_open line w =
      if starts_with line (codes "list") || starts_with line (codes "proposals")
      then (true, proposal_show_all w)
      else if starts_with line (codes "help") || starts_with line (codes "helpme")
      then (true, write_lines guided_help w)
      else if starts_with line (codes "approve ")
      then (true, answer_proposal socket_open approval (behind 8 line) w)
      else if starts_with line (codes "reject ")
      then (true, answer_proposal socket_open rejection (behind 7 line) w)
      else (false, w)
