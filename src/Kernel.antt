-- ===== src/Kernel.antt =====
-- The state that kernel/node_core.c and kernel/proposal.c keep, together with what they share: the
-- audit log and the console.
pub mod Chain
use vita_os.Prelude.{ℕ, ◌+◌, Bool, some, List, [], ◌∷◌, ◌++◌}
use vita_os.Text.{Bytes}
use vita_os.Audit.Rows.{AiProposal, NodePeer}
use vita_os.Audit.Sqlite.{Sqlite}
use vita_os.Audit.State.{
  Call, AuditState, audit_emit_boot_event, audit_persist_ai_proposal, audit_persist_human_response,
  audit_upsert_node_peer,
}

-- `g_peer`, `g_peer_valid`, `g_link_proposal_pending` and `g_seed_endpoint`
pub record NodeState : Type 0 where
  pub peer : NodePeer
  pub peer_valid : Bool
  pub link_proposal_pending : Bool
  pub seed_endpoint : Bytes

-- `proposal_slot_t`
pub record ProposalSlot : Type 0 where
  pub proposal_id : Bytes
  pub proposal_type : Bytes
  pub summary : Bytes
  pub rationale : Bytes
  pub risk_level : Bytes
  pub benefit_level : Bytes
  pub requires_human_confirmation : Bool
  pub status : Bytes

-- `proposals` is the first `g_count` slots of `g_proposals`, `sent` the datagrams sent so far, each
-- with its address and port, and `ticks` counts the readings of the clocks.
pub record Kernel (Db : Type 0) : Type 0 where
  pub audit : AuditState Db
  pub node : NodeState
  pub proposals : List ProposalSlot
  pub printed : List Bytes
  pub sent : List ((ℕ × ℕ) × Bytes)
  pub ticks : ℕ

-- `console_write_line`
unfoldable pub write_line : {Db : Type 0} → Bytes → Kernel Db → Kernel Db
write_line line w = record w { printed = w.printed ++ line ∷ [] }

unfoldable pub write_lines : {Db : Type 0} → List Bytes → Kernel Db → Kernel Db
write_lines lines w = record w { printed = w.printed ++ lines }

module _ (sql : Sqlite) (clock : ℕ → Call) where
  -- `audit_emit_boot_event` with the next reading of the clocks
  unfoldable pub emit : Bytes → Bytes → Kernel sql.Db → Kernel sql.Db
  emit event_type summary w = record w {
    audit = audit_emit_boot_event sql w.audit (some event_type) (some summary) (clock w.ticks);
    ticks = w.ticks + 1;
  }

  unfoldable pub persist : AiProposal → Kernel sql.Db → Bool × Kernel sql.Db
  persist row w =
      let (done, audit) = audit_persist_ai_proposal sql w.audit (some row) (clock w.ticks) in
      (done, record w { audit = audit; ticks = w.ticks + 1 })

  unfoldable pub respond : Bytes → Bytes → Kernel sql.Db → Kernel sql.Db
  respond id response w = record w {
    audit = (audit_persist_human_response sql w.audit (some id) (some response) (clock w.ticks)).1;
    ticks = w.ticks + 1;
  }

  unfoldable pub upsert_node : Kernel sql.Db → Kernel sql.Db
  upsert_node w = record w { audit = (audit_upsert_node_peer sql w.audit (some w.node.peer)).1 }
