-- ===== src/Audit/Ops.antt =====
-- The calls that the rest of the kernel makes of the audit subsystem after its initialisation, as
-- data, and a run of them.
pub mod Chain
pub mod Session
use vita_os.Prelude.{ℕ, Option, List, [], ◌∷◌, ◌≡◌, length}
use vita_os.Text.{Bytes}
use vita_os.Audit.Rows.{AiProposal, NodePeer, HwSnapshot}
use vita_os.Audit.Sqlite.{Sqlite}
use vita_os.Audit.State.{
  Call, AuditState, audit_emit_boot_event, audit_persist_hardware_snapshot,
  audit_persist_ai_proposal, audit_persist_human_response, audit_upsert_node_peer,
}

pub data AuditOp : Type 0 where
  emit : Option Bytes → Option Bytes → Call → AuditOp
  snapshot : Option HwSnapshot → AuditOp
  proposal : Option AiProposal → Call → AuditOp
  response : Option Bytes → Option Bytes → Call → AuditOp
  peer : Option NodePeer → AuditOp

-- The stack frame of a call has the 64 bytes of the SHA-256 buffer.
abbrev pub HasFrame : Call → Type 0
HasFrame call = length call.stack ≡ 64

abbrev pub HasFrames : List AuditOp → Type 0
HasFrames [] = Unit
HasFrames (emit _ _ call ∷ ops) = HasFrame call × HasFrames ops
HasFrames (_ ∷ ops) = HasFrames ops

module _ (sql : Sqlite) where
  open sql use {Db}

  pub perform : AuditState Db → AuditOp → AuditState Db
  perform s (emit event_type summary call) = audit_emit_boot_event sql s event_type summary call
  perform s (snapshot hw) = (audit_persist_hardware_snapshot sql s hw).1
  perform s (proposal p call) = (audit_persist_ai_proposal sql s p call).1
  perform s (response id answer call) = (audit_persist_human_response sql s id answer call).1
  perform s (peer p) = (audit_upsert_node_peer sql s p).1

  unfoldable pub perform_all : AuditState Db → List AuditOp → AuditState Db
  unfolding perform
  perform_all s [] = s
  perform_all s (op ∷ ops) = perform_all (perform s op) ops
