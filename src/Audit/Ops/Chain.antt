-- ===== src/Audit/Ops/Chain.antt =====
-- A run of audit calls keeps the hash chain.
use vita_os.Prelude.{List, [], ◌∷◌}
use vita_os.Audit.Rows.{EventRow}
use vita_os.Audit.Sqlite.{Sqlite}
use vita_os.Audit.State.{AuditState}
use vita_os.Audit.State.Chain.{IsChained}
use vita_os.Audit.State.Persist.{
  emit-IsChained, snapshot-IsChained, proposal-IsChained, response-IsChained, peer-IsChained,
}
use vita_os.Audit.Ops.{
  AuditOp, emit, snapshot, proposal, response, peer, HasFrames, perform, perform_all,
}

module _ (sql : Sqlite) (base : List EventRow) where
  perform-IsChained :
      (s : AuditState sql.Db) (op : AuditOp)
      → IsChained sql base s
      → HasFrames (op ∷ [])
      → IsChained sql base (perform sql s op)
  unfolding perform
  perform-IsChained s (emit t m call) inv h = emit-IsChained sql base s inv t m call h.0
  perform-IsChained s (snapshot hw) inv h = snapshot-IsChained sql base s inv hw
  perform-IsChained s (proposal p call) inv h = proposal-IsChained sql base s inv p call
  perform-IsChained s (response id answer call) inv h =
      response-IsChained sql base s inv id answer call
  perform-IsChained s (peer p) inv h = peer-IsChained sql base s inv p

  HasFrames-cons :
      (op : AuditOp) (ops : List AuditOp)
      → HasFrames (op ∷ ops)
      → HasFrames (op ∷ []) × HasFrames ops
  HasFrames-cons (emit t m call) ops h = ((h.0, tt), h.1)
  HasFrames-cons (snapshot hw) ops h = (tt, h)
  HasFrames-cons (proposal p call) ops h = (tt, h)
  HasFrames-cons (response id answer call) ops h = (tt, h)
  HasFrames-cons (peer p) ops h = (tt, h)

  -- From a state whose rows are a hash chain, any run of audit calls, with statements that succeed
  -- or fail, leaves a state whose rows are a hash chain: each row has the number after the one
  -- before it, links to its hash, and carries SHA-256 of its own payload.
  pub perform_all-IsChained :
      (s : AuditState sql.Db) (ops : List AuditOp)
      → IsChained sql base s
      → HasFrames ops
      → IsChained sql base (perform_all sql s ops)
  unfolding perform_all
  perform_all-IsChained s [] inv h = inv
  perform_all-IsChained s (op ∷ ops) inv h =
      let (first, rest) = HasFrames-cons op ops h in
      perform_all-IsChained (perform sql s op) ops (perform-IsChained s op inv first) rest
