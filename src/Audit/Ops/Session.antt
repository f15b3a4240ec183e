-- ===== src/Audit/Ops/Session.antt =====
-- A whole boot: early events, the opening of the backend, and the calls after it.
use vita_os.Prelude.{ℕ, Bool, true, Option, some, List, [], ◌∷◌, ◌≡◌, sym, subst, length}
use vita_os.Boot.{Handoff}
use vita_os.Audit.Sqlite.{Sqlite}
use vita_os.Audit.State.{Call, AuditState, audit_early_buffer_init}
use vita_os.Audit.State.Chain.{IsChained}
use vita_os.Audit.State.Early.{
  IsBuffering, audit_early_buffer_init-IsBuffering, emit-IsBuffering, snapshot_early,
  proposal_early, response_early, peer_early,
}
use vita_os.Audit.Init.{db_path, audit_init_persistent_backend}
use vita_os.Audit.Init.Chain.{held, init-IsChained}
use vita_os.Audit.Ops.{
  AuditOp, emit, snapshot, proposal, response, peer, HasFrames, perform, perform_all,
}
use vita_os.Audit.Ops.Chain.{perform_all-IsChained}

module _ (sql : Sqlite) where
  perform-IsBuffering :
      (s : AuditState sql.Db) (op : AuditOp) → IsBuffering s → IsBuffering (perform sql s op)
  unfolding perform
  perform-IsBuffering s (emit t m call) b = emit-IsBuffering sql s b t m call
  perform-IsBuffering s (snapshot hw) b =
      subst (λ (r : Bool × AuditState sql.Db). IsBuffering r.1) (sym (snapshot_early sql s b hw)) b
  perform-IsBuffering s (proposal p call) b =
      subst (λ (r : Bool × AuditState sql.Db). IsBuffering r.1)
        (sym (proposal_early sql s b p call)) b
  perform-IsBuffering s (response id answer call) b =
      subst (λ (r : Bool × AuditState sql.Db). IsBuffering r.1)
        (sym (response_early sql s b id answer call)) b
  perform-IsBuffering s (peer p) b =
      subst (λ (r : Bool × AuditState sql.Db). IsBuffering r.1) (sym (peer_early sql s b p)) b

  -- Before a backend is open, any run of audit calls from a buffering state leaves a buffering
  -- state: no database, no sequence number, no previous hash, and at most 32 events in the buffer.
  pub perform_all-IsBuffering :
      (s : AuditState sql.Db) (ops : List AuditOp)
      → IsBuffering s
      → IsBuffering (perform_all sql s ops)
  unfolding perform_all
  perform_all-IsBuffering s [] b = b
  perform_all-IsBuffering s (op ∷ ops) b =
      perform_all-IsBuffering (perform sql s op) ops (perform-IsBuffering s op b)

  -- the state at which `audit_init_persistent_backend` is called
  unfoldable pub booted : List AuditOp → AuditState sql.Db
  booted early = perform_all sql (audit_early_buffer_init sql.Db) early

  -- After any audit calls before the backend is opened, an opening that succeeds, and any audit
  -- calls after it, the rows of the database are those that it held once its schema was brought up
  -- to date, followed by rows of this boot alone: the first has the number 1 and no previous hash,
  -- each has the number after the one before it, its hash as the previous hash, and SHA-256 of its
  -- own payload, and the state holds the hash and the number of the last of them. The stack frame of
  -- each call has the 64 bytes of the SHA-256 buffer.
  pub session-IsChained :
      (early later : List AuditOp) (handoff : Option Handoff) (db : sql.Db) (call : Call)
      (calls : ℕ → Call)
      → sql.open_db (db_path handoff) ≡ some db
      → ((i : ℕ) → length (calls i).stack ≡ 64)
      → HasFrames later
      → (audit_init_persistent_backend sql (booted early) handoff call calls).0 ≡ true
      → IsChained sql (held sql db) (
          perform_all sql
            (audit_init_persistent_backend sql (booted early) handoff call calls).1
            later)
  unfolding booted
  session-IsChained early later handoff db call calls found frames frames' h =
      let b =
        perform_all-IsBuffering (audit_early_buffer_init sql.Db) early
          (audit_early_buffer_init-IsBuffering sql.Db) in
      perform_all-IsChained sql (held sql db) _ later
        (init-IsChained sql (booted early) db handoff call calls
          (record { no_seq = b.no_seq; no_prev = b.no_prev }) found frames h)
        frames'
