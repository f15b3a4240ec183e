-- ===== src/Audit/State/Early.antt =====
-- Before a backend is open, events wait in a buffer of 32 slots, and nothing else is kept.
use vita_os.Prelude.{
  ◌≤◌, Bool, false, Option, none, some, [], ◌∷◌, ◌++◌, ◌≡◌, refl, ap, inl, inr, Bool-cases, length,
  length-append, if◌then◌else◌, ltb, ltb→lt, arith,
}
use vita_os.Text.{Bytes}
use vita_os.Audit.Rows.{AiProposal, NodePeer, HwSnapshot}
use vita_os.Audit.Sqlite.{Sqlite}
use vita_os.Audit.State.{
  Call, AuditState, with_db, append_event_internal, early_event, audit_early_buffer_init,
  audit_emit_boot_event, audit_persist_hardware_snapshot, persist_proposal,
  audit_persist_ai_proposal, audit_persist_human_response, upsert_peer, audit_upsert_node_peer,
}

pub record IsBuffering {Db : Type 0} (s : AuditState Db) : Type 0 where
  pub not_ready : s.persistent_ready ≡ false
  pub no_db : s.db ≡ none
  pub no_seq : s.event_seq ≡ 0
  pub no_prev : s.prev_hash ≡ []
  pub room : length s.early_events ≤ 32

pub audit_early_buffer_init-IsBuffering : (Db : Type 0) → IsBuffering (audit_early_buffer_init Db)
unfolding audit_early_buffer_init
audit_early_buffer_init-IsBuffering Db = record {
  not_ready = refl;
  no_db = refl;
  no_seq = refl;
  no_prev = refl;
  room = omega arith;
}

module _ (sql : Sqlite) (s : AuditState sql.Db) (b : IsBuffering s) where
  -- An event is kept where a slot is free, and dropped where none is.
  pub emit_early :
      (event_type summary : Option Bytes) (call : Call)
      → audit_emit_boot_event sql s event_type summary call ≡ (
          if ltb (length s.early_events) 32
          then record s {
            early_events = s.early_events ++ early_event sql event_type summary call.mono ∷ [];
          }
          else s)
  unfolding audit_emit_boot_event
  emit_early event_type summary call =
      let later = record s {
        early_events = s.early_events ++ early_event sql event_type summary call.mono ∷ [];
      } in
      ap
        (λ (ready : Bool).
          if ready
          then (append_event_internal sql s event_type summary call.mono call).1
          else if ltb (length s.early_events) 32
          then later
          else s)
        b.not_ready

  pub emit-IsBuffering :
      (event_type summary : Option Bytes) (call : Call)
      → IsBuffering (audit_emit_boot_event sql s event_type summary call)
  emit-IsBuffering event_type summary call =
      rw (emit_early event_type summary call) (elim (Bool-cases (ltb (length s.early_events) 32)) [
        | inl free ↦ rw free (record {
          not_ready = b.not_ready;
          no_db = b.no_db;
          no_seq = b.no_seq;
          no_prev = b.no_prev;
          room = omega (
            arith,
            ltb→lt _ _ free,
            length-append s.early_events (early_event sql event_type summary call.mono ∷ []),
          );
        })
        | inr full ↦ rw full b
      ])

  -- Nothing can be persisted.
  pub with_db_none : (run : sql.Db → Bool × sql.Db) → with_db sql s s.db run ≡ (false, s)
  unfolding with_db
  with_db_none run = λ i. with_db sql s (b.no_db i) run

  pub snapshot_early :
      (hw : Option HwSnapshot) → audit_persist_hardware_snapshot sql s hw ≡ (false, s)
  unfolding audit_persist_hardware_snapshot
  snapshot_early none = refl
  snapshot_early (some hw) = with_db_none _

  persist_proposal_early :
      (id : Option Bytes) (p : AiProposal) (call : Call)
      → persist_proposal sql s id p call ≡ (false, s)
  unfolding persist_proposal
  persist_proposal_early none p call = refl
  persist_proposal_early (some id) p call = with_db_none _

  pub proposal_early :
      (p : Option AiProposal) (call : Call) → audit_persist_ai_proposal sql s p call ≡ (false, s)
  unfolding audit_persist_ai_proposal
  proposal_early none call = refl
  proposal_early (some p) call = persist_proposal_early p.proposal_id p call

  pub response_early :
      (id answer : Option Bytes) (call : Call)
      → audit_persist_human_response sql s id answer call ≡ (false, s)
  unfolding audit_persist_human_response
  response_early none answer call = refl
  response_early (some id) none call = refl
  response_early (some id) (some answer) call = with_db_none _

  upsert_peer_early : (id : Bytes) (p : NodePeer) → upsert_peer sql s id p ≡ (false, s)
  unfolding upsert_peer
  upsert_peer_early [] p = refl
  upsert_peer_early (c ∷ id) p = with_db_none _

  pub peer_early : (p : Option NodePeer) → audit_upsert_node_peer sql s p ≡ (false, s)
  unfolding audit_upsert_node_peer
  peer_early none = refl
  peer_early (some p) = upsert_peer_early p.peer_id p
