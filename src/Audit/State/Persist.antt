-- ===== src/Audit/State/Persist.antt =====
-- Every public operation of the audit subsystem keeps the chain of a ready state.
use vita_os.Prelude.{
  Bool, true, false, Option, none, some, List, [], ◌∷◌, ◌++◌, ◌≡◌, refl, sym, ap, ◌∙◌, subst,
  append-nil, length, if◌then◌else◌, ltb,
}
use vita_os.Text.{Bytes}
use vita_os.Audit.Rows.{AiProposal, NodePeer, HwSnapshot, EventRow, Row}
use vita_os.Audit.Sqlite.{Sqlite, new_events, appended}
use vita_os.Audit.State.{
  Call, AuditState, with_db, append_event_internal, early_event, audit_emit_boot_event,
  audit_persist_hardware_snapshot, persist_proposal, audit_persist_ai_proposal,
  audit_persist_human_response, upsert_peer, audit_upsert_node_peer,
}
use vita_os.Audit.State.Chain.{IsChained, with_db-IsChained, append_event_internal-IsChained}

appended_nil : (b : Bool) (row : Row) → new_events row ≡ [] → appended b row ≡ []
appended_nil true row h = h
appended_nil false row h = refl

module _ (sql : Sqlite) where
  open sql use {Db, insert, events, events-insert}

  -- A row of another table leaves the events alone.
  events_kept : (db : Db) (row : Row) → new_events row ≡ [] → events (insert db row).1 ≡ events db
  events_kept db row h =
      events-insert db row
      ∙ ap (λ (t : List EventRow). events db ++ t) (appended_nil (insert db row).0 row h)
      ∙ append-nil (events db)

  module _ (base : List EventRow) (s : AuditState Db) (inv : IsChained sql base s) where
    insert-IsChained :
        (row : Row)
        → new_events row ≡ []
        → IsChained sql base (with_db sql s s.db (λ db. insert db row)).1
    insert-IsChained row h =
        with_db-IsChained sql base s inv (λ db. insert db row) (events_kept inv.db row h)

    pub emit-IsChained :
        (event_type summary : Option Bytes) (call : Call)
        → length call.stack ≡ 64
        → IsChained sql base (audit_emit_boot_event sql s event_type summary call)
    unfolding audit_emit_boot_event
    emit-IsChained event_type summary call frame =
        let now = (append_event_internal sql s event_type summary call.mono call).1 in
        let later = record s {
          early_events = s.early_events ++ early_event sql event_type summary call.mono ∷ [];
        } in
        let e =
          ap (λ (b : Bool). if b then now else if ltb (length s.early_events) 32 then later else s)
            inv.ready in
        subst (IsChained sql base) (sym e)
          (append_event_internal-IsChained sql base s inv event_type summary call.mono call frame)

    pub snapshot-IsChained :
        (hw : Option HwSnapshot) → IsChained sql base (audit_persist_hardware_snapshot sql s hw).1
    unfolding audit_persist_hardware_snapshot
    snapshot-IsChained none = inv
    snapshot-IsChained (some hw) = insert-IsChained _ refl

    persist_proposal-IsChained :
        (id : Option Bytes) (p : AiProposal) (call : Call)
        → IsChained sql base (persist_proposal sql s id p call).1
    unfolding persist_proposal
    persist_proposal-IsChained none p call = inv
    persist_proposal-IsChained (some id) p call = insert-IsChained _ refl

    pub proposal-IsChained :
        (p : Option AiProposal) (call : Call)
        → IsChained sql base (audit_persist_ai_proposal sql s p call).1
    unfolding audit_persist_ai_proposal
    proposal-IsChained none call = inv
    proposal-IsChained (some p) call = persist_proposal-IsChained p.proposal_id p call

    pub response-IsChained :
        (id answer : Option Bytes) (call : Call)
        → IsChained sql base (audit_persist_human_response sql s id answer call).1
    unfolding audit_persist_human_response
    response-IsChained none answer call = inv
    response-IsChained (some id) none call = inv
    response-IsChained (some id) (some answer) call = insert-IsChained _ refl

    upsert_peer-IsChained :
        (id : Bytes) (p : NodePeer) → IsChained sql base (upsert_peer sql s id p).1
    unfolding upsert_peer
    upsert_peer-IsChained [] p = inv
    upsert_peer-IsChained (c ∷ id) p = insert-IsChained _ refl

    pub peer-IsChained :
        (p : Option NodePeer) → IsChained sql base (audit_upsert_node_peer sql s p).1
    unfolding audit_upsert_node_peer
    peer-IsChained none = inv
    peer-IsChained (some p) = upsert_peer-IsChained p.peer_id p
