-- ===== src/Audit/State.antt =====
-- The state of the audit subsystem and the operations that append to it.
pub mod Chain
pub mod Persist
pub mod Early
use vita_os.Prelude.{
  ℕ, ◌+◌, ◌-◌, ◌%◌, ◌^◌, Bool, true, false, Option, none, some, List, [], ◌∷◌, ◌++◌, codes, length,
  take, ltb, if◌then◌else◌,
}
use vita_os.Text.{Bytes, str_copy, u64_to_dec, safe_text}
use vita_os.Sha256.{hash_hex}
use vita_os.Audit.Rows.{
  AiProposal, NodePeer, HwSnapshot, EventRow, Row, audit_event, hardware_snapshot, ai_proposal,
  human_response, node_peer,
}
use vita_os.Audit.Sqlite.{Sqlite}

-- `early_event_t`
pub record EarlyEvent : Type 0 where
  pub event_type : Bytes
  pub summary : Bytes
  pub monotonic_ns : ℕ

-- What one call reads from outside: the clocks, and the bytes that its stack frame holds where the
-- SHA-256 context will stand.
pub record Call : Type 0 where
  pub mono : ℕ
  pub unix : ℕ
  pub stack : Bytes

-- `audit_state_t`; the list holds the first `early_count` slots of `early_events`
pub record AuditState (Db : Type 0) : Type 0 where
  pub persistent_ready : Bool
  pub event_seq : ℕ
  pub boot_started_unix : ℕ
  pub boot_id : Bytes
  pub node_id : Bytes
  pub arch_name : Bytes
  pub prev_hash : Bytes
  pub early_events : List EarlyEvent
  pub db : Option Db

-- `audit_early_buffer_init`: `mem_zero` of the state
unfoldable pub audit_early_buffer_init : (Db : Type 0) → AuditState Db
audit_early_buffer_init Db = record {
  persistent_ready = false;
  event_seq = 0;
  boot_started_unix = 0;
  boot_id = [];
  node_id = [];
  arch_name = [];
  prev_hash = [];
  early_events = [];
  db = none;
}

-- `snprintf` of the payload into 1024 bytes
unfoldable pub event_payload : Bytes → ℕ → Bytes → Bytes → ℕ → Bytes → Bytes
event_payload boot_id seq etype summary mono prev = take 1023 (
    boot_id
    ++ (b'|'
        ∷ (u64_to_dec seq
            ++ (b'|'
                ∷ (etype
                    ++ (codes "|INFO|SYSTEM|"
                        ++ (summary ++ (codes "|{}|" ++ (u64_to_dec mono ++ (b'|' ∷ prev))))))))))

-- the row of one event, with the number and the digest that `append_event_internal` computes for it
pub event_row : {Db : Type 0} → AuditState Db → Bytes → Bytes → ℕ → Call → EventRow
event_row s etype summary mono call =
    let seq = (s.event_seq + 1) % 2 ^ 64 in
    record {
      boot_id = s.boot_id;
      event_seq = seq;
      event_type = etype;
      summary = summary;
      monotonic_ns = mono;
      rtc_unix = call.unix;
      prev_hash = s.prev_hash;
      event_hash = hash_hex call.stack (event_payload s.boot_id seq etype summary mono s.prev_hash);
    }

module _ (sql : Sqlite) where
  open sql use {Db, insert}

  -- The guard of every persisting operation, then its statement.
  pub with_db : AuditState Db → Option Db → (Db → Bool × Db) → Bool × AuditState Db
  with_db s none run = (false, s)
  with_db s (some db) run =
      if s.persistent_ready
      then (let (done, db') = run db in (done, record s { db = some db' }))
      else (false, s)

  -- `append_event_internal` from the increment of the sequence number on, with a database
  append_with : AuditState Db → Db → Bytes → Bytes → ℕ → Call → Bool × AuditState Db
  append_with s db etype summary mono call =
      let row = event_row s etype summary mono call in
      let (done, db') = insert db (audit_event row) in
      if done
      then (
        true,
        record s {
          event_seq = row.event_seq;
          prev_hash = str_copy s.prev_hash 65 (some row.event_hash);
          db = some db';
        },
      )
      else (false, record s { event_seq = (row.event_seq + 2 ^ 64 - 1) % 2 ^ 64; db = some db' })

  append_dispatch : Option Db → AuditState Db → Bytes → Bytes → ℕ → Call → Bool × AuditState Db
  append_dispatch none s etype summary mono call = (false, s)
  append_dispatch (some db) s etype summary mono call =
      if s.persistent_ready then append_with s db etype summary mono call else (false, s)

  pub append_event_internal :
      AuditState Db → Option Bytes → Option Bytes → ℕ → Call → Bool × AuditState Db
  unfolding append_dispatch append_with event_row
  append_event_internal s event_type summary mono call =
      append_dispatch s.db s (safe_text event_type (codes "UNSPECIFIED")) (safe_text summary [])
        mono call

  pub early_event : Option Bytes → Option Bytes → ℕ → EarlyEvent
  early_event event_type summary mono = record {
    event_type = str_copy [] 64 (some (safe_text event_type (codes "UNSPECIFIED")));
    summary = str_copy [] 256 (some (safe_text summary []));
    monotonic_ns = mono;
  }

  pub audit_emit_boot_event : AuditState Db → Option Bytes → Option Bytes → Call → AuditState Db
  unfolding early_event
  audit_emit_boot_event s event_type summary call =
      if s.persistent_ready
      then (append_event_internal s event_type summary call.mono call).1
      else if ltb (length s.early_events) 32
      then record s {
        early_events = s.early_events ++ early_event event_type summary call.mono ∷ [];
      }
      else s

  -- `bind_text_or_null`
  text_or_null : Bytes → Option Bytes
  text_or_null [] = none
  text_or_null (c ∷ s) = some (c ∷ s)

  pub audit_persist_hardware_snapshot : AuditState Db → Option HwSnapshot → Bool × AuditState Db
  unfolding with_db text_or_null
  audit_persist_hardware_snapshot s none = (false, s)
  audit_persist_hardware_snapshot s (some snapshot) = with_db s s.db (λ db. insert db (
      hardware_snapshot s.boot_id (text_or_null snapshot.cpu_arch) (text_or_null snapshot.cpu_model)
        (text_or_null snapshot.firmware_type) (text_or_null snapshot.console_type) snapshot))

  -- the bound columns of `audit_persist_ai_proposal`
  bound_proposal : AiProposal → AiProposal
  bound_proposal p = record p {
    proposal_type = some (safe_text p.proposal_type (codes "unspecified"));
    summary = some (safe_text p.summary []);
    rationale = some (safe_text p.rationale []);
    risk_level = some (safe_text p.risk_level (codes "unknown"));
    benefit_level = some (safe_text p.benefit_level (codes "unknown"));
    status = some (safe_text p.status (codes "PENDING"));
  }

  persist_proposal : AuditState Db → Option Bytes → AiProposal → Call → Bool × AuditState Db
  persist_proposal s none p call = (false, s)
  persist_proposal s (some id) p call =
      with_db s s.db (λ db. insert db (ai_proposal id s.boot_id call.unix (bound_proposal p)))

  pub audit_persist_ai_proposal : AuditState Db → Option AiProposal → Call → Bool × AuditState Db
  unfolding with_db bound_proposal persist_proposal
  audit_persist_ai_proposal s none call = (false, s)
  audit_persist_ai_proposal s (some p) call = persist_proposal s p.proposal_id p call

  pub audit_persist_human_response :
      AuditState Db → Option Bytes → Option Bytes → Call → Bool × AuditState Db
  unfolding with_db
  audit_persist_human_response s none response call = (false, s)
  audit_persist_human_response s (some id) none call = (false, s)
  audit_persist_human_response s (some id) (some response) call =
      with_db s s.db (λ db. insert db (human_response id s.boot_id response call.unix))

  bound_peer : NodePeer → NodePeer
  bound_peer p = record p {
    transport = safe_text (some p.transport) (codes "unknown");
    capabilities_json = safe_text (some p.capabilities_json) (codes "{}");
    trust_state = safe_text (some p.trust_state) (codes "observed");
    link_state = safe_text (some p.link_state) (codes "discovered");
  }

  upsert_peer : AuditState Db → Bytes → NodePeer → Bool × AuditState Db
  upsert_peer s [] p = (false, s)
  upsert_peer s (c ∷ id) p = with_db s s.db (λ db. insert db (node_peer (bound_peer p)))

  pub audit_upsert_node_peer : AuditState Db → Option NodePeer → Bool × AuditState Db
  unfolding with_db bound_peer upsert_peer
  audit_upsert_node_peer s none = (false, s)
  audit_upsert_node_peer s (some p) = upsert_peer s p.peer_id p
