-- ===== src/Audit/Rows.antt =====
-- The records that the audit subsystem receives and the rows that it writes: the structs of
-- include/vita/proposal.h, include/vita/node.h and include/vita/hw.h, and the bound columns of the
-- INSERT statements of kernel/audit_core.c.
use vita_os.Prelude.{ℕ, Bool, Option}
use vita_os.Text.{Bytes}

-- `vita_ai_proposal_t`
pub record AiProposal : Type 0 where
  pub proposal_id : Option Bytes
  pub proposal_type : Option Bytes
  pub summary : Option Bytes
  pub rationale : Option Bytes
  pub risk_level : Option Bytes
  pub benefit_level : Option Bytes
  pub requires_human_confirmation : Bool
  pub status : Option Bytes

-- `vita_node_peer_t`
pub record NodePeer : Type 0 where
  pub peer_id : Bytes
  pub first_seen_unix : ℕ
  pub last_seen_unix : ℕ
  pub transport : Bytes
  pub capabilities_json : Bytes
  pub trust_state : Bytes
  pub link_state : Bytes

-- `vita_hw_snapshot_t`
pub record HwSnapshot : Type 0 where
  pub cpu_arch : Bytes
  pub cpu_model : Bytes
  pub ram_bytes : ℕ
  pub firmware_type : Bytes
  pub console_type : Bytes
  pub display_count : ℕ
  pub keyboard_count : ℕ
  pub mouse_count : ℕ
  pub audio_count : ℕ
  pub microphone_count : ℕ
  pub net_count : ℕ
  pub ethernet_count : ℕ
  pub wifi_count : ℕ
  pub storage_count : ℕ
  pub usb_count : ℕ
  pub usb_controller_count : ℕ
  pub detected_at_unix : ℕ

-- a row of `audit_event`, by its bound columns
pub record EventRow : Type 0 where
  pub boot_id : Bytes
  pub event_seq : ℕ
  pub event_type : Bytes
  pub summary : Bytes
  pub monotonic_ns : ℕ
  pub rtc_unix : ℕ
  pub prev_hash : Bytes
  pub event_hash : Bytes

-- `bind_text_or_null` gives `none` for the empty text.
pub data Row : Type 0 where
  boot_session : Bytes → Bytes → Bytes → ℕ → ℕ → Row
  audit_event : EventRow → Row
  hardware_snapshot :
      Bytes → Option Bytes → Option Bytes → Option Bytes → Option Bytes → HwSnapshot → Row
  ai_proposal : Bytes → Bytes → ℕ → AiProposal → Row
  human_response : Bytes → Bytes → Bytes → ℕ → Row
  node_peer : NodePeer → Row
