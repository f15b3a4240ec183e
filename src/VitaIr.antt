-- ===== src/VitaIr.antt =====
-- VitaIR-Tri of kernel/vitair.c and kernel/vitair_audit.c: claims of three values about the audit.
--
-- An enumeration has the values that its header declares; the `default` branches of the switches
-- are for no other value.
pub mod Claims
use vita_os.Prelude.{
  ℕ, Bool, true, false, List, [], ◌∷◌, ◌++◌, codes, length, ltb, if◌then◌else◌, ◌==◌,
}
use vita_os.Text.{Bytes}

-- `vita_tri_t`
pub data Tri : Type 0 where
  tri_no tri_unknown tri_yes : Tri

-- `vita_ir_severity_t`
pub data Severity : Type 0 where
  severity_info severity_warn severity_error severity_critical : Severity

-- `vita_status_t`
pub data Status : Type 0 where
  status_unknown status_ok status_warn status_fail status_unavailable : Status

-- `vita_audit_runtime_status_t`
pub record RuntimeStatus : Type 0 where
  pub storage_status : Status
  pub journal_txt_status : Status
  pub journal_jsonl_status : Status
  pub transcript_txt_status : Status
  pub transcript_jsonl_status : Status
  pub sqlite_status : Status
  pub persistent_storage_writable : Bool
  pub restricted_mode : Bool

-- `vita_ir_claim_t`
pub record Claim : Type 0 where
  pub ir_version : Bytes
  pub claim : Bytes
  pub state : Tri
  pub severity : Severity
  pub actor : Bytes
  pub target : Bytes
  pub meaning : Bytes
  pub effect : Bytes

unfoldable pub vita_tri_to_symbol : Tri → Bytes
vita_tri_to_symbol tri_yes = codes "+1"
vita_tri_to_symbol tri_unknown = codes "0"
vita_tri_to_symbol tri_no = codes "-1"

unfoldable pub vita_tri_to_json_number : Tri → Bytes
vita_tri_to_json_number tri_yes = codes "1"
vita_tri_to_json_number tri_unknown = codes "0"
vita_tri_to_json_number tri_no = codes "-1"

pub vita_tri_to_word : Tri → Bytes
vita_tri_to_word tri_yes = codes "yes"
vita_tri_to_word tri_unknown = codes "unknown"
vita_tri_to_word tri_no = codes "no"

unfoldable pub vita_ir_severity_to_string : Severity → Bytes
vita_ir_severity_to_string severity_info = codes "info"
vita_ir_severity_to_string severity_warn = codes "warn"
vita_ir_severity_to_string severity_error = codes "error"
vita_ir_severity_to_string severity_critical = codes "critical"

-- `VITA_IR_VERSION`
abbrev pub ir_version_text : Bytes
ir_version_text = codes "vitair-tri/0.1"

-- `VITA_IR_AUDIT_CLAIM_MAX`
abbrev pub claim_max : ℕ
claim_max = 8

unfoldable pub map_status_to_claim : Status → Tri × Severity
map_status_to_claim status_ok = (tri_yes, severity_info)
map_status_to_claim status_fail = (tri_no, severity_error)
map_status_to_claim status_unavailable = (tri_no, severity_warn)
map_status_to_claim status_warn = (tri_unknown, severity_warn)
map_status_to_claim status_unknown = (tri_unknown, severity_warn)

-- the entry that `append_claim` fills
unfoldable pub entry : Bytes → Tri × Severity → Bytes → Bytes → Bytes → Bytes → Claim
entry claim (state, severity) actor target meaning effect = record {
  ir_version = ir_version_text;
  claim = claim;
  state = state;
  severity = severity;
  actor = actor;
  target = target;
  meaning = meaning;
  effect = effect;
}

-- `append_claim`, of an entry to the claims so far, in an array of `max` of them
unfoldable pub append_claim : ℕ → Claim → List Claim → List Claim
append_claim max claim claims = if ltb (length claims) max then claims ++ claim ∷ [] else claims

-- a state and a severity for each value of a flag
unfoldable pub flag : Bool → Tri × Severity → Tri × Severity → Tri × Severity
flag true on off = on
flag false on off = off

-- one of two texts
unfoldable pub text_for : Bool → Bytes → Bytes → Bytes
text_for true on off = on
text_for false on off = off

unfoldable pub storage_claim : RuntimeStatus → Claim
unfolding entry flag text_for
storage_claim rt =
    let on = rt.persistent_storage_writable in
    entry (codes "storage.persistent.writable")
      (flag on (tri_yes, severity_info) (tri_no, severity_warn)) (codes "storage") (codes "/vita")
      (text_for on (codes "Persistent storage writable") (codes "Persistent storage not writable"))
      (text_for on (codes "audit persistence path enabled") (codes "runtime remains restricted"))

unfoldable pub journal_txt_claim : RuntimeStatus → Claim
unfolding entry map_status_to_claim
journal_txt_claim rt =
    entry (codes "audit.journal_txt.available") (map_status_to_claim rt.journal_txt_status)
      (codes "audit.journal") (codes "/vita/audit/session-journal.txt")
      (codes "TXT session journal runtime status") (codes "text audit journaling capability")

unfoldable pub journal_jsonl_claim : RuntimeStatus → Claim
unfolding entry map_status_to_claim
journal_jsonl_claim rt =
    entry (codes "audit.journal_jsonl.available") (map_status_to_claim rt.journal_jsonl_status)
      (codes "audit.journal") (codes "/vita/audit/session-journal.jsonl")
      (codes "JSONL session journal runtime status") (codes "JSONL audit stream capability")

unfoldable pub transcript_txt_claim : RuntimeStatus → Claim
unfolding entry map_status_to_claim
transcript_txt_claim rt =
    entry (codes "audit.transcript_txt.available") (map_status_to_claim rt.transcript_txt_status)
      (codes "audit.transcript") (codes "/vita/audit/transcript.txt")
      (codes "TXT transcript runtime status") (codes "text transcript export capability")

unfoldable pub transcript_jsonl_claim : RuntimeStatus → Claim
unfolding entry map_status_to_claim
transcript_jsonl_claim rt =
    entry (codes "audit.transcript_jsonl.available")
      (map_status_to_claim rt.transcript_jsonl_status) (codes "audit.transcript")
      (codes "/vita/audit/transcript.jsonl") (codes "JSONL transcript runtime status")
      (codes "JSONL transcript export capability")

unfoldable pub sqlite_claim : RuntimeStatus → Claim
unfolding entry map_status_to_claim
sqlite_claim rt =
    entry (codes "audit.sqlite.available") (map_status_to_claim rt.sqlite_status)
      (codes "audit.sqlite") (codes "/vita/audit/audit.db") (codes "SQLite audit runtime status")
      (codes "structured audit backend availability")

unfoldable pub restricted_claim : RuntimeStatus → Claim
unfolding entry flag text_for
restricted_claim rt =
    let on = rt.restricted_mode in
    entry (codes "operational.restricted")
      (flag on (tri_yes, severity_info) (tri_no, severity_info)) (codes "runtime.mode")
      (codes "operational")
      (text_for on (codes "Restricted operational mode enabled")
        (codes "Restricted operational mode disabled"))
      (text_for on (codes "limited feature set active") (codes "full feature path permitted"))

unfoldable pub full_claim : RuntimeStatus → Claim
unfolding entry flag text_for
full_claim rt =
    let on = rt.restricted_mode in
    entry (codes "operational.full") (flag on (tri_no, severity_warn) (tri_yes, severity_info))
      (codes "runtime.mode") (codes "operational")
      (text_for on (codes "Full operational mode unavailable")
        (codes "Full operational mode enabled"))
      (text_for on (codes "remain in restricted diagnostics") (codes "full audited operation"))

unfoldable pub vita_ir_claims_from_audit_runtime : RuntimeStatus → ℕ → List Claim
unfolding append_claim storage_claim journal_txt_claim journal_jsonl_claim transcript_txt_claim
    transcript_jsonl_claim sqlite_claim restricted_claim full_claim
vita_ir_claims_from_audit_runtime rt max =
    if max == 0
    then []
    else append_claim max (full_claim rt) (
        append_claim max (restricted_claim rt) (
          append_claim max (sqlite_claim rt) (
            append_claim max (transcript_jsonl_claim rt) (
              append_claim max (transcript_txt_claim rt) (
                append_claim max (journal_jsonl_claim rt) (
                  append_claim max (journal_txt_claim rt)
                    (append_claim max (storage_claim rt) [])))))))
