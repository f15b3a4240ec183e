-- ===== src/Command/Claims.antt =====
-- How kernel/command_core.c builds a text in a buffer, and the lines on the claims of VitaIR.
use vita_os.Prelude.{
  ℕ, Bool, ◌&&◌, not, Option, none, some, List, [], ◌∷◌, ◌++◌, codes, ◌==◌, if◌then◌else◌,
}
use vita_os.Text.{text_or, Bytes, str_eq, str_len, copy_from}
use vita_os.Storage.Files.{StorageState}
use vita_os.VitaIr.{
  status_ok, status_warn, status_fail, status_unavailable, RuntimeStatus, Claim, vita_tri_to_symbol,
  vita_ir_severity_to_string,
}

-- `append_text` in a buffer of `cap` bytes
unfoldable pub append_text : ℕ → Bytes → Bytes → Bytes
unfolding copy_from str_len
append_text cap dst src = if cap == 0 then dst else dst ++ copy_from cap (str_len dst) src

unfoldable pub append_texts : ℕ → Bytes → List Bytes → Bytes
unfolding append_text
append_texts cap dst [] = dst
append_texts cap dst (src ∷ texts) = append_texts cap (append_text cap dst src) texts

-- `resolve_audit_runtime_status`, from the states of the storage, of the journal and of the boot
unfoldable pub runtime_status : StorageState → Bool → Bool → RuntimeStatus
runtime_status st journal_active audit_ready =
    let journal = if journal_active then status_ok else status_warn in
    record {
      storage_status =
          if st.bootstrap_verified
          then status_ok
          else if st.bootstrap_attempted
          then status_warn
          else status_fail;
      journal_txt_status = journal;
      journal_jsonl_status = journal;
      transcript_txt_status = journal;
      transcript_jsonl_status = journal;
      sqlite_status = if audit_ready then status_ok else status_unavailable;
      persistent_storage_writable = st.bootstrap_verified && st.writable;
      restricted_mode = not audit_ready;
    }

-- the pieces of `append_vitair_claim_txt_line`
unfoldable pub claim_pieces : Bytes → Claim → List Bytes
unfolding vita_tri_to_symbol vita_ir_severity_to_string
claim_pieces name c =
    codes "- "
    ∷ name
    ∷ codes ": "
    ∷ vita_tri_to_symbol c.state
    ∷ codes " "
    ∷ vita_ir_severity_to_string c.severity
    ∷ []

-- a claim in a line of 160 bytes
unfoldable pub claim_line : Claim → Bytes
unfolding append_texts claim_pieces text_or
claim_line c = append_texts 160 [] (claim_pieces (text_or c.claim (codes "unknown.claim")) c)

-- the first claim of that name
find_claim : Bytes → List Claim → Option Claim
find_claim name [] = none
find_claim name (c ∷ claims) =
    let rest = find_claim name claims in if str_eq c.claim name then some c else rest

-- The lines of a summary: the claims that it names and that are there.
unfoldable pub summary_lines : List Bytes → List Claim → List Bytes
unfolding append_texts claim_pieces find_claim
summary_lines [] claims = []
summary_lines (name ∷ names) claims =
    let rest = summary_lines names claims in
    elim (find_claim name claims) [
      | none ↦ rest
      | some c ↦ append_texts 160 [] (claim_pieces name c) ∷ rest
    ]

abbrev pub status_claims : List Bytes
status_claims =
    codes "storage.persistent.writable"
    ∷ codes "audit.journal_jsonl.available"
    ∷ codes "audit.sqlite.available"
    ∷ codes "operational.restricted"
    ∷ codes "operational.full"
    ∷ []

abbrev pub storage_claims : List Bytes
storage_claims =
    codes "storage.persistent.writable"
    ∷ codes "audit.journal_jsonl.available"
    ∷ codes "operational.restricted"
    ∷ codes "operational.full"
    ∷ []
