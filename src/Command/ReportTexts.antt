-- ===== src/Command/ReportTexts.antt =====
-- The texts of the reports of kernel/command_core.c, each in its buffer.
use vita_os.Prelude.{Bool, true, false, ◌&&◌, List, [], ◌∷◌, ◌++◌, codes, if◌then◌else◌}
use vita_os.Text.{text_or, Bytes, starts_with}
use vita_os.Storage.Files.{StorageState}
use vita_os.VitaIr.{
  Status, status_ok, RuntimeStatus, Claim, ir_version_text, vita_tri_to_json_number,
  vita_ir_severity_to_string,
}
use vita_os.Command.Claims.{append_text, append_texts, claim_pieces}
use vita_os.Command.Texts.{
  diagnostic_txt_ready_uefi, diagnostic_txt_ready_other, diagnostic_txt_limited_uefi,
  diagnostic_txt_limited_other, diagnostic_jsonl_ready_uefi, diagnostic_jsonl_ready_other,
  diagnostic_jsonl_limited_uefi, diagnostic_jsonl_limited_other, selftest_txt_pass,
  selftest_txt_warn_storage_ok, selftest_txt_warn_storage_degraded, selftest_jsonl_pass,
  selftest_jsonl_warn,
}

-- one of two texts
unfoldable pub chosen : Bool → Bytes → Bytes → Bytes
chosen true on off = on
chosen false on off = off

unfoldable pub named : Claim → Bytes
unfolding text_or
named c = text_or c.claim (codes "unknown.claim")

-- a claim of a report, as text in a line of 192 bytes
pub claim_text : Claim → Bytes
unfolding append_texts claim_pieces named
claim_text c = append_texts 192 [] (claim_pieces (named c) c ++ codes "\n" ∷ [])

-- the beginning that both forms of a claim in JSON share
unfoldable pub json_pieces : Claim → List Bytes
unfolding named vita_tri_to_json_number vita_ir_severity_to_string
json_pieces c =
    codes "{\"type\":\"vitair_claim\",\"ir_version\":\""
    ∷ ir_version_text
    ∷ codes "\",\"claim\":\""
    ∷ named c
    ∷ codes "\",\"state\":"
    ∷ vita_tri_to_json_number c.state
    ∷ codes ",\"severity\":\""
    ∷ vita_ir_severity_to_string c.severity
    ∷ []

-- `append_vitair_claim_jsonl_line` in a line of 256 bytes
pub claim_jsonl : Claim → Bytes
unfolding append_texts json_pieces
claim_jsonl c = append_texts 256 [] (json_pieces c ++ codes "\"}\n" ∷ [])

unfoldable pub or_unknown_text : Bytes → Bytes
unfolding text_or
or_unknown_text text = text_or text (codes "unknown")

-- the whole claim, in a line of 384 bytes
unfoldable pub state_jsonl : Claim → Bytes
unfolding append_texts json_pieces or_unknown_text
state_jsonl c = append_texts 384 [] (
    json_pieces c
    ++ (codes "\",\"actor\":\""
        ∷ or_unknown_text c.actor
        ∷ codes "\",\"target\":\""
        ∷ or_unknown_text c.target
        ∷ codes "\",\"meaning\":\""
        ∷ or_unknown_text c.meaning
        ∷ codes "\",\"effect\":\""
        ∷ or_unknown_text c.effect
        ∷ codes "\"}\n"
        ∷ []))

-- The loop over the claims, each in its own line, in a report of 4096 bytes.
unfoldable pub append_claims : (Claim → Bytes) → Bytes → List Claim → Bytes
unfolding append_text
append_claims line report [] = report
append_claims line report (c ∷ claims) =
    append_claims line (append_text 4096 report (line c)) claims

-- the claims behind a heading, or the line that stands for none
pub text_claims : Bytes → List Claim → Bytes
unfolding append_text append_claims claim_text
text_claims report [] = append_text 4096 report (codes "VitaIR-Tri runtime claims: unavailable\n")
text_claims report (c ∷ claims) =
    append_claims claim_text (append_text 4096 report (codes "VitaIR-Tri runtime claims:\n"))
      (c ∷ claims)

unfoldable pub jsonl_claims : (Claim → Bytes) → Bytes → Bytes → List Claim → Bytes
unfolding append_text append_claims
jsonl_claims line missing report [] = append_text 4096 report missing
jsonl_claims line missing report (c ∷ claims) = append_claims line report (c ∷ claims)

pub no_claims : Bytes
no_claims =
    codes
      "{\"type\":\"vitair_claims\",\"ir_version\":\"vitair-tri/0.1\",\"status\":\"unavailable\"}\n"

-- the report of `handle_export_vitair`
unfoldable pub vitair_report : List Claim → Bytes
unfolding jsonl_claims state_jsonl no_claims
vitair_report claims = jsonl_claims state_jsonl no_claims [] claims

-- whether the report names the firmware's file system
pub on_uefi : StorageState → Bool
unfolding starts_with
on_uefi st = st.bootstrap_verified && starts_with st.backend_name (codes "uefi_simple_fs")

pub diagnostic_txt : StorageState → Bool → Bytes
unfolding on_uefi chosen
diagnostic_txt st ready =
    if on_uefi st
    then chosen ready diagnostic_txt_ready_uefi diagnostic_txt_limited_uefi
    else chosen ready diagnostic_txt_ready_other diagnostic_txt_limited_other

pub diagnostic_jsonl : StorageState → Bool → Bytes
unfolding on_uefi chosen
diagnostic_jsonl st ready =
    if on_uefi st
    then chosen ready diagnostic_jsonl_ready_uefi diagnostic_jsonl_limited_uefi
    else chosen ready diagnostic_jsonl_ready_other diagnostic_jsonl_limited_other

-- the two reports of `handle_diagnostic_bundle`
unfoldable pub diagnostic_reports : StorageState → Bool → List Claim → Bytes × Bytes
unfolding append_text diagnostic_txt diagnostic_jsonl text_claims jsonl_claims claim_jsonl no_claims
diagnostic_reports st ready claims = (
  text_claims
      (append_text 4096 (append_text 4096 [] (diagnostic_txt st ready)) (codes "[VitaIR-Tri]\n"))
      claims,
  jsonl_claims claim_jsonl no_claims (append_text 4096 [] (diagnostic_jsonl st ready)) claims,
)

pub storage_ok : Status → Bool
storage_ok status_ok = true
storage_ok _ = false

-- the two reports of `handle_selftest`
unfoldable pub selftest_reports : RuntimeStatus → Bool → List Claim → Bytes × Bytes
unfolding append_text chosen storage_ok text_claims jsonl_claims claim_jsonl
selftest_reports rt ready claims = (
  text_claims
      (append_text 4096 [] (
        chosen ready selftest_txt_pass (
          chosen (storage_ok rt.storage_status) selftest_txt_warn_storage_ok
            selftest_txt_warn_storage_degraded)))
      claims,
  jsonl_claims claim_jsonl (codes "{\"type\":\"vitair_claims\",\"status\":\"unavailable\"}\n")
      (append_text 4096 [] (chosen ready selftest_jsonl_pass selftest_jsonl_warn)) claims,
)

abbrev pub vitair_path : Bytes
vitair_path = codes "/vita/export/reports/vitair-state.jsonl"
