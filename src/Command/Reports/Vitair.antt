-- ===== src/Command/Reports/Vitair.antt =====
-- The report of `export vitair` is longer than the buffer that it is read back into.
use vita_os.Prelude.{
  ℕ, ◌≤◌, false, List, [], ◌∷◌, ◌≡◌, sym, ap, subst, codes, length, arith, Bool-cases, inl, inr,
}
use vita_os.VitaIr.{Claim, RuntimeStatus, claim_max}
use vita_os.VitaIr.{
  entry, storage_claim, journal_txt_claim, journal_jsonl_claim, transcript_txt_claim,
  transcript_jsonl_claim, sqlite_claim, restricted_claim, full_claim,
  vita_ir_claims_from_audit_runtime,
}
use vita_os.VitaIr.Claims.{all_claims, claims-take}
use vita_os.Command.{Platform, Here, say}
use vita_os.Command.Status.{claims_now, resolve_audit_runtime_status}
use vita_os.Command.Reports.{write_vitair, handle_export_vitair, report}
use vita_os.Command.ReportTexts.{vitair_path, vitair_report, jsonl_claims}
use vita_os.Command.Reports.Verified.{write_report_verified-IsWritten}
use vita_os.Command.Reports.Lengths.{own, weight, Fit, append_claims-reaches, length-text_for}

-- the claims with two texts each, in bounds that hold for both
Between : ℕ → ℕ → Claim → Type 0
Between low high c = (low ≤ own c) × (own c ≤ high)

storage_claim-Between : (rt : RuntimeStatus) → Between 92 153 (storage_claim rt)
unfolding Between own storage_claim entry
storage_claim-Between rt =
    let on = rt.persistent_storage_writable in
    let meaning =
      length-text_for on (codes "Persistent storage writable")
        (codes "Persistent storage not writable") in
    let effect =
      length-text_for on (codes "audit persistence path enabled")
        (codes "runtime remains restricted") in
    (omega (arith, meaning.0, effect.0), omega (arith, meaning.1, effect.1))

restricted_claim-Between : (rt : RuntimeStatus) → Between 100 180 (restricted_claim rt)
unfolding Between own restricted_claim entry
restricted_claim-Between rt =
    let meaning =
      length-text_for rt.restricted_mode (codes "Restricted operational mode enabled")
        (codes "Restricted operational mode disabled") in
    let effect =
      length-text_for rt.restricted_mode (codes "limited feature set active")
        (codes "full feature path permitted") in
    (omega (arith, meaning.0, effect.0), omega (arith, meaning.1, effect.1))

full_claim-Between : (rt : RuntimeStatus) → Between 88 180 (full_claim rt)
unfolding Between own full_claim entry
full_claim-Between rt =
    let meaning =
      length-text_for rt.restricted_mode (codes "Full operational mode unavailable")
        (codes "Full operational mode enabled") in
    let effect =
      length-text_for rt.restricted_mode (codes "remain in restricted diagnostics")
        (codes "full audited operation") in
    (omega (arith, meaning.0, effect.0), omega (arith, meaning.1, effect.1))

all_claims-Fit : (rt : RuntimeStatus) → Fit (all_claims rt)
unfolding Fit all_claims own Between entry journal_txt_claim journal_jsonl_claim
    transcript_txt_claim transcript_jsonl_claim sqlite_claim
all_claims-Fit rt = (
  omega (arith, (storage_claim-Between rt).1),
  (
    omega arith,
    (
      omega arith,
      (
        omega arith,
        (
          omega arith,
          (
            omega arith,
            (
              omega (arith, (restricted_claim-Between rt).1),
              (omega (arith, (full_claim-Between rt).1), tt),
            ),
          ),
        ),
      ),
    ),
  ),
)

all_claims-weight : (rt : RuntimeStatus) → 2048 ≤ weight (all_claims rt)
unfolding weight all_claims own Between entry journal_txt_claim journal_jsonl_claim
    transcript_txt_claim transcript_jsonl_claim sqlite_claim
all_claims-weight rt = omega (
  arith,
  (storage_claim-Between rt).0,
  (restricted_claim-Between rt).0,
  (full_claim-Between rt).0,
)

-- The report of any runtime status has at least 2048 bytes.
length-vitair_report :
    (rt : RuntimeStatus)
    → 2048 ≤ length (vitair_report (vita_ir_claims_from_audit_runtime rt claim_max))
unfolding vitair_report jsonl_claims all_claims
length-vitair_report rt =
    subst (λ (l : List Claim). 2048 ≤ length (vitair_report l)) (sym (claims-take rt claim_max))
      (omega (
        arith,
        all_claims-weight rt,
        append_claims-reaches 2048 [] (all_claims rt) (omega arith) (all_claims-Fit rt),
      ))

module _ (platform : Platform) where
  vitair_unwritten : (m : Here platform) → (write_vitair platform m).0 ≡ false
  unfolding write_vitair claims_now
  vitair_unwritten m =
      let rt = resolve_audit_runtime_status platform m in
      elim (Bool-cases (write_vitair platform m).0) [
        | inl done ↦
            let w =
              write_report_verified-IsWritten platform vitair_path
                (vitair_report (claims_now platform m)) m done in
            absurd (omega (arith, w.short, length-vitair_report rt))
        | inr failed ↦ failed
      ]

  -- `export vitair` fails, whatever the state of the system and whatever the file system does: its
  -- report has at least 2048 bytes in every state, and so never equals what is read back. The last
  -- that it prints is the line that says so.
  pub handle_export_vitair_fails :
      (m : Here platform)
      → ((write_vitair platform m).0 ≡ false)
        × (handle_export_vitair platform m
            ≡ say platform (codes "export vitair: failed") (write_vitair platform m).1)
  unfolding handle_export_vitair report
  handle_export_vitair_fails m =
      let e = vitair_unwritten m in
      (
        e,
        ap
            (λ ok.
              report platform (codes "export vitair: written" ∷ vitair_path ∷ [])
                (codes "export vitair: failed") ok (write_vitair platform m).1)
            e,
      )
