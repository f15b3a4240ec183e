-- ===== src/Command/Dispatch/Chain.antt =====
-- Whatever line is given to command_handle_line, the audit log stays a hash chain.
use vita_os.Prelude.{ℕ, Bool, ◌>>◌, List, [], ◌∷◌, ◌≡◌, length}
use vita_os.Text.{Bytes}
use vita_os.Audit.Rows.{EventRow}
use vita_os.Transcript.Output.{
  session_transcript_log_user_input, session_transcript_log_command_executed,
}
use vita_os.Console.Screens.{mode_emergency}
use vita_os.AiGateway.Chain.{gateway-Safe}
use vita_os.Command.{Platform, Do, on_site}
use vita_os.Command.Chain.{Safe, Sound, sound, Sound-Safe, site-Safe, say_all-Safe, station-Safe}
use vita_os.Console.Status.{storage_show_status}
use vita_os.Command.Status.{
  show_storage_status_vitair_summary, show_status_vitair_summary, show_refreshed_header,
  show_emergency,
}
use vita_os.Command.Status.Chain.{
  refresh-Safe, show_hw-Safe, show_audit-Safe, status_summary-Safe, storage_summary-Safe,
  header-Safe, show_peers-Safe, show_proposals-Safe, show_emergency-Safe,
}
use vita_os.Command.Reports.Chain.{
  verify-Safe, export-Safe, events-Safe, sqlite-Safe, diagnostic-Safe, selftest-Safe, vitair-Safe,
  index-Safe,
}
use vita_os.Command.Steps.{
  Line, command_of, set_mode, clear_screen, show_status, export_report, export_jsonl, goes_on,
  audited, offer, when◌run◌else◌, shut_down,
}
use vita_os.Command.Steps.Chain.{
  when-Safe, goes_on-Safe, audited-Safe, offer-Safe, set_mode-Safe, show_help-Safe,
  show_status-Safe, clear_screen-Safe, answer_line-Safe, run_editor-Safe, export_report-Safe,
  export_jsonl-Safe, shut_down-Safe,
}
use vita_os.Command.Dispatch.{
  handle_exports, offer_modules, handle_guided, dispatch, enter, recorded, command_handle_line,
}

module _ (platform : Platform) (base : List EventRow)
    (frames : (i : ℕ) → length (platform.clock i).stack ≡ 64) where
  abbrev Keeps : {A : Type 0} → Do platform A → Type 0
  Keeps f = Safe platform base frames f

  abbrev Fine : Line platform → Type 0
  Fine f = Sound platform base frames f

  -- a branch that goes on, and one that is recorded first
  steps :
      (b : Bool) (step : Do platform Unit) (rest : Line platform)
      → Keeps step
      → Fine rest
      → Fine (when b run goes_on platform step else rest)
  steps b step rest h k = sound platform base frames (when b run goes_on platform step else rest) (
      when-Safe platform base frames b (goes_on platform step) rest
        (goes_on-Safe platform base frames step h) (Sound-Safe platform base frames rest k))

  audits :
      (b : Bool) (event_type summary : Bytes) (step : Do platform Unit) (rest : Line platform)
      → Keeps step
      → Fine rest
      → Fine (when b run audited platform event_type summary step else rest)
  audits b event_type summary step rest h k =
      sound platform base frames (when b run audited platform event_type summary step else rest) (
        when-Safe platform base frames b (audited platform event_type summary step) rest
          (audited-Safe platform base frames event_type summary step h)
          (Sound-Safe platform base frames rest k))

  offers :
      (handler : Do platform Bool) (rest : Line platform)
      → Keeps handler
      → Fine rest
      → Fine (offer platform handler rest)
  offers handler rest h k =
      sound platform base frames (offer platform handler rest)
        (offer-Safe platform base frames handler rest h (Sound-Safe platform base frames rest k))

  last :
      (b : Bool) (step : Do platform Unit)
      → Keeps step
      → Fine (when b run shut_down platform else goes_on platform step)
  last b step h =
      sound platform base frames (when b run shut_down platform else goes_on platform step) (
        when-Safe platform base frames b (shut_down platform) (goes_on platform step)
          (shut_down-Safe platform base frames) (goes_on-Safe platform base frames step h))

  exports-Safe : Keeps (do export_report platform; export_jsonl platform)
  exports-Safe m inv =
      export_jsonl-Safe platform base frames (export_report platform m).1
        (export_report-Safe platform base frames m inv)

  handle_exports-Sound : (cmd : Bytes) → Fine (handle_exports platform cmd)
  unfolding handle_exports
  handle_exports-Sound cmd = steps _ _ _ (export_report-Safe platform base frames) (
      steps _ _ _ exports-Safe (
        steps _ _ _ (export_jsonl-Safe platform base frames) (
          steps _ _ _ (vitair-Safe platform base frames) (
            steps _ _ _ (diagnostic-Safe platform base frames) (
              steps _ _ _ (index-Safe platform base frames) (
                steps _ _ _ (selftest-Safe platform base frames) (
                  audits _ _ _ _ _ (say_all-Safe platform base frames _)
                    (last _ _ (show_emergency-Safe platform base frames cmd)))))))))

  show_storage_status-Safe : Keeps (do
    on_site platform (λ s. (tt, storage_show_status platform.terminal platform.host s))
    show_storage_status_vitair_summary platform)
  show_storage_status-Safe m inv =
      storage_summary-Safe platform base frames _ (site-Safe platform base frames _ m inv)

  offer_modules-Sound : (cmd : Bytes) (typed : List Bytes) → Fine (offer_modules platform cmd typed)
  unfolding offer_modules
  offer_modules-Sound cmd typed = offers _ _ (gateway-Safe platform base frames cmd) (
      steps _ _ _ show_storage_status-Safe (
        offers _ _ (site-Safe platform base frames _) (
          offers _ _ (run_editor-Safe platform base frames cmd typed)
            (offers _ _ (site-Safe platform base frames _) (handle_exports-Sound cmd)))))

  enter_emergency-Safe : Keeps (do set_mode platform mode_emergency; show_emergency platform [])
  enter_emergency-Safe m inv =
      show_emergency-Safe platform base frames [] _
        (set_mode-Safe platform base frames mode_emergency m inv)

  clear-Safe : Keeps (do clear_screen platform; show_refreshed_header platform)
  clear-Safe m inv =
      header-Safe platform base frames _ (clear_screen-Safe platform base frames m inv)

  handle_guided-Sound : (cmd : Bytes) (typed : List Bytes) → Fine (handle_guided platform cmd typed)
  unfolding handle_guided
  handle_guided-Sound cmd typed = audits _ _ _ _ _ (show_peers-Safe platform base frames) (
      audits _ _ _ _ _ (show_proposals-Safe platform base frames) (
        steps _ _ _ enter_emergency-Safe (
          audits _ _ _ _ _ (show_help-Safe platform base frames) (
            audits _ _ _ _ _ clear-Safe (
              steps _ _ _ (answer_line-Safe platform base frames cmd)
                (offer_modules-Sound cmd typed))))))

  status-Safe : Keeps (do show_status platform; show_status_vitair_summary platform)
  status-Safe m inv =
      status_summary-Safe platform base frames _ (show_status-Safe platform base frames m inv)

  dispatch-Sound : (cmd : Bytes) (typed : List Bytes) → Fine (dispatch platform cmd typed)
  unfolding dispatch
  dispatch-Sound cmd typed = audits _ _ _ _ _ status-Safe (
      audits _ _ _ _ _ (show_hw-Safe platform base frames) (
        audits _ _ _ _ _ (show_audit-Safe platform base frames) (
          steps _ _ _ (show_audit-Safe platform base frames) (
            steps _ _ _ (verify-Safe platform base frames) (
              steps _ _ _ (export-Safe platform base frames) (
                steps _ _ _ (events-Safe platform base frames) (
                  steps _ _ _ (sqlite-Safe platform base frames)
                    (handle_guided-Sound cmd typed))))))))

  enter-Safe : (cmd : Bytes) → Keeps (enter platform cmd)
  unfolding enter
  enter-Safe cmd m inv = refresh-Safe platform base frames _ (
      station-Safe platform base frames (session_transcript_log_command_executed platform.host cmd)
        _
        (station-Safe platform base frames (session_transcript_log_user_input platform.host cmd) m
          inv))

  recorded-Safe : (cmd : Bytes) (typed : List Bytes) → Keeps (recorded platform cmd typed)
  unfolding recorded
  recorded-Safe [] typed m inv = inv
  recorded-Safe (c ∷ cmd) typed m inv =
      Sound-Safe platform base frames (dispatch platform (c ∷ cmd) typed)
        (dispatch-Sound (c ∷ cmd) typed) _ (enter-Safe (c ∷ cmd) m inv)

  -- Every command of command_handle_line keeps the hash chain of the audit log.
  pub command_handle_line-Safe :
      (line : Bytes) (typed : List Bytes) → Keeps (command_handle_line platform line typed)
  unfolding command_handle_line
  command_handle_line-Safe line typed = recorded-Safe (command_of line) typed
