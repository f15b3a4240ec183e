-- ===== src/Transcript/Output/Frame.antt =====
-- Recording what the system prints changes no file outside /vita/audit/.
use vita_os.Prelude.{Bool, false, ◌&&◌, some, codes, if_elim, if◌then◌else◌}
use vita_os.Text.{Bytes, str_copy, str_eq}
use vita_os.Storage.Host.{Host, HostFrame}
use vita_os.Storage.Files.Kept.{Kept, Kept-refl}
use vita_os.Transcript.{Station, event}
use vita_os.Transcript.Frame.{event-Kept}
use vita_os.Transcript.Output.{is_prompt, strip, log_clean, session_transcript_log_system_output}

module _ (host : Host) (frame : HostFrame host) (path : Bytes) where
  log_clean-Kept :
      (clean : Bytes) (raw : Bool) (s : Station host.Fs)
      → Kept host frame path s.world (log_clean host clean raw s).world
  unfolding log_clean
  log_clean-Kept clean raw s =
      let copied = record s {
        transcript = record s.transcript {
          last_text = str_copy s.transcript.last_text 160 (some clean);
        };
      } in
      let logged = event host (codes "system_output") (codes "system") clean copied in
      if_elim P (is_prompt clean) s
        (if raw && str_eq s.transcript.last_text clean then s else logged)
        (λ _. Kept-refl host frame path s.world)
        λ _.
          if_elim P (raw && str_eq s.transcript.last_text clean) s logged
            (λ _. Kept-refl host frame path s.world)
            λ _. event-Kept host frame path (codes "system_output") (codes "system") clean copied
    where
      P : Station host.Fs → Type 0
      P s' = Kept host frame path s.world s'.world

  pub log_system_output-Kept :
      (text : Bytes) (raw : Bool) (s : Station host.Fs)
      → Kept host frame path s.world (session_transcript_log_system_output host text raw s).world
  unfolding session_transcript_log_system_output
  log_system_output-Kept text raw s = log_clean-Kept (strip 0 false text) raw s
