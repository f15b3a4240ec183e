-- ===== src/Transcript/Errors.antt =====
-- What recording an event leaves as the last error of the storage facade.
use vita_os.Prelude.{
  ℕ, Bool, true, false, not, ◌&&◌, ◌||◌, [], ◌≡◌, refl, codes, if_elim, not-true, length, leb,
}
use vita_os.Text.{Bytes, str_eq}
use vita_os.Storage.Host.{Host}
use vita_os.Storage.Files.{World, storage_write_text, storage_read_text}
use vita_os.Storage.Files.LastError.{IsFine, storage_write_text-IsFine, storage_read_text-IsFine}
use vita_os.Transcript.{
  Transcript, Station, txt_path, jsonl_path, read_both, flush, mark_transcript_error_once,
  set_transcript, finish_event, record_text, record_json, record_both, event,
}

module _ (host : Host) where
  read_both-IsFine :
      (t : Transcript) (w : World host.Fs)
      → (read_both host t w).0 ≡ true
      → IsFine host (read_both host t w).1
  unfolding read_both
  read_both-IsFine t w =
      let first = storage_read_text host (txt_path t) [] 2048 w in
      let second = storage_read_text host (jsonl_path t) [] 2048 first.1 in
      if_elim P (not first.0.0) (false, first.1) _ (λ _ h. cc)
        λ _.
          if_elim P (not second.0.0) (false, second.1)
            (str_eq first.0.1 t.txt && str_eq second.0.1 t.jsonl, second.1) (λ _ h. cc)
            λ two h. storage_read_text-IsFine host (jsonl_path t) [] 2048 first.1 (not-true _ two)
    where
      P : Bool × World host.Fs → Type 0
      P r = r.0 ≡ true → IsFine host r.1

  flush-IsFine :
      (t : Transcript) (w : World host.Fs)
      → (flush host t w).0 ≡ true
      → IsFine host (flush host t w).1
  unfolding flush
  flush-IsFine t w =
      let first = storage_write_text host (txt_path t) t.txt w in
      let second = storage_write_text host (jsonl_path t) t.jsonl first.1 in
      if_elim P (not first.0) (false, first.1) _ (λ _ h. cc)
        λ _.
          if_elim P (not second.0) (false, second.1) _ (λ _ h. cc)
            λ two.
              if_elim P (leb 2047 (length t.txt) || leb 2047 (length t.jsonl)) (true, second.1)
                (read_both host t second.1)
                (λ _ h.
                  storage_write_text-IsFine host (jsonl_path t) t.jsonl first.1 (not-true _ two))
                λ _. read_both-IsFine t second.1
    where
      P : Bool × World host.Fs → Type 0
      P r = r.0 ≡ true → IsFine host r.1

  marked-active :
      (reason : Bytes) (s : Station host.Fs)
      → (mark_transcript_error_once host reason s).transcript.active ≡ s.transcript.active
  unfolding mark_transcript_error_once
  marked-active reason s =
      if_elim (λ (t : Station host.Fs). t.transcript.active ≡ s.transcript.active)
        s.transcript.error_reported s _ (λ _. refl) (λ _. refl)

  finish_event-IsFine :
      (t : Transcript) (s : Station host.Fs) (r : Bool × World host.Fs)
      → (r.0 ≡ true → IsFine host r.1)
      → (finish_event host t s r).transcript.active ≡ true
      → IsFine host (finish_event host t s r).world
  unfolding finish_event set_transcript
  finish_event-IsFine t s (true, w) fine h = fine refl
  finish_event-IsFine t s (false, w) fine h =
      let closed =
        marked-active (codes "write_read_compare_failed")
          (set_transcript host (record t { active = false; state = codes "error" }) w s) in
      cc

  record_both-IsFine :
      (event_type text : Bytes) (r : (ℕ × Transcript) × World host.Fs) (s : Station host.Fs)
      → (record_both host event_type text r s).transcript.active ≡ true
      → IsFine host (record_both host event_type text r s).world
  unfolding record_both
  record_both-IsFine event_type text (r, w) s h =
      let t = record_text host event_type text r in
      finish_event-IsFine t s (flush host t w) (flush-IsFine t w) h

  -- An event that an idle transcript records, and that leaves it active, sets the last error of the
  -- storage facade to "ok", whatever failed before.
  pub event-IsFine :
      (event_type actor text : Bytes) (s : Station host.Fs)
      → s.transcript.active ≡ true
      → s.transcript.busy ≡ false
      → (event host event_type actor text s).transcript.active ≡ true
      → IsFine host (event host event_type actor text s).world
  unfolding event
  event-IsFine event_type actor text s active idle =
      if_elim P (not s.transcript.active || s.transcript.busy) s _ (λ off. cc (active, idle, off))
        λ _.
          record_both-IsFine event_type text
            (record_json host event_type actor text (record s.transcript { busy = true }) s.world) s
    where
      P : Station host.Fs → Type 0
      P s' = s'.transcript.active ≡ true → IsFine host s'.world
