-- ===== src/Transcript.antt =====
-- kernel/session_transcript.c: the transcript of a session, its state and the recording of an
-- event. The start of a session is in Transcript.Start.
pub mod Lines
pub mod Start
pub mod Frame
pub mod Output
pub mod Errors
use vita_os.Prelude.{
  ℕ, ◌+◌, ◌-◌, ◌/◌, ◌%◌, ◌^◌, ◌<◌, Bool, true, false, not, ◌&&◌, ◌||◌, some, List, [], ◌∷◌, ◌++◌,
  codes, length, leb, ltb, if◌then◌else◌,
}
use vita_os.Text.{Bytes, str_eq, str_copy, str_append}
use vita_os.Storage.Host.{Host}
use vita_os.Storage.Files.{World, storage_write_text, storage_read_text}
use vita_os.Journal.{Journal, session_journal_log_system}
use vita_os.Transcript.Lines.{
  Identity, append_all, u6, part_path, control_pieces, event_pieces, truncation_pieces, text_pieces,
  part_message,
}

-- `st_t`. The fields `txt_path`, `jsonl_path` and `jsonl_primary_path` are empty before a session
-- is chosen, and then what the functions of these names compute from the session and the part. The
-- buffers hold 65536 bytes, and `txt_len` and `jsonl_len` are the lengths of what they hold.
pub record Transcript : Type 0 where
  pub initialized : Bool
  pub active : Bool
  pub busy : Bool
  pub error_reported : Bool
  pub seq : ℕ
  pub session_id : Bytes
  pub txt : Bytes
  pub jsonl : Bytes
  pub state : Bytes
  pub last_text : Bytes
  pub identity : Identity
  pub current_jsonl_part : ℕ
  pub jsonl_rotation_count : ℕ
  pub truncated_reported : Bool
  pub jsonl_locked : Bool

-- What an event touches: the transcript, the journal, and the storage.
pub record Station (Fs : Type 0) : Type 0 where
  pub transcript : Transcript
  pub journal : Journal
  pub world : World Fs

unfoldable pub txt_path : Transcript → Bytes
txt_path t =
    str_append
      (str_append (str_copy [] 192 (some (codes "/vita/audit/sessions/"))) 192 (some t.session_id))
      192 (some (codes ".txt"))

unfoldable pub jsonl_path : Transcript → Bytes
jsonl_path t = part_path t.session_id t.current_jsonl_part

-- `append_within_cap`: all of the text or nothing
pub append_within_cap : Bytes → ℕ → Bytes → Bool × Bytes
append_within_cap dst cap src =
    if ltb cap (length dst + length src + 1) then (false, dst) else (true, dst ++ src)

put_jsonl : Transcript → Bool × Bytes → Bool × Transcript
put_jsonl t (ok, jsonl) = (ok, record t { jsonl = jsonl })

pub append_jsonl_line : Bytes → Transcript → Bool × Transcript
unfolding put_jsonl append_within_cap
append_jsonl_line line t =
    if t.jsonl_locked then (false, t) else put_jsonl t (append_within_cap t.jsonl 65536 line)

-- texts at the end of the text buffer
unfoldable pub append_txt : List Bytes → Transcript → Transcript
append_txt pieces t = record t { txt = append_all 65536 t.txt pieces }

next_seq : Transcript → ℕ
next_seq t = (t.seq + 1) % 2 ^ 32

pub report_transcript_truncated_once : Transcript → Transcript
unfolding append_txt next_seq append_within_cap
report_transcript_truncated_once t =
    if t.truncated_reported
    then t
    else (let t' =
          append_txt
            (codes "["
              ∷ u6 (next_seq t)
              ∷ codes "] transcript_truncated: jsonl capacity reached\n"
              ∷ [])
            (record t { truncated_reported = true; jsonl_locked = true; seq = next_seq t }) in
        record t' {
          jsonl =
              (append_within_cap t'.jsonl 65536
                (append_all 256 [] (truncation_pieces t'.session_id t'.seq))).1;
        })

pub append_control_jsonl_event : Bytes → Bytes → Transcript → Bool × Transcript
unfolding append_jsonl_line next_seq
append_control_jsonl_event event_type text t =
    append_jsonl_line
      (append_all 512 [] (control_pieces t.session_id t.identity event_type text (next_seq t)))
      (record t { seq = next_seq t })

module _ (host : Host) where
  -- the two files read back, the second only behind a success of the first
  read_both : Transcript → World host.Fs → Bool × World host.Fs
  read_both t w =
      let ((done1, txt), w1) = storage_read_text host (txt_path t) [] 2048 w in
      let ((done2, jsonl), w2) = storage_read_text host (jsonl_path t) [] 2048 w1 in
      if not done1
      then (false, w1)
      else if not done2
      then (false, w2)
      else (str_eq txt t.txt && str_eq jsonl t.jsonl, w2)

  -- `flushv`: the second file is written behind a success of the first, and both are read back
  -- where they fit the buffers for that.
  unfoldable pub flush : Transcript → World host.Fs → Bool × World host.Fs
  unfolding read_both txt_path jsonl_path
  flush t w =
      let (ok1, w1) = storage_write_text host (txt_path t) t.txt w in
      let (ok2, w2) = storage_write_text host (jsonl_path t) t.jsonl w1 in
      if not ok1
      then (false, w1)
      else if not ok2
      then (false, w2)
      else if leb 2047 (length t.txt) || leb 2047 (length t.jsonl)
      then (true, w2)
      else read_both t w2

  -- the state with a new, empty part
  next_part : Transcript → Transcript
  next_part t = record t {
    current_jsonl_part = (t.current_jsonl_part + 1) % 2 ^ 32;
    jsonl_rotation_count = (t.jsonl_rotation_count + 1) % 2 ^ 32;
    jsonl = [];
  }

  -- the two control events of a new part
  open_part : Transcript → Bool × Transcript
  open_part t =
      let (ok, t1) =
        append_control_jsonl_event (codes "transcript_rotated") (codes "jsonl part rotated") t in
      if ok
      then append_control_jsonl_event (codes "transcript_part_start")
          (part_message t.current_jsonl_part) t1
      else (false, t1)

  after_flush : Transcript → Bool × World host.Fs → (Bool × Transcript) × World host.Fs
  unfolding next_part open_part
  after_flush t (true, w) = (open_part (next_part t), w)
  after_flush t (false, w) = ((false, t), w)

  pub rotate_jsonl_part : Transcript → World host.Fs → (Bool × Transcript) × World host.Fs
  unfolding after_flush
  rotate_jsonl_part t w = after_flush t (flush t w)

  -- the line of an event under the next number, with that number
  add_line : Bytes → Bytes → Bytes → Transcript → Bool × Transcript
  unfolding append_jsonl_line next_seq
  add_line event_type actor text t =
      append_jsonl_line
        (append_all 1024 []
          (event_pieces t.session_id t.identity event_type actor text (next_seq t)))
        t

  -- behind a rotation: the number of the event, and the transcript
  after_rotation :
      Bytes
      → Bytes
      → Bytes
      → ℕ
      → (Bool × Transcript) × World host.Fs
      → (ℕ × Transcript) × World host.Fs
  unfolding add_line
  after_rotation event_type actor text old ((false, t), w) =
      ((old, report_transcript_truncated_once t), w)
  after_rotation event_type actor text old ((true, t), w) =
      let (ok, t1) = add_line event_type actor text t in
      ((next_seq t, if ok then t1 else report_transcript_truncated_once t1), w)

  -- The JSON line of an event, in a new part where it does not fit the present one.
  record_json :
      Bytes → Bytes → Bytes → Transcript → World host.Fs → (ℕ × Transcript) × World host.Fs
  unfolding add_line after_rotation next_seq
  record_json event_type actor text t w =
      let (ok, t1) = add_line event_type actor text t in
      if t.jsonl_locked
      then ((next_seq t, t), w)
      else if ok
      then ((next_seq t, t1), w)
      else after_rotation event_type actor text (next_seq t) (rotate_jsonl_part t1 w)

  -- The text line of an event.
  record_text : Bytes → Bytes → (ℕ × Transcript) → Transcript
  unfolding append_txt
  record_text event_type text (seq, t) =
      append_txt (append_all 256 [] (text_pieces seq event_type text) ∷ (b'\n' ∷ []) ∷ [])
        (record t { seq = seq })

  pub mark_transcript_error_once : Bytes → Station host.Fs → Station host.Fs
  mark_transcript_error_once reason s =
      let (journal, world) =
        session_journal_log_system host (codes "transcript_error") reason s.journal s.world in
      if s.transcript.error_reported then s else record {
        transcript = record s.transcript { error_reported = true };
        journal = journal;
        world = world;
      }

  set_transcript : Transcript → World host.Fs → Station host.Fs → Station host.Fs
  set_transcript t w s = record s { transcript = t; world = w }

  -- A flush that fails ends the transcript.
  finish_event : Transcript → Station host.Fs → Bool × World host.Fs → Station host.Fs
  unfolding mark_transcript_error_once set_transcript
  finish_event t s (true, w) = set_transcript (record t { busy = false }) w s
  finish_event t s (false, w) =
      let s' =
        mark_transcript_error_once (codes "write_read_compare_failed")
          (set_transcript (record t { active = false; state = codes "error" }) w s) in
      record s' { transcript = record s'.transcript { busy = false } }

  record_both : Bytes → Bytes → (ℕ × Transcript) × World host.Fs → Station host.Fs → Station host.Fs
  unfolding record_text finish_event
  record_both event_type text (r, w) s =
      let t = record_text event_type text r in finish_event t s (flush t w)

  unfoldable pub event : Bytes → Bytes → Bytes → Station host.Fs → Station host.Fs
  unfolding record_json record_both
  event event_type actor text s =
      if not s.transcript.active || s.transcript.busy
      then s
      else record_both event_type text
          (record_json event_type actor text (record s.transcript { busy = true }) s.world) s
