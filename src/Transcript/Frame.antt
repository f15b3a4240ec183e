-- ===== src/Transcript/Frame.antt =====
-- The files of a transcript are below /vita/audit/: recording an event changes no other file, and no
-- switch of the storage facade.
use vita_os.Prelude.{
  ℕ, Bool, true, false, not, ◌&&◌, ◌||◌, some, List, [], ◌∷◌, ◌++◌, ◌≡◌, sym, ap, ◌∙◌, codes,
  if_elim, append_assoc, append-nil, leb, length, if◌then◌else◌,
}
use vita_os.Text.{Bytes, str_append, str_copy, str_eq}
use vita_os.Text.Laws.{str_append_prefix}
use vita_os.Storage.Host.{Host, HostFrame}
use vita_os.Storage.Files.{World, storage_write_text, storage_read_text}
use vita_os.Storage.Files.Kept.{
  InAudit, Kept, Kept-refl, Kept-trans, write-Kept, read-Kept, two_reads, two_writes,
}
use vita_os.Journal.{session_journal_log_system}
use vita_os.Journal.Frame.{journal_add_event-Kept}
use vita_os.Transcript.Lines.{append_all, part_path, u4}
use vita_os.Transcript.{
  Transcript, Station, txt_path, jsonl_path, read_both, flush, after_flush, rotate_jsonl_part,
  add_line, after_rotation, record_json, record_text, mark_transcript_error_once, set_transcript,
  finish_event, record_both, event,
}

append_all-prefix :
    (cap : ℕ) (dst : Bytes) (pieces : List Bytes)
    → (rest : Bytes) × (append_all cap dst pieces ≡ dst ++ rest)
unfolding append_all
append_all-prefix cap dst [] = ([], sym (append-nil dst))
append_all-prefix cap dst (s ∷ pieces) =
    let (one, e) = str_append_prefix dst cap s in
    let (rest, f) = append_all-prefix cap (str_append dst cap (some s)) pieces in
    (one ++ rest, f ∙ ap (λ (t : Bytes). t ++ rest) e ∙ append_assoc dst one rest)

abbrev sessions : Bytes
sessions = codes "/vita/audit/sessions/"

sessions-InAudit : (path rest : Bytes) → path ≡ sessions ++ rest → InAudit path
sessions-InAudit path rest e = (codes "sessions/" ++ rest, e)

part_path-InAudit : (session_id : Bytes) (part : ℕ) → InAudit (part_path session_id part)
unfolding part_path append_all str_append
part_path-InAudit session_id part =
    let (rest, e) = append_all-prefix 192 (str_append [] 192 (some sessions)) (
      session_id
      ∷ (if leb part 1
          then codes ".jsonl" ∷ []
          else codes ".part-" ∷ u4 part ∷ codes ".jsonl" ∷ [])) in
    sessions-InAudit _ rest e

txt_path-InAudit : (t : Transcript) → InAudit (txt_path t)
unfolding txt_path str_copy
txt_path-InAudit t =
    let base = str_copy [] 192 (some sessions) in
    let (one, e) = str_append_prefix base 192 t.session_id in
    let (two, f) = str_append_prefix (str_append base 192 (some t.session_id)) 192 (codes ".txt") in
    sessions-InAudit _ (one ++ two) (f ∙ ap (λ (x : Bytes). x ++ two) e ∙ append_assoc base one two)

module _ (host : Host) (frame : HostFrame host) (path : Bytes) where
  read_both-Kept :
      (t : Transcript) (w : World host.Fs) → Kept host frame path w (read_both host t w).1
  unfolding read_both
  read_both-Kept t w =
      let first = storage_read_text host (txt_path t) [] 2048 w in
      let second = storage_read_text host (jsonl_path t) [] 2048 first.1 in
      let all = two_reads host frame path (txt_path t) (jsonl_path t) 2048 2048 w in
      if_elim P (not first.0.0) (false, first.1) _
        (λ _. read-Kept host frame path (txt_path t) 2048 w)
        λ _.
          if_elim P (not second.0.0) (false, second.1)
            (str_eq first.0.1 t.txt && str_eq second.0.1 t.jsonl, second.1) (λ _. all) (λ _. all)
    where
      P : Bool × World host.Fs → Type 0
      P r = Kept host frame path w r.1

  flush-Kept : (t : Transcript) (w : World host.Fs) → Kept host frame path w (flush host t w).1
  unfolding flush jsonl_path
  flush-Kept t w =
      let first = storage_write_text host (txt_path t) t.txt w in
      let second = storage_write_text host (jsonl_path t) t.jsonl first.1 in
      let i = txt_path-InAudit t in
      let all =
        two_writes host frame path (txt_path t) (jsonl_path t) t.txt t.jsonl w i
          (part_path-InAudit t.session_id t.current_jsonl_part) in
      if_elim P (not first.0) (false, first.1) _
        (λ _. write-Kept host frame path (txt_path t) t.txt w i)
        λ _.
          if_elim P (not second.0) (false, second.1) _ (λ _. all)
            λ _.
              if_elim P (leb 2047 (length t.txt) || leb 2047 (length t.jsonl)) (true, second.1)
                (read_both host t second.1) (λ _. all)
                λ _. Kept-trans host frame path w second.1 _ all (read_both-Kept t second.1)
    where
      P : Bool × World host.Fs → Type 0
      P r = Kept host frame path w r.1

  after_flush-Kept :
      (t : Transcript) (w : World host.Fs) (r : Bool × World host.Fs)
      → Kept host frame path w r.1
      → Kept host frame path w (after_flush host t r).1
  unfolding after_flush
  after_flush-Kept t w (true, w') k = k
  after_flush-Kept t w (false, w') k = k

  after_rotation-Kept :
      (event_type actor text : Bytes) (old : ℕ) (w : World host.Fs)
      → (r : (Bool × Transcript) × World host.Fs) → Kept host frame path w r.1
      → Kept host frame path w (after_rotation host event_type actor text old r).1
  unfolding after_rotation
  after_rotation-Kept event_type actor text old w ((true, t), w') k = k
  after_rotation-Kept event_type actor text old w ((false, t), w') k = k

  record_json-Kept :
      (event_type actor text : Bytes) (t : Transcript) (w : World host.Fs)
      → Kept host frame path w (record_json host event_type actor text t w).1
  unfolding record_json rotate_jsonl_part
  record_json-Kept event_type actor text t w =
      let added = add_line host event_type actor text t in
      let same = Kept-refl host frame path w in
      if_elim P t.jsonl_locked _ _ (λ _. same)
        λ _.
          if_elim P added.0 _ _ (λ _. same)
            λ _.
              after_rotation-Kept event_type actor text _ w _
                (after_flush-Kept added.1 w (flush host added.1 w) (flush-Kept added.1 w))
    where
      P : (ℕ × Transcript) × World host.Fs → Type 0
      P r = Kept host frame path w r.1

  mark_transcript_error_once-Kept :
      (reason : Bytes) (s : Station host.Fs)
      → Kept host frame path s.world (mark_transcript_error_once host reason s).world
  unfolding mark_transcript_error_once session_journal_log_system
  mark_transcript_error_once-Kept reason s =
      if_elim P s.transcript.error_reported s _ (λ _. Kept-refl host frame path s.world)
        λ _.
          journal_add_event-Kept host frame path (codes "transcript_error") reason true s.journal
            s.world
    where
      P : Station host.Fs → Type 0
      P s' = Kept host frame path s.world s'.world

  finish_event-Kept :
      (t : Transcript) (s : Station host.Fs) (w : World host.Fs) (r : Bool × World host.Fs)
      → Kept host frame path w r.1
      → Kept host frame path w (finish_event host t s r).world
  unfolding finish_event set_transcript
  finish_event-Kept t s w (true, w') k = k
  finish_event-Kept t s w (false, w') k = Kept-trans host frame path w w' _ k (
      mark_transcript_error_once-Kept (codes "write_read_compare_failed")
        (set_transcript host (record t { active = false; state = codes "error" }) w' s))

  record_both-Kept :
      (event_type text : Bytes) (r : (ℕ × Transcript) × World host.Fs) (w : World host.Fs)
      → (s : Station host.Fs) → Kept host frame path w r.1
      → Kept host frame path w (record_both host event_type text r s).world
  unfolding record_both
  record_both-Kept event_type text (r, w') w s k =
      let t = record_text host event_type text r in
      finish_event-Kept t s w (flush host t w')
        (Kept-trans host frame path w w' _ k (flush-Kept t w'))

  -- Recording an event in the transcript, with the rotation of its parts and the note in the journal
  -- where a flush fails, changes no file outside /vita/audit/ and no switch of the storage facade.
  pub event-Kept :
      (event_type actor text : Bytes) (s : Station host.Fs)
      → Kept host frame path s.world (event host event_type actor text s).world
  unfolding event
  event-Kept event_type actor text s =
      let started = record s.transcript { busy = true } in
      if_elim P (not s.transcript.active || s.transcript.busy) s _
        (λ _. Kept-refl host frame path s.world)
        λ _.
          record_both-Kept event_type text (record_json host event_type actor text started s.world)
            s.world s (record_json-Kept event_type actor text started s.world)
    where
      P : Station host.Fs → Type 0
      P s' = Kept host frame path s.world s'.world
