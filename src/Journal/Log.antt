-- ===== src/Journal/Log.antt =====
-- The journal as an unbounded log of events, which the two buffers implement.
use vita_os.Prelude.{
  ℕ, ◌+◌, ◌%◌, ◌^◌, ◌<◌, Bool, true, false, not, ◌||◌, List, [], ◌∷◌, ◌++◌, ◌≡◌, ap, ◌∙◌, codes,
  length, take, if_elim, if◌then◌else◌, arith,
}
use vita_os.Text.{Bytes}
use vita_os.Storage.Host.{Host}
use vita_os.Storage.Files.{World}
use vita_os.Journal.{
  Journal, append_pieces, append_text_line, put_text, put_json, sanitize_text, json_pieces,
  line_pieces, append_json_record, append_text_record, record_event, set_journal_error,
  note_truncation, finish_flush, write_files, session_journal_flush, add_safe, journal_add_event,
}
use vita_os.Journal.Buffer.{
  joined, append_pieces_lem, append_pieces_whole, length-append_pieces, take-append_take,
}

-- all that was ever recorded, with the number of the last event
pub record Log : Type 0 where
  pub seq : ℕ
  pub json : Bytes
  pub text : Bytes

-- the arguments of `journal_add_event`
pub record Event : Type 0 where
  pub type : Bytes
  pub summary : Bytes
  pub redact_check : Bool

render_json : ℕ → Bytes → Bytes → Bool → Bytes
render_json seq type safe redacted = joined (json_pieces seq type safe redacted)

render_line : ℕ → Bytes → Bytes → Bool → Bytes
render_line seq type safe redacted =
    (b'#' ∷ joined (line_pieces seq type safe redacted)) ++ codes "\n"

log_safe : Bytes → Bytes → Bool → Log → Log
unfolding render_json render_line
log_safe type safe redacted l =
    let seq = (l.seq + 1) % 2 ^ 32 in
    record {
      seq = seq;
      json = l.json ++ render_json seq type safe redacted;
      text = l.text ++ render_line seq type safe redacted;
    }

-- An event is recorded with its summary made safe.
pub log_event : Event → Log → Log
unfolding log_safe
log_event e l =
    let (safe, redacted) = sanitize_text e.summary in
    log_safe e.type safe (if e.redact_check then redacted else false) l

pub log_events : List Event → Log → Log
log_events [] l = l
log_events (e ∷ es) l = log_events es (log_event e l)

-- The records hold the beginning of the log, and all of it unless they say that they were cut.
pub record Represents (j : Journal) (l : Log) : Type 0 where
  pub on : (j.initialized ≡ true) × (j.active ≡ true)
  pub number : j.seq ≡ l.seq
  pub prefix : j.jsonl ≡ take 8191 l.json
  pub room : (length j.jsonl < 8192) × (length j.text < 8192)
  pub whole : j.truncated ≡ false → (j.jsonl ≡ l.json) × (j.text ≡ l.text)

record_event-Represents :
    (type safe : Bytes) (redacted : Bool) (j : Journal) (l : Log)
    → Represents j l
    → Represents (record_event type safe redacted j) (log_safe type safe redacted l)
unfolding record_event append_json_record append_text_record append_text_line put_json put_text
    log_safe render_json render_line
record_event-Represents type safe redacted j l r =
    let seq = (j.seq + 1) % 2 ^ 32 in
    let same : seq ≡ (l.seq + 1) % 2 ^ 32 = ap (λ (n : ℕ). (n + 1) % 2 ^ 32) r.number in
    let json = json_pieces seq type safe redacted in
    let line = line_pieces seq type safe redacted in
    let first = append_pieces 8192 (j.jsonl, j.truncated) json in
    let second = append_pieces 224 (codes "#", first.1) line in
    let third = append_pieces 8192 (j.text, second.1) (second.0 ∷ (b'\n' ∷ []) ∷ []) in
    record {
      on = r.on;
      number = same;
      prefix =
          (append_pieces_lem 8192 j.jsonl j.truncated json r.room.0).0
          ∙ take-append_take 8191 l.json j.jsonl (joined json) r.prefix
          ∙ ap (λ n. take 8191 (l.json ++ joined (json_pieces n type safe redacted))) same;
      room = (
        length-append_pieces 8192 j.jsonl j.truncated json r.room.0,
        length-append_pieces 8192 j.text second.1 (second.0 ∷ (b'\n' ∷ []) ∷ []) r.room.1,
      );
      whole = λ e.
          let (e2, t3) =
            append_pieces_whole 8192 j.text second.1 (second.0 ∷ (b'\n' ∷ []) ∷ []) r.room.1 e in
          let (e1, t2) = append_pieces_whole 224 (codes "#") first.1 line (omega arith) e2 in
          let (e0, t1) = append_pieces_whole 8192 j.jsonl j.truncated json r.room.0 e1 in
          let (old_json, old_text) = r.whole e0 in
          (
            t1
                ∙ ap (λ (s : Bytes). s ++ joined json) old_json
                ∙ ap (λ n. l.json ++ joined (json_pieces n type safe redacted)) same,
            t3
                ∙ ap (λ (s : Bytes). s ++ (second.0 ++ (b'\n' ∷ []))) old_text
                ∙ ap (λ (s : Bytes). l.text ++ (s ++ (b'\n' ∷ []))) t2
                ∙ ap
                    (λ n.
                      l.text
                      ++ ((b'#' ∷ joined (line_pieces n type safe redacted)) ++ (b'\n' ∷ [])))
                    same,
          );
    }

note_truncation-Represents :
    (j : Journal) (l : Log) → Represents j l → Represents (note_truncation j) l
unfolding note_truncation set_journal_error
note_truncation-Represents j l r =
    if_elim (λ (i : Journal). Represents i l) j.truncated _ j
      (λ _. record {
        on = r.on;
        number = r.number;
        prefix = r.prefix;
        room = r.room;
        whole = r.whole;
      })
      (λ _. r)

module _ (host : Host) where
  finish_flush-Represents :
      (j : Journal) (l : Log) (v : Bool × World host.Fs)
      → Represents j l
      → Represents (finish_flush host j v).1 l
  unfolding finish_flush set_journal_error
  finish_flush-Represents j l (true, w) r = record {
    on = r.on;
    number = r.number;
    prefix = r.prefix;
    room = r.room;
    whole = r.whole;
  }
  finish_flush-Represents j l (false, w) r = record {
    on = r.on;
    number = r.number;
    prefix = r.prefix;
    room = r.room;
    whole = r.whole;
  }

  flush-Represents :
      (j : Journal) (l : Log) (w : World host.Fs)
      → Represents j l
      → Represents (session_journal_flush host j w).1 l
  unfolding session_journal_flush
  flush-Represents j l w r =
      if_elim P (not j.initialized || not j.active) _ _ (λ off. cc (r.on.0, r.on.1, off))
        (λ _. finish_flush-Represents j l (write_files host j w) r)
    where
      P : Bool × Journal × World host.Fs → Type 0
      P v = Represents v.1 l

  journal_add_event-Represents :
      (e : Event) (j : Journal) (l : Log) (w : World host.Fs)
      → Represents j l
      → Represents (journal_add_event host e.type e.summary e.redact_check j w).0 (log_event e l)
  unfolding journal_add_event add_safe log_event
  journal_add_event-Represents e j l w r =
      let (safe, found) = sanitize_text e.summary in
      let redacted = if e.redact_check then found else false in
      let next = record_event e.type safe redacted j in
      if_elim P (not j.initialized || not j.active) (j, w) _ (λ off. cc (r.on.0, r.on.1, off))
        λ _.
          flush-Represents (note_truncation next) _ w
            (note_truncation-Represents next _ (record_event-Represents e.type safe redacted j l r))
    where
      P : Journal × World host.Fs → Type 0
      P v = Represents v.0 (log_event e l)

  -- events one after the other
  pub add_events : List Event → Journal × World host.Fs → Journal × World host.Fs
  add_events [] v = v
  add_events (e ∷ es) (j, w) =
      add_events es (journal_add_event host e.type e.summary e.redact_check j w)

  -- From a journal that is on and represents a log, any events lead to a journal that represents the
  -- log with those events: the number is the log's, the JSON buffer holds the first 8191 bytes of
  -- the log's, and unless the journal says that something was cut, both buffers hold all of it.
  -- That is so whatever the storage does.
  pub add_events-Represents :
      (es : List Event) (j : Journal) (l : Log) (w : World host.Fs)
      → Represents j l
      → Represents (add_events es (j, w)).0 (log_events es l)
  unfolding add_events log_events
  add_events-Represents [] j l w r = r
  add_events-Represents (e ∷ es) j l w r =
      let v = journal_add_event host e.type e.summary e.redact_check j w in
      add_events-Represents es v.0 (log_event e l) v.1 (journal_add_event-Represents e j l w r)
