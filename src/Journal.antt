-- ===== src/Journal.antt =====
-- kernel/session_journal.c: the visible journal of a session, its records and its files. What the
-- commands of the journal print is in Journal.Commands.
pub mod Buffer
pub mod Redacted
pub mod Files
pub mod Frame
pub mod Log
use vita_os.Prelude.{
  ℕ, ◌+◌, ◌%◌, ◌^◌, Bool, true, false, not, ◌&&◌, ◌||◌, some, none, List, [], ◌∷◌, ◌++◌, codes, map,
  length, leb, ltb, ◌==◌, if◌then◌else◌,
}
use vita_os.Text.{text_or, Bytes, str_eq, str_copy, u32_to_dec}
use vita_os.Text.Search.{contains_token}
use vita_os.Storage.Host.{Host}
use vita_os.Storage.Files.{World, storage_write_text, storage_read_text}

abbrev pub jsonl_path : Bytes
jsonl_path = codes "/vita/audit/session-journal.jsonl"

abbrev pub text_path : Bytes
text_path = codes "/vita/audit/session-journal.txt"

-- `session_journal_state_t`; the buffers hold 8192 bytes, and `jsonl_len` and `text_len` are the
-- lengths of what they hold
pub record Journal : Type 0 where
  pub initialized : Bool
  pub active : Bool
  pub truncated : Bool
  pub last_flush_ok : Bool
  pub seq : ℕ
  pub jsonl : Bytes
  pub text : Bytes
  pub last_error : Bytes

pub set_journal_error : Bytes → Journal → Journal
set_journal_error text j = record j { last_error = str_copy j.last_error 128 (some text) }

-- `append_to_buffer`: the buffer, and whether a character of the text found no room.
pub append_to_buffer : ℕ → Bytes → Bytes → Bytes × Bool
append_to_buffer cap buf [] = (buf, false)
append_to_buffer cap buf (c ∷ s) =
    let rest = append_to_buffer cap (buf ++ c ∷ []) s in
    if leb cap (length buf + 1) then (buf, true) else rest

-- texts one after the other into one buffer
pub append_pieces : ℕ → Bytes × Bool → List Bytes → Bytes × Bool
append_pieces cap r [] = r
append_pieces cap (buf, hit) (s ∷ pieces) =
    let (buf', hit') = append_to_buffer cap buf s in append_pieces cap (buf', hit || hit') pieces

put_json : Journal → Bytes × Bool → Journal
put_json j (buf, hit) = record j { jsonl = buf; truncated = hit }

put_text : Journal → Bytes × Bool → Journal
put_text j (buf, hit) = record j { text = buf; truncated = hit }

-- `append_text_line`
pub append_text_line : Bytes → Journal → Journal
unfolding put_text
append_text_line line j =
    put_text j (append_pieces 8192 (j.text, j.truncated) (line ∷ (b'\n' ∷ []) ∷ []))

unfoldable pub looks_sensitive : Bytes → Bool
looks_sensitive text =
    contains_token text (codes "password")
    || (contains_token text (codes "passwd")
        || (contains_token text (codes "token")
            || (contains_token text (codes "secret")
                || (contains_token text (codes "api_key")
                    || (contains_token text (codes "apikey")
                        || (contains_token text (codes "key=")
                            || (contains_token text (codes "clave")
                                || contains_token text (codes "contrasena"))))))))

-- what `sanitize_text` writes for a character
pub safe_char : ℕ → ℕ
safe_char c =
    if c == b'\r' || c == b'\n' || c == b'\t'
    then b' '
    else if leb 32 c && ltb c 127
    then c
    else b'?'

-- the loop of `sanitize_text`, with the index at `i`
pub sanitize_from : ℕ → ℕ → Bytes → Bytes
sanitize_from cap i [] = []
sanitize_from cap i (c ∷ s) =
    if ltb (i + 1) cap then safe_char c ∷ sanitize_from cap (i + 1) s else []

-- `sanitize_text` into a buffer of 160 bytes, with `redacted`
pub sanitize_text : Bytes → Bytes × Bool
unfolding sanitize_from
sanitize_text src =
    if looks_sensitive src
    then (str_copy [] 160 (some (codes "[redacted sensitive command]")), true)
    else (sanitize_from 160 0 src, false)

-- what `append_json_escaped` writes for a character
pub escaped_char : ℕ → Bytes
escaped_char c =
    if c == b'"'
    then codes "\\\""
    else if c == b'\\'
    then codes "\\\\"
    else if c == b'\n' || c == b'\r'
    then codes " "
    else if ltb c 32
    then codes "?"
    else c ∷ []

pub json_pieces : ℕ → Bytes → Bytes → Bool → List Bytes
json_pieces seq type summary redacted =
    (codes "{\"seq\":" ∷ u32_to_dec seq ∷ codes ",\"type\":\"" ∷ [])
    ++ (map escaped_char type
        ++ ((codes "\",\"summary\":\"" ∷ [])
            ++ (map escaped_char summary
                ++ (codes "\",\"redacted\":"
                    ∷ (if redacted then codes "true" else codes "false")
                    ∷ codes "}\n"
                    ∷ []))))

append_json_record : Bytes → Bytes → Bool → Journal → Journal
unfolding put_json
append_json_record type summary redacted j =
    put_json j (append_pieces 8192 (j.jsonl, j.truncated) (json_pieces j.seq type summary redacted))

pub line_pieces : ℕ → Bytes → Bytes → Bool → List Bytes
line_pieces seq type summary redacted =
    u32_to_dec seq
    ∷ codes " "
    ∷ type
    ∷ codes ": "
    ∷ summary
    ∷ (if redacted then codes " [redacted]" ∷ [] else [])

-- The line is built in a buffer of 224 bytes; a cut there sets `truncated` too.
append_text_record : Bytes → Bytes → Bool → Journal → Journal
append_text_record type summary redacted j =
    let (line, cut) =
      append_pieces 224 (codes "#", j.truncated) (line_pieces j.seq type summary redacted) in
    append_text_line line (record j { truncated = cut })

-- The two records of an event, under the next number.
pub record_event : Bytes → Bytes → Bool → Journal → Journal
unfolding append_json_record append_text_record
record_event type summary redacted j =
    append_text_record type summary redacted
      (append_json_record type summary redacted (record j { seq = (j.seq + 1) % 2 ^ 32 }))

note_truncation : Journal → Journal
note_truncation j =
    if j.truncated then set_journal_error (codes "journal buffer truncated") j else j

module _ (host : Host) where
  -- the two files read back, the second only behind a success of the first
  compare_files : Journal → World host.Fs → Bool × World host.Fs
  compare_files j w =
      let ((done1, jsonl), w1) = storage_read_text host jsonl_path [] 2048 w in
      let ((done2, text), w2) = storage_read_text host text_path [] 2048 w1 in
      if not done1
      then (false, w1)
      else if not done2
      then (false, w2)
      else (str_eq jsonl j.jsonl && str_eq text j.text, w2)

  finish_flush : Journal → Bool × World host.Fs → Bool × Journal × World host.Fs
  unfolding text_or
  finish_flush j (true, w) =
      (true, set_journal_error (codes "ok") (record j { last_flush_ok = true }), w)
  finish_flush j (false, w) = (
    false,
    set_journal_error (text_or w.storage.last_error (codes "storage write failed"))
        (record j { last_flush_ok = false }),
    w,
  )

  -- Both files are written whatever the first write reports.
  write_files : Journal → World host.Fs → Bool × World host.Fs
  unfolding compare_files
  write_files j w =
      let (ok_jsonl, w1) = storage_write_text host jsonl_path j.jsonl w in
      let (ok_text, w2) = storage_write_text host text_path j.text w1 in
      if ok_jsonl && ok_text then compare_files j w2 else (false, w2)

  pub session_journal_flush : Journal → World host.Fs → Bool × Journal × World host.Fs
  unfolding finish_flush write_files
  session_journal_flush j w =
      if not j.initialized || not j.active
      then (false, set_journal_error (codes "journal inactive") j, w)
      else finish_flush j (write_files j w)

  -- an event whose summary is made safe
  add_safe : Bytes → Bytes × Bool → Journal → World host.Fs → Journal × World host.Fs
  unfolding note_truncation
  add_safe type (safe, redacted) j w =
      let (ok, j', w') =
        session_journal_flush (note_truncation (record_event type safe redacted j)) w in
      (j', w')

  pub journal_add_event : Bytes → Bytes → Bool → Journal → World host.Fs → Journal × World host.Fs
  unfolding add_safe
  journal_add_event type summary redact_check j w =
      let (safe, redacted) = sanitize_text summary in
      if not j.initialized || not j.active
      then (j, w)
      else add_safe type (safe, if redact_check then redacted else false) j w

  pub session_journal_log_command : Bytes → Journal → World host.Fs → Journal × World host.Fs
  session_journal_log_command command = journal_add_event (codes "user_command") command true

  unfoldable pub session_journal_log_system :
      Bytes → Bytes → Journal → World host.Fs → Journal × World host.Fs
  session_journal_log_system event_type summary = journal_add_event event_type summary true
