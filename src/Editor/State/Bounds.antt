-- ===== src/Editor/State/Bounds.antt =====
-- The text buffer: what an append writes, and that it never outgrows its 1536 bytes.
use vita_os.Prelude.{
  ◌+◌, ◌<◌, Bool, true, false, some, [], ◌∷◌, ◌++◌, ◌≡◌, refl, ap, ◌∙◌, arith, length,
  length-append, leb, leb→gt, append_assoc, if_elim,
}
use vita_os.Text.{Bytes, str_len, str_append}
use vita_os.Text.Laws.{str_len_lem, str_append_fits, length-str_append}
use vita_os.Storage.Host.{Host}
use vita_os.Editor.Session.{Session}
use vita_os.Editor.State.{
  Editor, tell, editor_append_text_raw, editor_ensure_newline_before_append, editor_append_line,
}

module _ (host : Host) (session : Session host) where
  -- A line was appended whole with its newline, or not at all.
  pub record IsAppended (added : Bytes) (s : Editor host.Fs) (r : Bool × Editor host.Fs)
      : Type 0 where
    pub when_true : r.0 ≡ true → r.1.text ≡ s.text ++ added
    pub when_false : r.0 ≡ false → r.1.text ≡ s.text
    pub bound : length r.1.text < 1536

  IsAppended-fits :
      (s : Editor host.Fs) (t added : Bytes)
      → t ≡ s.text ++ added
      → length s.text + length added < 1536
      → IsAppended added s (true, record s { text = t })
  IsAppended-fits s t added e h = record {
    when_true = λ _. e;
    when_false = λ (p : true ≡ false). cc;
    bound = omega (arith, ap length e, length-append s.text added);
  }

  -- Appending a line to a text of fewer than 1536 bytes leaves such a text: the old text with the
  -- line and a newline behind it where the result is true, and the old text where it is false.
  pub editor_append_line-IsAppended :
      (line : Bytes) (s : Editor host.Fs)
      → length s.text < 1536
      → IsAppended (line ++ b'\n' ∷ []) s (editor_append_line host session line s)
  unfolding editor_append_line tell
  editor_append_line-IsAppended line s h =
      if_elim (IsAppended (line ++ b'\n' ∷ []) s) (leb 1536 (str_len s.text + str_len line + 2)) _ _
        (λ full. record { when_true = λ (p : false ≡ true). cc; when_false = λ _. refl; bound = h })
        λ room.
          let fits : length s.text + length line + 2 < 1536 =
            omega (arith, leb→gt _ _ room, str_len_lem s.text, str_len_lem line) in
          let first = str_append_fits s.text line 1536 (omega arith) in
          let second =
            str_append_fits (s.text ++ line) (b'\n' ∷ []) 1536
              (omega (arith, length-append s.text line)) in
          IsAppended-fits s _ (line ++ b'\n' ∷ [])
            (ap (λ (t : Bytes). str_append t 1536 (some (b'\n' ∷ []))) first
              ∙ second
              ∙ append_assoc s.text line (b'\n' ∷ []))
            (omega (arith, length-append line (b'\n' ∷ [])))

  raw_bound :
      (text : Bytes) (s : Editor host.Fs)
      → length s.text < 1536
      → length (editor_append_text_raw host session text s).1.text < 1536
  unfolding editor_append_text_raw tell
  raw_bound text s h = ground (arith, length-str_append s.text (some text) 1536 h)

  pub newline_bound :
      (s : Editor host.Fs)
      → length s.text < 1536
      → length (editor_ensure_newline_before_append host session s).1.text < 1536
  unfolding editor_ensure_newline_before_append
  newline_bound s h = ground (arith, raw_bound (b'\n' ∷ []) s h)
