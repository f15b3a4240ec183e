-- ===== src/Editor/State/Files.antt =====
-- Typing changes no file.
use vita_os.Prelude.{◌+◌, ◌-◌, Bool, [], ◌∷◌, ◌≡◌, refl, leb, ◌==◌, get_or, if_elim}
use vita_os.Text.{Bytes, str_len}
use vita_os.Storage.Host.{Host}
use vita_os.Storage.Files.RoundTrip.{content}
use vita_os.Editor.Session.{Session}
use vita_os.Editor.State.{
  Editor, tell, editor_append_text_raw, editor_ensure_newline_before_append, editor_append_line,
}

module _ (host : Host) (session : Session host) (note : Bytes)
    (own : session.OwnFile note → ⊥) where
  pub content-append_line :
      (line : Bytes) (s : Editor host.Fs)
      → content host (editor_append_line host session line s).1.world note
        ≡ content host s.world note
  unfolding editor_append_line tell
  content-append_line line s =
      if_elim Same (leb 1536 (str_len s.text + str_len line + 2)) _ _
        (λ _. session.keeps_content _ s.world note own) (λ _. refl)
    where
      Same : Bool × Editor host.Fs → Type 0
      Same r = content host r.1.world note ≡ content host s.world note

  content-append_text_raw :
      (text : Bytes) (s : Editor host.Fs)
      → content host (editor_append_text_raw host session text s).1.world note
        ≡ content host s.world note
  unfolding editor_append_text_raw tell
  content-append_text_raw text s =
      if_elim Same (leb 1536 (str_len s.text + str_len text + 1)) _ _
        (λ _. session.keeps_content _ s.world note own) (λ _. refl)
    where
      Same : Bool × Editor host.Fs → Type 0
      Same r = content host r.1.world note ≡ content host s.world note

  pub content-ensure_newline :
      (s : Editor host.Fs)
      → content host (editor_ensure_newline_before_append host session s).1.world note
        ≡ content host s.world note
  unfolding editor_ensure_newline_before_append
  content-ensure_newline s =
      if_elim Same (str_len s.text == 0) _ _ (λ _. refl)
        λ _.
          if_elim Same (get_or s.text (str_len s.text - 1) 0 == b'\n') _ _ (λ _. refl)
            λ _. content-append_text_raw (b'\n' ∷ []) s
    where
      Same : Bool × Editor host.Fs → Type 0
      Same r = content host r.1.world note ≡ content host s.world note
