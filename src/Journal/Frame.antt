-- ===== src/Journal/Frame.antt =====
-- The journal's files are below /vita/audit/: an event changes no other file, and no switch of the
-- storage facade.
use vita_os.Prelude.{Bool, true, false, not, ◌&&◌, ◌||◌, [], ◌≡◌, refl, codes, if_elim}
use vita_os.Text.{Bytes, str_eq}
use vita_os.Storage.Host.{Host, HostFrame}
use vita_os.Storage.Files.{World, storage_write_text, storage_read_text}
use vita_os.Storage.Files.Kept.{Kept, Kept-refl, Kept-trans, read-Kept, two_reads, two_writes}
use vita_os.Journal.{
  Journal, jsonl_path, text_path, compare_files, finish_flush, write_files, session_journal_flush,
  add_safe, journal_add_event,
}

module _ (host : Host) (frame : HostFrame host) (path : Bytes) where
  compare_files-Kept :
      (j : Journal) (w : World host.Fs) → Kept host frame path w (compare_files host j w).1
  unfolding compare_files
  compare_files-Kept j w =
      let first = storage_read_text host jsonl_path [] 2048 w in
      let second = storage_read_text host text_path [] 2048 first.1 in
      let all = two_reads host frame path jsonl_path text_path 2048 2048 w in
      if_elim P (not first.0.0) (false, first.1) _
        (λ _. read-Kept host frame path jsonl_path 2048 w)
        λ _.
          if_elim P (not second.0.0) (false, second.1)
            (str_eq first.0.1 j.jsonl && str_eq second.0.1 j.text, second.1) (λ _. all) (λ _. all)
    where
      P : Bool × World host.Fs → Type 0
      P r = Kept host frame path w r.1

  write_files-Kept :
      (j : Journal) (w : World host.Fs) → Kept host frame path w (write_files host j w).1
  unfolding write_files
  write_files-Kept j w =
      let first = storage_write_text host jsonl_path j.jsonl w in
      let second = storage_write_text host text_path j.text first.1 in
      let all =
        two_writes host frame path jsonl_path text_path j.jsonl j.text w
          (codes "session-journal.jsonl", refl) (codes "session-journal.txt", refl) in
      if_elim P (first.0 && second.0) (compare_files host j second.1) (false, second.1)
        (λ _. Kept-trans host frame path w second.1 _ all (compare_files-Kept j second.1))
        (λ _. all)
    where
      P : Bool × World host.Fs → Type 0
      P r = Kept host frame path w r.1

  finish_flush-world : (j : Journal) (v : Bool × World host.Fs) → (finish_flush host j v).2 ≡ v.1
  unfolding finish_flush
  finish_flush-world j (true, w) = refl
  finish_flush-world j (false, w) = refl

  pub session_journal_flush-Kept :
      (j : Journal) (w : World host.Fs) → Kept host frame path w (session_journal_flush host j w).2
  unfolding session_journal_flush finish_flush
  session_journal_flush-Kept j w =
      if_elim P (not j.initialized || not j.active) _ (finish_flush host j (write_files host j w))
        (λ _. Kept-refl host frame path w)
        (λ _. finished (write_files host j w) (write_files-Kept j w))
    where
      P : Bool × Journal × World host.Fs → Type 0
      P v = Kept host frame path w v.2

      finished : (v : Bool × World host.Fs) → Kept host frame path w v.1 → P (finish_flush host j v)
      finished (true, w') k = unfold finish_flush in k
      finished (false, w') k = unfold finish_flush in k

  -- Recording an event changes no file outside /vita/audit/ and no switch of the storage facade.
  pub journal_add_event-Kept :
      (type summary : Bytes) (check : Bool) (j : Journal) (w : World host.Fs)
      → Kept host frame path w (journal_add_event host type summary check j w).1
  unfolding journal_add_event add_safe
  journal_add_event-Kept type summary check j w =
      if_elim P (not j.initialized || not j.active) (j, w) _ (λ _. Kept-refl host frame path w)
        λ _. session_journal_flush-Kept _ w
    where
      P : Journal × World host.Fs → Type 0
      P r = Kept host frame path w r.1
