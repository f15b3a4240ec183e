-- ===== src/Journal/Files.antt =====
-- What a flush of the journal says about its two files.
use vita_os.Prelude.{
  ℕ, ◌≤◌, ◌<◌, Bool, true, false, not, ◌&&◌, ◌||◌, [], ◌≡◌, refl, sym, ap, ◌∙◌, length, if_elim,
  not-true, arith, Bool-cases, ◌⊎◌, inl, inr,
}
use vita_os.Text.{Bytes, str_eq}
use vita_os.Text.Laws.{str_eq_iff}
use vita_os.Storage.Host.{Host}
use vita_os.Storage.Files.{World, storage_write_text, storage_read_text}
use vita_os.Storage.Files.RoundTrip.{length-storage_read_text, storage_read_text-content}
use vita_os.Storage.Files.Reads.{Shows, storage_read_text-Shows}
use vita_os.Journal.{
  Journal, jsonl_path, text_path, set_journal_error, compare_files, finish_flush, write_files,
  session_journal_flush,
}

both : (a b : Bool) → (a && b) ≡ true → (a ≡ true) × (b ≡ true)
both true b h = (refl, h)
both false b h = cc

module _ (host : Host) where
  -- Both files show exactly what the journal holds, and that is less than the 2048 bytes of the
  -- buffers that they are read into.
  pub record IsOnDisk (j : Journal) (w : World host.Fs) : Type 0 where
    pub json : Shows host jsonl_path j.jsonl 2048 w
    pub text : Shows host text_path j.text 2048 w
    pub small : (length j.jsonl < 2048) × (length j.text < 2048)

  Shows-read :
      (path shown other : Bytes) (n size : ℕ) (w : World host.Fs)
      → Shows host path shown n w
      → Shows host path shown n (storage_read_text host other [] size w).1
  Shows-read path shown other n size w s = record {
    bytes = s.bytes;
    there = storage_read_text-content host other [] path size w ∙ s.there;
    shown = s.shown;
  }

  compare_files-IsOnDisk :
      (j : Journal) (w : World host.Fs)
      → (compare_files host j w).0 ≡ true
      → IsOnDisk j (compare_files host j w).1
  unfolding compare_files
  compare_files-IsOnDisk j w =
      let first = storage_read_text host jsonl_path [] 2048 w in
      let second = storage_read_text host text_path [] 2048 first.1 in
      if_elim P (not first.0.0) (false, first.1) _ (λ _ h. cc)
        λ one.
          if_elim P (not second.0.0) (false, second.1)
            (str_eq first.0.1 j.jsonl && str_eq second.0.1 j.text, second.1) (λ _ h. cc)
            λ two h.
              let (same_json, same_text) = both _ _ h in
              let e : first.0.1 ≡ j.jsonl = (str_eq_iff first.0.1 j.jsonl).0 same_json in
              let f : second.0.1 ≡ j.text = (str_eq_iff second.0.1 j.text).0 same_text in
              let s = storage_read_text-Shows host jsonl_path [] 2048 w (not-true _ one) in
              let t = storage_read_text-Shows host text_path [] 2048 first.1 (not-true _ two) in
              record {
                json = Shows-read jsonl_path j.jsonl text_path 2048 2048 first.1 (
                    Shows-read jsonl_path j.jsonl jsonl_path 2048 2048 w
                      (record { bytes = s.bytes; there = s.there; shown = sym e ∙ s.shown }));
                text =
                    Shows-read text_path j.text text_path 2048 2048 first.1
                      (record { bytes = t.bytes; there = t.there; shown = sym f ∙ t.shown });
                small = (
                  omega (
                    arith,
                    ap length e,
                    length-storage_read_text host jsonl_path 2048 w (omega arith),
                  ),
                  omega (
                    arith,
                    ap length f,
                    length-storage_read_text host text_path 2048 first.1 (omega arith),
                  ),
                );
              }
    where
      P : Bool × World host.Fs → Type 0
      P r = r.0 ≡ true → IsOnDisk j r.1

  write_files-IsOnDisk :
      (j : Journal) (w : World host.Fs)
      → (write_files host j w).0 ≡ true
      → IsOnDisk j (write_files host j w).1
  unfolding write_files
  write_files-IsOnDisk j w =
      let first = storage_write_text host jsonl_path j.jsonl w in
      let second = storage_write_text host text_path j.text first.1 in
      if_elim P (first.0 && second.0) (compare_files host j second.1) (false, second.1)
        (λ _. compare_files-IsOnDisk j second.1) (λ _ h. cc)
    where
      P : Bool × World host.Fs → Type 0
      P r = r.0 ≡ true → IsOnDisk j r.1

  finish_flush-IsOnDisk :
      (j : Journal) (v : Bool × World host.Fs)
      → (v.0 ≡ true → IsOnDisk j v.1)
      → ((finish_flush host j v).0 ≡ (finish_flush host j v).1.last_flush_ok)
        × ((finish_flush host j v).0 ≡ true
            → IsOnDisk (finish_flush host j v).1 (finish_flush host j v).2)
  unfolding finish_flush set_journal_error
  finish_flush-IsOnDisk j (true, w) h =
      let d = h refl in (refl, λ _. record { json = d.json; text = d.text; small = d.small })
  finish_flush-IsOnDisk j (false, w) h = (refl, λ e. cc)

  -- A flush that reports success leaves both files showing exactly what the journal holds, and that
  -- is then less than 2048 bytes each: a journal that has grown past the buffers in which it is
  -- read back reports a failure at every flush, although the files may be written.
  pub session_journal_flush-IsOnDisk :
      (j : Journal) (w : World host.Fs)
      → (session_journal_flush host j w).0 ≡ true
      → IsOnDisk (session_journal_flush host j w).1 (session_journal_flush host j w).2
  unfolding session_journal_flush
  session_journal_flush-IsOnDisk j w =
      if_elim P (not j.initialized || not j.active) _ (finish_flush host j (write_files host j w))
        (λ _ h. cc)
        (λ _. (finish_flush-IsOnDisk j (write_files host j w) (write_files-IsOnDisk j w)).1)
    where
      P : Bool × Journal × World host.Fs → Type 0
      P v = v.0 ≡ true → IsOnDisk v.1 v.2

  -- A flush changes no record.
  pub records-flush :
      (j : Journal) (w : World host.Fs)
      → ((session_journal_flush host j w).1.jsonl ≡ j.jsonl)
        × ((session_journal_flush host j w).1.text ≡ j.text)
  unfolding session_journal_flush
  records-flush j w =
      if_elim P (not j.initialized || not j.active) _ (finish_flush host j (write_files host j w))
        (λ _. unfold set_journal_error in (refl, refl)) (λ _. kept (write_files host j w))
    where
      P : Bool × Journal × World host.Fs → Type 0
      P v = (v.1.jsonl ≡ j.jsonl) × (v.1.text ≡ j.text)

      kept : (v : Bool × World host.Fs) → P (finish_flush host j v)
      kept (true, w) = unfold finish_flush set_journal_error in (refl, refl)
      kept (false, w) = unfold finish_flush set_journal_error in (refl, refl)

  -- A journal whose records have grown to 2048 bytes or more, in either form, is never flushed with
  -- success, whatever the storage does: it is read back through buffers of 2048 bytes, while its own
  -- hold 8192.
  pub session_journal_flush_long :
      (j : Journal) (w : World host.Fs)
      → (2048 ≤ length j.jsonl) ⊎ (2048 ≤ length j.text)
      → (session_journal_flush host j w).0 ≡ false
  session_journal_flush_long j w long = elim (Bool-cases (session_journal_flush host j w).0) [
    | inr failed ↦ failed
    | inl done ↦ too_long (records-flush j w) (session_journal_flush-IsOnDisk j w done).small long
  ]
    where
      too_long :
          {a b : Bytes}
          → (a ≡ j.jsonl) × (b ≡ j.text)
          → (length a < 2048) × (length b < 2048)
          → (2048 ≤ length j.jsonl) ⊎ (2048 ≤ length j.text)
          → (session_journal_flush host j w).0 ≡ false
      too_long (json, text) small (inl h) = absurd (omega (arith, ap length json, small.0, h))
      too_long (json, text) small (inr h) = absurd (omega (arith, ap length text, small.1, h))
