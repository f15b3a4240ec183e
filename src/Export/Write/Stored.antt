-- ===== src/Export/Write/Stored.antt =====
-- An export that succeeds has stored its report.
use vita_os.Prelude.{
  Bool, true, false, not, Option, some, [], ◌∷◌, ◌≡◌, refl, sym, ◌∙◌, codes, if_elim, not-true, ◌⊎◌,
  inl, inr, Bool-cases,
}
use vita_os.Text.{Bytes, str_eq}
use vita_os.Text.Laws.{str_eq_iff}
use vita_os.Storage.Host.{Host, HostFrame}
use vita_os.Storage.Files.{World, storage_write_text, storage_read_text}
use vita_os.Storage.Files.RoundTrip.{
  content, storage_write_text-IsPut, storage_read_text-content, read_back-content,
}
use vita_os.Storage.Files.Kept.{IsOutside}
use vita_os.Console.{Terminal, write_all}
use vita_os.Console.Recorded.{write_all-Leaves}
use vita_os.Export.Lines.{Context}
use vita_os.Export.Write.{
  Here, AuditCall, report_path, report_text, write_report, with_world, finish_report,
  session_export_write_jsonl,
}

module _ (terminal : Terminal) (host : Host) (frame : HostFrame host) where
  write_report-content :
      (text : Bytes) (w : World host.Fs)
      → (write_report terminal host text w).0 ≡ true
      → content host (write_report terminal host text w).1 report_path ≡ some text
  unfolding write_report
  write_report-content text w =
      let written = storage_write_text host report_path text w in
      let read = storage_read_text host report_path [] 4096 written.1 in
      if_elim P (not written.0) (false, written.1) _ (λ _ h. cc)
        λ ok.
          if_elim P (not read.0.0) (false, read.1) (str_eq text read.0.1, read.1) (λ _ h. cc)
            λ found same.
              storage_read_text-content host report_path [] report_path 4096 written.1
              ∙ read_back-content host report_path text [] 4096 written.1
                  (storage_write_text-IsPut host report_path text w (not-true _ ok))
                  (not-true _ found) (sym ((str_eq_iff text read.0.1).0 same))
    where
      P : Bool × World host.Fs → Type 0
      P r = r.0 ≡ true → content host r.1 report_path ≡ some text

  -- the site behind an export that has succeeded: its two lines are printed and recorded
  pub reported : World host.Fs → Here terminal host → Here terminal host
  reported w s =
      write_all terminal host (codes "export jsonl: written" ∷ report_path ∷ [])
        (record s { station = record s.station { world = w } })

  -- What an export has done whose report is this text.
  pub record IsExported (text : Bytes) (s : Here terminal host)
      (r : (Bool × AuditCall) × Here terminal host) : Type 0 where
    pub call : r.0.1 ≡ (codes "SESSION_JSONL_EXPORT_WRITTEN", report_path)
    pub lines :
        (w : World host.Fs) × (r.1 ≡ reported w s) × (content host w report_path ≡ some text)
    pub stored : content host r.1.station.world report_path ≡ some text

  finish_report-IsExported :
      (text : Bytes) (r : Bool × World host.Fs) (s : Here terminal host)
      → IsOutside host frame report_path
      → (r.0 ≡ true → content host r.1 report_path ≡ some text)
      → (finish_report terminal host r s).0.0 ≡ true
      → IsExported text s (finish_report terminal host r s)
  unfolding finish_report with_world reported
  finish_report-IsExported text (true, w) s outside stored h = record {
    call = refl;
    lines = (w, refl, stored refl);
    stored =
        (write_all-Leaves terminal host frame report_path
            (codes "export jsonl: written" ∷ report_path ∷ []) (with_world terminal host w s)).file
          outside
        ∙ stored refl;
  }
  finish_report-IsExported text (false, w) s outside stored h = cc

  -- An export returns false, or leaves the report in its file, where that file is none of the files
  -- below /vita/audit/, even where the close of the file fails; its event is then
  -- SESSION_JSONL_EXPORT_WRITTEN, and what it does behind the write and the comparison is to print and
  -- record its two lines.
  pub session_export_write_jsonl-content :
      (identity : Option (Bytes × Bytes)) (ctx : Context) (s : Here terminal host)
      → IsOutside host frame report_path
      → ((session_export_write_jsonl terminal host identity ctx s).0.0 ≡ false)
        ⊎ IsExported
            (report_text terminal host identity ctx s.station.transcript s.station.world).0
            s
            (session_export_write_jsonl terminal host identity ctx s)
  unfolding session_export_write_jsonl
  session_export_write_jsonl-content identity ctx s outside =
      let (text, w) = report_text terminal host identity ctx s.station.transcript s.station.world in
      let done = finish_report terminal host (write_report terminal host text w) s in
      elim (Bool-cases done.0.0) [
        | inr failed ↦ inl failed
        | inl done ↦ inr (
            finish_report-IsExported text (write_report terminal host text w) s outside
              (write_report-content text w) done)
      ]
