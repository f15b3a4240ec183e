-- ===== src/Command/Reports/Verified.antt =====
-- What a report that write_report_verified accepts has shown.
use vita_os.Prelude.{
  ◌<◌, Bool, true, not, some, [], ◌≡◌, ◌∙◌, ap, codes, length, if_elim, not-true, arith,
}
use vita_os.Text.{Bytes, str_eq}
use vita_os.Text.Laws.{str_eq_iff}
use vita_os.Storage.Files.{World, storage_write_text, storage_read_text}
use vita_os.Storage.Files.RoundTrip.{
  content, IsPut, storage_write_text-IsPut, storage_read_text-content, length-storage_read_text,
  read_back-content,
}
use vita_os.Command.{Platform, Here, Do, on_world}
use vita_os.Command.Reports.{storage_failed, differs, compared, read_back, write_report_verified}

module _ (platform : Platform) where
  open platform use {host}

  -- the file behind a path holds the body, which is shorter than the buffer it was read into
  pub record IsWritten (path body : Bytes) (m : Here platform) : Type 0 where
    pub stored : content host m.site.station.world path ≡ some body
    pub short : length body < 2048

  -- a step reports truly about a path and a body
  abbrev Reports : Bytes → Bytes → Bool × Here platform → Type 0
  Reports path body r = r.0 ≡ true → IsWritten path body r.1

  at_world : Here platform → World host.Fs → Here platform
  at_world m w = record m { site = record m.site { station = record m.site.station { world = w } } }

  compared-Reports :
      (path body : Bytes) (w : World host.Fs) (m : Here platform)
      → IsPut host path body w
      → let read = storage_read_text host path [] 2048 w in
        Reports path body (compared platform path body read.0 (at_world m read.1))
  unfolding compared at_world
  compared-Reports path body w m put =
      let read = storage_read_text host path [] 2048 w in
      let m' = at_world m read.1 in
      if_elim (λ (f : Do platform Bool). Reports path body (f m')) (not read.0.0)
        (storage_failed platform (codes "report verify read failed:") path) _
        (unfold storage_failed in λ _ h. cc)
        λ found.
          if_elim (λ (f : Do platform Bool). Reports path body (f m')) (not (str_eq read.0.1 body))
            (differs platform path) _ (unfold differs in λ _ h. cc)
            λ same _. record {
              stored =
                  storage_read_text-content host path [] path 2048 w
                  ∙ read_back-content host path body [] 2048 w put (not-true _ found)
                      ((str_eq_iff read.0.1 body).0 (not-true _ same));
              short = omega (
                arith,
                ap length ((str_eq_iff read.0.1 body).0 (not-true _ same)),
                length-storage_read_text host path 2048 w (omega arith),
              );
            }

  -- A report that is accepted stands in its file, whole, and has fewer than 2048 bytes.
  pub write_report_verified-IsWritten :
      (path body : Bytes) (m : Here platform)
      → (write_report_verified platform path body m).0 ≡ true
      → IsWritten path body (write_report_verified platform path body m).1
  unfolding write_report_verified on_world read_back at_world
  write_report_verified-IsWritten path body m =
      let written = storage_write_text host path body m.site.station.world in
      let m' = at_world m written.1 in
      if_elim (λ (f : Do platform Bool). Reports path body (f m')) (not written.0)
        (storage_failed platform (codes "report write failed:") path) (read_back platform path body)
        (unfold storage_failed in λ _ h. cc)
        λ ok.
          compared-Reports path body written.1 m
            (storage_write_text-IsPut host path body m.site.station.world (not-true _ ok))
