-- ===== src/Storage/Files/Kept.antt =====
-- What the files of the audit directory leave alone: every other file, and the switches of the
-- storage facade.
use vita_os.Prelude.{ℕ, [], ◌++◌, ◌≡◌, refl, ◌∙◌, codes}
use vita_os.Text.{Bytes}
use vita_os.Storage.Host.{Host, HostFrame}
use vita_os.Storage.Files.{World, storage_write_text, storage_read_text}
use vita_os.Storage.Files.RoundTrip.{content, storage_read_text-content}
use vita_os.Storage.Files.Reads.{
  SameSwitches, SameSwitches-trans, storage_write_text-SameSwitches, storage_read_text-SameSwitches,
}
use vita_os.Storage.Files.Frame.{Apart, storage_write_text-content}

-- a path below /vita/audit/
abbrev pub InAudit : Bytes → Type 0
InAudit path = (rest : Bytes) × (path ≡ codes "/vita/audit/" ++ rest)

module _ (host : Host) (frame : HostFrame host) where
  -- A path that names none of the files below /vita/audit/.
  abbrev pub IsOutside : Bytes → Type 0
  IsOutside path = (own : Bytes) → InAudit own → Apart host frame own path

  -- The file is as it was, if it is none of the audit files, and so are the switches of the facade.
  pub record Kept (path : Bytes) (w w' : World host.Fs) : Type 0 where
    pub file : IsOutside path → content host w' path ≡ content host w path
    pub switches : SameSwitches host w w'

  module _ (path : Bytes) where
    pub Kept-refl : (w : World host.Fs) → Kept path w w
    Kept-refl w = record {
      file = λ outside. refl;
      switches = record { initialized = refl; writable = refl };
    }

    pub Kept-trans : (a b c : World host.Fs) → Kept path a b → Kept path b c → Kept path a c
    Kept-trans a b c k l = record {
      file = λ outside. l.file outside ∙ k.file outside;
      switches = SameSwitches-trans host a b c k.switches l.switches;
    }

    pub write-Kept :
        (own text : Bytes) (w : World host.Fs)
        → InAudit own
        → Kept path w (storage_write_text host own text w).1
    write-Kept own text w i = record {
      file = λ outside. storage_write_text-content host frame own text path w (outside own i);
      switches = storage_write_text-SameSwitches host own text w;
    }

    pub read-Kept :
        (own : Bytes) (size : ℕ) (w : World host.Fs)
        → Kept path w (storage_read_text host own [] size w).1
    read-Kept own size w = record {
      file = λ outside. storage_read_text-content host own [] path size w;
      switches = storage_read_text-SameSwitches host own [] size w;
    }

    -- two steps, the second of which some branches skip
    pub two_reads :
        (p q : Bytes) (m n : ℕ) (w : World host.Fs)
        → Kept path w (storage_read_text host q [] n (storage_read_text host p [] m w).1).1
    two_reads p q m n w =
        let w1 = (storage_read_text host p [] m w).1 in
        Kept-trans w w1 _ (read-Kept p m w) (read-Kept q n w1)

    pub two_writes :
        (p q s t : Bytes) (w : World host.Fs)
        → InAudit p
        → InAudit q
        → Kept path w (storage_write_text host q t (storage_write_text host p s w).1).1
    two_writes p q s t w i k =
        let w1 = (storage_write_text host p s w).1 in
        Kept-trans w w1 _ (write-Kept p s w i) (write-Kept q t w1 k)
