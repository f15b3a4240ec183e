-- ===== src/Storage/Files/RoundTrip.antt =====
-- What is written through the storage facade is read back through it.
use vita_os.Prelude.{
  ℕ, zero, suc, ◌-◌, ◌≤◌, ◌<◌, Bool, true, not, ◌||◌, Option, none, some, [], ◌∷◌, ◌≡◌, ◌≢◌, refl,
  sym, ap, ◌∙◌, subst, arith, length, take, take_all, length-take, ◌==◌, All, if_elim, not_or,
  not-true, ◌⊎◌, ◌↔◌, inl, inr,
}
use vita_os.Text.{Bytes}
use vita_os.Storage.Host.{Host, Written, no_open, short_write, unclosed, complete}
use vita_os.Storage.Paths.{path_allowed, hosted_map_path}
use vita_os.Storage.Paths.Confined.{hosted_map_path_lem, host_path}
use vita_os.Storage.Files.{
  World, set_error, until_nul, hosted_ensure_parent_dirs, fail, finish_write, write_mapped,
  storage_write_text, fail_read, finish_read, read_mapped, hosted_read_text, storage_read_text,
}

-- A text holds no NUL.
abbrev pub IsText : Bytes → Type 0
IsText s = All (λ c. c ≢ 0) s

pub until_nul_text : (s : Bytes) → IsText s → until_nul s ≡ s
until_nul_text [] h = refl
until_nul_text (c ∷ s) h = ground (arith, h.0, until_nul_text s h.1)

take-IsText : (n : ℕ) (s : Bytes) → IsText s → IsText (take n s)
take-IsText zero s h = tt
take-IsText (suc n) [] h = tt
take-IsText (suc n) (c ∷ s) h = (h.0, take-IsText n s h.1)

length-until_nul : (s : Bytes) → length (until_nul s) ≤ length s
length-until_nul [] = omega arith
length-until_nul (c ∷ s) = ground (arith, length-until_nul s)

module _ (host : Host) where
  open host use {Fs, write_file, read_file, read-write, read-unclosed}

  -- the bytes of the file behind a path
  unfoldable pub content : World Fs → Bytes → Option Bytes
  content w path = read_file w.fs (host_path path)

  -- What the result `true` of a write says.
  pub record IsStored (path text : Bytes) (w : World Fs) : Type 0 where
    pub initialized : w.storage.initialized ≡ true
    pub writable : w.storage.writable ≡ true
    pub allowed : path_allowed path ≡ true
    pub stored : content w path ≡ some text

  -- What the result `true` of a write says, where the close of the file may have failed: the file
  -- holds a beginning of the text, if it can be read.
  pub record IsPut (path text : Bytes) (w : World Fs) : Type 0 where
    pub initialized : w.storage.initialized ≡ true
    pub writable : w.storage.writable ≡ true
    pub allowed : path_allowed path ≡ true
    pub beginning : (file : Bytes) → content w path ≡ some file → (n : ℕ) × (file ≡ take n text)

  -- the result of the host for a write through the facade
  pub host_result : Bytes → Bytes → World Fs → Written
  host_result path text w =
      (write_file (hosted_ensure_parent_dirs host w.fs (host_path path)) (host_path path) text).0

  -- whether the host put the text in the file, or closed it with a failure
  pub record Outcome (path text : Bytes) (w w' : World Fs) : Type 0 where
    pub put : IsPut path text w'
    pub end :
        ((host_result path text w ≡ complete) × (content w' path ≡ some text))
        ⊎ (host_result path text w ≡ unclosed)

  finish_write_lem :
      (r : Written) (w : World Fs)
      → (finish_write host r w).0 ≡ true
      → ((r ≡ complete) ⊎ (r ≡ unclosed))
        × ((finish_write host r w).1.fs ≡ w.fs)
        × ((finish_write host r w).1.storage.initialized ≡ w.storage.initialized)
        × ((finish_write host r w).1.storage.writable ≡ w.storage.writable)
  unfolding finish_write set_error
  finish_write_lem no_open w h = cc
  finish_write_lem short_write w h = cc
  finish_write_lem unclosed w h = (inr refl, refl, refl, refl)
  finish_write_lem complete w h = (inl refl, refl, refl, refl)

  some_all : (text file : Bytes) → some text ≡ some file → (n : ℕ) × (file ≡ take n text)
  some_all text file e =
      let same : text ≡ file = cc e in
      (length text, sym same ∙ sym (take_all (length text) text (omega arith)))

  write_host-Outcome :
      (path text : Bytes) (w : World Fs)
      → w.storage.initialized ≡ true
      → w.storage.writable ≡ true
      → path_allowed path ≡ true
      → (write_mapped host (some (host_path path)) text w).0 ≡ true
      → Outcome path text w (write_mapped host (some (host_path path)) text w).1
  unfolding write_mapped content host_result
  write_host-Outcome path text w init writable allowed h =
      let fs = hosted_ensure_parent_dirs host w.fs (host_path path) in
      let result = write_file fs (host_path path) text in
      let (ended, same, init', writable') =
        finish_write_lem result.0 (record w { fs = result.1 }) h in
      let at : read_file (finish_write host result.0 (record w { fs = result.1 })).1.fs
            (host_path path)
          ≡ read_file result.1 (host_path path) =
        ap (λ (t : Fs). read_file t (host_path path)) same in
      record {
        put = record {
          initialized = init' ∙ init;
          writable = writable' ∙ writable;
          allowed = allowed;
          beginning = λ file e. elim ended [
            | inl done ↦
                some_all text file (sym (read-write fs (host_path path) text done) ∙ sym at ∙ e)
            | inr lost ↦ read-unclosed fs (host_path path) text file lost (sym at ∙ e)
          ];
        };
        end = elim ended [
          | inl done ↦ inl (done, at ∙ read-write fs (host_path path) text done)
          | inr lost ↦ inr lost
        ];
      }

  read_mapped_lem :
      (path text : Bytes) (size : ℕ) (w : World Fs)
      → content w path ≡ some text
      → (read_mapped host (some (host_path path)) size w).0
        ≡ (true, until_nul (take (size - 1) text))
  unfolding read_mapped content
  read_mapped_lem path text size w e = λ i. (finish_read host (e i) size w).0

  -- A read of a stored text gives what fits the buffer.
  pub read_stored_prefix :
      (path text out : Bytes) (size : ℕ) (w : World Fs)
      → IsStored path text w
      → 0 < size
      → (storage_read_text host path out size w).0 ≡ (true, until_nul (take (size - 1) text))
  unfolding storage_read_text hosted_read_text
  read_stored_prefix path text out size w st h =
      if_elim Gives (not w.storage.initialized) _ _ (λ e. cc (st.initialized))
        λ _.
          if_elim Gives (size == 0) _ _ (λ e. absurd (ground arith))
            λ _.
              if_elim Gives (not (path_allowed path)) _ _ (λ e. cc (st.allowed))
                λ _.
                  subst (λ (m : Option Bytes). Gives (read_mapped host m size w))
                    (sym (hosted_map_path_lem path st.allowed))
                    (read_mapped_lem path text size w st.stored)
    where
      Gives : (Bool × Bytes) × World Fs → Type 0
      Gives r = r.0 ≡ (true, until_nul (take (size - 1) text))

  read_stored :
      (path text out : Bytes) (size : ℕ) (w : World Fs)
      → IsStored path text w
      → IsText text
      → length text < size
      → (storage_read_text host path out size w).0 ≡ (true, text)
  read_stored path text out size w st t fits =
      read_stored_prefix path text out size w st (omega arith)
      ∙ ap (λ (s : Bytes). (true, until_nul s)) (take_all (size - 1) text (omega arith))
      ∙ ap (λ (s : Bytes). (true, s)) (until_nul_text text t)

  -- What a read that succeeds has found.
  pub read_found :
      (path out : Bytes) (size : ℕ) (w : World Fs)
      → (storage_read_text host path out size w).0.0 ≡ true
      → (file : Bytes) × (content w path ≡ some file)
        × ((storage_read_text host path out size w).0.1 ≡ until_nul (take (size - 1) file))
  unfolding storage_read_text hosted_read_text fail_read content
  read_found path out size w =
      if_elim Found (not w.storage.initialized) _ _ (λ _ h. cc)
        λ _.
          if_elim Found (size == 0) _ _ (λ _ h. cc)
            λ _.
              if_elim Found (not (path_allowed path)) _ _ (λ _ h. cc)
                λ allowed.
                  subst (λ (m : Option Bytes). Found (read_mapped host m size w))
                    (sym (hosted_map_path_lem path (not-true _ allowed)))
                    (finished (read_file w.fs (host_path path)) refl)
    where
      Found : (Bool × Bytes) × World Fs → Type 0
      Found r =
          r.0.0 ≡ true
          → (file : Bytes) × (read_file w.fs (host_path path) ≡ some file)
            × (r.0.1 ≡ until_nul (take (size - 1) file))

      finished :
          (o : Option Bytes)
          → read_file w.fs (host_path path) ≡ o
          → Found (finish_read host o size w)
      finished none e h = unfold finish_read fail_read in cc
      finished (some file) e h = unfold finish_read in (file, e, refl)

  -- A read that finds the whole text behind a write that reported success shows that the file holds
  -- exactly the text, whether the close failed or not.
  pub read_back-content :
      (path text out : Bytes) (size : ℕ) (w : World Fs)
      → IsPut path text w
      → (storage_read_text host path out size w).0.0 ≡ true
      → (storage_read_text host path out size w).0.1 ≡ text
      → content w path ≡ some text
  read_back-content path text out size w put found same =
      let (file, at, read_is) = read_found path out size w found in
      let (n, is) = put.beginning file at in
      let short : length text ≤ length (take n text) = omega (
        arith,
        ap length (sym same ∙ read_is),
        length-until_nul (take (size - 1) file),
        length-take (size - 1) file,
        ap length is,
      ) in
      at ∙ ap some (is ∙ take_all n text (omega (arith, short, length-take n text)))

  finish_write_iff :
      (r : Written) (w : World Fs)
      → ((finish_write host r w).0 ≡ true) ↔ ((r ≡ complete) ⊎ (r ≡ unclosed))
  unfolding finish_write
  finish_write_iff no_open w = (λ h. cc, λ e. elim e [ inl h ↦ cc | inr h ↦ cc ])
  finish_write_iff short_write w = (λ h. cc, λ e. elim e [ inl h ↦ cc | inr h ↦ cc ])
  finish_write_iff unclosed w = (λ h. inr refl, λ e. refl)
  finish_write_iff complete w = (λ h. inl refl, λ e. refl)

  -- A write reports success exactly where the facade is initialised and writable, its path is
  -- accepted, and the host has opened the file and taken the whole text; a close that fails, with the
  -- text lost or cut, is a success too.
  pub storage_write_text_iff :
      (path text : Bytes) (w : World Fs)
      → ((storage_write_text host path text w).0 ≡ true) ↔ (
          (w.storage.initialized ≡ true)
          × (w.storage.writable ≡ true)
          × (path_allowed path ≡ true)
          × ((host_result path text w ≡ complete) ⊎ (host_result path text w ≡ unclosed)))
  unfolding storage_write_text fail
  storage_write_text_iff path text w =
      if_elim Exactly (not w.storage.initialized || not w.storage.writable) _ _
        (λ off. (λ h. cc, λ (init, writable, _, _). cc (init, writable, off)))
        λ ready.
          if_elim Exactly (not (path_allowed path)) _ _
            (λ refused. (λ h. cc, λ (_, _, allowed, _). cc (allowed, refused)))
            λ allowed.
              let (init, writable) = not_or w.storage.initialized w.storage.writable ready in
              let ok = not-true (path_allowed path) allowed in
              subst (λ (m : Option Bytes). Exactly (write_mapped host m text w))
                (sym (hosted_map_path_lem path ok)) (mapped init writable ok)
    where
      Exactly : Bool × World Fs → Type 0
      Exactly r = (r.0 ≡ true) ↔ (
          (w.storage.initialized ≡ true)
          × (w.storage.writable ≡ true)
          × (path_allowed path ≡ true)
          × ((host_result path text w ≡ complete) ⊎ (host_result path text w ≡ unclosed)))

      mapped :
          w.storage.initialized ≡ true
          → w.storage.writable ≡ true
          → path_allowed path ≡ true
          → Exactly (write_mapped host (some (host_path path)) text w)
      mapped init writable ok =
          unfold write_mapped host_result in
          let result =
            write_file (hosted_ensure_parent_dirs host w.fs (host_path path)) (host_path path)
              text in
          let exact = finish_write_iff result.0 (record w { fs = result.1 }) in
          (λ h. (init, writable, ok, exact.0 h), λ (_, _, _, end). exact.1 end)

  -- A write that reports success was made by an initialised and writable facade, to a path that it
  -- accepts; the file behind the path then holds exactly the text, or its close has failed.
  pub storage_write_text-Outcome :
      (path text : Bytes) (w : World Fs)
      → (storage_write_text host path text w).0 ≡ true
      → Outcome path text w (storage_write_text host path text w).1
  unfolding storage_write_text fail
  storage_write_text-Outcome path text w =
      if_elim Reports (not w.storage.initialized || not w.storage.writable) _ _ (λ _ h. cc)
        λ ready.
          if_elim Reports (not (path_allowed path)) _ _ (λ _ h. cc)
            λ allowed h.
              let (init, writable) = not_or w.storage.initialized w.storage.writable ready in
              let ok = not-true (path_allowed path) allowed in
              let mapped = hosted_map_path_lem path ok in
              subst (λ (m : Option Bytes). Reports (write_mapped host m text w)) (sym mapped)
                (write_host-Outcome path text w init writable ok) h
    where
      Reports : Bool × World Fs → Type 0
      Reports r = r.0 ≡ true → Outcome path text w r.1

  pub storage_write_text-IsPut :
      (path text : Bytes) (w : World Fs)
      → (storage_write_text host path text w).0 ≡ true
      → IsPut path text (storage_write_text host path text w).1
  storage_write_text-IsPut path text w h = (storage_write_text-Outcome path text w h).put

  -- A text without a NUL whose write reported success is read back as it was, through a buffer that
  -- is large enough for it and its NUL, or the close of its file has failed, which the write does not
  -- report; what a read gives then is a beginning of the text.
  pub storage_read-write :
      (path text out : Bytes) (size : ℕ) (w : World Fs)
      → (storage_write_text host path text w).0 ≡ true
      → IsText text
      → length text < size
      → let read =
          (storage_read_text host path out size (storage_write_text host path text w).1).0 in
        (read ≡ (true, text))
        ⊎ ((host_result path text w ≡ unclosed)
            × (read.0 ≡ true → (n : ℕ) × (read.1 ≡ take n text)))
  storage_read-write path text out size w h t fits =
      let ok = storage_write_text-Outcome path text w h in
      elim ok.end [
        | inl (done, stored) ↦ inl (
            read_stored path text out size _
              (record {
                initialized = ok.put.initialized;
                writable = ok.put.writable;
                allowed = ok.put.allowed;
                stored = stored;
              })
              t fits)
        | inr lost ↦ inr (
          lost,
          λ found.
              let (file, at, out_is) = read_found path out size _ found in
              let (n, is) = ok.put.beginning file at in
              (
                n,
                out_is
                    ∙ ap until_nul (
                        take_all (size - 1) file
                          (omega (arith, fits, ap length is, length-take n text))
                        ∙ is)
                    ∙ until_nul_text (take n text) (take-IsText n text t),
              ),
        )
      ]

  -- A read changes no file.
  pub storage_read_text-content :
      (path out other : Bytes) (size : ℕ) (w : World Fs)
      → content (storage_read_text host path out size w).1 other ≡ content w other
  unfolding storage_read_text hosted_read_text content fail_read set_error
  storage_read_text-content path out other size w =
      if_elim Same (not w.storage.initialized) _ _ (λ _. refl)
        λ _.
          if_elim Same (size == 0) _ _ (λ _. refl)
            λ _.
              if_elim Same (not (path_allowed path)) _ _ (λ _. refl)
                λ _. mapped (hosted_map_path path)
    where
      Same : (Bool × Bytes) × World Fs → Type 0
      Same r = read_file r.1.fs (host_path other) ≡ read_file w.fs (host_path other)

      finished : (o : Option Bytes) → Same (finish_read host o size w)
      finished none = refl
      finished (some text) = refl

      mapped : (m : Option Bytes) → Same (read_mapped host m size w)
      mapped none = refl
      mapped (some p) = finished (read_file w.fs p)

  -- What a read leaves in a buffer fits it.
  pub length-storage_read_text :
      (path : Bytes) (size : ℕ) (w : World Fs)
      → 0 < size
      → length (storage_read_text host path [] size w).0.1 < size
  unfolding storage_read_text hosted_read_text fail_read set_error
  length-storage_read_text path size w h =
      if_elim Fits (not w.storage.initialized) _ _ (λ _. h)
        λ _.
          if_elim Fits (size == 0) _ _ (λ _. h)
            λ _.
              if_elim Fits (not (path_allowed path)) _ _ (λ _. h) λ _. mapped (hosted_map_path path)
    where
      Fits : (Bool × Bytes) × World Fs → Type 0
      Fits r = length r.0.1 < size

      finished : (o : Option Bytes) → Fits (finish_read host o size w)
      finished none = h
      finished (some text) =
          omega (arith, length-until_nul (take (size - 1) text), length-take (size - 1) text)

      mapped : (m : Option Bytes) → Fits (read_mapped host m size w)
      mapped none = h
      mapped (some p) = finished (read_file w.fs p)
