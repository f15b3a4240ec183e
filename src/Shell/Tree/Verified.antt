-- ===== src/Shell/Tree/Verified.antt =====
-- What a bootstrap that succeeds has shown.
use vita_os.Prelude.{
  Bool, true, false, not, ◌&&◌, ◌||◌, some, [], ◌≡◌, refl, ◌∙◌, codes, if_elim, not-true, List, ◌∷◌,
  All, subst, Bool-cases, inl, inr, ◌≢◌,
}
use vita_os.Text.{Bytes, str_eq}
use vita_os.Text.Laws.{str_eq_iff}
use vita_os.Storage.Host.{Host}
use vita_os.Storage.Paths.{path_allowed}
use vita_os.Storage.Files.{
  World, hosted_ensure_parent_dirs, set_error, storage_write_text, storage_read_text,
  storage_is_ready,
}
use vita_os.Storage.Files.RoundTrip.{
  content, IsPut, storage_write_text-IsPut, storage_read_text-content, read_back-content,
}
use vita_os.Console.{Terminal, Site}
use vita_os.Shell.{Run, on_world}
use vita_os.Shell.Tree.{
  verify_path, verify_text, ended, failed, verified, compare_marker, write_marker, check_tree,
  repair_tree, attempt, host_buffer, expected_dirs, repair_dirs, check_dirs, hosted_path_exists,
  hosted_ensure_dir_path, storage_ensure_directory, storage_tree_check, storage_tree_repair,
  storage_bootstrap_persistent_tree,
}

module _ (terminal : Terminal) (host : Host) where
  abbrev Here : Type 0
  Here = Site host.Fs terminal.Device

  -- The facade says that it is verified, and the marker is in its file.
  pub record IsVerified (s : Here) : Type 0 where
    pub flag : s.station.world.storage.bootstrap_verified ≡ true
    pub marker : content host s.station.world verify_path ≡ some verify_text

  abbrev Report : Bool × Here → Type 0
  Report r = r.0 ≡ true → IsVerified r.1

  failed_false : (text : Bytes) (s : Here) → (failed terminal host text s).0 ≢ true
  unfolding failed ended on_world set_error
  failed_false text s h = cc

  failed-Report : (text : Bytes) (s : Here) → Report (failed terminal host text s)
  unfolding failed ended on_world set_error
  failed-Report text s h = cc

  -- a step that is run at a site reports truly
  abbrev Goes : Here → Run terminal host Bool → Type 0
  Goes s f = Report (f s)

  verified-Report :
      (s : Here)
      → content host s.station.world verify_path ≡ some verify_text
      → Report (verified terminal host s)
  unfolding verified on_world set_error content
  verified-Report s stored h = record { flag = refl; marker = stored }

  compare_marker-Report :
      (s : Here)
      → IsPut host verify_path verify_text s.station.world
      → Report (compare_marker terminal host s)
  unfolding compare_marker on_world
  compare_marker-Report s put =
      let read = storage_read_text host verify_path [] 2048 s.station.world in
      let s' = record s { station = record s.station { world = read.1 } } in
      let bad_read = failed terminal host (codes "bootstrap failed: verify marker read") in
      let bad_text = failed terminal host (codes "bootstrap failed: verify marker compare") in
      if_elim (Goes s') (not read.0.0) bad_read _ (λ _. failed-Report _ s')
        λ found.
          if_elim (Goes s') (not (str_eq read.0.1 verify_text)) bad_text (verified terminal host)
            (λ _. failed-Report _ s')
            λ same. verified-Report s' (
              storage_read_text-content host verify_path [] verify_path 2048 s.station.world
              ∙ read_back-content host verify_path verify_text [] 2048 s.station.world put
                  (not-true _ found) ((str_eq_iff read.0.1 verify_text).0 (not-true _ same)))

  write_marker-Report : (s : Here) → Report (write_marker terminal host s)
  unfolding write_marker on_world
  write_marker-Report s =
      let written = storage_write_text host verify_path verify_text s.station.world in
      let s' = record s { station = record s.station { world = written.1 } } in
      if_elim (Goes s') written.0 (compare_marker terminal host) _
        (λ ok.
          compare_marker-Report s'
            (storage_write_text-IsPut host verify_path verify_text s.station.world ok))
        (λ _. failed-Report (codes "bootstrap failed: verify marker write") s')

  -- the host's files with these directories made, each behind its parents
  pub with_dirs : List Bytes → host.Fs → host.Fs
  with_dirs [] fs = fs
  with_dirs (dir ∷ dirs) fs =
      let path = host_buffer terminal host dir in
      with_dirs dirs (host.make_dir (hosted_ensure_parent_dirs host fs path) path)

  -- the host has all these directories
  pub HasDirs : List Bytes → host.Fs → Type 0
  HasDirs dirs fs = All (λ dir. host.exists fs (host_buffer terminal host dir) ≡ true) dirs

  repair_dirs-fs :
      (dirs : List Bytes) (w : World host.Fs)
      → (repair_dirs terminal host dirs w).0 ≡ true
      → (repair_dirs terminal host dirs w).1.fs ≡ with_dirs dirs w.fs
  unfolding repair_dirs with_dirs storage_ensure_directory hosted_ensure_dir_path ended set_error
  repair_dirs-fs [] w = λ h. refl
  repair_dirs-fs (dir ∷ dirs) w = elim (Bool-cases (path_allowed dir)) [
    | inl allowed ↦ rw allowed (λ h. repair_dirs-fs dirs _ h)
    | inr refused ↦ rw refused (λ h. cc)
  ]

  check_dirs-HasDirs :
      (dirs : List Bytes) (s : Here)
      → (check_dirs terminal host dirs s).0 ≡ true
      → HasDirs dirs s.station.world.fs
  unfolding check_dirs HasDirs hosted_path_exists
  check_dirs-HasDirs [] s = λ h. tt
  check_dirs-HasDirs (dir ∷ dirs) s =
      let path = host_buffer terminal host dir in
      elim (Bool-cases (path_allowed dir)) [
        | inl allowed ↦ elim (Bool-cases (host.exists s.station.world.fs path)) [
          | inl here ↦ rw (allowed, here) (λ h. (refl, check_dirs-HasDirs dirs s h))
          | inr missing ↦ rw (allowed, missing) (λ h. cc)
        ]
        | inr refused ↦ rw refused (λ h. cc)
      ]

  tree_check-HasDirs :
      (s : Here)
      → (storage_tree_check terminal host s).0 ≡ true
      → HasDirs expected_dirs s.station.world.fs
  unfolding storage_tree_check
  tree_check-HasDirs s =
      let ok = check_dirs terminal host expected_dirs s in
      if_elim
        (λ (f : Run terminal host Bool).
          (f ok.1).0 ≡ true → HasDirs expected_dirs s.station.world.fs)
        ok.0 (on_world terminal host (ended terminal host (codes "ok") true)) (λ s'. (false, s'))
        (λ here _. check_dirs-HasDirs expected_dirs s here) (λ _ h. cc)

  -- the same about the directories
  abbrev Tree : host.Fs → Bool × Here → Type 0
  Tree fs r = r.0 ≡ true → HasDirs expected_dirs fs × IsVerified r.1

  check_tree-Tree : (s : Here) → Tree s.station.world.fs (check_tree terminal host s)
  unfolding check_tree
  check_tree-Tree s =
      let checked = storage_tree_check terminal host s in
      if_elim (λ (f : Run terminal host Bool). Tree s.station.world.fs (f checked.1)) checked.0
        (write_marker terminal host)
        (failed terminal host (codes "bootstrap failed: storage_tree_check"))
        (λ here h. (tree_check-HasDirs s here, write_marker-Report checked.1 h))
        (λ _ h. absurd (failed_false (codes "bootstrap failed: storage_tree_check") checked.1 h))

  repair_tree-Tree :
      (s : Here) → Tree (with_dirs expected_dirs s.station.world.fs) (repair_tree terminal host s)
  unfolding repair_tree on_world
  repair_tree-Tree s =
      let repaired = storage_tree_repair terminal host s.station.world in
      let s' = record s { station = record s.station { world = repaired.1 } } in
      let made = with_dirs expected_dirs s.station.world.fs in
      if_elim (λ (f : Run terminal host Bool). Tree made (f s')) repaired.0
        (check_tree terminal host)
        (failed terminal host (codes "bootstrap failed: storage_tree_repair"))
        (λ done h.
          let (dirs, verified) = check_tree-Tree s' h in
          (
            subst (HasDirs expected_dirs)
                (unfold storage_tree_repair in repair_dirs-fs expected_dirs s.station.world done)
                dirs,
            verified,
          ))
        (λ _ h. absurd (failed_false (codes "bootstrap failed: storage_tree_repair") s' h))

  -- A bootstrap that returns true found the facade ready, and the host with every expected directory
  -- once all of them were made, each behind its parents; it leaves the facade verified, with the
  -- marker file holding exactly the marker, even where the close of a written file fails.
  pub storage_bootstrap-IsVerified :
      (s : Here)
      → (storage_bootstrap_persistent_tree terminal host s).0 ≡ true
      → (storage_is_ready s.station.world ≡ true)
        × HasDirs expected_dirs (with_dirs expected_dirs s.station.world.fs)
        × IsVerified (storage_bootstrap_persistent_tree terminal host s).1
  unfolding storage_bootstrap_persistent_tree attempt storage_is_ready
  storage_bootstrap-IsVerified s =
      if_elim P (not s.station.world.storage.initialized || not s.station.world.storage.writable)
        (failed terminal host (codes "bootstrap failed: storage unavailable")
          (attempt terminal host s))
        (repair_tree terminal host (attempt terminal host s))
        (λ _ h. absurd (
          failed_false (codes "bootstrap failed: storage unavailable") (attempt terminal host s) h))
        (λ on h.
          let (dirs, verified) = repair_tree-Tree (attempt terminal host s) h in
          (both_on _ _ on, dirs, verified))
    where
      P : Bool × Here → Type 0
      P r =
          r.0 ≡ true
          → (storage_is_ready s.station.world ≡ true)
            × HasDirs expected_dirs (with_dirs expected_dirs s.station.world.fs)
            × IsVerified r.1

      both_on : (a b : Bool) → (not a || not b) ≡ false → (a && b) ≡ true
      both_on true true h = refl
      both_on true false h = cc
      both_on false b h = cc
