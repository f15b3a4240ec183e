-- ===== src/Storage/Paths/Confined.antt =====
-- What `path_allowed` accepts, and that the host path stays below build/storage/vita.
use vita_os.Prelude.{
  ℕ, zero, suc, ◌≤◌, Bool, true, false, not, ◌&&◌, ◌||◌, some, [], ◌∷◌, ◌++◌, ◌≡◌, ◌≢◌, refl, sym,
  ap, ◌∙◌, inl, inr, ◌⊎◌, ◌↔◌, arith, codes, ◌==◌, if◌then◌else◌, take, take-append-drop,
  Bool-cases, All, append_assoc, drop, subst,
}
use vita_os.Text.{Bytes, str_eq, starts_with, str_copy}
use vita_os.Text.Laws.{str_eq_iff, starts_with_iff, str_append_lem}
use vita_os.Storage.Paths.{next_is, chars_allowed, path_allowed, hosted_map_path}

-- Nothing in a text leads out of a directory or off a volume: no two dots in a row, no colon, and no
-- control character.
pub record IsSafe (path : Bytes) : Type 0 where
  pub no_dots : (a b : Bytes) → path ≢ a ++ (b'.' ∷ b'.' ∷ b)
  pub no_colon : All (λ c. c ≢ b':') path
  pub no_control : All (λ c. 32 ≤ c) path

chars_allowed-dots : (s a b : Bytes) → chars_allowed s ≡ true → s ≢ a ++ (b'.' ∷ b'.' ∷ b)
unfolding chars_allowed
chars_allowed-dots [] [] b h e = cc
chars_allowed-dots [] (x ∷ a) b h e = cc
chars_allowed-dots (c ∷ []) [] b h e = cc
chars_allowed-dots (c ∷ d ∷ s) [] b h e = ground arith
chars_allowed-dots (c ∷ s) (x ∷ a) b h e = chars_allowed-dots s a b (ground arith) (ground arith)

chars_allowed-colon : (s : Bytes) → chars_allowed s ≡ true → All (λ c. c ≢ b':') s
unfolding chars_allowed
chars_allowed-colon [] h = tt
chars_allowed-colon (c ∷ s) h = (ground arith, chars_allowed-colon s (ground arith))

chars_allowed-control : (s : Bytes) → chars_allowed s ≡ true → All (λ c. 32 ≤ c) s
unfolding chars_allowed
chars_allowed-control [] h = tt
chars_allowed-control (c ∷ s) h = (ground arith, chars_allowed-control s (ground arith))

pub chars_allowed-IsSafe : (s : Bytes) → chars_allowed s ≡ true → IsSafe s
chars_allowed-IsSafe s h = record {
  no_dots = λ a b. chars_allowed-dots s a b h;
  no_colon = chars_allowed-colon s h;
  no_control = chars_allowed-control s h;
}

IsSafe-tail : (c : ℕ) (s : Bytes) → IsSafe (c ∷ s) → IsSafe s
IsSafe-tail c s safe = record {
  no_dots = λ a b e. safe.no_dots (c ∷ a) b (ap (◌∷◌ c) e);
  no_colon = safe.no_colon.1;
  no_control = safe.no_control.1;
}

no_dot_pair : (c : ℕ) (s : Bytes) → IsSafe (c ∷ s) → (c == b'.' && next_is b'.' s) ≡ false
unfolding next_is
no_dot_pair c [] safe = ground arith
no_dot_pair c (d ∷ s) safe = elim (Bool-cases (c == b'.' && d == b'.')) [
  | inl h ↦ absurd (safe.no_dots [] s (ground arith))
  | inr h ↦ h
]

IsSafe-chars_allowed : (s : Bytes) → IsSafe s → chars_allowed s ≡ true
unfolding chars_allowed
IsSafe-chars_allowed [] safe = refl
IsSafe-chars_allowed (c ∷ s) safe = rw (no_dot_pair c s safe) (
    ground
      (arith, safe.no_colon.0, safe.no_control.0, IsSafe-chars_allowed s (IsSafe-tail c s safe)))

allowed_parts :
    (a b c : Bool)
    → (if not (a || b) then false else c) ≡ true
    → ((a ≡ true) ⊎ (b ≡ true)) × (c ≡ true)
allowed_parts true b c h = (inl refl, h)
allowed_parts false true c h = (inr refl, h)
allowed_parts false false c h = cc

-- The path is /vita or lies below it.
abbrev pub InVita : Bytes → Type 0
InVita path = (path ≡ codes "/vita") ⊎ ((rest : Bytes) × (path ≡ codes "/vita/" ++ rest))

-- A path is accepted exactly if it is /vita or begins with /vita/, and has no two dots in a row, no
-- colon and no control character.
pub path_allowed_iff : (path : Bytes) → (path_allowed path ≡ true) ↔ (InVita path × IsSafe path)
unfolding path_allowed
path_allowed_iff path = (there, λ h. back h.0 h.1)
  where
    a : Bool
    a = str_eq path (codes "/vita")

    b : Bool
    b = starts_with path (codes "/vita/")

    there : path_allowed path ≡ true → InVita path × IsSafe path
    there h =
        let (place, chars) = allowed_parts a b (chars_allowed path) h in
        let safe = chars_allowed-IsSafe path chars in
        elim place [
          | inl e ↦ (inl ((str_eq_iff path (codes "/vita")).0 e), safe)
          | inr e ↦ (inr ((starts_with_iff path (codes "/vita/")).0 e), safe)
        ]

    back : InVita path → IsSafe path → path_allowed path ≡ true
    back (inl e) safe =
        ground (arith, (str_eq_iff path (codes "/vita")).1 e, IsSafe-chars_allowed path safe)
    back (inr e) safe =
        ground (arith, (starts_with_iff path (codes "/vita/")).1 e, IsSafe-chars_allowed path safe)

All-take {ℓ} : (P : ℕ → Type ℓ) (n : ℕ) (s : Bytes) → All P s → All P (take n s)
All-take P zero s h = tt
All-take P (suc n) [] h = tt
All-take P (suc n) (c ∷ s) h = (h.0, All-take P n s h.1)

IsSafe-take : (n : ℕ) (s : Bytes) → IsSafe s → IsSafe (take n s)
IsSafe-take n s safe = record {
  no_dots = λ a b e. safe.no_dots a (b ++ drop n s) (
      sym (take-append-drop n s)
      ∙ ap (λ (t : Bytes). t ++ drop n s) e
      ∙ append_assoc a (b'.' ∷ b'.' ∷ b) (drop n s));
  no_colon = All-take (λ c. c ≢ b':') n s safe.no_colon;
  no_control = All-take (λ c. 32 ≤ c) n s safe.no_control;
}

-- the host path of an accepted path
abbrev pub host_path : Bytes → Bytes
host_path path = codes "build/storage" ++ take 242 path

pub hosted_map_path_lem :
    (path : Bytes) → path_allowed path ≡ true → hosted_map_path path ≡ some (host_path path)
unfolding hosted_map_path str_copy
hosted_map_path_lem path h =
    rw (h, hosted_map_path) (rw (str_append_lem (codes "build/storage") path 256 (omega arith)))

-- the directory build/storage/vita itself, or a path below it
abbrev pub InHostVita : Bytes → Type 0
InHostVita host =
    (host ≡ codes "build/storage/vita")
    ⊎ ((rest : Bytes) × (host ≡ codes "build/storage/vita/" ++ rest))

host_path-InHostVita : (path : Bytes) → InVita path → InHostVita (host_path path)
host_path-InHostVita path (inl e) = inl (ap host_path e)
host_path-InHostVita path (inr (rest, e)) = inr (take 236 rest, ap host_path e)

host_path-IsSafe : (path : Bytes) → IsSafe path → IsSafe (host_path path)
host_path-IsSafe path safe =
    chars_allowed-IsSafe (host_path path)
      (unfold chars_allowed in IsSafe-chars_allowed (take 242 path) (IsSafe-take 242 path safe))

-- Whatever path a client passes, a host path that is produced is build/storage/vita or begins with
-- build/storage/vita/, and it has no two dots in a row, no colon and no control character.
pub hosted_map_path_confined :
    (path host : Bytes) → hosted_map_path path ≡ some host → InHostVita host × IsSafe host
hosted_map_path_confined path host h = elim (Bool-cases (path_allowed path)) [
  | inl ok ↦
      let same : host_path path ≡ host = cc (hosted_map_path_lem path ok) in
      let (place, safe) = (path_allowed_iff path).0 ok in
      subst (λ (t : Bytes). InHostVita t × IsSafe t) same
        (host_path-InHostVita path place, host_path-IsSafe path safe)
  | inr bad ↦ absurd (unfold hosted_map_path in ground arith)
]
