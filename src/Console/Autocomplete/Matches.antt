-- ===== src/Console/Autocomplete/Matches.antt =====
-- What the completion offers.
use vita_os.Prelude.{
  ◌≤◌, true, Option, none, some, List, [], ◌∷◌, ◌++◌, ◌≡◌, refl, codes, length, ltb, All, if_elim,
  if◌then◌else◌, arith, length-append, ltb→lt,
}
use vita_os.Text.{Bytes, starts_with, str_copy}
use vita_os.Console.Autocomplete.{
  add_match, gather, note_path, note_paths, listed_paths, gather_all, gather_path_matches,
  known_paths, path_prefix, matches_of, begins_with_dot,
}

no_note_begins : (rest : Bytes) (names : List Bytes) → note_paths (b'd' ∷ rest) names [] ≡ []
unfolding note_paths note_path starts_with str_copy
no_note_begins rest [] = refl
no_note_begins rest (name ∷ names) =
    if_elim (λ (out : List Bytes). out ≡ []) (begins_with_dot name) _ _
      (λ _. no_note_begins rest names) (λ _. no_note_begins rest names)

no_path_begins :
    (rest : Bytes) (listing : Option (List Bytes)) → gather_path_matches (b'd' ∷ rest) listing ≡ []
unfolding gather_path_matches listed_paths gather gather_all known_paths starts_with
no_path_begins rest none = refl
no_path_begins rest (some names) = rw (no_note_begins rest names) refl

-- Behind "append " the completion offers nothing, whatever has been typed and whatever notes there
-- are: the path is taken from the fifth character on, although the word and its blank are seven.
pub append_offers_nothing :
    (typed : Bytes) (listing : Option (List Bytes))
    → matches_of (codes "append " ++ typed) (path_prefix (codes "append " ++ typed)) listing ≡ []
unfolding matches_of path_prefix starts_with
append_offers_nothing typed listing = no_path_begins (b' ' ∷ typed) listing

-- At most 32 texts, which all begin with the prefix.
pub record IsOffer (prefix : Bytes) (matches : List Bytes) : Type 0 where
  pub few : length matches ≤ 32
  pub begin : All (λ m. starts_with m prefix ≡ true) matches

All-snoc {ℓ} :
    (P : Bytes → Type ℓ) (xs : List Bytes) (x : Bytes) → All P xs → P x → All P (xs ++ x ∷ [])
All-snoc P [] x h p = (p, tt)
All-snoc P (y ∷ xs) x h p = (h.0, All-snoc P xs x h.1 p)

add_match-IsOffer :
    (prefix candidate : Bytes) (matches : List Bytes)
    → starts_with candidate prefix ≡ true
    → IsOffer prefix matches
    → IsOffer prefix (add_match candidate matches)
unfolding add_match
add_match-IsOffer prefix candidate matches h o =
    if_elim (IsOffer prefix) (ltb (length matches) 32) (matches ++ candidate ∷ []) matches
      (λ room. record {
        few = omega (arith, length-append matches (candidate ∷ []), ltb→lt _ _ room);
        begin = All-snoc (λ m. starts_with m prefix ≡ true) matches candidate o.begin h;
      })
      (λ _. o)

-- Whatever the candidates, what is gathered for a prefix are at most 32 texts that all begin with
-- it, if that is so of the texts gathered before.
pub gather-IsOffer :
    (prefix : Bytes) (candidates matches : List Bytes)
    → IsOffer prefix matches
    → IsOffer prefix (gather prefix candidates matches)
unfolding gather
gather-IsOffer prefix [] matches o = o
gather-IsOffer prefix (candidate ∷ candidates) matches o =
    gather-IsOffer prefix candidates
      (if starts_with candidate prefix then add_match candidate matches else matches)
      (if_elim (IsOffer prefix) (starts_with candidate prefix) (add_match candidate matches) matches
        (λ h. add_match-IsOffer prefix candidate matches h o) (λ _. o))
