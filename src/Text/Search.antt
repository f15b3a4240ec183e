-- ===== src/Text/Search.antt =====
-- The search for a token: `contains_token` of kernel/session_journal.c, and `contains` of
-- kernel/session_transcript.c.
use vita_os.Prelude.{
  Bool, true, false, ◌||◌, [], ◌∷◌, ◌++◌, ◌≡◌, ◌≢◌, ◌↔◌, ◌⊎◌, refl, ap, inl, inr, arith,
}
use vita_os.Text.{Bytes, starts_with}
use vita_os.Text.Laws.{starts_with_iff}

-- the loop over the starting points
contains_from : Bytes → Bytes → Bool
contains_from [] token = false
contains_from (c ∷ s) token = starts_with (c ∷ s) token || contains_from s token

unfoldable pub contains_token : Bytes → Bytes → Bool
unfolding contains_from
contains_token text [] = false
contains_token text (t ∷ token) = contains_from text (t ∷ token)

-- the token stands somewhere in the text
abbrev pub Occurs : Bytes → Bytes → Type 0
Occurs token text = (a b : Bytes) × (text ≡ a ++ (token ++ b))

or_cases : (a b : Bool) → (a || b) ≡ true → (a ≡ true) ⊎ (b ≡ true)
or_cases true b h = inl refl
or_cases false b h = inr h

or_right : (a b : Bool) → b ≡ true → (a || b) ≡ true
or_right true b h = refl
or_right false b h = h

found : (text token : Bytes) → contains_from text token ≡ true → Occurs token text
unfolding contains_from
found [] token h = cc
found (c ∷ s) token h = elim (or_cases (starts_with (c ∷ s) token) (contains_from s token) h) [
  | inl here ↦ let (b, e) = (starts_with_iff (c ∷ s) token).0 here in ([], b, e)
  | inr later ↦ let (a, b, e) = found s token later in (c ∷ a, b, ap (◌∷◌ c) e)
]

finds :
    (a b text token : Bytes)
    → token ≢ []
    → text ≡ a ++ (token ++ b)
    → contains_from text token ≡ true
unfolding contains_from
finds a b [] [] ne e = absurd (ne refl)
finds [] b [] (t ∷ token) ne e = cc
finds (x ∷ a) b [] (t ∷ token) ne e = cc
finds [] b (c ∷ s) token ne e = rw ((starts_with_iff (c ∷ s) token).1 (b, e)) refl
finds (x ∷ a) b (c ∷ s) token ne e =
    or_right (starts_with (c ∷ s) token) _ (finds a b s token ne (ground arith))

-- The search decides whether a token, which is not empty, occurs in the text.
pub contains_token_iff :
    (text token : Bytes) → token ≢ [] → (contains_token text token ≡ true) ↔ Occurs token text
unfolding contains_token
contains_token_iff text [] ne = absurd (ne refl)
contains_token_iff text (t ∷ token) ne =
    (found text (t ∷ token), λ h. finds h.0 h.1 text (t ∷ token) ne h.2)
