-- ===== src/Journal/Buffer.antt =====
-- A bounded buffer holds the beginning of what was appended, and knows whether that is all.
use vita_os.Prelude.{
  min, ℕ, zero, suc, ◌+◌, ◌-◌, ◌<◌, Bool, true, false, ◌||◌, List, [], ◌∷◌, ◌++◌, ◌≡◌, refl, sym,
  ap, ◌∙◌, length, length-append, take, take_all, take-append, length-take, append_assoc,
  append-nil, leb, Bool-cases, inl, inr, arith, leb→gt, gt→leb,
}
use vita_os.Text.{Bytes}
use vita_os.Journal.{append_to_buffer, append_pieces}

abbrev pub joined : List Bytes → Bytes
joined [] = []
joined (s ∷ pieces) = s ++ joined pieces

take_self : (n : ℕ) (a b : Bytes) → take n (take n a ++ b) ≡ take n (a ++ b)
take_self zero a b = refl
take_self (suc n) [] b = refl
take_self (suc n) (x ∷ a) b = ap (◌∷◌ x) (take_self n a b)

-- A cut text that is continued is the cut of the whole text.
pub take-append_take : (n : ℕ) (a s t : Bytes) → s ≡ take n a → take n (s ++ t) ≡ take n (a ++ t)
take-append_take n a s t e = ap (λ (r : Bytes). take n (r ++ t)) e ∙ take_self n a t

-- `append_to_buffer` keeps what fits in front of the NUL, and says whether that is not all.
pub append_to_buffer_lem :
    (cap : ℕ) (buf s : Bytes)
    → length buf < cap
    → ((append_to_buffer cap buf s).0 ≡ take (cap - 1) (buf ++ s))
      × ((append_to_buffer cap buf s).1 ≡ leb cap (length buf + length s))
unfolding append_to_buffer
append_to_buffer_lem cap buf [] h = (
  sym (take_all (cap - 1) (buf ++ []) (omega (arith, length-append buf [])) ∙ append-nil buf),
  sym (gt→leb cap (length buf + 0) (omega arith)),
)
append_to_buffer_lem cap buf (c ∷ s) h = elim (Bool-cases (leb cap (length buf + 1))) [
  | inl full ↦
      let e : cap - 1 ≡ length buf = ground arith in
      rw full (sym (take-append (buf) (c ∷ s) (cap - 1) e), ground arith)
  | inr room ↦
      let (text, hit) =
        append_to_buffer_lem cap (buf ++ c ∷ []) s
          (omega (arith, length-append buf (c ∷ []), leb→gt cap (length buf + 1) room)) in
      rw room (
        text ∙ ap (λ (t : Bytes). take (cap - 1) t) (append_assoc buf (c ∷ []) s),
        hit ∙ ap (λ n. leb cap n) (omega (arith, length-append buf (c ∷ []))),
      )
]

hits :
    (hit found : Bool) (cap a b n k : ℕ)
    → 0 < cap
    → found ≡ leb cap a
    → n ≡ min (cap - 1) a
    → k ≡ a + b
    → ((hit || found) || leb cap (n + b)) ≡ (hit || leb cap k)
hits true found cap a b n k pos e m s = refl
hits false found cap a b n k pos e m s = ground arith

-- The same for texts one after the other.
pub append_pieces_lem :
    (cap : ℕ) (buf : Bytes) (hit : Bool) (pieces : List Bytes)
    → length buf < cap
    → ((append_pieces cap (buf, hit) pieces).0 ≡ take (cap - 1) (buf ++ joined pieces))
      × ((append_pieces cap (buf, hit) pieces).1
          ≡ (hit || leb cap (length buf + length (joined pieces))))
unfolding append_pieces
append_pieces_lem cap buf hit [] h = (
  sym (take_all (cap - 1) (buf ++ []) (omega (arith, length-append buf [])) ∙ append-nil buf),
  ground arith,
)
append_pieces_lem cap buf hit (s ∷ pieces) h =
    let (one, hit1) = append_to_buffer_lem cap buf s h in
    let r = append_to_buffer cap buf s in
    let small : length r.0 < cap = omega (arith, ap length one, length-take (cap - 1) (buf ++ s)) in
    let (text, hit2) = append_pieces_lem cap r.0 (hit || r.1) pieces small in
    (
      text
          ∙ take-append_take (cap - 1) (buf ++ s) r.0 (joined pieces) one
          ∙ ap (λ (t : Bytes). take (cap - 1) t) (append_assoc buf s (joined pieces)),
      hit2
          ∙ hits hit r.1 cap (length buf + length s) (length (joined pieces)) (length r.0) _
              (omega (arith, h)) hit1
              (ap length one
                ∙ length-take (cap - 1) (buf ++ s)
                ∙ ap (min (cap - 1)) (length-append buf s))
              (omega (arith, length-append s (joined pieces))),
    )

pub length-append_pieces :
    (cap : ℕ) (buf : Bytes) (hit : Bool) (pieces : List Bytes)
    → length buf < cap
    → length (append_pieces cap (buf, hit) pieces).0 < cap
length-append_pieces cap buf hit pieces h = omega (
  arith,
  ap length (append_pieces_lem cap buf hit pieces h).0,
  length-take (cap - 1) (buf ++ joined pieces),
)

-- Where nothing is reported cut, everything is there.
pub append_pieces_whole :
    (cap : ℕ) (buf : Bytes) (hit : Bool) (pieces : List Bytes)
    → length buf < cap
    → (append_pieces cap (buf, hit) pieces).1 ≡ false
    → (hit ≡ false) × ((append_pieces cap (buf, hit) pieces).0 ≡ buf ++ joined pieces)
append_pieces_whole cap buf hit pieces h e =
    let (text, cut) = append_pieces_lem cap buf hit pieces h in
    let (before, room) =
      neither hit (leb cap (length buf + length (joined pieces))) (sym cut ∙ e) in
    (
      before,
      text
          ∙ take_all (cap - 1) (buf ++ joined pieces)
              (omega (arith, length-append buf (joined pieces), leb→gt cap _ room)),
    )
  where
    neither : (a b : Bool) → (a || b) ≡ false → (a ≡ false) × (b ≡ false)
    neither true b e = cc
    neither false b e = (refl, e)
