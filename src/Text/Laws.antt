-- ===== src/Text/Laws.antt =====
-- What the C string helpers guarantee.
use vita_os.Prelude.{
  if_elim, append-nil, ◌==◌, ℕ, suc, ◌+◌, ◌-◌, ◌<◌, true, Option, none, some, [], ◌∷◌, ◌++◌, length,
  take, take_all, ltb, ltb→lt, ltb→le, length-take, length-append, ◌≡◌, refl, sym, ap, ◌∙◌, ◌↔◌,
  inl, inr, Bool-cases, arith,
}
use vita_os.Text.{Bytes, str_len, str_eq, starts_with, copy_from, str_copy, str_append}

pub str_len_lem : (s : Bytes) → str_len s ≡ length s
unfolding str_len
str_len_lem [] = refl
str_len_lem (c ∷ s) = ap suc (str_len_lem s)

pub str_eq_iff : (a b : Bytes) → (str_eq a b ≡ true) ↔ (a ≡ b)
unfolding str_eq
str_eq_iff (x ∷ a) (y ∷ b) = ground (arith, str_eq_iff a b)
str_eq_iff _ _ = ground arith

pub str_eq_refl : (a : Bytes) → str_eq a a ≡ true
str_eq_refl a = (str_eq_iff a a).1 refl

pub starts_with_iff :
    (s prefix : Bytes) → (starts_with s prefix ≡ true) ↔ ((rest : Bytes) × (s ≡ prefix ++ rest))
unfolding starts_with
starts_with_iff s [] = (λ h. (s, refl), λ h. refl)
starts_with_iff [] (p ∷ ps) = (λ h. cc, λ h. cc (h.1))
starts_with_iff (c ∷ s) (p ∷ ps) = (
  λ h. let (rest, e) = (starts_with_iff s ps).0 (ground arith) in (rest, ground arith),
  λ h. ground (arith, (starts_with_iff s ps).1 (h.0, ground (arith, h.1))),
)

-- The copying loop keeps what fits before the NUL.
copy_from_lem : (cap i : ℕ) (s : Bytes) → copy_from cap i s ≡ take (cap - 1 - i) s
unfolding copy_from
copy_from_lem cap i [] = sym (take_all (cap - 1 - i) [] (omega arith))
copy_from_lem cap i (c ∷ s) = elim (Bool-cases (ltb (i + 1) cap)) [
  | inl h ↦
      let e : cap - 1 - i ≡ suc (cap - 1 - (i + 1)) = omega (arith, ltb→lt _ _ h) in
      rw (h, e) (ap (◌∷◌ c) (copy_from_lem cap (i + 1) s))
  | inr h ↦ let e : cap - 1 - i ≡ 0 = omega (arith, ltb→le _ _ h) in rw (h, e)
]

pub str_copy_lem :
    (dst src : Bytes) (cap : ℕ) → 0 < cap → str_copy dst cap (some src) ≡ take (cap - 1) src
unfolding str_copy
str_copy_lem dst src cap h = ground (arith, copy_from_lem cap 0 src)

-- What is copied fits its buffer with the NUL.
pub length-str_copy :
    (dst : Bytes) (src : Option Bytes) (cap : ℕ) → 0 < cap → length (str_copy dst cap src) < cap
length-str_copy dst none cap h = unfold str_copy in ground arith
length-str_copy dst (some src) cap h =
    rw (str_copy_lem dst src cap h) (omega (arith, length-take (cap - 1) src))

pub str_append_lem :
    (dst src : Bytes) (cap : ℕ)
    → length dst < cap
    → str_append dst cap (some src) ≡ dst ++ take (cap - 1 - length dst) src
unfolding str_append
str_append_lem dst src cap h =
    rw (str_len_lem dst) (ground (arith, copy_from_lem cap (length dst) src))

-- An append that fits is a concatenation.
pub str_append_fits :
    (dst src : Bytes) (cap : ℕ)
    → length dst + length src < cap
    → str_append dst cap (some src) ≡ dst ++ src
str_append_fits dst src cap h =
    str_append_lem dst src cap (omega arith)
    ∙ ap (λ (t : Bytes). dst ++ t) (take_all (cap - 1 - length dst) src (omega arith))

pub length-str_append :
    (dst : Bytes) (src : Option Bytes) (cap : ℕ)
    → length dst < cap
    → length (str_append dst cap src) < cap
length-str_append dst none cap h = unfold str_append in h
length-str_append dst (some src) cap h = rw (str_append_lem dst src cap h) (
    omega (
      arith,
      length-append dst (take (cap - 1 - length dst) src),
      length-take (cap - 1 - length dst) src,
    ))

-- An append leaves what was there.
pub str_append_prefix :
    (dst : Bytes) (cap : ℕ) (src : Bytes)
    → (rest : Bytes) × (str_append dst cap (some src) ≡ dst ++ rest)
unfolding str_append
str_append_prefix dst cap src =
    if_elim P (cap == 0) dst _ (λ _. none_added)
      λ _.
        if_elim P (ltb (str_len dst) cap) (dst ++ copy_from cap (str_len dst) src) dst
          (λ _. (copy_from cap (str_len dst) src, refl)) (λ _. none_added)
  where
    P : Bytes → Type 0
    P t = (rest : Bytes) × (t ≡ dst ++ rest)

    none_added : P dst
    none_added = ([], sym (append-nil dst))
