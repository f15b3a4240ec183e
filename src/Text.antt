-- ===== src/Text.antt =====
-- The C string helpers that kernel/editor.c, kernel/storage.c, kernel/node_core.c,
-- kernel/proposal.c and kernel/audit_core.c each define for themselves, with one body.
--
-- A string is the list of the bytes before its NUL, so that no byte of it is 0; a pointer that may
-- be null is an `Option`. A destination buffer is the string that it holds.
pub mod Laws
pub mod Search
use vita_os.Prelude.{
  ℕ, zero, suc, ◌+◌, ◌/◌, ◌%◌, Bool, true, false, ◌&&◌, ◌||◌, Option, none, some, List, [], ◌∷◌,
  ◌++◌, take, get_or, ltb, ◌==◌, if◌then◌else◌,
}

abbrev pub Bytes : Type 0
Bytes = List ℕ

unfoldable pub str_len : Bytes → ℕ
str_len [] = 0
str_len (c ∷ s) = suc (str_len s)

unfoldable pub str_eq : Bytes → Bytes → Bool
str_eq [] [] = true
str_eq (x ∷ a) (y ∷ b) = x == y && str_eq a b
str_eq _ _ = false

unfoldable pub starts_with : Bytes → Bytes → Bool
starts_with s [] = true
starts_with [] (p ∷ ps) = false
starts_with (c ∷ s) (p ∷ ps) = c == p && starts_with s ps

unfoldable pub is_space_char : ℕ → Bool
is_space_char c = c == b' ' || c == b'\t' || c == b'\r' || c == b'\n'

unfoldable pub skip_spaces : Bytes → Bytes
unfolding is_space_char
skip_spaces [] = []
skip_spaces (c ∷ s) = let rest = skip_spaces s in if is_space_char c then rest else c ∷ s

-- the loop of `trim_right_in_place`, at `n`
trim_loop : ℕ → Bytes → Bytes
unfolding is_space_char
trim_loop zero s = s
trim_loop (suc n) s =
    let rest = trim_loop n (take n s) in if is_space_char (get_or s n 0) then rest else s

unfoldable pub trim_right_in_place : Bytes → Bytes
unfolding trim_loop str_len
trim_right_in_place s = trim_loop (str_len s) s

-- the copying loop of `str_copy` and `str_append`, with the index at `i`
unfoldable pub copy_from : ℕ → ℕ → Bytes → Bytes
copy_from cap i [] = []
copy_from cap i (c ∷ s) = if ltb (i + 1) cap then c ∷ copy_from cap (i + 1) s else []

-- `str_copy(dst, cap, src)`, also named `copy_text`: the new content of `dst`
unfoldable pub str_copy : Bytes → ℕ → Option Bytes → Bytes
unfolding copy_from
str_copy dst cap none = if cap == 0 then dst else []
str_copy dst cap (some src) = if cap == 0 then dst else copy_from cap 0 src

-- `str_append(dst, cap, src)`: it starts at the NUL of `dst`, and does nothing where the first
-- `cap` bytes hold none.
unfoldable pub str_append : Bytes → ℕ → Option Bytes → Bytes
unfolding copy_from str_len
str_append dst cap none = dst
str_append dst cap (some src) =
    if cap == 0
    then dst
    else if ltb (str_len dst) cap
    then dst ++ copy_from cap (str_len dst) src
    else dst

-- The digits that `u64_to_dec` writes: at most 31 rounds, the last digit first into `tmp`, and
-- then `tmp` backwards.
dec_digits : ℕ → ℕ → Bytes → Bytes
dec_digits zero v acc = acc
dec_digits (suc rounds) v acc =
    let rest = dec_digits rounds (v / 10) ((b'0' + v % 10) ∷ acc) in if v == 0 then acc else rest

unfoldable pub u64_to_dec : ℕ → Bytes
unfolding dec_digits
u64_to_dec v = if v == 0 then b'0' ∷ [] else dec_digits 31 v []

-- `safe_text` of kernel/audit_core.c
unfoldable pub safe_text : Option Bytes → Bytes → Bytes
safe_text none fallback = fallback
safe_text (some []) fallback = fallback
safe_text (some (c ∷ s)) fallback = c ∷ s

-- `u32_to_dec` of kernel/session_journal.c and kernel/console.c: at most 15 rounds
unfoldable pub u32_to_dec : ℕ → Bytes
unfolding dec_digits
u32_to_dec v = if v == 0 then b'0' ∷ [] else dec_digits 15 v []

-- a text, or another one where it is empty
unfoldable pub text_or : Bytes → Bytes → Bytes
text_or [] fallback = fallback
text_or (c ∷ s) fallback = c ∷ s
