-- ===== src/Export/Json/Decode.antt =====
-- What a reader of JSON finds in a string that the builder writes, and what the builder keeps.
use vita_os.Prelude.{
  ℕ, ◌+◌, ◌-◌, ◌<◌, Bool, true, false, ◌||◌, Option, none, some, [], ◌∷◌, ◌++◌, ◌≡◌, refl, sym, ap,
  ◌∙◌, length, take, leb, ltb, ◌==◌, if◌then◌else◌, map, append_assoc, append-nil, arith, take_all,
  take-append, length-append, Bool-cases, inl, inr, leb→gt,
}
use vita_os.Text.{Bytes}
use vita_os.Export.Json.{jb_putc, jb_append, json_escape, json_chars, json_string}

-- The character that a short escape of JSON stands for; the other letters are refused.
unescape : ℕ → Option ℕ
unescape c =
    if c == b'"' || (c == b'\\' || c == b'/')
    then some c
    else if c == b'n'
    then some b'\n'
    else if c == b'r'
    then some b'\r'
    else if c == b't'
    then some b'\t'
    else if c == b'b'
    then some 8
    else if c == b'f'
    then some 12
    else none

add : Option ℕ → Option (Bytes × Bytes) → Option (Bytes × Bytes)
add none read = none
add (some c) none = none
add (some c) (some (s, rest)) = some (c ∷ s, rest)

-- A reader of a string behind its opening quote, and behind a backslash or not: the text, and what
-- follows the closing quote. It follows RFC 8259, where a raw character below 32 is refused, but for
-- the escapes with four hexadecimal digits, which it refuses too.
read_chars : Bool → Bytes → Option (Bytes × Bytes)
unfolding unescape add
read_chars after_backslash [] = none
read_chars true (c ∷ s) = add (unescape c) (read_chars false s)
read_chars false (c ∷ s) =
    let escaped = read_chars true s in
    let plain = add (some c) (read_chars false s) in
    if c == b'"'
    then some ([], s)
    else if c == b'\\'
    then escaped
    else if ltb c 32
    then none
    else plain

pub read_string : Bytes → Option (Bytes × Bytes)
unfolding read_chars
read_string [] = none
read_string (c ∷ s) = if c == b'"' then read_chars false s else none

-- a control character that JSON has no short escape for becomes a question mark
pub plain_char : ℕ → ℕ
plain_char c = if ltb c 32 then if c == b'\n' || (c == b'\r' || c == b'\t') then c else b'?' else c

read_escape :
    (c : ℕ) (t : Bytes)
    → read_chars false (json_escape c ++ t) ≡ add (some (plain_char c)) (read_chars false t)
unfolding read_chars json_escape plain_char unescape
read_escape c t = ground arith

read_json_chars :
    (s rest : Bytes) → read_chars false (json_chars s ++ rest) ≡ some (map plain_char s, rest)
unfolding json_chars read_chars add
read_json_chars [] rest = refl
read_json_chars (c ∷ s) rest =
    ap (read_chars false) (append_assoc (json_escape c) (json_chars s) rest)
    ∙ read_escape c (json_chars s ++ rest)
    ∙ ap (add (some (plain_char c))) (read_json_chars s rest)

-- A string that the builder writes is one of RFC 8259, with no raw control character in it, and is
-- read back as the text, whatever follows it: quotes, backslashes, the end of a line, the carriage
-- return and the tab come through, and the other characters below 32 are question marks.
pub read_string-json_string :
    (s rest : Bytes) → read_string (json_string s ++ rest) ≡ some (map plain_char s, rest)
unfolding read_string json_string
read_string-json_string s rest = read_json_chars s rest

-- The builder keeps the beginning of what is appended to it, as far as its buffer goes.
pub jb_append_lem :
    (size : ℕ) (text buf : Bytes)
    → length buf < size
    → jb_append size text buf ≡ take (size - 1) (buf ++ text)
unfolding jb_append jb_putc
jb_append_lem size [] buf room =
    sym (take_all (size - 1) (buf ++ []) (omega (arith, length-append buf [])) ∙ append-nil buf)
jb_append_lem size (c ∷ text) buf room = elim (Bool-cases (leb size (length buf + 1))) [
  | inl full ↦
      let e : size - 1 ≡ length buf = ground arith in
      rw full (
        jb_append_lem size text buf room
        ∙ take-append buf text (size - 1) e
        ∙ sym (take-append buf (c ∷ text) (size - 1) e))
  | inr free ↦ rw free (
      jb_append_lem size text (buf ++ c ∷ [])
        (omega (arith, length-append buf (c ∷ []), leb→gt size (length buf + 1) free))
      ∙ ap (take (size - 1)) (append_assoc buf (c ∷ []) text))
]
