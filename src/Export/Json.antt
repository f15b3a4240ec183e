-- ===== src/Export/Json.antt =====
-- The builder of JSON texts of kernel/session_jsonl_export.c.
pub mod Decode
use vita_os.Prelude.{
  ℕ, ◌+◌, Bool, true, false, ◌||◌, List, [], ◌∷◌, ◌++◌, codes, length, leb, ltb, ◌==◌,
  if◌then◌else◌,
}
use vita_os.Text.{Bytes, u64_to_dec}

-- `jb_putc` into a buffer of that size
pub jb_putc : ℕ → ℕ → Bytes → Bytes
jb_putc size c buf = if leb size (length buf + 1) then buf else buf ++ c ∷ []

-- `jb_append`
pub jb_append : ℕ → Bytes → Bytes → Bytes
unfolding jb_putc
jb_append size [] buf = buf
jb_append size (c ∷ text) buf = jb_append size text (jb_putc size c buf)

-- what `jb_json_string` puts for a character
pub json_escape : ℕ → Bytes
json_escape c =
    if c == b'"' || c == b'\\'
    then b'\\' ∷ c ∷ []
    else if c == b'\n'
    then codes "\\n"
    else if c == b'\r'
    then codes "\\r"
    else if c == b'\t'
    then codes "\\t"
    else if ltb c 32
    then codes "?"
    else c ∷ []

pub json_chars : Bytes → Bytes
unfolding json_escape
json_chars [] = b'"' ∷ []
json_chars (c ∷ s) = json_escape c ++ json_chars s

-- the characters that `jb_json_string` puts one after the other
pub json_string : Bytes → Bytes
unfolding json_chars
json_string text = b'"' ∷ json_chars text

pub json_begin : Bytes → Bytes
unfolding json_string
json_begin type = b'{' ∷ (json_string (codes "type") ++ (b':' ∷ json_string type))

pub json_prop_name : Bytes → Bytes
unfolding json_string
json_prop_name name = b',' ∷ (json_string name ++ (b':' ∷ []))

pub json_prop_str : Bytes → Bytes → Bytes
unfolding json_prop_name json_string
json_prop_str name value = json_prop_name name ++ json_string value

pub json_prop_bool : Bytes → Bool → Bytes
unfolding json_prop_name
json_prop_bool name value = json_prop_name name ++ (if value then codes "true" else codes "false")

pub json_prop_u64 : Bytes → ℕ → Bytes
unfolding json_prop_name
json_prop_u64 name value = json_prop_name name ++ u64_to_dec value

pub json_end : Bytes
json_end = b'}' ∷ b'\n' ∷ []

-- the texts of a line one after the other
pub json_joined : List Bytes → Bytes
json_joined [] = []
json_joined (s ∷ pieces) = s ++ json_joined pieces
