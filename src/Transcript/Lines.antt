-- ===== src/Transcript/Lines.antt =====
-- The lines that kernel/session_transcript.c writes, as the texts that it appends to a buffer one
-- after the other.
use vita_os.Prelude.{
  ℕ, ◌+◌, ◌/◌, ◌%◌, some, List, [], ◌∷◌, ◌++◌, map, take, codes, leb, ◌==◌, if◌then◌else◌,
}
use vita_os.Text.{Bytes, str_append, u64_to_dec}

-- `vita_session_identity_t`
pub record Identity : Type 0 where
  pub boot_id : Bytes
  pub node_id : Bytes
  pub host_id : Bytes
  pub arch : Bytes
  pub firmware : Bytes
  pub boot_mode : Bytes
  pub cpu_model : Bytes
  pub ram_bytes : ℕ
  pub storage_backend : Bytes
  pub storage_state : Bytes

-- calls of `ap` or `apc` one after the other: the string and the length that `ap` is given agree
unfoldable pub append_all : ℕ → Bytes → List Bytes → Bytes
append_all cap dst [] = dst
append_all cap dst (s ∷ pieces) = append_all cap (str_append dst cap (some s)) pieces

unfoldable pub digit : ℕ → ℕ
digit d = b'0' + d % 10

unfoldable pub u6 : ℕ → Bytes
unfolding digit
u6 v =
    digit (v / 100000)
    ∷ digit (v / 10000)
    ∷ digit (v / 1000)
    ∷ digit (v / 100)
    ∷ digit (v / 10)
    ∷ digit v
    ∷ []

pub u4 : ℕ → Bytes
unfolding digit
u4 v = digit (v / 1000) ∷ digit (v / 100) ∷ digit (v / 10) ∷ digit v ∷ []

-- `while (seq[m] == '0' && seq[m + 1]) m++`
pub skip_zeros : Bytes → Bytes
skip_zeros [] = []
skip_zeros (c ∷ []) = c ∷ []
skip_zeros (c ∷ d ∷ s) = let rest = skip_zeros (d ∷ s) in if c == b'0' then rest else c ∷ d ∷ s

trimmed : ℕ → Bytes
unfolding u6 skip_zeros
trimmed seq = skip_zeros (u6 seq)

-- `build_jsonl_part_path` into a buffer of 192 bytes
unfoldable pub part_path : Bytes → ℕ → Bytes
unfolding append_all u4
part_path session_id part_number = append_all 192 [] (
    codes "/vita/audit/sessions/"
    ∷ session_id
    ∷ (if leb part_number 1
        then codes ".jsonl" ∷ []
        else codes ".part-" ∷ u4 part_number ∷ codes ".jsonl" ∷ []))

pub part_message : ℕ → Bytes
unfolding append_all u4
part_message part = append_all 96 [] (codes "part=" ∷ u4 part ∷ [])

pub truncation_pieces : Bytes → ℕ → List Bytes
unfolding trimmed
truncation_pieces session_id seq =
    codes "{\"session_id\":\""
    ∷ session_id
    ∷ codes
        "\",\"event_type\":\"transcript_truncated\",\"actor\":\"system\",\"text\":\"jsonl capacity reached\",\"seq\":"
    ∷ trimmed seq
    ∷ codes "}\n"
    ∷ []

-- the beginning that every event has, up to its type
identity_pieces : Bytes → Identity → List Bytes
identity_pieces session_id i =
    codes "{\"session_id\":\""
    ∷ session_id
    ∷ codes "\",\"boot_id\":\""
    ∷ i.boot_id
    ∷ codes "\",\"node_id\":\""
    ∷ i.node_id
    ∷ codes "\",\"host_id\":\""
    ∷ i.host_id
    ∷ codes "\",\"firmware\":\""
    ∷ i.firmware
    ∷ codes "\",\"arch\":\""
    ∷ i.arch
    ∷ codes "\",\"boot_mode\":\""
    ∷ i.boot_mode
    ∷ codes "\",\"cpu_model\":\""
    ∷ i.cpu_model
    ∷ codes "\",\"ram_bytes\":"
    ∷ u64_to_dec i.ram_bytes
    ∷ codes ",\"storage_backend\":\""
    ∷ i.storage_backend
    ∷ codes "\",\"storage_state\":\""
    ∷ i.storage_state
    ∷ codes "\",\"event_type\":\""
    ∷ []

-- `append_control_jsonl_event`
pub control_pieces : Bytes → Identity → Bytes → Bytes → ℕ → List Bytes
unfolding identity_pieces trimmed
control_pieces session_id i event_type text seq =
    identity_pieces session_id i
    ++ (event_type
        ∷ codes "\",\"actor\":\"system\",\"text\":\""
        ∷ text
        ∷ codes "\",\"seq\":"
        ∷ trimmed seq
        ∷ codes "}\n"
        ∷ [])

-- what `build_jsonl_event_line` writes for a character of the text
escaped : ℕ → Bytes
escaped c =
    if c == b'"'
    then codes "\\\""
    else if c == b'\\'
    then codes "\\\\"
    else if c == b'\n'
    then codes "\\n"
    else if c == b'\r'
    then codes "\\r"
    else c ∷ []

-- `build_jsonl_event_line`: at most 180 characters of the text
pub event_pieces : Bytes → Identity → Bytes → Bytes → Bytes → ℕ → List Bytes
unfolding identity_pieces escaped trimmed
event_pieces session_id i event_type actor text seq =
    identity_pieces session_id i
    ++ (event_type
        ∷ codes "\",\"actor\":\""
        ∷ actor
        ∷ codes "\",\"text\":\""
        ∷ (map escaped (take 180 text) ++ (codes "\",\"seq\":" ∷ trimmed seq ∷ codes "}\n" ∷ [])))

-- the line of the text file, in a buffer of 256 bytes
unfoldable pub text_pieces : ℕ → Bytes → Bytes → List Bytes
unfolding u6
text_pieces seq event_type text =
    codes "[" ∷ u6 seq ∷ codes "] " ∷ event_type ∷ codes ": " ∷ text ∷ []
