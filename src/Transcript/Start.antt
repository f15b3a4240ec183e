-- ===== src/Transcript/Start.antt =====
-- session_transcript_init of kernel/session_transcript.c: the identity of a session, the choice of
-- its number, its first lines, and the look at the session before it.
pub mod Fresh
use vita_os.Prelude.{
  ℕ, zero, suc, ◌+◌, ◌-◌, Bool, true, false, not, ◌&&◌, ◌||◌, Option, none, some, List, [], ◌∷◌,
  ◌++◌, codes, ltb, if◌then◌else◌,
}
use vita_os.Text.{Bytes, str_copy, u64_to_dec}
use vita_os.Text.Search.{contains_token}
use vita_os.Storage.Host.{Host}
use vita_os.Storage.Files.{World, StorageState, storage_read_text, storage_is_bootstrap_verified}
use vita_os.Transcript.Lines.{Identity, append_all, u6, part_path}
use vita_os.Transcript.{Transcript, Station, mark_transcript_error_once, event}

-- `vita_firmware_type_t`, as far as the transcript tells it apart
pub data Firmware : Type 0 where
  firmware_unknown firmware_uefi firmware_hosted : Firmware

-- What the session is told of the machine: the arguments of `session_transcript_init`, what
-- `audit_get_identity` puts into its two buffers where it succeeds, and the two fields of the
-- hardware snapshot where there is one.
pub record Facts : Type 0 where
  pub arch : Bytes
  pub firmware : Firmware
  pub audit_identity : Option (Bytes × Bytes)
  pub hardware : Option (Bytes × ℕ)

or_unknown : Bytes → Bytes
or_unknown [] = codes "unknown"
or_unknown (c ∷ s) = c ∷ s

firmware_name : Firmware → Bytes
firmware_name firmware_unknown = codes "unknown"
firmware_name firmware_uefi = codes "uefi"
firmware_name firmware_hosted = codes "hosted"

-- a copy into an empty buffer of the size
copied : ℕ → Bytes → Bytes
copied size text = str_copy [] size (some text)

with_audit_identity : Option (Bytes × Bytes) → Identity → Identity
unfolding copied
with_audit_identity none i = i
with_audit_identity (some (boot_id, node_id)) i = record i {
  boot_id = copied 64 boot_id;
  node_id = copied 64 node_id;
}

with_hardware : Option (Bytes × ℕ) → Identity → Identity
unfolding copied or_unknown
with_hardware none i = i
with_hardware (some (cpu_model, ram_bytes)) i = record i {
  cpu_model = copied 128 (or_unknown cpu_model);
  ram_bytes = ram_bytes;
}

session_identity : Facts → StorageState → Identity
unfolding with_audit_identity with_hardware copied or_unknown firmware_name
session_identity f s =
    record (with_hardware f.hardware (
      with_audit_identity f.audit_identity (record {
        boot_id = codes "unknown";
        node_id = codes "unknown";
        host_id = codes "unknown";
        arch = copied 32 (or_unknown f.arch);
        firmware = firmware_name f.firmware;
        boot_mode = firmware_name f.firmware;
        cpu_model = codes "unknown";
        ram_bytes = 0;
        storage_backend = codes "unknown";
        storage_state = codes "unknown";
      }))) {
        storage_backend = copied 32 (or_unknown s.backend_name);
        storage_state = if s.bootstrap_verified then codes "verified" else codes "degraded";
      }

fresh_transcript : Identity → Transcript
fresh_transcript i = record {
  initialized = true;
  active = false;
  busy = false;
  error_reported = false;
  seq = 0;
  session_id = [];
  txt = [];
  jsonl = [];
  state = codes "degraded";
  last_text = [];
  identity = i;
  current_jsonl_part = 1;
  jsonl_rotation_count = 0;
  truncated_reported = false;
  jsonl_locked = false;
}

-- the text file of a session of that number
pub session_path : ℕ → Bytes
unfolding append_all u6
session_path i =
    append_all 192 [] (codes "/vita/audit/sessions/session-" ∷ u6 i ∷ codes ".txt" ∷ [])

session_name : ℕ → Bytes
unfolding append_all u6
session_name i = append_all 64 [] (codes "session-" ∷ u6 i ∷ [])

header_pieces : Bytes → Identity → List Bytes
header_pieces session_id i =
    codes "=== VitaOS session transcript ===\nsession_id: "
    ∷ session_id
    ∷ codes "\n\nDatos de esta sesion:\nsession_id: "
    ∷ session_id
    ∷ codes "\nboot_id: "
    ∷ i.boot_id
    ∷ codes "\nnode_id: "
    ∷ i.node_id
    ∷ codes "\nhost_id: "
    ∷ i.host_id
    ∷ codes "\narquitectura: "
    ∷ i.arch
    ∷ codes "\nfirmware: "
    ∷ i.firmware
    ∷ codes "\nmodo de arranque: "
    ∷ i.boot_mode
    ∷ codes "\nCPU: "
    ∷ i.cpu_model
    ∷ codes "\nRAM: "
    ∷ u64_to_dec i.ram_bytes
    ∷ codes "\nstorage/backend: "
    ∷ i.storage_backend
    ∷ codes "\nstorage_state: "
    ∷ i.storage_state
    ∷ codes "\n\n"
    ∷ []

-- The transcript of the session of that number, active and with its header.
begin_session : ℕ → Transcript → Transcript
unfolding append_all session_name header_pieces
begin_session i t =
    let name = if ltb i 999999 then session_name i else codes "session-boot-unknown" in
    record t {
      session_id = name;
      txt = append_all 65536 [] (header_pieces name t.identity);
      active = true;
      state = codes "active";
    }

-- the texts that a part of a closed session holds
ends_session : Bytes → Bool
ends_session body =
    contains_token body (codes "\"event_type\":\"session_end\"")
    || contains_token body (codes "\"event_type\":\"transcript_truncated\"")

module _ (host : Host) where
  -- The loop over the session numbers: `rounds` more of them, from `i` on.
  pub find_session : ℕ → ℕ → World host.Fs → ℕ × World host.Fs
  unfolding session_path
  find_session zero i w = (i, w)
  find_session (suc rounds) i w =
      let ((found, scratch), w') = storage_read_text host (session_path i) [] 8 w in
      let rest = find_session rounds (i + 1) w' in if not found then (i, w') else rest

  -- The loop over the parts of a session, with `prev_has_rotated_part`: whether a part closes the
  -- session, and whether there is a second part.
  scan_parts : ℕ → ℕ → Bytes → Bool → World host.Fs → (Bool × Bool) × World host.Fs
  unfolding ends_session
  scan_parts zero part session rotated w = ((false, rotated), w)
  scan_parts (suc rounds) part session rotated w =
      let ((found, body), w') = storage_read_text host (part_path session part) [] 2048 w in
      let rotated' = if found && ltb 1 part then true else rotated in
      let rest = scan_parts rounds (part + 1) session rotated' w' in
      if found && ends_session body then ((true, rotated'), w') else rest

  report_previous : Bytes → (Bool × Bool) × World host.Fs → Station host.Fs → Station host.Fs
  unfolding append_all
  report_previous session ((clean, rotated), w) s =
      if not clean && not rotated
      then event host (codes "previous_session_unclean") (codes "system")
          (append_all 128 []
            (codes "previous_session_id=" ∷ session ∷ codes " reason=missing_session_end" ∷ []))
          (record s { world = w })
      else record s { world = w }

  check_previous : ℕ → Station host.Fs → Station host.Fs
  unfolding session_name scan_parts report_previous
  check_previous i s =
      if ltb 1 i
      then report_previous (session_name (i - 1))
          (scan_parts 512 1 (session_name (i - 1)) false s.world) s
      else s

  start_session : ℕ × World host.Fs → Station host.Fs → Bool × Station host.Fs
  unfolding begin_session check_previous
  start_session (i, w) s =
      let s' = check_previous i (
        event host (codes "session_start") (codes "system") (codes "transcript started")
          (record s { transcript = begin_session i s.transcript; world = w })) in
      (s'.transcript.active, s')

  pub session_transcript_init : Facts → Station host.Fs → Bool × Station host.Fs
  unfolding session_identity fresh_transcript find_session start_session
  session_transcript_init f s =
      let s0 = record s { transcript = fresh_transcript (session_identity f s.world.storage) } in
      if not (storage_is_bootstrap_verified s.world)
      then (false, mark_transcript_error_once host (codes "storage_not_verified") s0)
      else start_session (find_session 999998 1 s.world) s0
